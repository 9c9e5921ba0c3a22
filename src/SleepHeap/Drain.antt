-- ===== src/SleepHeap/Drain.antt =====
-- Where `drain_woken` of orbit-core/src/sleep_heap.rs stops.
use orbit.Base.{
  ℕ, ◌≤◌, ◌<◌, ◌≡◌, refl, ap, subst, ◌⊎◌, inl, inr, ltb, ltb→lt, [], ◌∷◌, ◌++◌, arith, All,
  Bool-cases, Run, done, panic, Run-cases,
}
use orbit.Thread.{Thread, as_usize, running, assigned}
use orbit.SleepHeap.{
  SleepEntry, SleepHeap, Verdict, stale, transient, live, classify, verdict, drain_woken,
}
use orbit.SleepHeap.Order.{IsOrdered}

pub Verdict-cases : (v : Verdict) → (v ≡ stale) ⊎ (v ≡ transient) ⊎ (v ≡ live)
Verdict-cases stale = inl refl
Verdict-cases transient = inr (inl refl)
Verdict-cases live = inr (inr refl)

-- An entry holds the drain up only while its thread is dispatched: garbage never does.
pub classify-transient :
    (live_seq live_state entry_seq : ℕ)
    → classify live_seq live_state entry_seq ≡ transient
    → (live_seq ≡ entry_seq) × ((live_state ≡ as_usize running) ⊎ (live_state ≡ as_usize assigned))
unfolding classify
classify-transient q s e h = ground arith

module _ {ℓ} {S : Type ℓ} (look : S → ℕ → Thread) (wake : ℕ → S → Run S) where
  -- What a drain leaves: nothing, a park in flight on top, or deadlines yet to come.
  pub data Rests (now : ℕ) (s : S) : SleepHeap → Type ℓ where
    empty : Rests now s []
    in_flight :
        (e : SleepEntry) (es : SleepHeap) → verdict look wake s e ≡ transient → Rests now s (e ∷ es)
    to_come :
        (e : SleepEntry) (es : SleepHeap)
        → now < e.wake_time
        → All (λ x. now < x.wake_time) es
        → Rests now s (e ∷ es)

  All-to_come :
      (now : ℕ) (e : SleepEntry) (es : SleepHeap)
      → now < e.wake_time
      → All (λ x. e.wake_time ≤ x.wake_time) es
      → All (λ x. now < x.wake_time) es
  All-to_come now e [] h k = tt
  All-to_come now e (x ∷ xs) h k = (omega (arith, k.0), All-to_come now e xs h (k.1))

  -- A drain that stops at once leaves the heap and the state as they are.
  stops :
      (now : ℕ) (heap heap' : SleepHeap) (s s' : S)
      → Rests now s heap
      → ◌≡◌ {A = Run (SleepHeap × S)} (done (heap, s)) (done (heap', s'))
      → Rests now s' heap' × ((gone : SleepHeap) × (heap ≡ gone ++ heap'))
  stops now heap heap' s s' r h =
      let e : heap ≡ heap' = done_heap h in
      let f : s ≡ s' = done_state h in
      (subst (λ t. Rests now t heap') f (subst (λ x. Rests now s x) e r), ([], e))
    where
      done_heap :
          {a b : SleepHeap} {c d : S}
          → ◌≡◌ {A = Run (SleepHeap × S)} (done (a, c)) (done (b, d))
          → a ≡ b
      done_heap p = cc

      done_state :
          {a b : SleepHeap} {c d : S}
          → ◌≡◌ {A = Run (SleepHeap × S)} (done (a, c)) (done (b, d))
          → c ≡ d
      done_state p = cc

  -- From an ordered heap, a drain whose callbacks return removes a part from the top, and stops with
  -- the heap empty, at an entry whose thread is on its way into that very park, or with no deadline
  -- that has passed.
  pub drain_woken-Rests :
      (now : ℕ) (heap : SleepHeap) (s : S) (heap' : SleepHeap) (s' : S)
      → IsOrdered heap
      → drain_woken look wake now heap s ≡ done (heap', s')
      → Rests now s' heap' × ((gone : SleepHeap) × (heap ≡ gone ++ heap'))
  unfolding drain_woken
  drain_woken-Rests now [] s heap' s' o h = stops now [] heap' s s' empty h
  drain_woken-Rests now (e ∷ es) s heap' s' o h = elim (Verdict-cases (verdict look wake s e)) [
    | inl v ↦ also_gone e (drain_woken-Rests now es s heap' s' (o.1) (rw (v, drain_woken) at h))
    | inr (inl v) ↦ stops now (e ∷ es) heap' s s' (in_flight e es v) (rw (v, drain_woken) at h)
    | inr (inr v) ↦ elim (Bool-cases (ltb now e.wake_time)) [
      | inl later ↦
          let lt : now < e.wake_time = ltb→lt now e.wake_time later in
          stops now (e ∷ es) heap' s s' (to_come e es lt (All-to_come now e es lt (o.0)))
            (rw (v, drain_woken, later) at h)
      | inr due ↦ elim (Run-cases (wake e.thread s)) [
        | inl (t, w) ↦
            also_gone e
              (drain_woken-Rests now es t heap' s' (o.1) (rw (v, drain_woken, due, w) at h))
        | inr w ↦ absurd (panics (rw (v, drain_woken, due, w) at h))
      ]
    ]
  ]
    where
      also_gone :
          {es : SleepHeap} (e : SleepEntry)
          → Rests now s' heap' × ((gone : SleepHeap) × (es ≡ gone ++ heap'))
          → Rests now s' heap' × ((gone : SleepHeap) × (e ∷ es ≡ gone ++ heap'))
      also_gone e (r, (gone, p)) = (r, (e ∷ gone, ap (◌∷◌ e) p))

      panics : {r : SleepHeap × S} → panic ≡ done r → ⊥
      panics p = cc
