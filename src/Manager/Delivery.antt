-- ===== src/Manager/Delivery.antt =====
-- From a published completion of manager/src/lib.rs to the thread that waits for it.
use orbit.Base.{
  mem, Distinct, ℕ, ◌≤◌, ◌≡◌, refl, sym, ap, subst, ◌∙◌, inl, inr, Bool, true, false, ◌==◌, ◌&&◌,
  if◌then◌else◌, List, [], ◌∷◌, ◌++◌, Option, none, some, max, length, map, arith, Bool-cases, done,
  ==_iff, ==_refl, ◌>>=◌,
}
use orbit.Base.Map.{lookup}
use orbit.Thread.{Thread, as_usize, ready, blocking, publish_results}
use orbit.Thread.Cap.{write_regs}
use orbit.Thread.Resume.{take-overwrite}
use orbit.Store.{Store, update, QueueOk, same_state-QueueOk}
use orbit.Manager.{
  WakeEvent, of_tid, Manager, Pass, WakeQueue, pointers, handle_event, drain_wakes, wake_queue_push,
  publish_pending_for_tid, net_io, names,
}
use orbit.Manager.Wakes.{woken, should_wake, promoted, set_wake_reason_where_lem}

pub mem-lookup :
    (tid p : ℕ) (threads : List (ℕ × ℕ))
    → lookup tid threads ≡ some p
    → mem p (map (λ t. t.1) threads) ≡ true
unfolding lookup
mem-lookup tid p [] h = absurd (empty_finds h)
  where
    empty_finds : ◌≡◌ {A = Option ℕ} none (some p) → ⊥
    empty_finds e = cc
mem-lookup tid p ((j, q) ∷ threads) h = elim (Bool-cases (j == tid)) [
  | inl e ↦
      let same : ◌≡◌ {A = Option ℕ} (some q) (some p) = rw e at h in
      let hit : q ≡ p = cc in ground (arith, hit)
  | inr e ↦ let rest = mem-lookup tid p threads (rw e at h) in ground (arith, rest)
]

mem-promoted :
    (pred : Thread → Bool) (st : Store) (p : ℕ) (ps queue : List ℕ)
    → mem p ps ≡ true
    → pred (st p) ≡ true
    → should_wake (st p) ≡ true
    → mem p (queue ++ promoted pred ps st) ≡ true
mem-promoted pred st p [] [] h n w = h
mem-promoted pred st p (q ∷ ps) [] h n w = elim (Bool-cases (q == p)) [
  | inl e ↦
      let same : q ≡ p = (==_iff q p).0 e in
      let qn : pred (st q) ≡ true = subst (λ r. pred (st r) ≡ true) (sym same) n in
      let qw : should_wake (st q) ≡ true = subst (λ r. should_wake (st r) ≡ true) (sym same) w in
      rw (qn, qw, e) refl
  | inr e ↦
      let rest = mem-promoted pred st p ps [] (rw e at h) n w in
      elim (Bool-cases (pred (st q) && should_wake (st q))) [
        | inl k ↦ rw (k, e) rest
        | inr k ↦ rw k rest
      ]
]
mem-promoted pred st p ps (q ∷ queue) h n w = ground (arith, mem-promoted pred st p ps queue h n w)

-- The event of a tid, drained alone.
drain_tid :
    (m : Manager) (tid p : ℕ) (s : Pass)
    → mem p (pointers m) ≡ true
    → ((s.mem p).tid == tid) ≡ true
    → should_wake (s.mem p) ≡ true
    → Distinct (pointers m)
    → QueueOk s.mem s.queue
    → (s' : Pass) × (drain_wakes m (of_tid tid ∷ []) s ≡ done s')
      × (s'.mem p ≡ woken net_io (s.mem p))
      × (mem p s'.queue ≡ true)
unfolding drain_wakes handle_event
drain_tid m tid p s here same wakes d ok =
    let (s', e, m', q, _) =
      set_wake_reason_where_lem net_io (names m (of_tid tid)) (pointers m) s d ok in
    (
      s',
      ap (λ r. r >>= drain_wakes m []) e,
      m' p ∙ seen _ _ (mem p (pointers m)) ((s.mem p).tid == tid) here same,
      subst (λ l. mem p l ≡ true) (sym q)
          (mem-promoted (names m (of_tid tid)) s.mem p (pointers m) s.queue here same wakes),
    )
  where
    seen : (t u : Thread) (a b : Bool) → a ≡ true → b ≡ true → (if a && b then t else u) ≡ t
    seen t u a b h k = rw (h, k) refl

publish_registered :
    (full : List WakeEvent → Bool) (m : Manager) (tid p : ℕ) (vals : List ℕ) (st : Store)
    (q : WakeQueue)
    → lookup tid m.threads ≡ some p
    → full q.events ≡ false
    → publish_pending_for_tid full m tid vals st q ≡ (
      update st p (publish_results (st p) vals),
      record q {
        events = q.events ++ (of_tid tid ∷ []);
        peak = max q.peak (length (q.events ++ (of_tid tid ∷ [])));
      },
    )
unfolding publish_pending_for_tid wake_queue_push
publish_registered full m tid p vals st q found room =
    rw (publish_pending_for_tid, found, wake_queue_push, room) refl

delivered_regs :
    (t : Thread) (vals : List ℕ) (reason : ℕ)
    → t.state ≡ as_usize blocking
    → length vals ≤ 4
    → length t.pending_rets ≡ 4
    → ((woken reason (publish_results t vals)).state ≡ as_usize ready)
      × ((woken reason (publish_results t vals)).frame.regs ≡ write_regs t.frame.regs 10 vals)
unfolding publish_results
delivered_regs t vals reason blocked few four =
    let wakes : should_wake (publish_results t vals) ≡ true = ground arith in
    (
      rw wakes refl,
      rw wakes (
          ap (write_regs t.frame.regs 10)
            (take-overwrite t.pending_rets vals _ (omega arith) (omega arith))),
    )

-- A completion of at most four values that is published for a registered thread which is blocked, with
-- an empty wake queue that has room, is delivered by the next drain: the thread is Ready with the
-- values in its argument registers, and it is in the ready queue. (The registry's pointers differ, the
-- ready queue keeps its promises, and the thread's slot has four places.)
pub publish_delivers :
    (full : List WakeEvent → Bool) (m : Manager) (tid p : ℕ) (vals : List ℕ) (s : Pass)
    → lookup tid m.threads ≡ some p
    → (s.mem p).tid ≡ tid
    → (s.mem p).state ≡ as_usize blocking
    → length vals ≤ 4
    → length (s.mem p).pending_rets ≡ 4
    → Distinct (pointers m)
    → QueueOk s.mem s.queue
    → full [] ≡ false
    → let empty : WakeQueue = record { events = []; peak = 0; drops = 0 } in
      let published = publish_pending_for_tid full m tid vals s.mem empty in
      (s' : Pass) × (drain_wakes m published.1.events (record s { mem = published.0 }) ≡ done s')
      × ((s'.mem p).state ≡ as_usize ready)
      × ((s'.mem p).frame.regs ≡ write_regs (s.mem p).frame.regs 10 vals)
      × (mem p s'.queue ≡ true)
unfolding publish_results
publish_delivers full m tid p vals s found same blocked few four d ok room =
    let empty : WakeQueue = record { events = []; peak = 0; drops = 0 } in
    let st' = update s.mem p (publish_results (s.mem p) vals) in
    let self : st' p ≡ publish_results (s.mem p) vals = rw (==_refl p) refl in
    let (s', e, t, q) =
      drain_tid m tid p (record s { mem = st' }) (mem-lookup tid p m.threads found)
        (rw self (ground (arith, same))) (rw self (ground (arith, blocked))) d
        (same_state-QueueOk s.mem s.queue p (publish_results (s.mem p) vals) ok refl) in
    let woke : s'.mem p ≡ woken net_io (publish_results (s.mem p) vals) =
      t ∙ ap (woken net_io) self in
    let up = delivered_regs (s.mem p) vals net_io blocked few four in
    subst
      (λ published.
        (s' : Pass) × (drain_wakes m published.1.events (record s { mem = published.0 }) ≡ done s')
        × ((s'.mem p).state ≡ as_usize ready)
        × ((s'.mem p).frame.regs ≡ write_regs (s.mem p).frame.regs 10 vals)
        × (mem p s'.queue ≡ true))
      (sym (publish_registered full m tid p vals s.mem empty found room))
      (s', e, ap (λ x. x.state) woke ∙ up.0, ap (λ x. x.frame.regs) woke ∙ up.1, q)
