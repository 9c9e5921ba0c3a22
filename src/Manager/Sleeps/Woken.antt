-- ===== src/Manager/Sleeps/Woken.antt =====
-- What a part of `drain_sleeps` in manager/src/lib.rs does to the threads and the ready queue.
use orbit.Base.{
  mem, Distinct, ℕ, ◌≡◌, refl, sym, ap, subst, ◌∙◌, ◌⊎◌, inl, inr, Bool, true, false, ◌==◌,
  if◌then◌else◌, List, [], ◌∷◌, ◌++◌, append_assoc, append-nil, All, All-append, arith, Bool-cases,
  done, ==_iff, ==_refl, ◌||◌,
}
use orbit.Thread.{Thread, as_usize, ready, promote_ready_from_parked}
use orbit.Thread.Cap.{claim_parked, promote_wake, consume_wake}
use orbit.Store.{update, QueueOk, promote-QueueOk}
use orbit.ReadyQueue as Ready
use orbit.SleepHeap.{SleepEntry, Verdict, live, classify}
use orbit.Manager.{Pass, wake_sleeper, has_pending_wake}

-- Whether the entry's thread sleeps in that very sleep.
abbrev pub is_live : Verdict → Bool
is_live live = true
is_live v = false

abbrev pub asleep : Pass → SleepEntry → Bool
asleep s e = is_live (classify (s.mem e.thread).sleep_seq (s.mem e.thread).state e.sleep_seq)

-- A thread whose park has ended.
abbrev pub risen : Thread → Thread
risen t = record (consume_wake t) { state = as_usize ready }

-- From `s` to `s'`, the threads of `new` were promoted and queued, each of them for cause, and nothing
-- else changed.
pub record Calm (C : ℕ → Type 0) (s s' : Pass) (new : List ℕ) : Type 0 where
  pub queue : s'.queue ≡ s.queue ++ new
  pub ok : QueueOk s'.mem s'.queue
  pub threads : (q : ℕ) → s'.mem q ≡ (if mem q new then risen (s.mem q) else s.mem q)
  pub called : All C new

pub Calm-still : (C : ℕ → Type 0) (s : Pass) → QueueOk s.mem s.queue → Calm C s s []
Calm-still C s ok = record {
  queue = sym (append-nil s.queue);
  ok = ok;
  threads = λ q. refl;
  called = tt;
}

mem-append : (p : ℕ) (xs ys : List ℕ) → mem p (xs ++ ys) ≡ (mem p xs || mem p ys)
mem-append p [] ys = refl
mem-append p (x ∷ xs) ys = ground (arith, mem-append p xs ys)

-- In a list without repetitions, what is in one part is not in the next.
apart :
    (q : ℕ) (xs ys zs : List ℕ) → Distinct (xs ++ (ys ++ zs)) → mem q ys ≡ true → mem q zs ≡ false
apart q (x ∷ xs) ys zs d h = apart q xs ys zs (d.1) h
apart q [] [] zs d h = absurd (ground (arith, h))
apart q [] (y ∷ ys) zs d h = elim (Bool-cases (y == q)) [
  | inl e ↦
      let same : y ≡ q = (==_iff y q).0 e in
      let out : mem q (ys ++ zs) ≡ false = subst (λ r. mem r (ys ++ zs) ≡ false) same (d.0) in
      ground (arith, out, mem-append q ys zs)
  | inr e ↦ apart q [] ys zs (d.1) (rw e at h)
]

All-map : {P Q : ℕ → Type 0} (xs : List ℕ) → ((q : ℕ) → P q → Q q) → All P xs → All Q xs
All-map [] f a = tt
All-map (x ∷ xs) f a = (f x (a.0), All-map xs f (a.1))

pub Calm-then :
    (C D : ℕ → Type 0) (s s1 s2 : Pass) (new1 new2 : List ℕ)
    → Calm C s s1 new1
    → Calm D s1 s2 new2
    → ((q : ℕ) → D q → C q)
    → Calm C s s2 (new1 ++ new2)
Calm-then C D s s1 s2 new1 new2 c d f = record {
  queue = whole;
  ok = d.ok;
  threads = λ q. twice q (mem q new1) refl (mem q new2) refl;
  called = All-append C new1 new2 c.called (All-map new2 f d.called);
}
  where
    whole : s2.queue ≡ s.queue ++ (new1 ++ new2)
    whole = d.queue ∙ ap (λ l. l ++ new2) c.queue ∙ append_assoc s.queue new1 new2

    twice :
        (q : ℕ) (a : Bool)
        → mem q new1 ≡ a
        → (b : Bool) → mem q new2 ≡ b
        → s2.mem q ≡ (if mem q (new1 ++ new2) then risen (s.mem q) else s.mem q)
    twice q true h true k =
        absurd (ground (arith, k, apart q s.queue new1 new2 (subst Distinct whole d.ok.distinct) h))
    twice q true h false k =
        d.threads q ∙ rw (k, mem-append q new1 new2, h) (c.threads q ∙ rw h refl)
    twice q false h true k =
        let before : s1.mem q ≡ s.mem q = c.threads q ∙ rw h refl in
        let up : risen (s1.mem q) ≡ risen (s.mem q) = ap (λ t. risen t) before in
        d.threads q ∙ rw (k, mem-append q new1 new2, h, k) up
    twice q false h false k =
        d.threads q ∙ rw (k, mem-append q new1 new2, h, k) (c.threads q ∙ rw h refl)

-- A thread that does not sleep is not put to sleep, and a wake that is pending was so before.
pub Calm-asleep :
    (C : ℕ → Type 0) (s s' : Pass) (new : List ℕ) (e : SleepEntry)
    → Calm C s s' new
    → asleep s e ≡ false
    → asleep s' e ≡ false
unfolding classify
Calm-asleep C s s' new e c h = elim (Bool-cases (mem e.thread new)) [
  | inl m ↦
      let t : s'.mem e.thread ≡ risen (s.mem e.thread) = c.threads e.thread ∙ rw m refl in
      rw t (ground arith)
  | inr m ↦ let t : s'.mem e.thread ≡ s.mem e.thread = c.threads e.thread ∙ rw m refl in rw t h
]

pub Calm-pending :
    (C : ℕ → Type 0) (s s' : Pass) (new : List ℕ) (p : ℕ)
    → Calm C s s' new
    → has_pending_wake (s'.mem p) ≡ true
    → has_pending_wake (s.mem p) ≡ true
Calm-pending C s s' new p c h = elim (Bool-cases (mem p new)) [
  | inl m ↦
      let t : s'.mem p ≡ risen (s.mem p) = c.threads p ∙ rw m refl in
      absurd (ground (arith, rw t at h))
  | inr m ↦ let t : s'.mem p ≡ s.mem p = c.threads p ∙ rw m refl in rw t at h
]

-- One wake: afterwards the thread is not parked.
pub wake_sleeper-Calm :
    (C : ℕ → Type 0) (p : ℕ) (s : Pass)
    → QueueOk s.mem s.queue
    → C p
    → (s1 : Pass) × (new : List ℕ) × (wake_sleeper p s ≡ done s1)
      × Calm C s s1 new
      × (claim_parked (s1.mem p) ≡ false)
unfolding wake_sleeper claim_parked promote_wake promote_ready_from_parked Ready.push
wake_sleeper-Calm C p s ok cause = elim (Bool-cases (claim_parked (s.mem p))) [
  | inl h ↦ (
    record { mem = update s.mem p (risen (s.mem p)); queue = s.queue ++ (p ∷ []) },
    p ∷ [],
    rw h refl,
    record {
      queue = refl;
      ok = promote-QueueOk s.mem s.queue p (risen (s.mem p)) ok (ground arith) refl;
      threads = λ q. only q (Bool-cases (p == q));
      called = (cause, tt);
    },
    rw (==_refl p) refl,
  )
  | inr h ↦ (s, [], rw h refl, Calm-still C s ok, h)
]
  where
    only :
        (q : ℕ)
        → ((p == q) ≡ true) ⊎ ((p == q) ≡ false)
        → update s.mem p (risen (s.mem p)) q ≡ (if mem q (p ∷ []) then risen (s.mem q) else s.mem q)
    only q (inl e) = let same : p ≡ q = (==_iff p q).0 e in rw e (ap (λ r. risen (s.mem r)) same)
    only q (inr e) = rw e refl

pub unclaimed-asleep :
    (s : Pass) (e : SleepEntry) (p : ℕ)
    → e.thread ≡ p
    → claim_parked (s.mem p) ≡ false
    → asleep s e ≡ false
unfolding claim_parked classify
unclaimed-asleep s e p same h =
    let own : claim_parked (s.mem e.thread) ≡ false =
      subst (λ q. claim_parked (s.mem q) ≡ false) (sym same) h in
    ground (arith, own)
