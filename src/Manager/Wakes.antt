-- ===== src/Manager/Wakes.antt =====
-- What a wake pass of manager/src/lib.rs does to the threads that it names, and to the ready queue.
use orbit.Base.{
  mem, Distinct, ℕ, ◌≡◌, refl, sym, ap, subst, ◌∙◌, ◌⊎◌, inl, inr, Bool, true, false, ◌==◌, ◌&&◌,
  ◌||◌, if◌then◌else◌, List, [], ◌∷◌, ◌++◌, append_assoc, append-nil, take, min, retain, arith,
  bit_or, Bool-cases, done, ==_iff,
}
use orbit.Thread.{
  Thread, as_usize, ready, blocking, suspended, pending_state_none, promote_ready_from_parked,
  take_pending_results,
}
use orbit.Thread.Cap.{note_wake, claim_parked, resume_published, promote_wake, write_regs}
use orbit.Store.{Store, update, dispatchable, QueueOk, promote-QueueOk, same_state-QueueOk}
use orbit.ReadyQueue as Ready
use orbit.Manager.{Pass, pending_signaled, wake_thread, set_wake_reason_where}

-- A sleeper wakes for any reason; a blocked syscall only for a result that was published.
abbrev pub should_wake : Thread → Bool
should_wake t = t.state == as_usize suspended || t.state == as_usize blocking && pending_signaled t

-- The thread that a wake leaves: the reasons that had gathered are consumed, and the published
-- results stand in the argument registers.
abbrev pub woken : ℕ → Thread → Thread
woken reason t =
    let reasons = bit_or t.wake_override reason in
    let up = record t { state = as_usize ready; wake_override = 0; last_wake_reason = reasons } in
    let with_rets = record up {
      pending_state = pending_state_none;
      frame = record (t.frame) {
        regs = write_regs t.frame.regs 10 (take (min t.pending_ret_count 4) t.pending_rets);
      };
    } in
    if should_wake t
    then if pending_signaled t then with_rets else up
    else record t { wake_override = reasons }

-- A wake never panics. It makes a thread Ready, consumes the reasons and delivers published results
-- exactly if the thread sleeps or is blocked with results; otherwise it only notes the reason.
pub wake_thread_lem :
    (reason : ℕ) (t : Thread) → wake_thread reason t ≡ done (woken reason t, should_wake t)
unfolding wake_thread note_wake claim_parked resume_published promote_wake take_pending_results
    promote_ready_from_parked
wake_thread_lem reason t = ground arith

-- One thread changes, and is queued if it was parked and is Ready now.
step-QueueOk :
    (s : Pass) (p : ℕ) (t : Thread) (minted : Bool)
    → QueueOk s.mem s.queue
    → ((minted ≡ true) × (dispatchable (s.mem p).state ≡ false) × (t.state ≡ as_usize ready))
      ⊎ ((minted ≡ false) × (t.state ≡ (s.mem p).state))
    → QueueOk (update s.mem p t) (if minted then Ready.push s.queue p else s.queue)
unfolding Ready.push
step-QueueOk s p t minted ok (inl (e, h, r)) = rw e (promote-QueueOk s.mem s.queue p t ok h r)
step-QueueOk s p t minted ok (inr (e, h)) = rw e (same_state-QueueOk s.mem s.queue p t ok h)

woken-step :
    (reason : ℕ) (t : Thread)
    → ((should_wake t ≡ true)
        × (dispatchable t.state ≡ false)
        × ((woken reason t).state ≡ as_usize ready))
      ⊎ ((should_wake t ≡ false) × ((woken reason t).state ≡ t.state))
woken-step reason t = elim (Bool-cases (should_wake t)) [
  | inl h ↦ inl (h, ground arith, ground arith)
  | inr h ↦ inr (h, ground arith)
]

-- The threads that a pass promotes, in the order of the registry.
abbrev pub promoted : (Thread → Bool) → List ℕ → Store → List ℕ
promoted pred ps st = retain (λ p. pred (st p) && should_wake (st p)) ps

promoted-update :
    (pred : Thread → Bool) (ps : List ℕ) (st : Store) (p : ℕ) (t : Thread)
    → mem p ps ≡ false
    → promoted pred ps (update st p t) ≡ promoted pred ps st
promoted-update pred [] st p t h = refl
promoted-update pred (q ∷ qs) st p t h =
    let other : (p == q) ≡ false = ground arith in
    rw (other, promoted-update pred qs st p t (ground arith)) refl

-- What a pass does to the thread at `r`, if it handles `p` first.
pass_skips :
    (pred : Thread → Bool) (w : Thread → Thread) (st : Store) (p r : ℕ) (ps : List ℕ)
    → pred (st p) ≡ false
    → (if mem r ps && pred (st r) then w (st r) else st r)
      ≡ (if mem r (p ∷ ps) && pred (st r) then w (st r) else st r)
pass_skips pred w st p r ps h = elim (Bool-cases (p == r)) [
  | inl e ↦
      let same : pred (st r) ≡ false = subst (λ q. pred (st q) ≡ false) ((==_iff p r).0 e) h in
      rw (e, same) (elim (Bool-cases (mem r ps)) [ inl m ↦ rw m refl | inr m ↦ rw m refl ])
  | inr e ↦ rw e refl
]

pass_serves :
    (pred : Thread → Bool) (w : Thread → Thread) (st : Store) (p r : ℕ) (ps : List ℕ)
    → pred (st p) ≡ true
    → mem p ps ≡ false
    → let st1 = update st p (w (st p)) in
      (if mem r ps && pred (st1 r) then w (st1 r) else st1 r)
      ≡ (if mem r (p ∷ ps) && pred (st r) then w (st r) else st r)
pass_serves pred w st p r ps h out = elim (Bool-cases (p == r)) [
  | inl e ↦
      let same : p ≡ r = (==_iff p r).0 e in
      let named : pred (st r) ≡ true = subst (λ q. pred (st q) ≡ true) same h in
      let absent : mem r ps ≡ false = subst (λ q. mem q ps ≡ false) same out in
      rw (e, named, absent) (ap (λ q. w (st q)) same)
  | inr e ↦ rw e refl
]

queue_serves :
    (named minted : Bool) (queue rest : List ℕ) (p : ℕ)
    → named ≡ true
    → (if minted then Ready.push queue p else queue) ++ rest
      ≡ queue ++ (if named && minted then p ∷ rest else rest)
unfolding Ready.push
queue_serves named true queue rest p h = rw h (append_assoc queue (p ∷ []) rest)
queue_serves named false queue rest p h = rw h refl

-- A wake pass over a registry whose pointers differ, with a ready queue that keeps its promises, never
-- panics. It leaves each thread that the
-- registry holds and the predicate names as `woken` says and every other thread as it was, appends to
-- the ready queue exactly the threads that it promoted, in the registry's order, and keeps what the
-- queue promises: every entry may be dispatched, and none is there twice.
pub set_wake_reason_where_lem :
    (reason : ℕ) (pred : Thread → Bool) (ps : List ℕ) (s : Pass)
    → Distinct ps
    → QueueOk s.mem s.queue
    → (s' : Pass) × (set_wake_reason_where reason pred ps s ≡ done s')
      × ((p : ℕ)
          → s'.mem p ≡ (if mem p ps && pred (s.mem p) then woken reason (s.mem p) else s.mem p))
      × (s'.queue ≡ s.queue ++ promoted pred ps s.mem)
      × QueueOk s'.mem s'.queue
unfolding set_wake_reason_where
set_wake_reason_where_lem reason pred [] s d ok = (s, refl, λ p. refl, sym (append-nil s.queue), ok)
set_wake_reason_where_lem reason pred (p ∷ ps) s d ok = elim (Bool-cases (pred (s.mem p))) [
  | inr other ↦
      let (s', e, m, q, ok') = set_wake_reason_where_lem reason pred ps s (d.1) ok in
      (
        s',
        rw (other, e) refl,
        λ r. m r ∙ pass_skips pred (woken reason) s.mem p r ps other,
        rw other q,
        ok',
      )
  | inl named ↦
      let t = woken reason (s.mem p) in
      let s1 : Pass = record {
        mem = update s.mem p t;
        queue = if should_wake (s.mem p) then Ready.push s.queue p else s.queue;
      } in
      let (s', e, m, q, ok') =
        set_wake_reason_where_lem reason pred ps s1 (d.1)
          (step-QueueOk s p t (should_wake (s.mem p)) ok (woken-step reason (s.mem p))) in
      (
        s',
        rw (named, wake_thread_lem reason (s.mem p), e) refl,
        λ r. m r ∙ pass_serves pred (woken reason) s.mem p r ps named (d.0),
        q
            ∙ ap (◌++◌ s1.queue) (promoted-update pred ps s.mem p t (d.0))
            ∙ queue_serves (pred (s.mem p)) (should_wake (s.mem p)) s.queue (promoted pred ps s.mem)
                p named,
        ok',
      )
]
