-- ===== src/Kernel/Futex/Fifo.antt =====
-- The futex queues as one line of parked threads, the oldest first.
use orbit.Base.{
  ℕ, zero, suc, ◌≡◌, refl, sym, ap, ap₂, ◌∙◌, inl, inr, true, not, ◌==◌, if◌then◌else◌, List, [],
  ◌∷◌, ◌++◌, Option, none, some, arith, append-nil, length-take, length, take, drop, min, map,
  retain, Bool-cases, ==_iff,
}
use orbit.Base.Map.{
  lookup, insert, remove, IsSorted, Rising, lookup-insert, lookup-remove, lookup_below,
  Rising-weaken, insert-Rising, remove-Rising,
}
use orbit.Paging.Walk.{virt_to_phys}
use orbit.Kernel.Processes.{Reply, to_ret, eagain, efault}
use orbit.Kernel.Futex.{
  FutexWaiter, Queues, Caller, waiter, queue_at, is_empty, woken, wait_at, wake_at, wake_queue,
  run_futex_wait_req, run_futex_wake_req, sweep, Call, wait, wake, gone, call, run,
}

-- Each parked thread with the address that it waits at.
abbrev pub Line : Type 0
Line = List (ℕ × FutexWaiter)

-- The threads at an address.
abbrev pub at : ℕ → Line → List FutexWaiter
at pa [] = []
at pa ((k, w) ∷ line) = let rest = at pa line in if k == pa then w ∷ rest else rest

-- The line without the first `n` threads at an address.
abbrev pub leave : ℕ → ℕ → Line → Line
leave zero pa line = line
leave (suc n) pa [] = []
leave (suc n) pa ((k, w) ∷ line) =
    let stay = (k, w) ∷ leave (suc n) pa line in
    let go = leave n pa line in if k == pa then go else stay

abbrev pub line_wait : Line → ℕ → Caller → Option ℕ → Line × List Reply
line_wait line expected c none = (line, (c.tid, to_ret efault ∷ []) ∷ [])
line_wait line expected c (some pa) =
    if c.word pa == expected
    then (line ++ ((pa, waiter c) ∷ []), [])
    else (line, (c.tid, to_ret eagain ∷ []) ∷ [])

abbrev pub line_wake : Line → ℕ → Caller → Option ℕ → Line × List Reply
line_wake line n c none = (line, (c.tid, to_ret efault ∷ []) ∷ [])
line_wake line n c (some pa) =
    let out = take n (at pa line) in
    (leave n pa line, map woken out ++ ((c.tid, length out ∷ []) ∷ []))

abbrev pub step_line : Line → Call → Line × List Reply
step_line line (wait uaddr expected c) = line_wait line expected c (virt_to_phys c.root c.mem uaddr)
step_line line (wake uaddr n c) = line_wake line n c (virt_to_phys c.root c.mem uaddr)
step_line line (gone pid) = (retain (λ kw. not (kw.1.pid == pid)) line, [])

abbrev pub run_line : Line → List Call → Line × List Reply
run_line line [] = (line, [])
run_line line (c ∷ cs) =
    let (line', replies) = step_line line c in
    let (end, later) = run_line line' cs in (end, replies ++ later)

-- The queues stand for the line: each address has the threads of the line that wait there.
pub record Stands (m : Queues) (line : Line) : Type 0 where
  pub sorted : IsSorted m
  pub queues : (pa : ℕ) → queue_at m pa ≡ at pa line

at-append : (pa : ℕ) (xs ys : Line) → at pa (xs ++ ys) ≡ at pa xs ++ at pa ys
at-append pa [] ys = refl
at-append pa ((k, w) ∷ xs) ys = ground (arith, at-append pa xs ys)

at-leave :
    (pa k n : ℕ) (line : Line)
    → at k (leave n pa line) ≡ (if pa == k then drop n (at k line) else at k line)
at-leave pa k zero line = ground arith
at-leave pa k (suc n) [] = ground arith
at-leave pa k (suc n) ((j, w) ∷ line) =
    ground (
      arith,
      at-leave pa k n line,
      at-leave pa k (suc n) line,
      ==_iff j pa,
      ==_iff j k,
      ==_iff pa k,
    )

at-retain :
    (pa pid : ℕ) (line : Line)
    → at pa (retain (λ kw. not (kw.1.pid == pid)) line)
      ≡ retain (λ w. not (w.pid == pid)) (at pa line)
at-retain pa pid [] = refl
at-retain pa pid ((k, w) ∷ line) = ground (arith, at-retain pa pid line)

min-suc : (n k : ℕ) → min (suc n) (suc k) ≡ suc (min n k)
min-suc n k = omega arith

min_zero : (n : ℕ) → min n 0 ≡ 0
min_zero n = omega arith

zero_min : (n : ℕ) → min 0 n ≡ 0
zero_min n = omega arith

take-min {ℓ} : {A : Type ℓ} (n : ℕ) (xs : List A) → take (min n (length xs)) xs ≡ take n xs
take-min zero xs = rw (zero_min (length xs))
take-min (suc n) [] = rw (min_zero (suc n))
take-min (suc n) (x ∷ xs) = rw (min-suc n (length xs), take-min n xs)

drop-min {ℓ} : {A : Type ℓ} (n : ℕ) (xs : List A) → drop (min n (length xs)) xs ≡ drop n xs
drop-min zero xs = rw (zero_min (length xs))
drop-min (suc n) [] = rw (min_zero (suc n))
drop-min (suc n) (x ∷ xs) = rw (min-suc n (length xs), drop-min n xs)

take_nil {ℓ} : {A : Type ℓ} (n : ℕ) → take {A = A} n [] ≡ []
take_nil zero = refl
take_nil (suc n) = refl

-- Nobody leaves an address at which nobody waits.
leave_nil : (n pa : ℕ) (line : Line) → at pa line ≡ [] → leave n pa line ≡ line
leave_nil zero pa line none_here = refl
leave_nil (suc n) pa [] none_here = refl
leave_nil (suc n) pa ((k, w) ∷ line) none_here = ground (arith, leave_nil (suc n) pa line)

sweep-Rising : (pid n : ℕ) (m : Queues) → Rising n m → Rising n (sweep pid m)
unfolding sweep
sweep-Rising pid n [] s = tt
sweep-Rising pid n ((k, q) ∷ m) s =
    let rest = sweep-Rising pid (suc k) m s.1 in
    ground (arith, rest, Rising-weaken (suc k) n (sweep pid m))

queue_at-sweep :
    (pid pa n : ℕ) (m : Queues)
    → Rising n m
    → queue_at (sweep pid m) pa ≡ retain (λ w. not (w.pid == pid)) (queue_at m pa)
unfolding sweep lookup
queue_at-sweep pid pa n [] s = refl
queue_at-sweep pid pa n ((k, q) ∷ m) s =
    let none_left : (k == pa) ≡ true → lookup pa (sweep pid m) ≡ none =
      λ e. lookup_below (suc k) pa (sweep pid m) (sweep-Rising pid (suc k) m s.1) (ground arith) in
    grind (arith, queue_at-sweep pid pa (suc k) m s.1, none_left, ==_iff k pa)

module _ (m : Queues) (line : Line) (stands : Stands m line) where
  -- A queue is written, or taken out.
  written-Stands :
      (pa : ℕ) (q : List FutexWaiter) (line' : Line)
      → ((k : ℕ) → at k line' ≡ (if pa == k then q else at k line))
      → Stands (insert pa q m) line'
  written-Stands pa q line' h = record {
    sorted = insert-Rising 0 pa q m (omega arith) stands.sorted;
    queues = λ k. elim (Bool-cases (pa == k)) [
      | inl e ↦ rw (lookup-insert pa k q m, h k, e)
      | inr e ↦ rw (lookup-insert pa k q m, h k, e, stands.queues k)
    ];
  }

  removed-Stands :
      (pa : ℕ) (line' : Line)
      → ((k : ℕ) → at k line' ≡ (if pa == k then [] else at k line))
      → Stands (remove pa m) line'
  removed-Stands pa line' h = record {
    sorted = remove-Rising 0 pa m stands.sorted;
    queues = λ k. elim (Bool-cases (pa == k)) [
      | inl e ↦ rw (lookup-remove 0 pa k m stands.sorted, h k, e)
      | inr e ↦ rw (lookup-remove 0 pa k m stands.sorted, h k, e, stands.queues k)
    ];
  }

  park-Stands :
      (pa : ℕ) (w : FutexWaiter)
      → Stands (insert pa (queue_at m pa ++ (w ∷ [])) m) (line ++ ((pa, w) ∷ []))
  park-Stands pa w = written-Stands pa (queue_at m pa ++ (w ∷ [])) (line ++ ((pa, w) ∷ [])) (λ k.
      at-append k line ((pa, w) ∷ []) ∙ elim (Bool-cases (pa == k)) [
        | inl e ↦
            let same : at k line ≡ queue_at m pa =
              ap (λ j. at j line) (sym ((==_iff pa k).0 e)) ∙ sym (stands.queues pa) in
            rw (e, same)
        | inr e ↦ rw (e, append-nil (at k line))
      ])

  wait-Stands :
      (expected : ℕ) (c : Caller) (o : Option ℕ)
      → Stands (wait_at m expected c o).0 (line_wait line expected c o).0
        × ((wait_at m expected c o).1 ≡ (line_wait line expected c o).1)
  unfolding wait_at
  wait-Stands expected c none = (stands, refl)
  wait-Stands expected c (some pa) = elim (Bool-cases (c.word pa == expected)) [
    | inl e ↦ rw e (park-Stands pa (waiter c), refl)
    | inr e ↦ rw e (stands, refl)
  ]

  drained-Stands :
      (pa n : ℕ) (waiters : List FutexWaiter)
      → lookup pa m ≡ some waiters
      → Stands
          (if is_empty (drop n waiters) then remove pa m else insert pa (drop n waiters) m)
          (leave n pa line)
  drained-Stands pa n waiters found =
      let here : at pa line ≡ waiters = sym (stands.queues pa) ∙ rw found refl in
      let after : (k : ℕ)
          → at k (leave n pa line) ≡ (if pa == k then drop n waiters else at k line) =
        λ k. at-leave pa k n line ∙ elim (Bool-cases (pa == k)) [
          | inl e ↦
              let same : at k line ≡ waiters =
                ap (λ j. at j line) (sym ((==_iff pa k).0 e)) ∙ here in
              rw (e, same)
          | inr e ↦ rw e
        ] in
      by_rest (drop n waiters) after
    where
      by_rest :
          (left : List FutexWaiter)
          → ((k : ℕ) → at k (leave n pa line) ≡ (if pa == k then left else at k line))
          → Stands (if is_empty left then remove pa m else insert pa left m) (leave n pa line)
      by_rest [] after = removed-Stands pa (leave n pa line) after
      by_rest (w ∷ ws) after = written-Stands pa (w ∷ ws) (leave n pa line) after

  wake_queue-Stands :
      (pa n : ℕ) (c : Caller) (o : Option (List FutexWaiter))
      → lookup pa m ≡ o
      → Stands (wake_queue m pa n c o).0 (line_wake line n c (some pa)).0
        × ((wake_queue m pa n c o).1 ≡ (line_wake line n c (some pa)).1)
  unfolding wake_queue
  wake_queue-Stands pa n c none found =
      let empty : at pa line ≡ [] = sym (stands.queues pa) ∙ rw found refl in
      rw (empty, take_nil n, leave_nil n pa line empty) (stands, refl)
  wake_queue-Stands pa n c (some waiters) found =
      let here : at pa line ≡ waiters = sym (stands.queues pa) ∙ rw found refl in
      rw (here, drop-min n waiters, take-min n waiters, length-take n waiters)
        (drained-Stands pa n waiters found, refl)

  wake-Stands :
      (n : ℕ) (c : Caller) (o : Option ℕ)
      → Stands (wake_at m n c o).0 (line_wake line n c o).0
        × ((wake_at m n c o).1 ≡ (line_wake line n c o).1)
  unfolding wake_at
  wake-Stands n c none = (stands, refl)
  wake-Stands n c (some pa) = wake_queue-Stands pa n c (lookup pa m) refl

  gone-Stands : (pid : ℕ) → Stands (sweep pid m) (step_line line (gone pid)).0
  gone-Stands pid = record {
    sorted = sweep-Rising pid 0 m stands.sorted;
    queues = λ pa.
        queue_at-sweep pid pa 0 m stands.sorted
        ∙ ap (retain (λ w. not (w.pid == pid))) (stands.queues pa)
        ∙ sym (at-retain pa pid line);
  }

  call-Stands :
      (c : Call) → Stands (call m c).0 (step_line line c).0 × ((call m c).1 ≡ (step_line line c).1)
  unfolding call run_futex_wait_req run_futex_wake_req
  call-Stands (wait uaddr expected c) = wait-Stands expected c (virt_to_phys c.root c.mem uaddr)
  call-Stands (wake uaddr n c) = wake-Stands n c (virt_to_phys c.root c.mem uaddr)
  call-Stands (gone pid) = (gone-Stands pid, refl)

-- From queues that stand for a line: whatever waits, wakes and deaths of processes follow, the queues
-- answer as the line does and stand for it afterwards. A wait parks its thread last exactly if the
-- word still has the value expected; a wake resumes the oldest threads at its address, as many as it
-- asks for, in their order, and tells its caller how many; a process that is gone leaves the line.
pub run-Stands :
    (m : Queues) (line : Line) (cs : List Call)
    → Stands m line
    → Stands (run m cs).0 (run_line line cs).0 × ((run m cs).1 ≡ (run_line line cs).1)
unfolding run
run-Stands m line [] stands = (stands, refl)
run-Stands m line (c ∷ cs) stands =
    let now = call-Stands m line stands c in
    let later = run-Stands (call m c).0 (step_line line c).0 cs now.0 in
    (later.0, ap₂ (λ (r q : List Reply). r ++ q) now.1 later.1)
