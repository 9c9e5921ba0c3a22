-- ===== src/Sched.antt =====
-- orbit-core/src/sched.rs: handing runnable threads to idle harts. The scheduler is the manager's
-- queue (its one implementation), the hardware is the list of harts that an interrupt was sent to.
pub mod Assign
mod Tests
use orbit.Base.{
  ℕ, suc, ◌+◌, ◌%◌, ◌^◌, Bool, true, false, if◌then◌else◌, List, [], ◌∷◌, ◌++◌, Option, none, some,
  Run, done, ◌>>=◌,
}
use orbit.Thread.{Thread, try_mark_assigned}
use orbit.Store.{Store, update}
use orbit.ReadyQueue.{ReadyQueue, pop_for}

-- A hart and the thread that it owns.
pub record HartView : Type 0 where
  pub hart_id : ℕ
  pub current : Option ℕ

-- `1u64 << hart_id`.
abbrev pub affinity_bit : HartView → ℕ
affinity_bit v = 2 ^ (v.hart_id % 64)

abbrev pub is_busy : HartView → Bool
is_busy v = elim v.current [ none ↦ false | some _ ↦ true ]

-- The threads, the ready queue, and the interrupts sent, in order.
pub record World : Type 0 where
  pub threads : Store
  pub queue : ReadyQueue
  pub wakes : List ℕ

abbrev pub tick : Thread → Thread
tick t = record t { ticks = (t.ticks + 1) % 256 }

unfoldable pub assign_thread_to : HartView → ℕ → World → Run (HartView × World)
unfolding try_mark_assigned
assign_thread_to view thread w = try_mark_assigned (tick (w.threads thread)) >>= λ (assigned, t).
    done (
      if assigned then record view { current = some thread } else view,
      record w { threads = update w.threads thread t },
    )

-- Ask for a thread that the hart may run, and assign it.
abbrev pub offer : HartView → World → Run (HartView × World × Bool)
offer view w = elim (pop_for w.threads w.queue (affinity_bit view)) [
  | none ↦ done (view, w, false)
  | some (p, rest) ↦
      assign_thread_to view p (record w { queue = rest }) >>= λ r. done (r.0, r.1, true)
]

-- The loop over the remote harts. An interrupt is sent to each hart that was asked to take a thread.
pub assign_remotes : List HartView → World → Run (List HartView × World)
assign_remotes [] w = done ([], w)
assign_remotes (hart ∷ harts) w =
    let skip = assign_remotes harts w >>= λ r. done (hart ∷ r.0, r.1) in
    let serve = offer hart w >>= λ (hart', w', taken).
    assign_remotes harts
      (if taken then record w' { wakes = w'.wakes ++ (hart.hart_id ∷ []) } else w')
    >>= λ r. done (hart' ∷ r.0, r.1) in
    if is_busy hart then skip else serve

unfoldable pub assign_threads :
    HartView → List HartView → World → Run (HartView × List HartView × World)
unfolding assign_remotes
assign_threads self remotes w = assign_remotes remotes w >>= λ (remotes', w').
    if is_busy self
    then done (self, remotes', w')
    else offer self w' >>= λ (self', w'', taken). done (self', remotes', w'')
