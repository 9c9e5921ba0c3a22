-- ===== src/Sched/Assign.antt =====
-- `assign_threads` of orbit-core/src/sched.rs over a queue that keeps its promises: which threads the
-- harts took.
pub mod Chain
pub mod Harts
use orbit.Base.{
  suc, ◌+◌, ◌%◌, ◌^◌, ◌∙◌, not, ◌||◌, Option, none, bit_and, Option-cases, Run, panic, ◌>>=◌,
  ==_iff,
}
use orbit.Thread.{Thread}
use orbit.Store.{Store}
use orbit.ReadyQueue.{ReadyQueue, pop_for}
use Chain.{unserved, mem_through, All-prefix, not_mem_of_All}
use Harts.{Starved}
