-- ===== src/Kernel.antt =====
-- The manager's side of the system calls, kmain/src/kernel/mod.rs: what it does to the processes, the
-- futex queues and the handle tables while it holds the scheduler lock.
pub mod Processes
pub mod Wait
pub mod Futex
pub mod Pids
pub mod Creds
