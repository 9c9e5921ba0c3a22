-- ===== src/Lib.antt =====
-- Verification of orbit, a RISC-V kernel: its scheduler, its queues, its page tables, its page cache,
-- its permissions, and its processes with their system calls.
--
-- The program. A thread (process/src/lib.rs) has a state word, a saved frame and a slot for the results
-- of a call that the manager completes for it. Harts run threads; a syscall ends in an outcome that the
-- trap shim carries out on the thread (orbit-core/src/lib.rs, orbit-core/src/trap.rs). The manager
-- (manager/src/lib.rs) owns the registry, the ready queue (orbit-core/src/ready_queue.rs) and the sleep
-- heap (orbit-core/src/sleep_heap.rs). Its pass drains wake events and sleep notices, which promotes
-- parked threads into the ready queue, and hands queued threads to idle harts (orbit-core/src/sched.rs).
-- Byte rings (process/src/spsc.rs, net_channel/src/spsc.rs) join harts, and the page cache
-- (kmain/src/kernel/page_cache.rs) shares disk pages between readers. The handler of a system call
-- (orbit-core/src/syscall.rs) checks its arguments and queues work; the kernel (kmain/src/kernel/mod.rs)
-- carries it out on its processes, futex queues and handle tables under the scheduler lock, and
-- publishes the results to the parked thread. Page tables (mmu/src/mmap.rs) map
-- the address spaces that threads run in.
--
-- The files.
--   Base: tests, lists, bits, an ordered map, and `Run`, code that may panic.
--   Spsc: `SpscQueue` of process/src/spsc.rs, with `enqueue`, `dequeue`, the queries and the resets.
--     Spsc/Concurrent has the atomic accesses of one producer and one consumer as the steps of a
--     relation; memory is sequentially consistent there, which stands for the acquire and release
--     pairs of the source. Spsc/Masked is the ring of net_channel/src/spsc.rs.
--   Thread: `Thread` with its state word and slot, from process/src/lib.rs; Thread/Cap has the verbs of
--     process/src/cap.rs, Thread/Lifecycle their histories.
--   Outcome: `apply_syscall_outcome` and `update_trap_frame`.
--   SleepHeap, ReadyQueue, Sched: the files of orbit-core/src of those names. Store has the threads
--     behind the pointers and what the ready queue promises of them.
--   Manager: `Manager` and its drains.
--   PageCache: `PageCache`, with the packed keys in PageCache/Pack.
--   Perms: the classes and the gate of orbit-abi/src/perms.rs with the events of orbit-abi/src/denial.rs;
--     Perms/Roles has the roles of orbit-abi/src/roles.rs, and what `create_new_process` of
--     kmain/src/kernel/mod.rs installs.
--   Paging: the Sv48 page tables of mmu/src. Paging/Entry has the addresses and entries of sv48.rs,
--     and the other modules have mmap.rs: Paging/Pages its allocators, Paging/Walk its walks,
--     Paging/Mapping the operations on one page, Paging/Ranges those on ranges and Paging/Teardown
--     `unmap`. Memory gives the raw word of each entry of each table, and a table is named by its
--     virtual address. An operation that builds tables changes a `Space`, the memory with the
--     allocator. Paging/Tree has what makes the tables a tree, by the route that leads to each, and
--     its children how the walks extend it.
--   Shootdown: the protocol of orbit-core/src/tlb_shootdown.rs, by which a hart has others drop cached
--     translations. A history is a list of accesses of senders and receivers in the order in which they
--     happen; `run` carries them out. A request stands for the scope and range that it carries.
--   Virtqueue: the split ring of virtio/src/queue.rs, through which block, network and display devices
--     are driven. The descriptors and the available ring are memory that the queue writes; the used ring,
--     which the device writes, is an argument.
--   Kernel: what the manager does to processes while it holds the scheduler lock, from
--     kmain/src/kernel/mod.rs. Kernel/Processes has the process table with `next_pid`, Kernel/Pids that
--     search; Kernel/Wait the waits for a child and the report of an exit, with `wait_pid_req` of
--     orbit-core/src/syscall.rs; Kernel/Futex `run_futex_wait_req`, `run_futex_wake_req` and the sweep
--     for a dead process; Kernel/Creds `run_setuid`, `run_setgid`, `run_setgroups` and `run_setlogin`
--     with the stamps on the threads. A reply is one call of `publish_pending_for_tid`, the thread with
--     the values; what it does with them is in Manager. A history is a list of such calls.
--   Syscall: the handlers of orbit-core/src/syscall.rs that queue work for the manager, by what they
--     work on: Syscall/Memory, Syscall/Files, Syscall/Procs. A handler reads the caller's registers and
--     whether the queue is full, and gives its outcome with the work that it queued. Syscall/Lawful has
--     what the manager may rely on in that work, and Syscall/Calls the calls with their requests.
--   Handles: the descriptor table of kmain/src/kernel/handle.rs and `run_fs_seek`.
--   Layout: the tests of an address range in orbit-abi/src/layout.rs.
--   BindSpec: `BindSpec` of net_channel/src/lib.rs and its packing into a register.
--   DenialRing: the log of the denials, orbit-core/src/denial_ring.rs.
--   Mappings: the address space of a process, process/src/lib.rs.
--
-- Numbers are natural numbers with the wrap-around written out. A pointer is a number, 0 the null one,
-- and a store gives the thread behind it. A `BTreeMap` is a list in the order of its keys. A binary
-- heap is a list in the order of its entries; entries that compare as equal keep the order of their
-- pushes. A signed word is its bit pattern. A loop runs down a list, a level or a count. Four loops take
-- fuel. `next_pid` has a round for each of the 2 ^ 16 numbers, which meets them all. In Paging/Ranges, a loop
-- by pages has one unit for each 4 KiB page of the range and one for its last test, and each round
-- consumes a page at least. The walk of `pop_used` along a chain has the size of the queue as fuel,
-- which a chain of distinct descriptors does not exceed. The recursion of `unmap` has the four levels
-- of a table as fuel: a tree whose lowest tables have no tables below them does not exceed it. A
-- lock-free queue of the thingbuf crate is the list of the entries that a drain pops; where its capacity
-- matters, the test that it is full is an argument. An operation that may panic returns `Run`.
--
-- Not modelled: device drivers, boot code, assembly and user programs, which are access to hardware or
-- clients of the kernel; the allocation of frames, which Paging takes as a parameter with its contract
-- and the page cache as an argument; logging. Of the system calls'
-- handlers, console writes, blocking reads, sleep and the affinity calls are left out; of the manager's
-- side only the calls named above are modelled, and of `dealloc_process` only what it reports; what a call copies from
-- user memory is an argument.
pub mod Base
pub mod BindSpec
pub mod DenialRing
pub mod Handles
pub mod Kernel
pub mod Layout
pub mod Manager
pub mod Mappings
pub mod Outcome
pub mod PageCache
pub mod Paging
pub mod Perms
pub mod ReadyQueue
pub mod Sched
pub mod Shootdown
pub mod SleepHeap
pub mod Spsc
pub mod Store
pub mod Syscall
pub mod Thread
pub mod Virtqueue
