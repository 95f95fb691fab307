-- ===== src/Lib.antt =====
-- PickleOS: a model of the kernel's own logic, with the theorems that make it correct.
--
-- The kernel is a single-processor microkernel in Rust. Tasks are scheduled round-robin; they reach
-- each other by messages, hold capabilities for what they may use, and receive signals; drivers wait
-- on interrupt lines; servers (files, names) and the window registry answer tasks' requests.
--
--   Base          Rust's vectors, maps, bytes and 32-bit words, with the lemmas that all parts share
--   Capability    kernel/src/capability.rs: `Rights`, `CapTable`, `mint`, `grant`, `revoke`, the checks
--   Signal        kernel/src/signal.rs: `SignalState` and its methods
--   Task          kernel/src/task.rs: the task list, `schedule`, `unblock`, `add_task`
--   Process       kernel/src/task.rs: `do_exit`, `do_wait`, `do_fork`, `do_exec`, `do_kill`,
--                 `do_signal`, the delivery of signals and `do_sigreturn`, `reap_orphans`
--   Ipc           kernel/src/ipc.rs: `send`, `receive`, `call`, `reply`, the endpoints and their names
--   Irq           kernel/src/driver/irq.rs: `register`, `wait`, `notify_from_isr`
--   PortIo        kernel/src/driver/portio.rs: port accesses behind a capability
--   Mmio          kernel/src/driver/mmio.rs: accesses to mapped registers behind a capability
--   Wm            kernel/src/wm.rs: the windows, their pixels and their event queues
--   Files         kernel/src/fs/vfs.rs: descriptors, pipes, credentials (not the calls on the disk)
--   Storage       kernel/src/driver: `dma.rs` (`alloc_dma`, `mark`, `reset_to`), the commands and
--                 transfers of `ahci.rs` (`issue_command`, `wait_not_busy`, `read_sectors`,
--                 `write_sectors`) and `block.rs` (block devices)
--   Services      kernel/src/services: `memfs.rs`, and the dispatch of `vfs.rs` and `registry.rs`
--
-- A part's file holds its state and one function per operation of the source, under the source's
-- name; the files below it hold the theorems, and its Tests apply them to concrete states. Global
-- state behind a lock is an argument and a result. An operation that can be preempted between two
-- critical sections is one function per section (`receive` and `call` in Ipc, `wait` in Irq, the
-- rounds of reads and writes of pipes in Files), so a history of steps, which is a list of
-- operations, interleaves as the tasks do. Ipc and Irq change the task list through Task's
-- `unblock` and `schedule`. Process puts the parts together that a process call touches: the task
-- list, the reply slots, the windows and the descriptors. Its calls run with interrupts disabled, so
-- each is one step, but for `wait`, whose rounds are steps, `exec`, which loads the program before its
-- step, and the reaper's task, each of whose reaps is a step that other tasks' calls may come before.
-- What the loader returns and the page table that a fork gets are parameters.
--
-- Machine words: the counters that wrap (interrupts, window sequence numbers) keep their wrap-around;
-- ids and ticks are taken to stay below 64 bits, since a counter that only grows by one does not reach
-- that bound. The sums of the pool for transfers and of the ranges of registers wrap, and so does the
-- next descriptor number, of 32 bits. Flags are natural numbers with the bit operations of the source.
-- Loops are structural recursion: the search of `schedule` runs over as many rounds as there are tasks, and the
-- scan of pending signals over the 31 signals, as in the source, so no fuel is needed there. The loop
-- of `alloc_fd` has fuel for 65 rounds; in tables whose numbers in use are all below the next one it
-- ends in the first round. The loops of `read_blocks` and `write_blocks` have one round per block,
-- more than there are chunks. The polls of a disk controller have the limits of the source, 1000 and
-- 2000. The registers and the disk are a parameter of Storage: a disk without faults, as its theorem
-- takes it, obeys the commands that `issue_command` builds, if their sectors fit their buffer. One
-- transfer runs at a time: the tasks that run while a command is polled do not use the disk.
--
-- Not modelled: the context switch and the page tables; the loading of programs; the on-disk file
-- system of kernel/src/fs and the calls of vfs.rs that reach it; the registers of the devices; the
-- network stack; drawing and the shell; the boxes that the services pass by address; the user
-- programs.
pub mod Base
pub mod Capability
pub mod Signal
pub mod Storage
pub mod Task
pub mod Ipc
pub mod Irq
pub mod Wm
pub mod Services
pub mod Files
pub mod Process
pub mod PortIo
pub mod Mmio
