-- ===== src/Lib.antt =====
-- Yak, a kernel in C: models of its parts, one module for each, with the theorems about them. Paths
-- are from the repository's root.
--
-- RingBuffer (kernel/core/ringbuffer.c) is the byte ring behind terminals and pipes. A ring is a
-- record with the fields of `struct ringbuffer`, and an operation returns the new one; the copies go
-- through MemCopy (`memcpy` of kernel/lib/string.c). `size_t` wraps at 2 ^ 64, and a ring of at most
-- 2 ^ 63 bytes never makes it wrap. The freeing of the buffer is not modelled.
--
-- Fd (kernel/core/file.c, and the loop of `process_destroy` in kernel/core/process.c) is the descriptor
-- table of a process. Its state has the table, the open files by address, and the outcomes of the
-- allocations to come; `none` stands for a panic, a failed assertion or an access outside the
-- table. An operation runs with the table's mutex held. The loop of `fd_allocate_min` has fuel 2: it
-- grows the table at most once, and the grown table has a free slot. The other tables that share a file,
-- after a fork, are a count per file that the theorems take as a parameter.
--
-- Rwlock (kernel/core/rwlock.c) is the reader-writer lock as a step relation. A thread's place in the
-- code is a data type with one constructor before each atomic access, and `step` is the next access with
-- the local code behind it. A system is the lock and a list of threads, and any thread may go on at any
-- step. When `sched_wait` returns, and whether it reports an error, is open, so the event is not part of
-- the state. The memory is sequentially consistent. With fewer than 2 ^ 31 threads no counter wraps.
--
-- Pmm (kernel/vm/pmm.c) is the physical page allocator. A page is its frame number, a zone is a record
-- with its free blocks as one list for each order, and what the zones share is a second record. `split`
-- and `merge` are the loops of `zone_alloc` and `zone_free`; `merge` has as fuel the orders that are left. The
-- free blocks are measured by a weight, a sum over all lists: whether a block covers a frame, or its
-- number of frames. Each operation holds the zone's lock and is one step.
--
-- Syscall (kernel/core/syscall/file.c, fcntl.c and common.h) has the system calls on descriptors, over the
-- state of Fd. The operations of a vnode, which each filesystem fills in, are a record that the calls
-- take as a parameter. `off_t` is a word of 64 bits, negative from 2 ^ 63 on.
--
-- HashTable (kernel/core/hashtable.c, with the id maps of kernel/core/process.c) is the table with open addressing.
-- A table is its slots as a list, over a type of keys with their hash, length and comparison; a key's slot
-- and those after it are named by their distance. A search has the number of slots as fuel: one that has
-- passed them all would go around for ever. Memory that runs out is an argument. The freeing of keys is left out.
--
-- Jobctl (kernel/core/jobctl.c, with the id tables of kernel/core/process.c) is job control: processes,
-- sessions and process groups by address, with their member lists, reference counts and id tables. An
-- allocation takes the next address or fails, as a list of outcomes says; the hash tables are maps.
--
-- Wait (kernel/core/object.c, kevent.c, semaphore.c and wait.c, with the firing of a timer from
-- kernel/core/timer.c) has the objects that threads wait on and `sched_wait` in blocking mode. A state is the
-- objects and the threads by address; each stretch of code under one lock is one step of Wait.Step, and any
-- thread may go on at any step. A thread's two wait blocks are part of its record. A timer may fire at any
-- time; Wait.Timed puts beside these steps the timers of the waits, with what `timer_reset`, `timer_install` and
-- `timer_uninstall` test and change, where only a queued timer fires. Signal counts are not negative, and do not
-- wrap.
--
-- Sched (kernel/core/sched.c) is a processor's run queues. A run queue is its queues by level and the 32 bits
-- of `ready_mask` as a function; `current_rq` and `next_rq` are the run queues that the pointers lead to.
-- The loop of `sched_insert` has fuel for two turns. The abstract view is one list of the waiting threads.
--
-- Timer (kernel/core/timer.c) has the timers and the heaps of the queued ones, one for each processor. The heap is
-- the macros of the submodule vendor/pairing-heap, a parameter: a record of operations, with laws that say what the timers
-- rely on, and an association list that has them. The update of a processor has fuel for one turn more than
-- its heap has entries, and the clock stands still during it. What other processors do while `timer_uninstall` holds
-- neither lock is an argument of it. Sleeping and stalling are left out.
--
-- Tty (kernel/io/tty/n_tty.c) is the line discipline of a terminal, over RingBuffer. A state is the settings, the
-- ring of ready bytes, the line that is typed, the two events as signalled or not, and what the driver was
-- given to write. A read is a sequence of turns, each under one hold of the read mutex, and a list says
-- what comes in during each wait; a raw read has fuel for its turns. Characters are below 128.
--
-- VmMap (kernel/vm/map.c) has the address maps. A map is the list of its entries in the order of the tree;
-- VmMap.Tree has the two searches in the tree itself. `carve_entry` returns the pieces that it leaves, with
-- the outcomes of allocations as a list. A search that steps on from a null element is a failure, as a failed
-- assertion is. The ends of the ranges of `vm_unmap` and `vm_protect` wrap at 2 ^ 64, and the theorems on them are
-- about ranges that do not. The page tables and what a dropped reference frees are left out.
--
-- CString and MemMove (kernel/lib/string.c) are the string routines. A pointer into a string is the list
-- from there on; `memmove` has two offsets into one array.
--
-- Status (kernel/include/yak/status.h) has the status codes and the errno for each, and Prelude the names
-- that the modules share.
--
-- Not modelled: the device drivers and the architecture ports, whose work is register access; the
-- page tables; the file systems; and the copies of the BSD queue and tree headers.
pub mod Prelude
pub mod Status
pub mod MemCopy
pub mod CString
pub mod Fd
pub mod HashTable
pub mod Jobctl
pub mod MemMove
pub mod Pmm
pub mod RingBuffer
pub mod Rwlock
pub mod Sched
pub mod Syscall
pub mod Timer
pub mod Tty
pub mod VmMap
pub mod Wait
