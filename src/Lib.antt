-- ===== src/Lib.antt =====
-- A model of parts of an OS/161 kernel and of the course assignments that extend it.
--
-- The kernel proper is under completeCode/os_161/src/kern, the assignments' own code under
-- assignment1, assignment2 and assignment3.
--
-- Parts and files:
-- Common: shared names. Common/Outcome has the result of a C function: `done` with a value,
-- `panic` for a failed assertion, `undefined` for an access outside an array or through NULL,
-- `diverge` when a model's fuel runs out. Common/Int is a signed integer, Common/Errno the error
-- codes, Common/Cells an array used as a ring, Common/Bytes the bits of a byte.
-- Queue (kern/lib/queue.c): `struct queue` is the record Queue. Every function has the source's
-- name; the loops of q_grow are q_grow_size (32 rounds of fuel, since doubling a positive int
-- overflows sooner) and q_move (one round for each old cell). q_addtail and q_grow call one
-- another: two levels are enough, because the inner call finds room. Queue/Inv is the invariant,
-- Queue/Grow and Queue/Refine are the proofs.
-- Scheduler (kern/thread/scheduler.c): the run queue is a Queue, behind the laws of Queue/Refine.
-- A call of cpu_idle is the list of the threads that interrupts make runnable during it.
-- Bitmap (kern/lib/bitmap.c): bytes as numbers below 256, bits by `&` and `|` as in the source.
-- Files (assignment3/ownSolution/file.c and file.h): the table of open files `oft` and the
-- descriptors of the current thread. A pointer into `oft` is its index. Files/Calls has the system
-- calls. What other threads refer to enters the invariant as a function from entries to counts.
-- FileTable (assignment2/ownSolution/file.c and file.h, and the end of mips_syscall in syscall.c):
-- the five arrays of the earlier file table. The lists may have any length: file.h declares 18
-- cells, the code uses 19. The loops along filetable_dup have 19 rounds of fuel, one for each
-- descriptor, which is enough for a ring of duplicates (FileTable/Rings); FileTable/Joins is dup2,
-- FileTable/Seeks lseek, FileTable/Faults what goes wrong. The kernel functions that file.c calls
-- are the record Kernel.
-- Array (kern/lib/array.c): `struct array` is the record Array, with `none` for a NULL block. The
-- loop that doubles the capacity has fuel for 32 rounds: it more than doubles each time, and an
-- int overflows sooner.
-- Threads (completeCode/os_161/tmp/ass1/thread.c): thread_sleep, thread_wakeup, thread_wakeone and
-- thread_hassleepers on the array of sleepers; the fuel of a loop is one more than the number of
-- sleepers, since each round passes or removes one.
-- Synch (assignment1/ownSolution/synch.c and synch.h): semaphores, locks and condition variables
-- on top of Threads. The functions run with interrupts off on one processor, so a function is one
-- step up to its call of thread_sleep, and one step for each time the thread is woken. Synch/Sem
-- and Synch/Mutex have these steps as relations.
-- Bar (assignment1/ownSolution/bar.c, bar.h and `pour` of bar_driver.c): orders and glasses shared
-- by customers and bartenders. A function is cut where it waits for a semaphore; loops run through
-- arrays of fixed size.
-- Uio (kern/userprog/uio.c and kern/include/uio.h): the copies themselves are arguments. uiomove
-- has fuel for 3 rounds, since a second round with bytes left over panics; uiomovezeros has one
-- for each byte.
-- Vnode (kern/fs/vfs/vnode.c): the reference and open counts. What stands between lock_acquire and
-- lock_release is one step, so a sequence of calls is any interleaving of the threads that hold
-- the vnode.
-- Sfs (assignment3/ownSolution/sfs_vnode.c and sfs.h,
-- completeCode/os_161/src/kern/fs/sfs/sfs_io.c): a disk of blocks of words behind a device whose
-- results are given, and one vnode. A function is a Call of Common/Calls: an error code stops it
-- and the state stays. Sfs/Bmap is sfs_bmap, whose inner functions get the variables they share as
-- arguments; its children have the look-up, the allocation and two faults. Sfs/Truncate and
-- Sfs/Sync are sfs_truncate and sfs_sync_inode. Sfs/Io is sfs_io with its helpers: memory is a
-- function from addresses to bytes, the block buffers and the entry buffer have addresses given by
-- a Machine, and the device moves a block through uiomove unless its given result is an error.
-- Sfs/Dir has the directory functions on entries of 64 bytes: a 32-bit inode number and a name.
-- Sfs/Sample has a small disk for the tests. sfs_rwblock tries 11 times at most, so its fuel is
-- 11.
-- CopyInOut (kern/lib/copyinout.c): copies byte by byte in a memory in which addresses may be
-- unmapped; the jump back through pcb_badfaultfunc is a result.
-- Vfs (kern/fs/vfs/vfslist.c): the table of named devices; knowndevs_lock is held through each
-- function, so a call is one step. The operations of file systems are the record Fsops. Vfs/Lookup
-- has vfslookup.c and vfscwd.c, with the operations of vnodes in the record Vnops, and Vfs/Paths
-- has vfspath.c. Vfs/Lookup/Forms has the forms of a path. Vfs/Names says which device answers to
-- a name, Vfs/Add and Vfs/Mount are about adding and mounting, Vfs/Table, Vfs/Steps and Vfs/Safe
-- about sequences of calls.
--
-- A call of kmalloc is an argument, a block of words or NULL, with the promise that the block has
-- the size asked for (IsAllocator), or a Boolean where only NULL or not matters. The virtual file
-- system that file.c calls is the record of the same name in Files. Numbers that C keeps in 32
-- bits keep their wrap where the source can reach it; a signed sum that overflows is undefined.
--
-- Not modelled: freeing memory, messages on the console, machine-dependent code, the other parts
-- of the file systems and the device drivers.
pub mod Common
pub mod Queue
pub mod Scheduler
pub mod Bitmap
pub mod Files
pub mod FileTable
pub mod Array
pub mod Threads
pub mod Synch
pub mod Bar
pub mod Uio
pub mod Vnode
pub mod Sfs
pub mod CopyInOut
pub mod Vfs
