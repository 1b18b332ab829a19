-- ===== src/Lib.antt =====
-- xv6 with a scheduler by process type, and the experiment that measures it.
--
-- The kernel is a fork of xv6 for RISC-V. Its scheduler (kernel/proc.c) prefers IO-bound over CPU-bound
-- over default processes, and the kernel keeps counters for the experiment of user/run_experiment.c,
-- which starts rounds of 20 processes, user/graphs.c (CPU-bound) and user/rows.c (IO-bound), and
-- computes four scores from the counters.
--
-- The parts and their files:
-- Proc: kernel/proc.c and kernel/proc.h. State.antt holds `struct proc` as a record and the table as a
--   list whose indices stand for pointers to slots. Table.antt: allocpid, allocproc, freeproc, wakeup,
--   kill, reparent. Lifecycle.antt: procinit, userinit, fork, exit, wait, sleep, yield. Scheduler.antt:
--   scheduler. Metrics.antt: the system calls of the experiment. Pids, Rousing, Orphans,
--   Ending and Fork hold the proofs.
-- Experiment: user/run_experiment.c, user/graphs.c and user/rows.c. Rand.antt: do_rand. Terminos.antt:
--   the finishing times. Scores.antt: the scores. Names.antt: the texts that the programs exchange.
--   Graph.antt: the breadth-first search of graphs.c.
-- Pipe: kernel/pipe.c. Ring holds the buffer's contents, Order and Transfer the order of the bytes.
-- Log: kernel/log.c. Writes and Crash are on the disk writes of a commit, Space on the room in the log.
-- Kalloc: kernel/kalloc.c. File: kernel/file.c; Handles is on the reference counts, Writing on filewrite.
-- Bio: kernel/bio.c and kernel/sleeplock.c.
-- Vm: kernel/vm.c. Memory is the free list and, for each page, its entries and its bytes. Roles says what
--   each page is for; Mappages, Address and User hold mappages, walkaddr and the memory of a process, Copy
--   the copies between the kernel and a process. The free list is that of Kalloc, without the links.
-- Fs: kernel/fs.c. Bitmap is on balloc and bfree, Inode on the table of inodes and their disk copies, Content
--   on bmap, readi and writei, Dir on directories and paths.
-- Spinlock: kernel/spinlock.c. The nesting depth of a CPU stays below 2 ^ 31, as an `int` holds it.
-- Grep: user/grep.c. Words is on the matcher, Lines on the loop over a file.
-- Str: kernel/string.c.
-- Prelude: lists, searches and C integers over the native numbers. Tests: runs and instances.
--
-- A critical section under the lock of a process is one step, and in the scheduler the scan of the table
-- and the first dispatch are one step, on one state of the table. The number of outstanding operations of
-- the log and the reference counts of files are kept without wrap-around. Else an `int` or `uint` is its bit pattern, a
-- number below 2 ^ 32, and the wrap-around is written out. The calls that proc.c makes into memory and
-- files are recorded in the list `calls`, in order, and what they return is an argument. In a dispatch
-- of the scheduler, what happens between the two switches is a function on the table. The loops with
-- fuel are the throughput loop, for which 321 rounds are enough (20 processes and 300 buckets), and the
-- copying loops of rows.c, whose buffers have at most 20 bytes, with 10 rounds each, the loop of
-- freerange, with a round for each page below the end of the memory, and that of filewrite, with one for
-- each byte; the search of graphs.c, for which 202 turns are enough;
-- the loops over the pages of an address range, with one round for each page and one more; copyin, copyout,
-- copyinstr, readi and writei, which take a byte at least in each round but the last; balloc, with one round
-- for each block of the map; the loops over a directory's entries, over a path and over the lines in grep's
-- buffer, each with a round for a unit of its length and one more.
--
-- Not modelled: the device drivers and the assembly, which reach hardware; the image builder, a tool of the
-- host; and so far the traps, the system calls on files, exec, the allocator of the user library, the shell
-- and the commands of xv6 other than grep.
pub mod Prelude
pub mod Proc
pub mod Str
pub mod Experiment
mod Tests
pub mod Pipe
pub mod Kalloc
pub mod File
pub mod Bio
pub mod Vm
pub mod Grep
pub mod Fs
pub mod Spinlock
pub mod Log
