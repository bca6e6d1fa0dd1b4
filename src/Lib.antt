-- ===== src/Lib.antt =====
-- The kernel of project05-zwang203-main/xv6: xv6 for RISC-V with queue-based scheduling and
-- containers (groups of processes with pids, run queues and a root directory of their own).
-- Paths below are relative to project05-zwang203-main/xv6.
--
-- Parts and files:
-- - Base: shared names, Boolean tests and lists over the native numbers.
-- - LinkedList: kernel/list.c (user/list.c is the same text). Memory is a heap of the two links of
--   each list element; every function is the C function of its name, as commands that read and
--   write one link at a time. LinkedList.Seg says what a well-formed list is.
-- - Proc: kernel/proc.c. Proc.State has the tables, the queues and the spinlocks that this CPU
--   holds; a queue is the sequence of slots that its links stand for, which is what LinkedList
--   proves of the links. Proc.Table, Proc.Container, Proc.Sched, Proc.Family and Proc.Boot have the
--   functions; Proc.Invariant the agreement of the queues with the states, and the other modules
--   the proofs by function.
-- - Pipe: kernel/pipe.c. Pipe.Contents says which bytes the counters stand for; Pipe.Write and
--   Pipe.Read what pipewrite and piperead do to them.
-- - Log: kernel/log.c, over a disk and a cache of blocks (kernel/bio.c as the log uses it), with a
--   crash after any number of disk writes. Log.Disk says what a disk with a log stands for;
--   Log.Install and Log.Recover, Log.WriteLog and Log.Commit follow the functions; Log.Ops has
--   log_write.
-- - Bio: kernel/bio.c, the buffers as a list in the order of their use. Bio.Buffers says what the
--   cache shows of each block; Bio.Recycle, Bio.Cached, Bio.Release and Bio.Store follow bget, bread,
--   brelse and bwrite.
-- - Kalloc: kernel/kalloc.c, with the free list through the words of the free pages.
-- - Vm: the page table lookups and the copies between user and kernel of kernel/vm.c; Vm.Sv39
--   says which physical address a user address stands for, and Vm.Copyin and Vm.Copyout have the
--   proofs.
-- - CString: kernel/string.c, on a memory of bytes.
-- - Fs: kernel/fs.c. Fs has the blocks and the bitmap, Fs.Inode bmap and itrunc, Fs.Itable the inode
--   table, Fs.Name the paths; Fs.Bits and Fs.Bitmap say which blocks are free, Fs.Mapped which
--   blocks a file has, Fs.Room which room the log has left, and Fs.Alloc, Fs.Free, Fs.Bmap, Fs.Refs and Fs.Walk follow the functions.
--   Fs.Io has readi and writei, over the bytes of a file that Fs.Content defines; Fs.Delivered and
--   Fs.Readi, and Fs.Paste, Fs.Written and Fs.Writei prove them, and Fs.Reread the two together.
-- - File: the file table of kernel/file.c; File.Handles has the calls that holders of files make.
-- - Grep: the matcher of user/grep.c.
-- - Print: printint of user/printf.c and atoi of user/ulib.c, which reads what that prints.
--
-- Numbers: an int or uint is its 32-bit pattern and a uint64 its 64-bit pattern, as numbers; what
-- wraps says so. Pointers are addresses in LinkedList and table slots in Proc.
--
-- Loops: list_size, list_max, list_min and list_insert_ordered take fuel, and more fuel than
-- elements is enough; readi, writei, copyin and copyout take as much fuel as they move bytes, and
-- each round moves one at least; the loop of printint has fuel for the 32 digits that an uint can
-- have in base 2. Loops of memory, pipe, log and file system recur on the passes that are left; the
-- loops over the tables recur on the number of slots that are left, 64 processes, 4 containers and
-- 50 inodes.
--
-- Concurrency: a function runs as one CPU runs it between two switches of context; functions that
-- switch (yield, sleep, wait, exit and the scheduler) are cut there. Spinning on a lock that another
-- CPU holds is not modelled; taking a lock that this CPU holds panics, as in kernel/spinlock.c.
--
-- Answers of other components (kalloc, proc_pagetable, uvmcopy, namei, copyout) are arguments in
-- Proc, those of copyin, copyout and killed are arguments in Pipe, and calls into the file layer are
-- recorded in order. Register contexts, kernel stacks and the fields of trap frames are not modelled.
-- How many bytes either_copyout and either_copyin can move is an argument in Fs, and so is what
-- dirlookup finds; the references and locks that namex takes on its way are not modelled there. In
-- Log the log area is the header and LOGSIZE blocks. The mappings and page tables that kernel/vm.c
-- makes, directories, reads and writes of open files, system calls, traps, devices and the user
-- programs but grep are not modelled.
pub mod Base
pub mod LinkedList
pub mod Proc
pub mod Pipe
pub mod Log
pub mod Kalloc
pub mod CString
pub mod Grep
pub mod Fs
pub mod Bio
pub mod Vm
pub mod Print
pub mod File
