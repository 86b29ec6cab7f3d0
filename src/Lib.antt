-- ===== src/Lib.antt =====
-- Dave: a small Unix-like kernel for x86 with its user programs.
--
-- Each component of the C code has a module; a struct is a record, a function that changes shared
-- state takes the record and returns the new one, and a `panic` is the result `panic` of
-- Common/Tests.antt. A body that runs under one spin lock is one step. Numbers are natural numbers;
-- where the C code computes on `int` or `uint` words of 32 bits, the wrap is written out.
-- A loop is a recursion on the rounds left; one whose number of rounds is not known before takes
-- fuel, with a theorem on how much is enough.
--
-- Common        shared lists, tests, words and results
-- Memlayout     include/memlayout.h and the page macros of include/mmu.h
-- Log           system/storage/log.c: begin_op, end_op, log_write, commit, recover_from_log.
--               The store under it has the disk, the buffer contents that bread returns, the
--               B_DIRTY pins, and a count of disk writes after which the power fails. Clean buffers
--               hold what the disk holds, so their eviction does not show. While a commit runs no
--               call is in progress and none can begin, so end_op is one step.
-- Kalloc        system/memory/kalloc.c: kfree, kalloc, freerange, kinit1, kinit2, with the list of
--               free pages in the memory words themselves
-- Strings       system/runtime/string.c over a flat memory of bytes
-- Proc          system/core/proc.c: the process table, allocproc, sleep, wakeup, kill, yield, the
--               locked part of exit, wait and scheduler. fork and userinit, which make an EMBRYO
--               RUNNABLE, are left out, as they need the page tables. A call that switches away is cut there;
--               what runs meanwhile is the parameter `run` of schedule. switchuvm and swtch act on
--               registers only. freevm is a parameter of wait_round.
-- Pipe          system/core/pipe.c: a run of a call from one point where it takes the lock to the
--               next where it lets it go, with the process table that it wakes
-- Console       system/devices/console.c: consoleintr and consoleread over the ring of 128 bytes,
--               with the process table that they wake and the characters given to consputc
-- Grep          user/bin/grep.c: match, matchhere and matchstar, with what a pattern means
-- Syscall       system/core/syscall.c: fetchint, fetchstr, argint, argptr and argstr
-- Printing      system/devices/console.c: printint, and cgaputc with the cursor and the cells
--               of the screen
-- Spinlock      system/sync/spinlock.c: pushcli, popcli, holding, acquire and release on one
--               processor
-- Sleeplock     system/sync/sleeplock.c: rounds of acquiresleep, and releasesleep, with the
--               process table
-- Bio           system/storage/bio.c: binit, bget, bread, bwrite and brelse, with the ring in the next
--               and prev pointers; the disk driver's iderw is a parameter
-- Fs            system/storage/fs.c: bzero, balloc and bfree over the blocks of the one disk
-- Inodes        system/storage/fs.c: iupdate, ilock, bmap, readi, writei and itrunc of one inode that its
--               caller has locked; the functions of devsw are parameters
-- Icache        system/storage/fs.c: the table of inodes with iget, idup, iput and ialloc
-- Directory     system/storage/fs.c: namecmp, dirlookup and dirlink
-- Paths         system/storage/fs.c: skipelem, namex, namei and nameiparent; the buffer `name` and the
--               current directory are arguments
-- File          system/core/file.c: filealloc, filedup, fileclose, filestat, fileread and filewrite over
--               the pipes and the inodes; stati of fs.c. filewrite unlocks the inode and ends its
--               transaction between its pieces; here the pieces follow each other with nothing
--               in between, as for a file that no other process writes meanwhile
-- Descriptors   system/core/sysfile.c: argfd, fdalloc, sys_dup and sys_close of one process
-- In the file system a block is a function from its offsets to bytes, and the blocks are read and
-- written in place: the buffers between are in Bio, the log in Log. A loop over a file has a round
-- for each byte at most, one over a directory a round for each entry, and namex a round for each
-- byte of its path and one more, filewrite a round for each byte at most.
-- Not modelled: readsb, iinit and iunlock of fs.c, which copy fields or act on sleep locks;
-- virtual memory, the other system calls, and the other user programs; the
-- drivers and the processor support, which act on hardware registers; and the boot code.
pub mod Common
pub mod Log
pub mod Strings
pub mod Memlayout
pub mod Kalloc
pub mod Proc
pub mod Pipe
pub mod Console
pub mod Printing
pub mod Spinlock
pub mod Sleeplock
pub mod Grep
pub mod Syscall
pub mod Fs
pub mod Inodes
pub mod Icache
pub mod Directory
pub mod Paths
pub mod File
pub mod Descriptors
pub mod Bio
