-- ===== src/Lib.antt =====
-- BF-Scheduler: an xv6 kernel whose scheduler keeps its runnable processes in a skip list,
-- ordered by virtual deadline, as the Brain Fuck Scheduler does.
--
-- - Common: Boolean tests, lists of indices, C's signed integers, and Outcome, the result of code
--   that may access an array out of bounds, panic, or loop.
-- - SkipList (proc.c, defs.h): the array of nodes; SkipList/Seed (random, slUpLevel), Search
--   (slSearch), Insert (slInsert, slFindFreeNode), Delete (slDelete). Shape says which arrays are
--   skip lists and which queue of (deadline, pid) each stands for. A C pointer to a node is its
--   index and the index -1 is none.
-- - Spinlock (spinlock.c): acquire, release, pushcli and popcli as one CPU sees them.
-- - Process (proc.c, proc.h, bfs.h): the process table under ptable.lock; Process/Deadline (the
--   virtual deadline), Scan (loops over the table), Section (critical sections), Alloc
--   (allocproc, nicefork, fork), Signal (wakeup, kill), Switch (sched, yield, sleep), Exit and
--   Wait.
-- - Scheduler (proc.c): one round of scheduler(), from the loop over the table to the choice of
--   the process that swtch enters.
-- - Sleeplock (sleeplock.c): sleep locks over Spinlock, Process/Switch and Process/Signal.
-- - Log (log.c): the redo log with commit and recovery; Log/Crash and Log/Atomic are about a
--   machine that fails between two writes.
-- - Pipe (pipe.c): runs of pipewrite and piperead; Pipe/Ring reads the ring as a queue.
-- - Files (file.c): the file table; Files/Table counts references, Files/Write says what contents
--   are after bytes are written. filewrite and fileread take readi and writei as arguments;
--   Contents/Transact gives filewrite the model of writei between begin_op and end_op, for a log
--   that no other operation uses, and Contents/Pieces is about its loop.
-- - Pages (kalloc.c): the free list of pages in memory; Pages/Range is about freerange.
-- - Blocks (fs.c): balloc and bfree on the bitmap of the disk, whose blocks are functions from
--   addresses to bytes.
-- - Contents (fs.c): the inode on the disk, bmap, readi, writei and itrunc; Contents/Calls bounds
--   the calls of log_write. Contents/Layout says which bytes a file holds and when its blocks are
--   laid out right; Grow and Map are about a new block, Put and Bytes about a write to a block,
--   Free about the loops of itrunc.
-- - Directories (fs.c): dirlookup and dirlink over readi, writei, iget and iput.
--   Directories/Entry says what the first entry of a name is, Slot and Filled are about the place
--   of a new one, Present about iget and iput of one that is there.
-- - Buffers (bio.c): the buffer cache with its list in order of use.
-- - Inodes (fs.c): iget, idup and iput on the inode cache. Paths (fs.c): skipelem and namex;
--   Paths/Elements says what the elements of a path are.
-- - Console (console.c): the line being typed, in its ring; Console/Line is the editor that
--   consoleintr implements, Keys and Read are about consoleintr and consoleread.
-- - Arguments (syscall.c): the arguments of system calls; Arguments/Bounds says which pointers
--   pass.
-- - System (sysproc.c, trap.c): system calls on processes, the clock, and the quantum of the
--   process that runs.
-- - Grep (grep.c): the matcher of regular expressions; Grep/Meaning says what an expression
--   matches.
-- - Library (printf.c, ulib.c): numbers in decimal, as user programs print and read them.
-- - Strings (string.c, x86.h): Strings/Move (memmove, memset), Copy (strncpy, safestrcpy),
--   Compare (strncmp).
--
-- Machine integers are natural numbers with their wrap-around written out. The walks of the skip
-- list have NPROC + 1 rounds of fuel, which is enough since each visits a node at most once. The
-- loops of balloc, readi and writei have a round for each block of the disk or each byte, and
-- each round passes at least one. A call of log_write in the block layer adds to a list; readi
-- and writei panic at their end if one of the calls in between found the log full (Disk.room
-- blocks) or no transaction open (room 0). balloc, bmap, bfree and itrunc alone do not see these
-- panics. The process ids and the counter nextpid do not wrap round. Arguments of debug prints
-- are evaluated: slInsert, slSearch and scheduler() read nodeList[-1] behind the last node;
-- SkipList.before stands for it, and no result depends on it. The buffer of printint has a place
-- for each of 16 characters. The results of kalloc and copyuvm and the values read from ticks are
-- arguments. Not modelled: the machine (assembly, page tables, devices), the system calls on
-- files and exec, the user programs but for grep, the host tool that writes disk images, and
-- prints for debugging.
pub mod Common
pub mod SkipList
pub mod Spinlock
pub mod Process
pub mod Scheduler
pub mod Sleeplock
pub mod Log
pub mod Pipe
pub mod Files
pub mod Pages
pub mod Blocks
pub mod Contents
pub mod Directories
pub mod Inodes
pub mod Paths
pub mod Arguments
pub mod System
pub mod Buffers
pub mod Console
pub mod Grep
pub mod Library
pub mod Strings
pub mod Tests
