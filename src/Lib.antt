-- ===== src/Lib.antt =====
-- Noxis, a 64-bit kernel in C: a model of its core and the theorems that make it correct.
--
-- The parts and how they interact. The scheduler runs one process at a time; the keyboard's interrupt
-- and kill mark signals, which are delivered on the way back to a user program; a process reads and
-- writes through descriptors, some of which are the ends of pipes shared by fork and dup; the physical
-- memory manager hands out the frames on which all of them live; the block layer moves sectors, on which
-- the file system keeps inodes and directories; the heap gives it the memory for files. The user programs
-- work on what they read through the calls.
--
-- - Prelude.antt and Prelude/: library names, tests on numbers, lists by native numbers, C arrays as
--   functions of the index, the bits of machine words, ring buffers.
-- - Pmm.antt: src/mm/phys/pmm.c, the bitmap of frames and their reference counts. Pmm/Bitmap is about
--   bits and counting, Pmm/Alloc about allocation and the invariant, Pmm/Refcount about references,
--   Pmm/Init about pmm_init.
-- - Pipe.antt: src/proc/pipe.c. pipe_read and pipe_write yield while they wait; what other processes do
--   to the pipe at each yield is a list of functions, and a wait behind its end is the outcome
--   `blocked`. Pipe/Fifo is about the bytes in the ring, Pipe/Reads and Pipe/Writes about the bytes the calls
--   move, Pipe/Returns about how the calls end.
-- - Fd.antt: the table of src/proc/fd.c, sys_pipe of src/proc/pipe.c, and the descriptor loops of
--   sys_fork and sys_exit in src/proc/syscalls.c, over the pool of pipes. Fd/Ends states what an exact
--   reference count is, Fd/Exact and Fd/Fork are about the calls.
-- - Sched.antt: src/proc/scheduler.c. The two intrusive lists are links in a store of processes.
--   Sched/Queue is about the ready list, Sched/Turns about scheduler_yield, Sched/All about the list of all
--   processes.
-- - Signal.antt: src/proc/signal.c; Signal/Delivery says which signal a delivery takes.
-- - Env.antt: the environment calls of src/proc/syscalls.c; Env/Lookup, Env/Calls and Env/Valid.
-- - Paths.antt: path_split, path_resolve_str and sys_getcwd of src/proc/syscalls.c; Paths/Split and
--   Paths/Resolve.
-- - Block.antt: src/drivers/block/block.c, with a driver's transfer as a parameter; Block/Elevator and
--   Block/Transfer.
-- - Reading.antt: the loops of sys_read in src/proc/fd.c; Reading/Slices is about files, Reading/Line and
--   Reading/Raw about the console's two modes.
-- - Kbd.antt: src/drivers/kbd.c; Kbd/Queue is about the ring, Kbd/Keys about the handler.
-- - Heap.antt: src/mm/virt/heap.c, the list of blocks. Heap/Tiling states how they lie, Heap/FirstFit is
--   about the block kmalloc takes, Heap/Kept and Heap/Freed about kmalloc and kfree and the tiling,
--   Heap/Returned about the two together.
-- - Arena.antt: src/mm/arena.c over the heap of Heap.antt. Arena/Chunks is about _block_new, Arena/Apart
--   states that blocks and allocations do not overlap, Arena/Allocated is about arena_alloc, Arena/Returned
--   about the heap after arena_destroy. Heap/Places is about where the blocks of the heap in use lie.
-- - Noxfs.antt and Noxfs/: src/fs/noxfs/noxfs.c and noxfs.h. Noxfs/Layout has the records and their bytes,
--   Noxfs/Alloc the bitmaps and the table of inodes, Noxfs/Blocks the block map with load and store,
--   Noxfs/Dir the directories and paths, Noxfs/Cached the files in memory, Noxfs/Names unlink, rename,
--   rmdir, stat and chmod. Below these, Layout/Codec and Layout/Agree are about the bytes of inodes,
--   Alloc/Scanning and Alloc/Bitmap about bits, Alloc/Table about inodes, Blocks/Stored and Blocks/Loaded
--   about the bytes of a file, Dir/Entries, Dir/Removed and
--   Dir/Resolve about directories and paths, Names/Mode about chmod.
-- - Buffers.antt: src/fs/noxfs/buffer.c, the cache of blocks between noxfs and the block layer, with
--   blk_rw's success as a parameter. Buffers/Chains is about the links of the hash chains, Buffers/Kept
--   states what a good cache is and what a block holds, Buffers/Forgotten, Buffers/Filled and Buffers/Disk
--   are about bread.
-- - Noxlib.antt and Noxlib/: src/lib/noxlib/noxlib.h. Noxlib/Readline is the line editor (Moves is about
--   its loops over the buffer, Lines states an editor of two strings, Rows, Keys and Refined show that the
--   keys refine it, Session is about whole lines),
--   Noxlib/Number has strtol and puti (RoundTrip), Noxlib/Format has vsnprintf (Whole is about
--   the rounds without the bound, Text about the directives one after the other, Numeral about digits,
--   Spelled about how a directive is written, Formats about the text that a format stands for).
-- - Nsh.antt: the parser and the search for ends of blocks of src/bin/nsh/nsh.c; Nsh/Words and Nsh/Blocks.
-- - Tools.antt and Tools/: the programs sort, tail, grep, test, wc, head and echo of src/bin, with the
--   string helpers of src/lib/noxlib/noxlib.h in Tools/Text. Sort/Order, Tail/Last and Grep/Selected are
--   about what the first three do, Grep/Found about strstr.
--
-- Numbers are natural numbers with the wrap-around of the C type written out where the code can reach
-- it: the free count of frames and the count of served requests wrap, a reference count is a byte. The
-- counts of processes at a pipe and the links of lists are far below their bounds. What C leaves undefined,
-- the overflow of a signed number in strtol, puti or the width of a format, is not modelled, and the theorems
-- stay below it.
--
-- Rounds: a loop over an array has as many rounds as the array has entries. The walks over the list of
-- all processes take their rounds as an argument. The elevator and the queue it feeds have 16 rounds,
-- one for each slot. A read of the console takes the keys as a list. The loop over
-- the components of a path has one round for each byte. In the file system, a loop over the bits, bytes
-- and blocks of a bitmap, over the entries of a directory or over the blocks of a file has as many rounds
-- as there are of these. A walk of a hash chain has 16 rounds, one for each buffer. In user programs,
-- parse has one round for each byte of the line and vsnprintf one for each byte of the format, the loop
-- over digits has 24, the places of its buffer, and readline one for each byte it can read: it gives no
-- result where the bytes end before a return key, where the program would wait. A call of kmalloc in noxfs is a function from the count to what the memory holds.
--
-- Not modelled: what the machine does at a switch of context, port access, the serial log, and the
-- parts of the kernel that the files above do not name: virtual memory, exec, the other file systems.
-- In the file system, the reads from the drive behind a buffer cache without a free buffer are left out:
-- it holds at most three of the sixteen buffers at once.

pub mod Prelude
pub mod Pmm
pub mod Pipe
pub mod Kbd
pub mod Fd
pub mod Sched
pub mod Signal
pub mod Env
pub mod Paths
pub mod Arena
pub mod Block
pub mod Reading
pub mod Heap
pub mod Noxfs
pub mod Tools
pub mod Noxlib
pub mod Buffers
pub mod Nsh
