-- ===== src/Lib.antt =====
-- The hit-os kernel (oslab/linux-0.11): a verification library.
--
-- The program is a Linux 0.11 kernel with the course's own system calls. One kernel stack runs at a
-- time, so each operation is a function from a state to a state; where a process sleeps on
-- a wait queue or in `waitpid`, its function is cut in two at that point, and interleavings are
-- sequences of steps. Waiting for a block, in `bread` and `getblk`, is not cut: it is one step.
--
-- Common: Boolean tests, loops, arrays as functions, the signed numbers of C, 32-bit masks.
-- `Outcome` is the result of code that may call `panic` or `do_exit`: `ok`, `panic` or `exits`.
--
-- Task: `struct task_struct` of oslab/linux-0.11/include/linux/sched.h.
--
-- Sched: oslab/linux-0.11/kernel/sched.c. A task is named by its slot in `task[]`. `schedule` is the
-- function `schedule`; its `while (1)` runs on fuel, and two rounds are enough where counters and
-- priorities are in range. `sleep_on` is cut at its call of `schedule` into `sleep_on` and
-- `sleep_on_resume`. The rest of the file's system calls are functions of the same names.
--
-- Timer: `add_timer` and the timers of `do_timer` in oslab/linux-0.11/kernel/sched.c. The list of
-- timers is a list in the order of `next_timer`.
--
-- Mm: oslab/linux-0.11/mm/memory.c. Memory is a function from the address of a 32-bit word to the
-- word, with the page directory at address 0, and `mem_map` a function from a page number to its
-- count. The loops over page tables are recursion on the number of entries that are left. Left out:
-- share_page and do_no_page, which read inodes and blocks, oom, and calc_mem, which prints.
--
-- Who: the system calls `iam` and `whoami` of oslab/linux-0.11/kernel/who.c, with user memory as a
-- function from the address to the byte.
--
-- Mktime: oslab/linux-0.11/kernel/mktime.c, against a calendar that counts day by day.
--
-- Files: oslab/linux-0.11/fs/fcntl.c, `sys_close` of oslab/linux-0.11/fs/open.c and `sys_pipe` of
-- oslab/linux-0.11/fs/pipe.c. A `struct file *` is the index of its entry in `file_table`, and an
-- inode is a number; what `get_pipe_inode` returns is an argument, and what `iput` gives back is
-- recorded. The searches are recursion on the number of entries that are left.
--
-- Ids: the calls of oslab/linux-0.11/kernel/sys.c that set ids, the session and the umask, as functions
-- on the current task. Left out: setpgid, brk, the clock calls and uname.
--
-- Kill: `send_sig` and `sys_kill` of oslab/linux-0.11/kernel/exit.c. The loop runs down the slots from
-- 63 to 1, and the current task is an argument.
--
-- TtyQueue: the queue macros of oslab/linux-0.11/include/linux/tty.h, as functions on the ring.
--
-- Console: `con_write` of oslab/linux-0.11/kernel/chr_drv/console.c, one character at a time, as
-- functions on the console's variables and the video memory. A subtraction of addresses that would go
-- below 0 does not occur on a screen that is in order. The writes to ports are left out.
--
-- Tty: `copy_to_cooked`, `tty_intr` and the inner loop of `tty_write` of
-- oslab/linux-0.11/kernel/chr_drv/tty_io.c. `tty->write` is an argument, as it is in the code. A byte
-- from 128 on is taken for no upper or lower case letter. The loops run on fuel; the number of
-- characters, and two rounds for each to be written, are enough.
--
-- Vsprintf: oslab/linux-0.11/kernel/vsprintf.c. What is written to the buffer is a list of bytes, the
-- arguments are a list of 32-bit words, and the strings they point to are given by a function. The
-- loop runs on fuel, a round for each byte of the format; behind the last argument lies a 0.
--
-- PipeIo: `read_pipe` and `write_pipe` of oslab/linux-0.11/fs/pipe.c. A call is cut at `sleep_on`, and
-- what is left of it is a call with what it still has to do. The user's memory is a list of bytes. The
-- loops run on fuel; one round more than the number of bytes is enough.
--
-- Signal: oslab/linux-0.11/kernel/signal.c. A `struct sigaction` of user memory is one value, and the
-- user's stack a function from the address of a 32-bit word to the word. Left out: verify_area.
--
-- Blocks: oslab/linux-0.11/fs/bitmap.c, for one device, whose super block, buffer counts and blocks
-- are the state. A bitmap is the function that its block holds. `words` is what `bread` gives for a
-- block, that of an up-to-date buffer or that of the disk; a block that is freed is read from the disk
-- again. `b_dirt` is left out. What `get_empty_inode` gives is an argument. No other process runs while
-- a function waits for a buffer.
--
-- Inode: `_bmap` of oslab/linux-0.11/fs/inode.c and oslab/linux-0.11/fs/truncate.c, on the blocks of
-- Blocks. A block that `bread` cannot read is one that is not `readable`. While `_bmap` reads an index
-- block, the count of its buffer is not raised: `new_block` sees that count only where it comes to the
-- very block, which a file system in order does not do. `truncate` counts it.
--
-- Requests: oslab/linux-0.11/kernel/blk_drv/ll_rw_blk.c and `end_request` of
-- oslab/linux-0.11/kernel/blk_drv/blk.h. A queue is the list of its requests, each with its place in
-- the array of 32. A call is cut at `sleep_on`; `request_fn` of a device is an argument.
--
-- Wait: `sys_waitpid`, `release`, `tell_father` and `kill_session` of
-- oslab/linux-0.11/kernel/exit.c, on the table of tasks of Sched. A call is cut at `schedule`.
--
-- Fork: `find_empty_process` of oslab/linux-0.11/kernel/fork.c. The search for a pid runs on fuel; a
-- round for each of 64 tasks, before and behind the wrap of the pid, is enough.
--
-- Not modelled: the assembly, the drivers and what only prints; the buffer cache, the table of inodes,
-- path names, execve, copy_process, and do_exit.
pub mod Common
pub mod Task
pub mod Sched
pub mod Timer
pub mod Mm
pub mod Who
pub mod Mktime
pub mod Files
pub mod Ids
pub mod Kill
pub mod TtyQueue
pub mod Console
pub mod Tty
pub mod Vsprintf
pub mod PipeIo
pub mod Signal
pub mod Blocks
pub mod Inode
pub mod Requests
pub mod Wait
pub mod Fork
