-- ===== src/PipeIo/Defs.antt =====
-- fs/pipe.c: `read_pipe` and `write_pipe`, and the macros of include/linux/fs.h. A call is cut at
-- `sleep_on`: what is left of it goes on from the same loop. The bytes that a reader is given and those
-- that a writer has left are lists.
use Prim.Native.Nat.{min, bit_or}
use hit_os.Common.{
  ℕ, zero, suc, ◌+◌, ◌-◌, ◌%◌, ◌^◌, not, Option, none, some, List, [], ◌∷◌, ◌++◌, length, ◌==◌,
  if◌then◌else◌, update, Outcome, ok, panic, exits,
}
use hit_os.Common.Int.{ℤ, pos, negsuc}
use hit_os.Common.Words.{sub32}
use hit_os.Task.{Task}
use hit_os.Sched.{
  Kernel, WaitQueue, SleepCall, returned, asleep, sleep_on, sleep_on_resume, wake_up,
  modify_current,
}

-- The fields of the inode, and the page at `i_size`; the rest of the kernel for the wait queue.
pub record Pipe : Type 0 where
  pub page : ℕ → ℕ
  pub head : ℕ
  pub tail : ℕ
  pub i_count : ℕ
  pub i_wait : WaitQueue
  pub kernel : Kernel

abbrev pub page_size : ℕ
page_size = 2 ^ 12

unfoldable pub pipe_size : Pipe → ℕ
pipe_size p = sub32 p.head p.tail % page_size

-- wake_up(&inode->i_wait)
unfoldable pub wake_others : Pipe → Pipe
unfolding wake_up
wake_others p =
    let (k, queue) = wake_up (some p.i_wait) p.kernel in
    record p { kernel = k; i_wait = elim queue [ some q ↦ q | none ↦ p.i_wait ] }

-- How far a call has come: it returns; it sleeps, with what `sleep_on` keeps on its stack, and goes on
-- from the loop; or `sleep_on` has called `panic`.
pub data Progress : Type 0 where
  returns : ℤ → Progress
  sleeps : (tmp : WaitQueue) → Progress
  panics : Progress

abbrev pub slept : Outcome SleepCall → Pipe → Progress × Pipe
slept (ok returned) p = (sleeps none, p)
slept (ok (asleep k queue tmp)) p = (sleeps tmp, record p { kernel = k; i_wait = queue })
slept panic p = (panics, p)
slept exits p = (panics, p)

-- sleep_on(&inode->i_wait), up to its call of `schedule`; the address is not NULL.
unfoldable pub wait : Pipe → Progress × Pipe
unfolding sleep_on
wait p = slept (sleep_on (some p.i_wait) p.kernel) p

-- The rest of `sleep_on`, when the task runs again.
unfoldable pub wait_over : (tmp : WaitQueue) → Pipe → Pipe
unfolding sleep_on_resume
wait_over tmp p = record p { kernel = sleep_on_resume tmp p.kernel }

-- The bytes of the page from place `from` on.
unfoldable pub get_bytes : (n : ℕ) (page : ℕ → ℕ) (from : ℕ) → List ℕ
get_bytes zero page from = []
get_bytes (suc n) page from = page from ∷ get_bytes n page (suc from)

abbrev pub read_chars : ℕ → Pipe → ℕ
read_chars count p = min (min (page_size - p.tail) count) (pipe_size p)

unfoldable pub read_chunk : ℕ → Pipe → List ℕ × Pipe
unfolding pipe_size get_bytes
read_chunk count p =
    let chars = read_chars count p in
    (get_bytes chars p.page p.tail, record p { tail = (p.tail + chars) % page_size })

-- The loop, on fuel: `buf` has been given to the user, `count` bytes are wanted still. In the result
-- stand how far the call has come, what the user has, how many bytes are wanted still, and the pipe.
unfoldable pub read_pipe :
    (fuel count : ℕ) (buf : List ℕ) → Pipe → Option (Progress × List ℕ × ℕ × Pipe)
unfolding wake_others wait read_chunk pipe_size
read_pipe zero count buf p = none
read_pipe (suc fuel) count buf p =
    let (chunk, p') = read_chunk count p in
    let rest = read_pipe fuel (count - length chunk) (buf ++ chunk) p' in
    let w = wake_others p in
    let (progress, sleeper) = wait w in
    if count == 0
    then some (returns (pos (length buf)), buf, count, w)
    else if not (pipe_size p == 0)
    then rest
    else if not (w.i_count == 2)
    then some (returns (pos (length buf)), buf, count, w)
    else some (progress, buf, count, sleeper)

-- The loop that copies `n` bytes of the user to the page, and what it leaves of them.
unfoldable pub put_chars : (n : ℕ) (page : ℕ → ℕ) (to : ℕ) → List ℕ → (ℕ → ℕ) × List ℕ
put_chars zero page to buf = (page, buf)
put_chars (suc n) page to [] = (page, [])
put_chars (suc n) page to (c ∷ buf) = put_chars n (update page to c) (suc to) buf

abbrev pub write_chars : ℕ → Pipe → ℕ
write_chars count p = min (min (page_size - p.head) count) (page_size - 1 - pipe_size p)

unfoldable pub write_chunk : List ℕ → Pipe → List ℕ × Pipe
unfolding pipe_size put_chars
write_chunk buf p =
    let chars = write_chars (length buf) p in
    let (page, rest) = put_chars chars p.page p.head buf in
    (rest, record p { page = page; head = (p.head + chars) % page_size })

-- SIGPIPE for the current task
abbrev pub broken : Pipe → Pipe
broken p = record p {
  kernel = modify_current (λ (t : Task). record t { signal = bit_or t.signal (2 ^ 12) }) p.kernel;
}

-- The loop, on fuel: `written` bytes are in the pipe, and `buf` is left.
unfoldable pub write_pipe :
    (fuel : ℕ) (buf : List ℕ) (written : ℕ) → Pipe → Option (Progress × List ℕ × ℕ × Pipe)
unfolding wake_others wait write_chunk pipe_size
write_pipe zero buf written p = none
write_pipe (suc fuel) buf written p =
    let (left, p') = write_chunk buf p in
    let rest = write_pipe fuel left (written + (length buf - length left)) p' in
    let w = wake_others p in
    let (progress, sleeper) = wait w in
    if length buf == 0
    then some (returns (pos written), buf, written, w)
    else if not (pipe_size p == page_size - 1)
    then rest
    else if not (w.i_count == 2)
    then some (returns (if written == 0 then negsuc 0 else pos written), buf, written, broken w)
    else some (progress, buf, written, sleeper)
