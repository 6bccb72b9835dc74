-- ===== src/TtyQueue.antt =====
-- include/linux/tty.h: the character queues of the terminals, rings of 1024 bytes.
pub mod Fifo
pub mod Typed
mod Tests
use hit_os.Common.{ℕ, ◌%◌, ◌^◌, ◌+◌, ◌-◌, Bool, ◌==◌, if◌then◌else◌, update}
use hit_os.Common.Words.{add32, sub32}

-- `head`, `tail` and `buf` of `struct tty_queue`; the macros below use no other field.
pub record TtyQueue : Type 0 where
  pub head : ℕ
  pub tail : ℕ
  pub buf : ℕ → ℕ

-- x & (TTY_BUF_SIZE - 1)
abbrev pub in_ring : ℕ → ℕ
in_ring x = x % 2 ^ 10

abbrev pub inc : ℕ → ℕ
inc a = in_ring (add32 a 1)

abbrev pub dec : ℕ → ℕ
dec a = in_ring (sub32 a 1)

unfoldable pub is_empty : TtyQueue → Bool
is_empty q = q.head == q.tail

unfoldable pub left : TtyQueue → ℕ
left q = in_ring (sub32 (sub32 q.tail q.head) 1)

unfoldable pub last : TtyQueue → ℕ
last q = q.buf (in_ring (sub32 q.head 1))

unfoldable pub is_full : TtyQueue → Bool
unfolding left
is_full q = left q == 0

unfoldable pub chars : TtyQueue → ℕ
chars q = in_ring (sub32 q.head q.tail)

unfoldable pub getch : TtyQueue → ℕ × TtyQueue
getch q = (q.buf q.tail, record q { tail = inc q.tail })

unfoldable pub putch : ℕ → TtyQueue → TtyQueue
putch c q = record q { buf = update q.buf q.head c; head = inc q.head }

-- `DEC(q.head)`, by which the line discipline takes the last character back.
unfoldable pub unput : TtyQueue → TtyQueue
unput q = record q { head = dec q.head }
