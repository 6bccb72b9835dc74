-- ===== src/Task.antt =====
-- include/linux/sched.h: `struct task_struct` and the values of its `state`, and the signal masks of
-- kernel/sched.c. The fields that the modelled code does not touch (registers, segment
-- descriptors, files) are left out.
use Prim.Native.Nat.{bit_and, bit_or}
use hit_os.Common.{ℕ, ◌^◌, Bool, true, false}
use hit_os.Common.Int.{ℤ}
use hit_os.Common.Words.{not32}

pub data TaskState : Type 0 where
  running interruptible uninterruptible zombie stopped : TaskState

-- `signal` and `blocked` are 32-bit maps, with bit n - 1 for signal n.
pub record Task : Type 0 where
  pub state : TaskState
  pub counter : ℤ
  pub priority : ℤ
  pub signal : ℕ
  pub blocked : ℕ
  pub exit_code : ℤ
  pub pid : ℤ
  pub father : ℤ
  pub pgrp : ℤ
  pub session : ℤ
  pub leader : ℤ
  pub uid : ℕ
  pub euid : ℕ
  pub suid : ℕ
  pub gid : ℕ
  pub egid : ℕ
  pub sgid : ℕ
  pub alarm : ℤ
  pub utime : ℤ
  pub stime : ℤ
  pub cutime : ℤ
  pub cstime : ℤ
  pub used_math : ℕ
  pub tty : ℤ
  pub umask : ℕ

abbrev pub is_running : TaskState → Bool
is_running running = true
is_running _ = false

abbrev pub is_interruptible : TaskState → Bool
is_interruptible interruptible = true
is_interruptible _ = false

abbrev pub sigalrm_bit : ℕ
sigalrm_bit = 2 ^ 13

-- _S(SIGKILL) | _S(SIGSTOP), complemented
abbrev pub blockable : ℕ
blockable = not32 (bit_or (2 ^ 8) (2 ^ 18))

-- signal & ~(_BLOCKABLE & blocked)
abbrev pub deliverable : Task → ℕ
deliverable t = bit_and t.signal (not32 (bit_and blockable t.blocked))
