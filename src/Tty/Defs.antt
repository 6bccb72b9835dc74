-- ===== src/Tty/Defs.antt =====
-- kernel/chr_drv/tty_io.c: the line discipline. A character is a byte; as a `signed char` one from
-- 128 on is negative, so that it is less than 32 and equals no control character of `c_cc`.
use Prim.Native.Nat.{bit_or}
use hit_os.Common.{
  ℕ, zero, suc, ◌+◌, ◌-◌, ◌%◌, ◌^◌, Bool, true, false, ◌&&◌, ◌||◌, not, Option, none, some, ltb,
  leb, ◌==◌, if◌then◌else◌, for_up, rewrite_at,
}
use mathlib.Core.Option
use hit_os.Common.Int.{ℤ, pos, ltz, eqz}
use hit_os.Common.Words.{bit_at, add32}
use hit_os.Task.{Task}
use hit_os.Sched.{Kernel, WaitQueue, wake_up}
use hit_os.TtyQueue.{TtyQueue, is_empty, is_full, last, getch, putch, unput}

-- The flags of `struct termios` that the code reads, its control characters, and `pgrp`.
pub record Termios : Type 0 where
  pub c_iflag : ℕ
  pub c_oflag : ℕ
  pub c_lflag : ℕ
  pub c_cc : ℕ → ℕ
  pub pgrp : ℤ

-- The queues of one `struct tty_struct`, `secondary.data`, `stopped`, the list of those who wait for
-- `secondary`, and the tasks.
pub record Tty : Type 0 where
  pub read_q : TtyQueue
  pub write_q : TtyQueue
  pub secondary : TtyQueue
  pub lines : ℕ
  pub stopped : Bool
  pub proc_list : WaitQueue
  pub kernel : Kernel

abbrev pub is_set : ℕ → ℕ → Bool
is_set flags k = bit_at flags k == 1

-- `c == cc` and `c < 32` for a `signed char c` and an `unsigned char cc`
abbrev pub is_char : ℕ → ℕ → Bool
is_char c cc = (c == cc) && ltb c 128

abbrev pub is_low : ℕ → Bool
is_low c = ltb c 32 || leb 128 c

-- tolower(c) of include/ctype.h
abbrev pub to_lower : ℕ → ℕ
to_lower c = if leb b'A' c && leb c b'Z' then c + 32 else c

abbrev pub to_upper : ℕ → ℕ
to_upper c = if leb b'a' c && leb c b'z' then c - 32 else c

-- wake_up(&tty->secondary.proc_list)
unfoldable pub wake_readers : Tty → Tty
unfolding wake_up
wake_readers s =
    let (k, q) = wake_up (some s.proc_list) s.kernel in
    record s { kernel = k; proc_list = Option.get_or q s.proc_list }

module _ (t : Termios) where
  abbrev pub l_isig : Bool
  l_isig = is_set t.c_lflag 0

  abbrev pub l_canon : Bool
  l_canon = is_set t.c_lflag 1

  abbrev pub l_echo : Bool
  l_echo = is_set t.c_lflag 3

  abbrev pub l_echoctl : Bool
  l_echoctl = is_set t.c_lflag 9

  -- The changes of CR, NL and case; `none` for a CR that is dropped.
  unfoldable pub translate : ℕ → Option ℕ
  translate c =
      let lower = λ (c : ℕ). if is_set t.c_iflag 9 then to_lower c else c in
      if c == 13
      then (if is_set t.c_iflag 8
          then some (lower 10)
          else if is_set t.c_iflag 7
          then none
          else some (lower 13))
      else if (c == 10) && is_set t.c_iflag 6
      then some (lower 13)
      else some (lower c)

  -- The last character of `secondary` ends a line that is done.
  abbrev pub ends_line : ℕ → Bool
  ends_line c = (c == 10) || is_char c (t.c_cc 4)

  -- `tty_intr`
  unfoldable pub tty_intr : (mask : ℕ) → Kernel → Kernel
  tty_intr mask k =
      let signal =
        λ (p : Task). if eqz p.pgrp t.pgrp then record p { signal = bit_or p.signal mask } else p in
      if not (ltz (pos 0) t.pgrp)
      then k
      else record k { task = for_up 64 0 (rewrite_at (Option.map signal)) k.task }

  -- `write` is what `tty->write` does.
  module _ (write : Tty → Tty) where
    -- The echo of a character that is taken back.
    unfoldable pub echo_erase : ℕ → Tty → Tty
    echo_erase c s =
        let q = if is_low c then putch 127 s.write_q else s.write_q in
        if l_echo then write (record s { write_q = putch 127 q }) else s

    unfoldable pub drop_last : ℕ → Tty → Tty
    unfolding echo_erase unput
    drop_last c s = let s' = echo_erase c s in record s' { secondary = unput s'.secondary }

    -- KILL_CHAR, on fuel: each round takes a character of the line back.
    unfoldable pub kill_line : ℕ → Tty → Option Tty
    unfolding drop_last is_empty last
    kill_line zero s = none
    kill_line (suc fuel) s = elim (is_empty s.secondary || ends_line (last s.secondary)) [
      | true ↦ some s
      | false ↦ kill_line fuel (drop_last (last s.secondary) s)
    ]

    -- ERASE_CHAR
    unfoldable pub erase_char : Tty → Tty
    unfolding drop_last is_empty last
    erase_char s =
        if is_empty s.secondary || ends_line (last s.secondary)
        then s
        else drop_last (last s.secondary) s

    -- The echo of a character that is kept.
    unfoldable pub echo : ℕ → Tty → Tty
    unfolding putch
    echo c s =
        let q =
          if c == 10
          then putch 13 (putch 10 s.write_q)
          else if is_low c
          then (if l_echoctl then putch ((c + 64) % 2 ^ 8) (putch b'^' s.write_q) else s.write_q)
          else putch c s.write_q in
        if l_echo then write (record s { write_q = q }) else s

    -- The end of the loop's body: the character goes to `secondary`.
    unfoldable pub keep_char : ℕ → Tty → Tty
    unfolding echo putch
    keep_char c s =
        let s' = echo c (record s { lines = if ends_line c then add32 s.lines 1 else s.lines }) in
        record s' { secondary = putch c s'.secondary }

    -- INTMASK and QUITMASK are the bits of SIGINT (2) and SIGQUIT (3).
    unfoldable pub signal_char : ℕ → Tty → Tty
    unfolding keep_char tty_intr
    signal_char c s =
        if l_isig && is_char c (t.c_cc 0)
        then record s { kernel = tty_intr 2 s.kernel }
        else if l_isig && is_char c (t.c_cc 1)
        then record s { kernel = tty_intr 4 s.kernel }
        else keep_char c s

    -- The loop's body behind the translation.
    unfoldable pub cook_char : (fuel c : ℕ) → Tty → Option Tty
    unfolding kill_line erase_char signal_char
    cook_char fuel c s =
        if l_canon && is_char c (t.c_cc 3)
        then kill_line fuel s
        else if l_canon && is_char c (t.c_cc 2)
        then some (erase_char s)
        else if l_canon && is_char c (t.c_cc 9)
        then some (record s { stopped = true })
        else if l_canon && is_char c (t.c_cc 8)
        then some (record s { stopped = false })
        else some (signal_char c s)

    -- The loop of `copy_to_cooked`, on fuel for its rounds and for those of `kill_line`.
    unfoldable pub cook : ℕ → Tty → Option Tty
    unfolding translate cook_char is_empty is_full getch
    cook zero s = none
    cook (suc fuel) s =
        let (c, q) = getch s.read_q in
        let s' = record s { read_q = q } in
        elim (is_empty s.read_q || is_full s.secondary) [
          | true ↦ some s
          | false ↦ elim (translate c) [
            | none ↦ cook fuel s'
            | some c ↦ elim (cook_char 1024 c s') [ none ↦ none | some s'' ↦ cook fuel s'' ]
          ]
        ]

    unfoldable pub copy_to_cooked : ℕ → Tty → Option Tty
    unfolding cook wake_readers
    copy_to_cooked fuel s = Option.map wake_readers (cook fuel s)
