-- ===== src/Tty/Tests.antt =====
-- kernel/chr_drv/tty_io.c with the settings of the console, and a line that is being typed.
use hit_os.Common.{
  ℕ, ◌≡◌, refl, ◌⊎◌, true, false, none, some, List, [], ◌∷◌, ◌++◌, arith, get_or, ◌<◌,
}
use hit_os.Common.Int.{pos}
use mathlib.Core.Option
use hit_os.TtyQueue.{TtyQueue, is_full, chars, putch}
use hit_os.TtyQueue.Fifo.{contents}
use hit_os.TtyQueue.Typed.{typed}
use hit_os.Tty.Defs.{Termios, Tty, copy_to_cooked, cook}
use hit_os.Tty.Line.{KeepsInput, disciplined}
use hit_os.Tty.Discipline.{copy_to_cooked-disciplined}
use hit_os.Tty.Output.{fill_queue, IsFilled, fill_queue-IsFilled}

abbrev settings : Termios
settings = record {
  c_iflag = 256;
  c_oflag = 5;
  c_lflag = 2571;
  c_cc = λ i. get_or (3 ∷ 28 ∷ 127 ∷ 21 ∷ 4 ∷ 0 ∷ 1 ∷ 0 ∷ 17 ∷ 19 ∷ 26 ∷ []) i 0;
  pgrp = pos 0;
}

abbrev queue : List ℕ → TtyQueue
queue [] = record { head = 0; tail = 0; buf = λ _. 0 }
queue (c ∷ l) = putch c (queue l)

-- The characters a, b, DEL, c and CR.
abbrev typing : Tty
typing = record {
  read_q = record { head = 5; tail = 0; buf = λ i. get_or (97 ∷ 98 ∷ 127 ∷ 99 ∷ 13 ∷ []) i 0 };
  write_q = record { head = 0; tail = 0; buf = λ _. 0 };
  secondary = record { head = 0; tail = 0; buf = λ _. 0 };
  lines = 0;
  stopped = false;
  proc_list = none;
  kernel = record { task = λ _. none; current = 0; jiffies = pos 0 };
}

-- `rs_write` lets the interrupt do the work.
abbrev write : Tty → Tty
write s = s

cooked :
    Option.map {B = List ℕ}
      (λ (s : Tty). typed s.secondary)
      (copy_to_cooked settings write 6 typing)
    ≡ some (10 ∷ 99 ∷ 97 ∷ [])
unfolding copy_to_cooked typed
cooked = refl

line_read : disciplined settings (97 ∷ 98 ∷ 127 ∷ 99 ∷ 13 ∷ []) [] ≡ 10 ∷ 99 ∷ 97 ∷ []
unfolding disciplined hit_os.Tty.Defs.translate
line_read = refl

write-KeepsInput : KeepsInput write
write-KeepsInput = record { read_q = λ s. refl; secondary = λ s. refl }

typing-chars : chars typing.read_q < 6
unfolding chars
typing-chars = omega arith

copy_to_cooked-disciplined_example :
    (s' : Tty) × (taken : List ℕ) × (copy_to_cooked settings write 6 typing ≡ some s')
    × (contents typing.read_q ≡ taken ++ contents s'.read_q)
    × (typed s'.secondary ≡ disciplined settings taken (typed typing.secondary))
    × ((contents s'.read_q ≡ []) ⊎ (is_full s'.secondary ≡ true))
copy_to_cooked-disciplined_example =
    copy_to_cooked-disciplined settings write write-KeepsInput 6 typing
      (record { head_in = omega arith; tail_in = omega arith })
      (record { head_in = omega arith; tail_in = omega arith }) typing-chars

fill_queue-IsFilled_example :
    IsFilled settings false
      (104 ∷ 10 ∷ [])
      typing.write_q
      (fill_queue settings 5 false (104 ∷ 10 ∷ []) typing.write_q)
fill_queue-IsFilled_example =
    fill_queue-IsFilled settings 5 false (104 ∷ 10 ∷ []) typing.write_q
      (record { head_in = omega arith; tail_in = omega arith }) (omega arith)
