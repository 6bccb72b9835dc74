-- ===== src/Console/Tests.antt =====
-- kernel/chr_drv/console.c on a screen of three lines of eight columns, with room for one more line.
use hit_os.Common.{ℕ, ◌+◌, ◌*◌, ◌≡◌, refl, true, false, List, [], ◌∷◌, arith}
use hit_os.Console.Defs.{Video, Console, scrup}
use hit_os.Console.Write.{con_char}
use hit_os.Console.Safe.{IsVideo, IsScreen, IsSafe}
use hit_os.Console.Stays.{con_chars, con_chars-IsSafe}
use hit_os.Console.Scroll.{cell, scrolled, scrup-cell}

abbrev small : Video
small = record {
  fast_scroll = true;
  num_columns = 8;
  size_row = 16;
  num_lines = 3;
  mem_start = 1000;
  mem_end = 1064;
  erase_char = 0x720;
}

abbrev blank : Console
blank = record {
  origin = 1000;
  scr_end = 1048;
  pos = 1000;
  x = 0;
  y = 0;
  top = 0;
  bottom = 3;
  state = 0;
  npar = 0;
  par = λ _. 0;
  ques = false;
  attr = 7;
  saved_x = 0;
  saved_y = 0;
  beepcount = 0;
  mem = λ _. 0x720;
}

small-IsVideo : IsVideo small
small-IsVideo = omega arith

blank-IsScreen : IsScreen small blank
blank-IsScreen = omega arith

-- ESC [ 2 ; 3 H A
abbrev moves : List ℕ
moves = 27 ∷ b'[' ∷ b'2' ∷ b';' ∷ b'3' ∷ b'H' ∷ b'A' ∷ []

put_A : (con_chars small 127 moves blank).mem (1000 + 16 + 4) ≡ 7 * 256 + b'A'
unfolding con_chars con_char
put_A = refl

cursor_A : ((con_chars small 127 moves blank).x ≡ 3) × ((con_chars small 127 moves blank).y ≡ 1)
unfolding con_chars con_char
cursor_A = (refl, refl)

-- Three line feeds scroll by one line: the origin moves, and the next time the screen is moved back.
scrolls : (con_chars small 127 (10 ∷ 10 ∷ 10 ∷ []) blank).origin ≡ 1016
unfolding con_chars con_char
scrolls = refl

scrolls_back : (con_chars small 127 (10 ∷ 10 ∷ 10 ∷ 10 ∷ []) blank).origin ≡ 1000
unfolding con_chars con_char
scrolls_back = refl

-- ESC 7 does not save the cursor: the code compares its column.
no_save : (con_chars small 127 (b'A' ∷ 27 ∷ b'7' ∷ []) blank).saved_x ≡ 0
unfolding con_chars con_char
no_save = refl

con_chars-IsSafe_example : IsSafe small blank.mem (con_chars small 127 moves blank)
con_chars-IsSafe_example = con_chars-IsSafe small 127 moves blank small-IsVideo blank-IsScreen

scrup-cell_example : cell small (scrup small blank) 1 2 ≡ scrolled small blank 1 2
scrup-cell_example =
    scrup-cell small small-IsVideo 4 refl blank blank-IsScreen 1 2 (omega arith) (omega arith)
