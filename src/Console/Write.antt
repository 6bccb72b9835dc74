-- ===== src/Console/Write.antt =====
-- kernel/chr_drv/console.c: `con_write`, one character at a time.
use hit_os.Common.{
  ℕ, zero, suc, ◌+◌, ◌-◌, ◌*◌, ◌/◌, ◌%◌, ◌^◌, Bool, ◌&&◌, ◌||◌, ltb, leb, ◌==◌, if◌then◌else◌,
  update, for_up,
}
use hit_os.Common.Words.{add32, sub32}
use hit_os.Console.Defs.{
  Video, Console, gotoxy, lf, ri, del, csi_J, csi_K, insert_char, insert_line, delete_char,
  delete_line,
}

unfoldable pub cr : Console → Console
cr s = record s { pos = s.pos - s.x * 2; x = 0 }

-- while (nr--) f();
unfoldable pub repeat : ℕ → (Console → Console) → Console → Console
repeat zero f s = s
repeat (suc n) f s = repeat n f (f s)

-- The number of times that csi_at, csi_L, csi_P and csi_M act.
abbrev pub clamp : (limit nr : ℕ) → ℕ
clamp limit nr = if ltb limit nr then limit else if nr == 0 then 1 else nr

-- The attribute that parameter `p` of `csi_m` sets.
unfoldable pub attr_of : (p attr : ℕ) → ℕ
attr_of p attr =
    if p == 0
    then 0x07
    else if p == 1
    then 0x0f
    else if p == 4
    then 0x0f
    else if p == 7
    then 0x70
    else if p == 27
    then 0x07
    else attr

unfoldable pub csi_m : Console → Console
unfolding attr_of
csi_m s = record s { attr = for_up (s.npar + 1) 0 (λ i attr. attr_of (s.par i) attr) s.attr }

unfoldable pub save_cur : Console → Console
save_cur s = record s { saved_x = s.x; saved_y = s.y }

-- HZ / 8
unfoldable pub sysbeep : Console → Console
sysbeep s = record s { beepcount = 100 / 8 }

-- if (!par[0]) par[0]++;
unfoldable pub at_least_one : Console → Console
at_least_one s = record s { par = update s.par 0 (if s.par 0 == 0 then 1 else s.par 0) }

-- if (par[i]) par[i]--;
unfoldable pub less_one : ℕ → Console → Console
less_one i s = record s { par = update s.par i (s.par i - 1) }

module _ (v : Video) where
  unfoldable pub restore_cur : Console → Console
  unfolding gotoxy
  restore_cur s = gotoxy v s.saved_x s.saved_y s

  -- An `x` at the right margin goes to the next line.
  unfoldable pub wrap_line : Console → Console
  unfolding lf
  wrap_line s = lf v (record s { x = s.x - v.num_columns; pos = s.pos - v.size_row })

  -- The character and its attribute at the cursor, which moves on.
  unfoldable pub put_cell : ℕ → Console → Console
  put_cell c s = record s {
    mem = update s.mem s.pos (s.attr * 2 ^ 8 + c);
    pos = s.pos + 2;
    x = s.x + 1;
  }

  unfoldable pub put_char : ℕ → Console → Console
  unfolding wrap_line put_cell
  put_char c s = put_cell c (if leb v.num_columns s.x then wrap_line s else s)

  unfoldable pub back_space : Console → Console
  back_space s = if s.x == 0 then s else record s { x = s.x - 1; pos = s.pos - 2 }

  unfoldable pub tab : Console → Console
  unfolding wrap_line
  tab s =
      let c = 8 - s.x % 8 in
      let s' = record s { x = s.x + c; pos = s.pos + c * 2 } in
      if ltb v.num_columns (s.x + c) then wrap_line s' else s'

  -- State 0. `verase` is ERASE_CHAR(tty); a character from 128 on is negative, as a `char`.
  unfoldable pub plain_char : (verase c : ℕ) → Console → Console
  unfolding put_char back_space tab lf del sysbeep cr
  plain_char verase c s =
      if ltb 31 c && ltb c 127
      then put_char c s
      else if c == 27
      then record s { state = 1 }
      else if (c == 10) || (c == 11) || (c == 12)
      then lf v s
      else if c == 13
      then cr s
      else if (c == verase) && ltb c 128
      then del v s
      else if c == 8
      then back_space s
      else if c == 9
      then tab s
      else if c == 7
      then sysbeep s
      else s

  -- State 1, behind ESC; `respond` for ESC Z touches the queues of the terminal only.
  unfoldable pub escape_char : ℕ → Console → Console
  unfolding gotoxy ri lf save_cur restore_cur
  escape_char c s =
      let s' = record s { state = 0 } in
      if c == b'['
      then record s { state = 2 }
      else if c == b'E'
      then gotoxy v 0 (add32 s'.y 1) s'
      else if c == b'M'
      then ri v s'
      else if c == b'D'
      then lf v s'
      else if c == b'Z'
      then s'
      else if s'.x == b'7'
      then save_cur s'
      else if s'.x == b'8'
      then restore_cur s'
      else s'

  -- ESC [ ... r: the scroll region
  unfoldable pub set_region : Console → Console
  unfolding less_one
  set_region s =
      let s' = less_one 0 s in
      let bottom = if s'.par 1 == 0 then v.num_lines else s'.par 1 in
      let s'' = record s' { par = update s'.par 1 bottom } in
      if ltb (s''.par 0) bottom && leb bottom v.num_lines
      then record s'' { top = s''.par 0; bottom = bottom }
      else s''

  -- The commands that move the cursor.
  unfoldable pub move_command : ℕ → Console → Console
  unfolding gotoxy at_least_one less_one
  move_command c s =
      let one = at_least_one s in
      let less = less_one 0 s in
      let less2 = less_one 1 less in
      if (c == b'G') || (c == b'`')
      then gotoxy v (less.par 0) s.y less
      else if c == b'A'
      then gotoxy v s.x (sub32 s.y (one.par 0)) one
      else if (c == b'B') || (c == b'e')
      then gotoxy v s.x (add32 s.y (one.par 0)) one
      else if (c == b'C') || (c == b'a')
      then gotoxy v (add32 s.x (one.par 0)) s.y one
      else if c == b'D'
      then gotoxy v (sub32 s.x (one.par 0)) s.y one
      else if c == b'E'
      then gotoxy v 0 (add32 s.y (one.par 0)) one
      else if c == b'F'
      then gotoxy v 0 (sub32 s.y (one.par 0)) one
      else if c == b'd'
      then gotoxy v s.x (less.par 0) less
      else if (c == b'H') || (c == b'f')
      then gotoxy v (less2.par 1) (less2.par 0) less2
      else s

  abbrev pub csi_at : ℕ → Console → Console
  csi_at nr = repeat (clamp v.num_columns nr) (insert_char v)

  abbrev pub csi_L : ℕ → Console → Console
  csi_L nr = repeat (clamp v.num_lines nr) (insert_line v)

  abbrev pub csi_P : ℕ → Console → Console
  csi_P nr = repeat (clamp v.num_columns nr) (delete_char v)

  abbrev pub csi_M : ℕ → Console → Console
  csi_M nr = repeat (clamp v.num_lines nr) (delete_line v)

  -- The other commands.
  unfoldable pub edit_command : ℕ → Console → Console
  unfolding csi_J csi_K csi_m repeat insert_char insert_line delete_char delete_line set_region
      save_cur restore_cur
  edit_command c s =
      if c == b'J'
      then csi_J v (s.par 0) s
      else if c == b'K'
      then csi_K v (s.par 0) s
      else if c == b'L'
      then csi_L (s.par 0) s
      else if c == b'M'
      then csi_M (s.par 0) s
      else if c == b'P'
      then csi_P (s.par 0) s
      else if c == b'@'
      then csi_at (s.par 0) s
      else if c == b'm'
      then csi_m s
      else if c == b'r'
      then set_region s
      else if c == b's'
      then save_cur s
      else if c == b'u'
      then restore_cur s
      else s

  -- The two switches have no letter in common, and leave the console alone for other letters.
  unfoldable pub command : ℕ → Console → Console
  unfolding edit_command move_command
  command c s = edit_command c (move_command c s)

  -- States 3 and 4.
  unfoldable pub param_char : ℕ → Console → Console
  unfolding command
  param_char c s =
      if (c == b';') && ltb s.npar 15
      then record s { npar = s.npar + 1 }
      else if leb b'0' c && leb c b'9'
      then record s { par = update s.par s.npar ((10 * s.par s.npar + c - b'0') % 2 ^ 32) }
      else command c (record s { state = 0 })

  -- One character of `con_write`: what it does to the console.
  unfoldable pub con_char : (verase c : ℕ) → Console → Console
  unfolding plain_char escape_char param_char
  con_char verase c s =
      let start = record s { par = λ _. 0; npar = 0; state = 3; ques = c == b'?' } in
      if s.state == 0
      then plain_char verase c s
      else if s.state == 1
      then escape_char c s
      else if s.state == 2
      then (if c == b'?' then start else param_char c start)
      else if s.state == 3
      then param_char c s
      else if s.state == 4
      then command c (record s { state = 0 })
      else s

-- Whether that character also calls `respond`.
unfoldable pub asks : ℕ → Console → Bool
asks c s = (s.state == 1) && (c == b'Z')
