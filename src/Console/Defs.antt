-- ===== src/Console/Defs.antt =====
-- kernel/chr_drv/console.c: the state of the console, scrolling and erasing. Addresses and sizes are
-- in bytes; `mem` is the video memory, from the address of a character cell to its 16 bits. The port
-- writes of `set_origin` and `set_cursor` leave no trace in this state.
use hit_os.Common.{
  ℕ, zero, suc, ◌+◌, ◌-◌, ◌*◌, ◌/◌, Bool, ◌&&◌, ◌||◌, ltb, leb, ◌==◌, if◌then◌else◌, update,
}

-- What `con_init` sets for good. `fast_scroll` is the test for EGA and VGA.
pub record Video : Type 0 where
  pub fast_scroll : Bool
  pub num_columns : ℕ
  pub size_row : ℕ
  pub num_lines : ℕ
  pub mem_start : ℕ
  pub mem_end : ℕ
  pub erase_char : ℕ

pub record Console : Type 0 where
  pub origin : ℕ
  pub scr_end : ℕ
  pub pos : ℕ
  pub x : ℕ
  pub y : ℕ
  pub top : ℕ
  pub bottom : ℕ
  pub state : ℕ
  pub npar : ℕ
  pub par : ℕ → ℕ
  pub ques : Bool
  pub attr : ℕ
  pub saved_x : ℕ
  pub saved_y : ℕ
  pub beepcount : ℕ
  pub mem : ℕ → ℕ

-- rep stosw: `count` cells from `start` on
abbrev pub fill : (start count cell : ℕ) → (ℕ → ℕ) → ℕ → ℕ
fill start count cell mem a = if leb start a && ltb a (start + count * 2) then cell else mem a

-- rep movsl, of `count` double words, in the direction in which an overlap does no harm
abbrev pub move : (from to count : ℕ) → (ℕ → ℕ) → ℕ → ℕ
move from to count mem a = if leb to a && ltb a (to + count * 4) then mem (a - to + from) else mem a

-- The double words of the lines from `top` to `bottom`, less one
abbrev pub line_words : Video → ℕ → ℕ → ℕ
line_words v top bottom = (bottom - top - 1) * v.num_columns / 2

-- The loop of `insert_char`, for the `n` cells from `p` on.
unfoldable pub insert_cells : (n p old : ℕ) → (ℕ → ℕ) → ℕ → ℕ
insert_cells zero p old mem = mem
insert_cells (suc n) p old mem = insert_cells n (p + 2) (mem p) (update mem p old)

module _ (v : Video) where
  unfoldable pub gotoxy : (new_x new_y : ℕ) → Console → Console
  gotoxy new_x new_y s =
      if ltb v.num_columns new_x || leb v.num_lines new_y
      then s
      else record s { x = new_x; y = new_y; pos = s.origin + new_y * v.size_row + new_x * 2 }

  -- `scrup` by moving the lines of the scroll region.
  unfoldable pub scroll_lines : Console → Console
  scroll_lines s =
      let to = s.origin + v.size_row * s.top in
      let count = line_words v s.top s.bottom in
      record s {
        mem =
            fill (to + count * 4) v.num_columns v.erase_char
              (move (s.origin + v.size_row * (s.top + 1)) to count s.mem);
      }

  -- `scrup` by moving the origin, with the screen copied to the start if the memory ends.
  unfoldable pub scroll_origin : Console → Console
  scroll_origin s =
      let origin = s.origin + v.size_row in
      let count = (v.num_lines - 1) * v.num_columns / 2 in
      if ltb v.mem_end (s.scr_end + v.size_row)
      then record s {
        mem =
            fill (v.mem_start + count * 4) v.num_columns v.erase_char
              (move origin v.mem_start count s.mem);
        scr_end = s.scr_end + v.size_row - (origin - v.mem_start);
        pos = s.pos + v.size_row - (origin - v.mem_start);
        origin = v.mem_start;
      }
      else record s {
        mem = fill s.scr_end v.num_columns v.erase_char s.mem;
        scr_end = s.scr_end + v.size_row;
        pos = s.pos + v.size_row;
        origin = origin;
      }

  unfoldable pub scrup : Console → Console
  unfolding scroll_origin scroll_lines
  scrup s =
      if v.fast_scroll && (s.top == 0) && (s.bottom == v.num_lines)
      then scroll_origin s
      else scroll_lines s

  -- Both branches of the test for EGA are the same code.
  unfoldable pub scrdown : Console → Console
  scrdown s =
      let count = line_words v s.top s.bottom in
      let to = s.origin + v.size_row * s.bottom - count * 4 in
      let from = s.origin + v.size_row * (s.bottom - 1) - count * 4 in
      record s {
        mem = fill (to - v.num_columns * 2) v.num_columns v.erase_char (move from to count s.mem);
      }

  unfoldable pub lf : Console → Console
  unfolding scrup
  lf s =
      if ltb (s.y + 1) s.bottom then record s { y = s.y + 1; pos = s.pos + v.size_row } else scrup s

  unfoldable pub ri : Console → Console
  unfolding scrdown
  ri s = if ltb s.top s.y then record s { y = s.y - 1; pos = s.pos - v.size_row } else scrdown s

  unfoldable pub del : Console → Console
  del s =
      if s.x == 0
      then s
      else record s { pos = s.pos - 2; x = s.x - 1; mem = update s.mem (s.pos - 2) v.erase_char }

  unfoldable pub erase : (start count : ℕ) → Console → Console
  erase start count s = record s { mem = fill start count v.erase_char s.mem }

  unfoldable pub csi_J : ℕ → Console → Console
  unfolding erase
  csi_J par s =
      if par == 0
      then erase s.pos ((s.scr_end - s.pos) / 2) s
      else if par == 1
      then erase s.origin ((s.pos - s.origin) / 2) s
      else if par == 2
      then erase s.origin (v.num_columns * v.num_lines) s
      else s

  unfoldable pub csi_K : ℕ → Console → Console
  unfolding erase
  csi_K par s =
      if par == 0
      then (if leb v.num_columns s.x then s else erase s.pos (v.num_columns - s.x) s)
      else if par == 1
      then erase (s.pos - s.x * 2) (if ltb s.x v.num_columns then s.x else v.num_columns) s
      else if par == 2
      then erase (s.pos - s.x * 2) v.num_columns s
      else s

  unfoldable pub insert_char : Console → Console
  unfolding insert_cells
  insert_char s = record s { mem = insert_cells (v.num_columns - s.x) s.pos v.erase_char s.mem }

  unfoldable pub insert_line : Console → Console
  unfolding scrdown
  insert_line s =
      let s' = scrdown (record s { top = s.y; bottom = v.num_lines }) in
      record s' { top = s.top; bottom = s.bottom }

  -- The loop of `delete_char`: `n` cells from `p` on are taken from behind, and one is erased.
  unfoldable pub delete_cells : (n p : ℕ) → (ℕ → ℕ) → ℕ → ℕ
  delete_cells zero p mem = update mem p v.erase_char
  delete_cells (suc n) p mem = delete_cells n (p + 2) (update mem p (mem (p + 2)))

  unfoldable pub delete_char : Console → Console
  unfolding delete_cells
  delete_char s =
      if leb v.num_columns s.x
      then s
      else record s { mem = delete_cells (v.num_columns - s.x - 1) s.pos s.mem }

  unfoldable pub delete_line : Console → Console
  unfolding scrup
  delete_line s =
      let s' = scrup (record s { top = s.y; bottom = v.num_lines }) in
      record s' { top = s.top; bottom = s.bottom }
