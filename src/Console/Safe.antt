-- ===== src/Console/Safe.antt =====
-- kernel/chr_drv/console.c: the cursor stays on the screen, the screen in the video memory, and no
-- write leaves the video memory.
use hit_os.Common.{
  ℕ, ◌+◌, ◌-◌, ◌*◌, ◌≤◌, ◌<◌, ◌≡◌, ap, ◌∙◌, ◌⊎◌, inl, inr, ltb, arith, Bool-cases, mul_split,
  mul_suc, mul_mono,
}
use hit_os.Console.Defs.{
  Video, Console, fill, move, line_words, gotoxy, scroll_lines, scroll_origin, scrup, scrdown, lf,
  ri, del, insert_line, delete_line,
}

-- What `con_init` makes sure of, for a mode of at least 8 columns.
pub record IsVideo (v : Video) : Type 0 where
  pub columns : 8 ≤ v.num_columns
  pub row : v.size_row ≡ v.num_columns * 2
  pub lines : 1 ≤ v.num_lines
  pub room : v.mem_start + v.num_lines * v.size_row ≤ v.mem_end

-- The cursor is on the screen, where `x` may be one behind the last column, `pos` is its address,
-- and the screen lies in the video memory.
pub record IsScreen (v : Video) (s : Console) : Type 0 where
  pub x_in : s.x ≤ v.num_columns
  pub y_in : s.y < v.num_lines
  pub pos_at : s.pos ≡ s.origin + s.y * v.size_row + s.x * 2
  pub region : s.top < s.bottom
  pub region_in : s.bottom ≤ v.num_lines
  pub end_at : s.scr_end ≡ s.origin + v.num_lines * v.size_row
  pub start_in : v.mem_start ≤ s.origin
  pub end_in : s.scr_end ≤ v.mem_end
  pub npar_in : s.npar ≤ 15

-- Two memories agree outside the video memory.
abbrev pub SameOutside : Video → (ℕ → ℕ) → (ℕ → ℕ) → Type 0
SameOutside v m m' = (a : ℕ) → (a < v.mem_start) ⊎ (v.mem_end ≤ a) → m' a ≡ m a

-- The screen is in order, and nothing but the video memory differs from `m`.
pub record IsSafe (v : Video) (m : ℕ → ℕ) (s : Console) : Type 0 where
  pub screen : IsScreen v s
  pub outside : SameOutside v m s.mem

module _ (v : Video) (video : IsVideo v) where
  pub fill-SameOutside :
      (start count cell : ℕ) (m : ℕ → ℕ)
      → v.mem_start ≤ start
      → start + count * 2 ≤ v.mem_end
      → SameOutside v m (fill start count cell m)
  fill-SameOutside start count cell m l h a out = ground arith

  move-SameOutside :
      (from to count : ℕ) (m : ℕ → ℕ)
      → v.mem_start ≤ to
      → to + count * 4 ≤ v.mem_end
      → SameOutside v m (move from to count m)
  move-SameOutside from to count m l h a out = ground arith

  pub gotoxy-IsScreen : (a b : ℕ) (s : Console) → IsScreen v s → IsScreen v (gotoxy v a b s)
  unfolding gotoxy
  gotoxy-IsScreen a b s i = ground arith

  scroll_origin-IsScreen : (s : Console) → IsScreen v s → IsScreen v (scroll_origin v s)
  unfolding scroll_origin
  scroll_origin-IsScreen s i = ground arith

  scrup-IsScreen : (s : Console) → IsScreen v s → IsScreen v (scrup v s)
  unfolding scrup scroll_lines
  scrup-IsScreen s i = ground (arith, scroll_origin-IsScreen s i)

  pub lf-IsScreen : (s : Console) → IsScreen v s → IsScreen v (lf v s)
  unfolding lf
  lf-IsScreen s i = elim (Bool-cases (ltb (s.y + 1) s.bottom)) [
    | inl above ↦ rw above (ground arith)
    | inr below ↦ rw below (scrup-IsScreen s i)
  ]

  pub ri-IsScreen : (s : Console) → IsScreen v s → IsScreen v (ri v s)
  unfolding ri scrdown
  ri-IsScreen s i = elim (Bool-cases (ltb s.top s.y)) [
    | inl below ↦
        let row : s.y * v.size_row ≡ (s.y - 1) * v.size_row + v.size_row =
          mul_suc s.y (s.y - 1) v.size_row (ground arith) in
        rw below (ground arith)
    | inr above ↦ rw above (ground arith)
  ]

  pub del-IsScreen : (s : Console) → IsScreen v s → IsScreen v (del v s)
  unfolding del
  del-IsScreen s i = ground arith

  -- The lines from `top` to `bottom` lie on the screen, and all but one of them are moved.
  region_lines :
      (s : Console)
      → IsScreen v s
      → (v.size_row * s.top + line_words v s.top s.bottom * 4 + v.num_columns * 2
          ≤ v.size_row * s.bottom)
        × (v.size_row * s.bottom ≤ v.num_lines * v.size_row)
  region_lines s i =
      let n = s.bottom - s.top - 1 in
      let split = mul_suc s.bottom (s.top + n) v.size_row (omega arith) in
      let split' = mul_split (s.top + n) s.top n v.size_row (omega arith) in
      let inside = mul_mono s.bottom v.num_lines v.size_row i.region_in in
      let wide : n * v.size_row ≡ n * v.num_columns * 2 =
        omega (arith, ap (λ (t : ℕ). n * t) video.row) in
      (omega arith, omega arith)

  scroll_lines-SameOutside :
      (s : Console) → IsScreen v s → SameOutside v s.mem (scroll_lines v s).mem
  unfolding scroll_lines
  scroll_lines-SameOutside s i a out =
      let (moved, inside) = region_lines s i in ground (arith, moved, inside, out)

  scroll_origin-SameOutside :
      (s : Console) → IsScreen v s → SameOutside v s.mem (scroll_origin v s).mem
  unfolding scroll_origin
  scroll_origin-SameOutside s i a out =
      let split = mul_suc v.num_lines (v.num_lines - 1) v.size_row (omega arith) in
      let wide : (v.num_lines - 1) * v.size_row ≡ (v.num_lines - 1) * v.num_columns * 2 =
        omega (arith, ap (λ (t : ℕ). (v.num_lines - 1) * t) video.row) in
      ground (arith, split, wide, out)

  scrdown-SameOutside : (s : Console) → IsScreen v s → SameOutside v s.mem (scrdown v s).mem
  unfolding scrdown
  scrdown-SameOutside s i a out =
      let (moved, inside) = region_lines s i in ground (arith, moved, inside, out)

  pub scrup-SameOutside : (s : Console) → IsScreen v s → SameOutside v s.mem (scrup v s).mem
  unfolding scrup
  scrup-SameOutside s i a out =
      ground (arith, scroll_origin-SameOutside s i a out, scroll_lines-SameOutside s i a out)

  pub lf-IsSafe : (m : ℕ → ℕ) (s : Console) → IsSafe v m s → IsSafe v m (lf v s)
  unfolding lf
  lf-IsSafe m s safe = record {
    screen = lf-IsScreen s safe.screen;
    outside = λ a out. elim (Bool-cases (ltb (s.y + 1) s.bottom)) [
      | inl above ↦ rw above (safe.outside a out)
      | inr below ↦ rw below (scrup-SameOutside s safe.screen a out ∙ safe.outside a out)
    ];
  }

  pub ri-IsSafe : (m : ℕ → ℕ) (s : Console) → IsSafe v m s → IsSafe v m (ri v s)
  unfolding ri
  ri-IsSafe m s safe = record {
    screen = ri-IsScreen s safe.screen;
    outside = λ a out. elim (Bool-cases (ltb s.top s.y)) [
      | inl below ↦ rw below (safe.outside a out)
      | inr above ↦ rw above (scrdown-SameOutside s safe.screen a out ∙ safe.outside a out)
    ];
  }

  pub insert_line-IsSafe : (m : ℕ → ℕ) (s : Console) → IsSafe v m s → IsSafe v m (insert_line v s)
  unfolding insert_line scrdown
  insert_line-IsSafe m s safe =
      let s' = record s { top = s.y; bottom = v.num_lines } in
      let i : IsScreen v s' = ground (arith, safe.screen) in
      record {
        screen = ground (arith, safe.screen);
        outside = λ a out. scrdown-SameOutside s' i a out ∙ safe.outside a out;
      }

  pub delete_line-IsSafe : (m : ℕ → ℕ) (s : Console) → IsSafe v m s → IsSafe v m (delete_line v s)
  unfolding delete_line
  delete_line-IsSafe m s safe =
      let s' = record s { top = s.y; bottom = v.num_lines } in
      let i : IsScreen v s' = ground (arith, safe.screen) in
      let i' = scrup-IsScreen s' i in
      record {
        screen = ground (arith, i', safe.screen);
        outside = λ a out. scrup-SameOutside s' i a out ∙ safe.outside a out;
      }
