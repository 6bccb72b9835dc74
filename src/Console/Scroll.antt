-- ===== src/Console/Scroll.antt =====
-- kernel/chr_drv/console.c, `scrup`: what scrolling does to the lines of the screen, wherever the
-- screen lies in the video memory.
use hit_os.Common.{
  ℕ, ◌+◌, ◌-◌, ◌*◌, ◌/◌, ◌<◌, ◌≡◌, refl, ap, inl, inr, ◌&&◌, ltb, leb, ◌==◌, if◌then◌else◌, arith,
  Bool-cases, mul_split, mul_suc, mul_mono,
}
use hit_os.Console.Defs.{Video, Console, scroll_lines, scroll_origin, scrup}
use hit_os.Console.Safe.{IsVideo, IsScreen}

-- The cell of the screen in line `r` and column `c`.
abbrev pub cell : Video → Console → (r c : ℕ) → ℕ
cell v s r c = s.mem (s.origin + r * v.size_row + c * 2)

-- The lines `top` to `bottom` - 1 after a scroll: each is the next one, the last one is erased.
abbrev pub scrolled : Video → Console → (r c : ℕ) → ℕ
scrolled v s r c =
    if leb s.top r && ltb (r + 1) s.bottom
    then cell v s (r + 1) c
    else if r + 1 == s.bottom
    then v.erase_char
    else cell v s r c

-- Lines in order lie in order in memory.
line_order : (a b w c : ℕ) → a < b → c * 2 < w → a * w + c * 2 < b * w
line_order a b w c h k = omega (arith, mul_mono (a + 1) b w (omega arith), mul_suc (a + 1) a w refl)

even_words : (n k : ℕ) → n * (k * 2) / 2 * 4 ≡ n * (k * 2 * 2)
even_words n k = let whole : n * (k * 2) ≡ n * k * 2 = omega arith in omega (arith, whole)

module _ (v : Video) (video : IsVideo v) (k : ℕ) (even : v.num_columns ≡ k * 2) (s : Console)
    (i : IsScreen v s) (r c : ℕ) (r_in : r < v.num_lines) (c_in : c < v.num_columns) where
  -- `n` lines in double words
  words_of_lines : (n : ℕ) → n * v.num_columns / 2 * 4 ≡ n * v.size_row
  words_of_lines n = rw (video.row, even) (even_words n k)

  scroll_lines-cell : cell v (scroll_lines v s) r c ≡ scrolled v s r c
  unfolding scroll_lines
  scroll_lines-cell =
      let w = v.size_row in
      let n = s.bottom - s.top - 1 in
      let words = words_of_lines n in
      let region = mul_split (s.bottom - 1) s.top n w (omega (arith, i.region)) in
      let last = mul_suc s.bottom (s.bottom - 1) w (omega (arith, i.region)) in
      let narrow : c * 2 < w = omega (arith, video.row) in
      let next = mul_suc (r + 1) r w refl in
      let below = mul_suc (s.top + 1) s.top w refl in
      elim (Bool-cases (ltb r s.top)) [
        | inl before ↦
            let order = line_order r s.top w c (ground arith) narrow in ground (arith, order)
        | inr in_or_after ↦ elim (Bool-cases (ltb (r + 1) s.bottom)) [
          | inl inside ↦
              let order = line_order r (s.bottom - 1) w c (ground arith) narrow in
              let start = mul_mono s.top r w (ground arith) in
              let at : s.origin
                    + r * w
                    + c * 2
                    - (s.origin + w * s.top)
                    + (s.origin + w * (s.top + 1))
                  ≡ s.origin + (r + 1) * w + c * 2 =
                omega arith in
              ground (arith, ap s.mem at, order, start)
          | inr last_or_after ↦ elim (Bool-cases (r + 1 == s.bottom)) [
            | inl at_end ↦
                let e : r ≡ s.bottom - 1 = ground arith in
                let same = ap (λ (t : ℕ). t * w) e in ground (arith, same)
            | inr after ↦ let order = mul_mono s.bottom r w (ground arith) in ground (arith, order)
          ]
        ]
      ]

  scroll_origin-cell :
      s.top ≡ 0 → s.bottom ≡ v.num_lines → cell v (scroll_origin v s) r c ≡ scrolled v s r c
  unfolding scroll_origin
  scroll_origin-cell t b =
      let w = v.size_row in
      let n = v.num_lines - 1 in
      let words = words_of_lines n in
      let last = mul_suc v.num_lines n w (omega (arith, video)) in
      let narrow : c * 2 < w = omega (arith, video.row) in
      let next = mul_suc (r + 1) r w refl in
      elim (Bool-cases (ltb (r + 1) v.num_lines)) [
        | inl inside ↦
            let order = line_order r n w c (ground arith) narrow in
            let at' : v.mem_start + r * w + c * 2 - v.mem_start + (s.origin + w)
                ≡ s.origin + (r + 1) * w + c * 2 =
              omega arith in
            ground (arith, ap s.mem at', i)
        | inr at_end ↦
            let e : r ≡ n = ground arith in let same = ap (λ (t : ℕ). t * w) e in ground (arith, i)
      ]

  -- In a mode with an even number of columns, scrolling up takes the lines of the scroll region up
  -- by one, erases the last of them and leaves all other lines, whether it moves the lines or the
  -- origin of the screen.
  pub scrup-cell : cell v (scrup v s) r c ≡ scrolled v s r c
  unfolding scrup
  scrup-cell = elim (Bool-cases (v.fast_scroll && (s.top == 0) && (s.bottom == v.num_lines))) [
    | inl whole ↦ rw whole (scroll_origin-cell (ground arith) (ground arith))
    | inr part ↦ rw part scroll_lines-cell
  ]
