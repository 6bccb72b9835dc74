-- ===== src/Mm/Refs.antt =====
-- How often the entries of a page table refer to a page of `mem_map`: the abstract view of
-- mm/memory.c by which its reference counts are judged.
use hit_os.Common.{
  ℕ, zero, suc, ◌+◌, ◌*◌, ◌≤◌, ◌<◌, ◌≡◌, refl, Bool, true, false, ◌&&◌, arith, leb, ◌==◌,
}
use hit_os.Common.Words.{page_of, present, clear_write}
use hit_os.Mm.Defs.{low_mem, map_nr}

-- The entry is present and refers to page number `f` above LOW_MEM.
unfoldable pub points_to : ℕ → ℕ → Bool
points_to entry f = present entry && (leb low_mem (page_of entry) && (map_nr (page_of entry) == f))

abbrev pub one_if : Bool → ℕ
one_if true = 1
one_if false = 0

-- The number of the `n` entries from `table` on that refer to page `f`.
unfoldable pub refs : (ℕ → ℕ) → ℕ → ℕ → ℕ → ℕ
unfolding points_to
refs word zero table f = 0
refs word (suc n) table f = one_if (points_to (word table) f) + refs word n (table + 4) f

pub refs_congr :
    (word word' : ℕ → ℕ) (n table f : ℕ)
    → ((a : ℕ) → table ≤ a → a < table + 4 * n → word a ≡ word' a)
    → refs word n table f ≡ refs word' n table f
unfolding refs
refs_congr word word' zero table f h = refl
refs_congr word word' (suc n) table f h = ground (
  arith,
  h table (omega arith) (omega arith),
  refs_congr word word' n (table + 4) f (λ a l u. h a (omega arith) (omega arith)),
)

pub points_to-clear_write :
    (e f : ℕ) → present e ≡ true → points_to (clear_write e) f ≡ points_to e f
unfolding points_to
points_to-clear_write e f h = ground arith

pub points_to-absent : (e f : ℕ) → present e ≡ false → points_to e f ≡ false
unfolding points_to
points_to-absent e f h = rw h

refs-le : (word : ℕ → ℕ) (n table f : ℕ) → refs word n table f ≤ n
unfolding refs
refs-le word zero table f = omega arith
refs-le word (suc n) table f = ground (arith, refs-le word n (table + 4) f)
