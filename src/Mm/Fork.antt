-- ===== src/Mm/Fork.antt =====
-- mm/memory.c, the inner loop of `copy_page_tables`: what fork does to one page table.
use native.Mathlib.Nat.{add-zero}
use mathlib.Core.Path.{ap₂}
use hit_os.Common.{
  ℕ, zero, suc, ◌+◌, ◌*◌, ◌%◌, ◌^◌, ◌≤◌, ◌<◌, ◌≡◌, refl, sym, ap, ◌∙◌, ◌≢◌, ◌⊎◌, inl, inr, true,
  ◌&&◌, arith, ltb, leb, if◌then◌else◌, Bool-cases,
}
use hit_os.Common.Words.{page_of, present, clear_write}
use hit_os.Mm.Defs.{Memory, low_mem, map_nr, copy_entry, copy_entries}
use hit_os.Mm.Refs.{refs, points_to, one_if, refs_congr, points_to-clear_write, points_to-absent}

-- The two tables of `n` entries do not overlap.
abbrev pub Apart : ℕ → ℕ → ℕ → Type 0
Apart n from to = (from + 4 * n ≤ to) ⊎ (to + 4 * n ≤ from)

-- What becomes of an entry of the parent's table, and of the child's.
abbrev pub source_entry : ℕ → ℕ
source_entry e = if present e && ltb low_mem (clear_write e) then clear_write e else e

abbrev pub target_entry : (e old : ℕ) → ℕ
target_entry e old = if present e then clear_write e else old

module _ (from to : ℕ) (m : Memory) (ne : from ≢ to) where
  copy_entry-from : (copy_entry from to m).word from ≡ source_entry (m.word from)
  unfolding copy_entry
  copy_entry-from = ground arith

  copy_entry-to : (copy_entry from to m).word to ≡ target_entry (m.word from) (m.word to)
  unfolding copy_entry
  copy_entry-to = ground arith

copy_entry-other :
    (from to : ℕ) (m : Memory) (a : ℕ)
    → a ≢ from
    → a ≢ to
    → (copy_entry from to m).word a ≡ m.word a
unfolding copy_entry
copy_entry-other from to m a h k = ground arith

map_nr-clear_write :
    (e : ℕ)
    → present e ≡ true
    → (ltb low_mem (clear_write e) ≡ leb low_mem (page_of e))
      × (map_nr (clear_write e) ≡ map_nr (page_of e))
map_nr-clear_write e h = (ground arith, ground arith)

-- One count goes up, and only if the entry refers to a page above LOW_MEM.
copy_entry-map :
    (from to : ℕ) (m : Memory) (f : ℕ)
    → m.map f < 256
    → (copy_entry from to m).map f ≡ (m.map f + one_if (points_to (m.word from) f)) % 2 ^ 8
unfolding copy_entry points_to
copy_entry-map from to m f small = elim (Bool-cases (present (m.word from))) [
  | inl here ↦ ground (arith, map_nr-clear_write (m.word from) here)
  | inr absent ↦ ground arith
]

Apart-suc : (n from to : ℕ) → Apart (suc n) from to → Apart n (from + 4) (to + 4)
Apart-suc n from to (inl h) = inl (omega arith)
Apart-suc n from to (inr h) = inr (omega arith)

-- The first round leaves the rest of the parent's table as it is.
copy_entry-refs :
    (n from to : ℕ) (m : Memory) (f : ℕ)
    → Apart (suc n) from to
    → refs (copy_entry from to m).word n (from + 4) f ≡ refs m.word n (from + 4) f
copy_entry-refs n from to m f apart =
    refs_congr _ _ n (from + 4) f
      (λ a l h. copy_entry-other from to m a (grind arith) (grind arith))

points_to-target_entry : (e f : ℕ) → points_to (target_entry e 0) f ≡ points_to e f
points_to-target_entry e f = elim (Bool-cases (present e)) [
  | inl here ↦ rw here (points_to-clear_write e f here)
  | inr absent ↦ rw absent (points_to-absent 0 f refl ∙ sym (points_to-absent e f absent))
]

copy_entry-high : (from to : ℕ) (m : Memory) → (copy_entry from to m).high ≡ m.high
unfolding copy_entry
copy_entry-high from to m = ground arith

pub copy_entries-high : (n from to : ℕ) (m : Memory) → (copy_entries n from to m).high ≡ m.high
unfolding copy_entries
copy_entries-high zero from to m = refl
copy_entries-high (suc n) from to m =
    copy_entries-high n (from + 4) (to + 4) (copy_entry from to m) ∙ copy_entry-high from to m

copy_entries-other :
    (n from to : ℕ) (m : Memory) (a : ℕ)
    → (a < from) ⊎ (from + 4 * n ≤ a)
    → (a < to) ⊎ (to + 4 * n ≤ a)
    → (copy_entries n from to m).word a ≡ m.word a
unfolding copy_entries
copy_entries-other zero from to m a h k = refl
copy_entries-other (suc n) from to m a h k =
    copy_entries-other n (from + 4) (to + 4) (copy_entry from to m) a (grind arith) (grind arith)
    ∙ copy_entry-other from to m a (grind arith) (grind arith)

-- The counts after fork: each page has one count more for each entry of the copied part that refers
-- to it.
pub copy_entries-map :
    (n from to : ℕ) (m : Memory) (f : ℕ)
    → Apart n from to
    → m.map f < 256
    → (copy_entries n from to m).map f ≡ (m.map f + refs m.word n from f) % 2 ^ 8
unfolding copy_entries refs
copy_entries-map zero from to m f apart small = omega arith
copy_entries-map (suc n) from to m f apart small =
    let m' = copy_entry from to m in
    let first = copy_entry-map from to m f small in
    let rest =
      copy_entries-map n (from + 4) (to + 4) m' f (Apart-suc n from to apart)
        (omega (arith, first)) in
    omega (arith, first, rest, copy_entry-refs n from to m f apart)

-- The child's table refers to each page as often as the parent's.
pub copy_entries-refs :
    (n from to : ℕ) (m : Memory) (f : ℕ)
    → Apart n from to
    → ((a : ℕ) → to ≤ a → a < to + 4 * n → m.word a ≡ 0)
    → refs (copy_entries n from to m).word n to f ≡ refs m.word n from f
unfolding copy_entries refs
copy_entries-refs zero from to m f apart clear = refl
copy_entries-refs (suc n) from to m f apart clear =
    let m' = copy_entry from to m in
    let r = copy_entries n (from + 4) (to + 4) m' in
    let kept : r.word to ≡ m'.word to =
      copy_entries-other n (from + 4) (to + 4) m' to (grind arith) (inl (omega arith)) in
    let head : points_to (r.word to) f ≡ points_to (m.word from) f =
      ap (λ e. points_to e f)
        (kept
          ∙ copy_entry-to from to m (grind arith)
          ∙ ap (target_entry (m.word from)) (clear to (omega arith) (omega arith)))
      ∙ points_to-target_entry (m.word from) f in
    let tail = copy_entries-refs n (from + 4) (to + 4) m' f (Apart-suc n from to apart) (λ a l h.
      copy_entry-other from to m a (grind arith) (grind arith)
      ∙ clear a (omega arith) (omega arith)) in
    rw head (omega (arith, tail, copy_entry-refs n from to m f apart))

-- Where the two tables do not overlap, each present entry of the parent's table is copied to the
-- child's write-protected, and is write-protected in the parent's if it refers above LOW_MEM; an
-- absent entry changes neither table.
pub copy_entries-entry :
    (n from to : ℕ) (m : Memory) (i : ℕ)
    → Apart n from to
    → i < n
    → ((copy_entries n from to m).word (from + 4 * i) ≡ source_entry (m.word (from + 4 * i)))
      × ((copy_entries n from to m).word (to + 4 * i)
          ≡ target_entry (m.word (from + 4 * i)) (m.word (to + 4 * i)))
unfolding copy_entries
copy_entries-entry zero from to m i apart h = absurd (omega arith)
copy_entries-entry (suc n) from to m zero apart h =
    let m' = copy_entry from to m in
    let at : ℕ → ℕ = (copy_entries n (from + 4) (to + 4) m').word in
    let kept_from : at from ≡ m'.word from =
      copy_entries-other n (from + 4) (to + 4) m' from (inl (omega arith)) (grind arith) in
    let kept_to : at to ≡ m'.word to =
      copy_entries-other n (from + 4) (to + 4) m' to (grind arith) (inl (omega arith)) in
    rw (add-zero from, add-zero to)
      (
        kept_from ∙ copy_entry-from from to m (grind arith),
        kept_to ∙ copy_entry-to from to m (grind arith),
      )
copy_entries-entry (suc n) from to m (suc i) apart h =
    let m' = copy_entry from to m in
    let (a, b) =
      copy_entries-entry n (from + 4) (to + 4) m' i (Apart-suc n from to apart) (omega arith) in
    let shift : (x : ℕ) → x + 4 * suc i ≡ x + 4 + 4 * i = λ x. omega arith in
    let same_from : m'.word (from + 4 + 4 * i) ≡ m.word (from + 4 + 4 * i) =
      copy_entry-other from to m _ (grind arith) (grind arith) in
    let same_to : m'.word (to + 4 + 4 * i) ≡ m.word (to + 4 + 4 * i) =
      copy_entry-other from to m _ (grind arith) (grind arith) in
    rw (shift from, shift to)
      (a ∙ ap source_entry same_from, b ∙ ap₂ target_entry same_from same_to)
