-- ===== src/Mm/Exit.antt =====
-- mm/memory.c, the inner loop of `free_page_tables`: what exit does to one page table, and what is
-- left of a fork after it.
use native.Mathlib.Decide.{ℕ_discrete}
use mathlib.Core.Path.{subst}
use hit_os.Common.{
  ℕ, zero, suc, ◌+◌, ◌-◌, ◌*◌, ◌≤◌, ◌<◌, ◌≡◌, refl, sym, ap, ◌∙◌, ◌≢◌, ◌⊎◌, inl, inr, true, false,
  arith, ok, ltb, ◌==◌, update, update_self, update_ne, Bool-cases,
}
use hit_os.Common.Words.{page_of, present}
use hit_os.Mm.Defs.{
  Memory, low_mem, map_nr, store, free_page, free_entry, free_entries, copy_entries,
}
use hit_os.Mm.Pages.{free_page-ok}
use hit_os.Mm.Fork.{
  Apart, source_entry, target_entry, copy_entries-high, copy_entries-map, copy_entries-refs,
  copy_entries-entry,
}
use hit_os.Mm.Refs.{refs, points_to, one_if, refs_congr, points_to-absent}

-- The `n` entries from `table` on refer to pages below HIGH_MEMORY.
abbrev pub InMemory : Memory → ℕ → ℕ → Type 0
InMemory m n table =
    (i : ℕ)
    → i < n
    → present (m.word (table + 4 * i)) ≡ true
    → page_of (m.word (table + 4 * i)) < m.high

-- What freeing the `n` entries from `table` on has done: each count has gone down by the number of
-- entries that referred to its page, the entries are 0, and all other words are as before.
pub record IsFreed (m : Memory) (n table : ℕ) (m' : Memory) : Type 0 where
  pub counts : (f : ℕ) → m'.map f + refs m.word n table f ≡ m.map f
  pub zeroed : (i : ℕ) → i < n → m'.word (table + 4 * i) ≡ 0
  pub others : (a : ℕ) → (a < table) ⊎ (table + 4 * n ≤ a) → m'.word a ≡ m.word a
  pub same_high : m'.high ≡ m.high

points_to-low : (e f : ℕ) → page_of e < low_mem → points_to e f ≡ false
unfolding points_to
points_to-low e f h = ground arith

points_to-high :
    (e f : ℕ) → present e ≡ true → low_mem ≤ page_of e → points_to e f ≡ (map_nr (page_of e) == f)
unfolding points_to
points_to-high e f p h = ground arith

free_page-low : (addr : ℕ) (m : Memory) → ltb addr low_mem ≡ true → free_page addr m ≡ ok m
unfolding free_page
free_page-low addr m low = rw low refl

record IsEntryFreed (m : Memory) (entry : ℕ) (m' : Memory) : Type 0 where
  counts : (f : ℕ) → m'.map f + one_if (points_to (m.word entry) f) ≡ m.map f
  word : (a : ℕ) → m'.word a ≡ update m.word entry 0 a
  same_high : m'.high ≡ m.high

free_entry-ok :
    (entry : ℕ) (m : Memory)
    → (present (m.word entry) ≡ true → page_of (m.word entry) < m.high)
    → ((f : ℕ) → one_if (points_to (m.word entry) f) ≤ m.map f)
    → (m' : Memory) × (free_entry entry m ≡ ok m') × IsEntryFreed m entry m'
unfolding free_entry
free_entry-ok entry m inside enough = elim (Bool-cases (present (m.word entry))) [
  | inr absent ↦ (
    store entry 0 m,
    rw absent refl,
    record {
      counts = λ f. ground (arith, points_to-absent (m.word entry) f absent);
      word = λ a. refl;
      same_high = refl;
    },
  )
  | inl here ↦ elim (Bool-cases (ltb (page_of (m.word entry)) low_mem)) [
    | inl low ↦ (
      store entry 0 m,
      rw (here, free_page-low (page_of (m.word entry)) m low) refl,
      record {
        counts = λ f. ground (arith, points_to-low (m.word entry) f);
        word = λ a. refl;
        same_high = refl;
      },
    )
    | inr high ↦
        let p = page_of (m.word entry) in
        let is = points_to-high (m.word entry) (map_nr p) here (ground arith) in
        let used : m.map (map_nr p) ≢ 0 = ground (arith, is, enough (map_nr p)) in
        (
          store entry 0 (record m { map = update m.map (map_nr p) (m.map (map_nr p) - 1) }),
          rw (here, free_page-ok p m (ground arith) (inside here) used) refl,
          record {
            counts = λ f. ground (arith, points_to-high (m.word entry) f here, used);
            word = λ a. refl;
            same_high = refl;
          },
        )
  ]
]

-- The first entry is freed, then the rest.
module _ (n table : ℕ) (m m' : Memory) (one : IsEntryFreed m table m') where
  entry_kept : (a : ℕ) → a ≢ table → m'.word a ≡ m.word a
  entry_kept a ne = one.word a ∙ update_ne m.word table 0 a (λ q. ne (sym q))

  rest_refs : (f : ℕ) → refs m'.word n (table + 4) f ≡ refs m.word n (table + 4) f
  rest_refs f = refs_congr _ _ n (table + 4) f (λ a l h. entry_kept a (omega arith))

  rest_InMemory : InMemory m (suc n) table → InMemory m' n (table + 4)
  rest_InMemory inside i h p =
      let w = entry_kept (table + 4 + 4 * i) (omega arith) in
      let at : table + 4 * suc i ≡ table + 4 + 4 * i = omega arith in
      rw (w, one.same_high)
        (subst (λ a. page_of (m.word a) < m.high) at
          (inside (suc i) (omega arith) (rw (at, ← w) p)))

  IsFreed-suc : (m'' : Memory) → IsFreed m' n (table + 4) m'' → IsFreed m (suc n) table m''
  unfolding refs
  IsFreed-suc m'' rest = record {
    counts = λ f. omega (arith, rest.counts f, one.counts f, rest_refs f);
    zeroed = λ i h. elim (ℕ_discrete i 0) [
      | yes start ↦ let at : table + 4 * i ≡ table = omega arith in rw at first
      | no later ↦
          let at : table + 4 * i ≡ table + 4 + 4 * (i - 1) = omega arith in
          rw at (rest.zeroed (i - 1) (omega arith))
    ];
    others = λ a h. rest.others a (grind arith) ∙ entry_kept a (grind arith);
    same_high = rest.same_high ∙ one.same_high;
  }
    where
      first : m''.word table ≡ 0
      first = rest.others table (inl (omega arith)) ∙ one.word table ∙ update_self m.word table 0

first_InMemory :
    (n table : ℕ) (m : Memory)
    → InMemory m (suc n) table
    → present (m.word table) ≡ true
    → page_of (m.word table) < m.high
first_InMemory n table m inside p =
    let at : table + 4 * 0 ≡ table = omega arith in
    subst (λ a. page_of (m.word a) < m.high) at (inside 0 (omega arith) (rw at p))

-- Freeing a page table succeeds if its pages lie in memory and no page is counted less often than
-- the table refers to it. It zeroes the entries, takes exactly these references off the counts, and
-- changes no other word.
pub free_entries-IsFreed :
    (n table : ℕ) (m : Memory)
    → InMemory m n table
    → ((f : ℕ) → refs m.word n table f ≤ m.map f)
    → (m' : Memory) × (free_entries n table m ≡ ok m') × IsFreed m n table m'
unfolding free_entries refs
free_entries-IsFreed zero table m inside enough = (
  m,
  refl,
  record {
    counts = λ f. omega arith;
    zeroed = λ i h. absurd (omega arith);
    others = λ a h. refl;
    same_high = refl;
  },
)
free_entries-IsFreed (suc n) table m inside enough =
    let (m', e, one) =
      free_entry-ok table m (first_InMemory n table m inside) (λ f. omega (arith, enough f)) in
    let (m'', e', rest) =
      free_entries-IsFreed n (table + 4) m' (rest_InMemory n table m m' one inside)
        (λ f. omega (arith, enough f, one.counts f, rest_refs n table m m' one f)) in
    (m'', rw (e, e') refl, IsFreed-suc n table m m' one m'' rest)

target_InMemory :
    (e high : ℕ)
    → (present e ≡ true → page_of e < high)
    → present (target_entry e 0) ≡ true
    → page_of (target_entry e 0) < high
target_InMemory e high inside p = ground arith

-- The child's table after fork, freed again by exit, leaves every count as it was before the fork:
-- where the tables do not overlap, the child's was clear, the parent's pages lie in memory, and no
-- count passes 255.
pub free_entries-copy_entries :
    (n from to : ℕ) (m : Memory)
    → Apart n from to
    → InMemory m n from
    → ((a : ℕ) → to ≤ a → a < to + 4 * n → m.word a ≡ 0)
    → ((f : ℕ) → m.map f + refs m.word n from f < 256)
    → (m' : Memory) × (free_entries n to (copy_entries n from to m) ≡ ok m')
      × ((f : ℕ) → m'.map f ≡ m.map f)
      × ((i : ℕ) → i < n → m'.word (from + 4 * i) ≡ source_entry (m.word (from + 4 * i)))
free_entries-copy_entries n from to m apart inside clear few =
    let c = copy_entries n from to m in
    let child : (f : ℕ) → refs c.word n to f ≡ refs m.word n from f =
      λ f. copy_entries-refs n from to m f apart clear in
    let shared : (f : ℕ) → c.map f ≡ m.map f + refs m.word n from f =
      λ f. omega (arith, copy_entries-map n from to m f apart (omega (arith, few f)), few f) in
    let child_InMemory : InMemory c n to = λ i h p.
      let (a, b) = copy_entries-entry n from to m i apart h in
      let b' =
        b
        ∙ ap (target_entry (m.word (from + 4 * i)))
            (clear (to + 4 * i) (omega arith) (omega arith)) in
      rw (b', copy_entries-high n from to m)
        (target_InMemory (m.word (from + 4 * i)) m.high (inside i h) (rw (← b') p)) in
    let (m', e, freed) =
      free_entries-IsFreed n to c child_InMemory (λ f. omega (arith, child f, shared f)) in
    (
      m',
      e,
      λ f. omega (arith, freed.counts f, child f, shared f),
      λ i h.
          freed.others (from + 4 * i) (grind arith) ∙ (copy_entries-entry n from to m i apart h).0,
    )
