-- ===== src/Mm/Cow.antt =====
-- mm/memory.c, `un_wp_page`: a write to a shared page.
use hit_os.Common.{
  ℕ, ◌+◌, ◌-◌, ◌*◌, ◌≤◌, ◌<◌, ◌≡◌, refl, sym, ap, ◌∙◌, ◌≢◌, ◌⊎◌, inl, inr, ◌&&◌, arith, ok, exits,
  ltb, leb, ◌==◌, update, le→leb, lt→ltb, update_self, update_ne, Bool-cases, ne→not-==,
}
use hit_os.Common.Words.{page_of, set_write, or_7}
use hit_os.Mm.Defs.{
  Memory, low_mem, paging_pages, map_nr, copy_page, get_free_page, replace_page, un_wp_page,
}
use hit_os.Mm.Pages.{IsTaken, get_free_page-IsTaken}

-- The address lies below LOW_MEM or in a page that is in use.
abbrev pub InUse : Memory → ℕ → Type 0
InUse m a = (a < low_mem) ⊎ ((low_mem ≤ a) × (m.map (map_nr a) ≢ 0))

-- The entry refers, writable, to page number `n`, which was free: it is now counted once, holds what
-- the old page held, and the old page is counted once less if it lies above LOW_MEM.
pub record IsCopied (m : Memory) (entry n : ℕ) (m' : Memory) : Type 0 where
  pub was_free : m.map n ≡ 0
  pub in_range : n < paging_pages
  pub private : m'.word entry ≡ n * 4096 + low_mem + 7
  pub copied :
      (a : ℕ) → a < 4096 → m'.word (n * 4096 + low_mem + a) ≡ m.word (page_of (m.word entry) + a)
  pub new_count : m'.map n ≡ 1
  pub old_count :
      low_mem ≤ page_of (m.word entry)
      → m'.map (map_nr (page_of (m.word entry))) + 1 ≡ m.map (map_nr (page_of (m.word entry)))
  pub other_counts :
      (i : ℕ)
      → i ≢ n
      → (page_of (m.word entry) < low_mem) ⊎ (i ≢ map_nr (page_of (m.word entry)))
      → m'.map i ≡ m.map i

-- Addresses in use lie outside a page that was free.
outside :
    (m : Memory) (n page a : ℕ)
    → page ≡ n * 4096 + low_mem
    → m.map n ≡ 0
    → InUse m a
    → (a < page) ⊎ (page + 4096 ≤ a)
outside m n page a e free (inl low) = inl (omega arith)
outside m n page a e free (inr (high, used)) = elim (Bool-cases (ltb a page)) [
  | inl before ↦ inl (ground arith)
  | inr behind ↦ elim (Bool-cases (leb (page + 4096) a)) [
    | inl after ↦ inr (ground arith)
    | inr within ↦ let nr : map_nr a ≡ n = ground arith in absurd (used (ap m.map nr ∙ free))
  ]
]

copy_page-in :
    (from to : ℕ) (word : ℕ → ℕ) (x a : ℕ)
    → x ≡ to + a
    → a < 4096
    → copy_page from to word x ≡ word (from + a)
copy_page-in from to word x a e h =
    let offset : x - to ≡ a = omega arith in
    rw (le→leb to x (omega arith), lt→ltb x (to + 4096) (omega arith), offset) refl

module _ (entry : ℕ) (m : Memory) (entry_used : InUse m entry)
    (old_used : InUse m (page_of (m.word entry)))
    (apart : (entry < page_of (m.word entry)) ⊎ (page_of (m.word entry) + 4096 ≤ entry))
    (small : (i : ℕ) → m.map i < 256) where
  replace_page-IsCopied :
      (n page : ℕ) (m' : Memory)
      → IsTaken m n page m'
      → IsCopied m entry n (replace_page entry (page_of (m.word entry)) page m')
  unfolding replace_page
  replace_page-IsCopied n page m' taken =
      let old = page_of (m.word entry) in
      let entry_out = outside m n page entry taken.address taken.was_free entry_used in
      let far : (old < low_mem) ⊎ (map_nr old ≢ n) = elim old_used [
        | inl low ↦ inl low
        | inr (high, used) ↦ inr (λ q. used (ap m.map q ∙ taken.was_free))
      ] in
      let one : m'.map n ≡ 1 = taken.count n ∙ update_self m.map n 1 in
      let kept : (i : ℕ) → i ≢ n → m'.map i ≡ m.map i =
        λ i ne. taken.count i ∙ update_ne m.map n 1 i (λ q. ne (sym q)) in
      let old_lem : low_mem ≤ old
          → map_nr old ≢ n
          → (replace_page entry old page m').map (map_nr old) + 1 ≡ m.map (map_nr old) =
        λ l ne.
          let used : m.map (map_nr old) ≢ 0 = elim old_used [
            | inl low ↦ absurd (omega arith)
            | inr (high, u) ↦ u
          ] in
          ground (arith, kept (map_nr old) ne, used, small (map_nr old)) in
      record {
        was_free = taken.was_free;
        in_range = taken.in_range;
        private = ground (arith, taken.address);
        copied = λ a h.
            copy_page-in old page (update m'.word entry (or_7 page)) (n * 4096 + low_mem + a) a
              (ap (λ p. p + a) (sym taken.address)) h
            ∙ update_ne m'.word entry (or_7 page) (old + a) (grind arith)
            ∙ taken.kept (old + a) (grind (arith, taken.address));
        new_count = ground (arith, one);
        old_count = λ l. elim far [ inl low ↦ absurd (omega arith) | inr ne ↦ old_lem l ne ];
        other_counts = λ i ne o. ground (arith, kept i ne);
      }

  -- A write to a protected page, where the entry and the page it refers to are in use and apart, and
  -- counts are below 256. A page above LOW_MEM that is counted once becomes writable in place; or
  -- every page is in use and the process ends; or the entry gets a writable copy of its own.
  pub un_wp_page_cases :
      ((low_mem ≤ page_of (m.word entry))
        × (m.map (map_nr (page_of (m.word entry))) ≡ 1)
        × (un_wp_page entry m
            ≡ ok (record m { word = update m.word entry (set_write (m.word entry)) })))
      ⊎ ((un_wp_page entry m ≡ exits) × ((i : ℕ) → i < paging_pages → m.map i ≢ 0))
      ⊎ ((n : ℕ) × (m' : Memory) × (un_wp_page entry m ≡ ok m') × IsCopied m entry n m')
  unfolding un_wp_page
  un_wp_page_cases =
      let old = page_of (m.word entry) in
      elim (Bool-cases (leb low_mem old && (m.map (map_nr old) == 1))) [
        | inl own ↦ inl (ground arith, ground arith, rw own refl)
        | inr shared ↦ elim (get_free_page-IsTaken m) [
          | inl (e, full) ↦ inr (inl (rw (shared, e) refl, full))
          | inr (n, taken) ↦
              let real = ne→not-== (get_free_page m).0 0 (omega (arith, taken.address)) in
              inr (
                inr (
                  n,
                  replace_page entry old (get_free_page m).0 (get_free_page m).1,
                  rw (shared, real) refl,
                  replace_page-IsCopied n _ _ taken,
                ))
        ]
      ]
