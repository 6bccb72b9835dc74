-- ===== src/Mm/Pages.antt =====
-- mm/memory.c, `get_free_page`, `free_page` and `mem_init`: the allocator of physical pages.
use native.Mathlib.Decide.{ℕ_discrete}
use hit_os.Common.{
  update_self, update_ne, for_up-fill_in, for_up-fill_out, leb, le→not-ltb, lt→not-leb, ne→not-==,
  ==→eq, not-==→ne, ℕ, zero, suc, ◌+◌, ◌-◌, ◌*◌, ◌/◌, ◌%◌, ◌^◌, ◌≤◌, ◌<◌, ◌≡◌, refl, ◌∙◌, ◌≢◌, ◌⊎◌,
  inl, inr, ◌↔◌, none, some, arith, ok, ◌==◌, Bool-cases, Option-cases, update, ltb, if◌then◌else◌,
  ◌&&◌,
}
use hit_os.Mm.Defs.{
  Memory, low_mem, paging_pages, map_nr, find_free, get_free_page, free_page, mem_init,
}

find_free-none : (n : ℕ) (map : ℕ → ℕ) → find_free n map ≡ none → (i : ℕ) → i < n → map i ≢ 0
unfolding find_free
find_free-none zero map e i h = absurd (omega arith)
find_free-none (suc n) map e i h = elim (Bool-cases (map n == 0)) [
  | inl free ↦ ground arith
  | inr used ↦ elim (ℕ_discrete i n) [
    | yes top ↦ rw top (not-==→ne _ _ used)
    | no below ↦ find_free-none n map (ground arith) i (omega arith)
  ]
]

find_free-some :
    (n : ℕ) (map : ℕ → ℕ) (k : ℕ)
    → find_free n map ≡ some k
    → (k < n) × (map k ≡ 0) × ((i : ℕ) → k < i → i < n → map i ≢ 0)
unfolding find_free
find_free-some zero map k e = cc
find_free-some (suc n) map k e = elim (Bool-cases (map n == 0)) [
  | inl free ↦
      let same : n ≡ k = ground arith in
      (omega arith, rw (← same) (==→eq _ _ free), λ i l h. absurd (omega arith))
  | inr used ↦
      let (l, z, last) = find_free-some n map k (ground arith) in
      (
        omega arith,
        z,
        λ i l h. elim (ℕ_discrete i n) [
          | yes top ↦ rw top (not-==→ne _ _ used)
          | no below ↦ last i l (omega arith)
        ],
      )
]

-- The page `n` that `get_free_page` has taken: it was the last free page, its count is now 1 and its
-- memory is 0; all else is as before.
pub record IsTaken (m : Memory) (n : ℕ) (page : ℕ) (m' : Memory) : Type 0 where
  pub in_range : n < paging_pages
  pub address : page ≡ n * 4096 + low_mem
  pub was_free : m.map n ≡ 0
  pub last : (i : ℕ) → n < i → i < paging_pages → m.map i ≢ 0
  pub count : (i : ℕ) → m'.map i ≡ update m.map n 1 i
  pub cleared : (a : ℕ) → page ≤ a → a < page + 4096 → m'.word a ≡ 0
  pub kept : (a : ℕ) → (a < page) ⊎ (page + 4096 ≤ a) → m'.word a ≡ m.word a
  pub same_high : m'.high ≡ m.high

-- `get_free_page` returns 0 and changes nothing, and then every page is in use; or it takes the last
-- free page and clears it.
pub get_free_page-IsTaken :
    (m : Memory)
    → ((get_free_page m ≡ (0, m)) × ((i : ℕ) → i < paging_pages → m.map i ≢ 0))
      ⊎ ((n : ℕ) × IsTaken m n (get_free_page m).0 (get_free_page m).1)
unfolding get_free_page
get_free_page-IsTaken m = elim (Option-cases (find_free paging_pages m.map)) [
  | inl e ↦ inl (rw (e, get_free_page) refl, find_free-none paging_pages m.map e)
  | inr (n, e) ↦
      let (range, free, last) = find_free-some paging_pages m.map n e in
      inr (
        n,
        record {
          in_range = range;
          address = ground arith;
          was_free = free;
          last = last;
          count = λ i. ground arith;
          cleared = λ a l h. ground arith;
          kept = λ a o. ground arith;
          same_high = ground arith;
        },
      )
]

-- A page in use is given back by one count.
pub free_page-ok :
    (addr : ℕ) (m : Memory)
    → low_mem ≤ addr
    → addr < m.high
    → m.map (map_nr addr) ≢ 0
    → free_page addr m
      ≡ ok (record m { map = update m.map (map_nr addr) (m.map (map_nr addr) - 1) })
unfolding free_page
free_page-ok addr m l h u = rw (le→not-ltb _ _ l, lt→not-leb _ _ h, ne→not-== _ _ u)

-- A page below HIGH_MEMORY that was taken can be given back: `free_page` succeeds and every count is
-- as it was before.
pub free_page-get_free_page :
    (m : Memory) (n : ℕ)
    → IsTaken m n (get_free_page m).0 (get_free_page m).1
    → (get_free_page m).0 < m.high
    → (m' : Memory) × (free_page (get_free_page m).0 (get_free_page m).1 ≡ ok m')
      × ((i : ℕ) → m'.map i ≡ m.map i)
unfolding free_page
free_page-get_free_page m n t below =
    let page = (get_free_page m).0 in
    let m' = (get_free_page m).1 in
    let nr : map_nr page ≡ n = omega (arith, t.address) in
    let one : m'.map n ≡ 1 = t.count n ∙ update_self m.map n 1 in
    (
      record m' { map = update m'.map (map_nr page) (m'.map (map_nr page) - 1) },
      free_page-ok page m' (omega (arith, t.address)) (omega (arith, t.same_high))
          (rw (nr, one) (omega arith)),
      λ i. rw nr (elim (ℕ_discrete n i) [
        | yes same ↦ ground (arith, t.was_free)
        | no other ↦ update_ne m'.map n _ i other ∙ t.count i ∙ update_ne m.map n 1 i other
      ]),
    )

-- After `mem_init` exactly the pages between `start_mem` and `end_mem` are free, where these are
-- page-aligned addresses of the memory that `mem_map` covers.
pub mem_init-free :
    (start_mem end_mem : ℕ) (m : Memory) (i : ℕ)
    → low_mem ≤ start_mem
    → start_mem ≤ end_mem
    → start_mem % 4096 ≡ 0
    → end_mem ≤ low_mem + paging_pages * 4096
    → end_mem % 4096 ≡ 0
    → i < paging_pages
    → ((mem_init start_mem end_mem m).map i ≡ 0)
      ↔ ((start_mem ≤ low_mem + i * 4096) × (low_mem + i * 4096 < end_mem))
unfolding mem_init
mem_init-free start_mem end_mem m i l h a t b r =
    elim (Bool-cases (leb start_mem (low_mem + i * 4096) && ltb (low_mem + i * 4096) end_mem)) [
      | inl inside ↦
          let zeroed = for_up-fill_in 0 n (map_nr start_mem) i used (ground arith) (ground arith) in
          (λ _. (ground arith, ground arith), λ _. zeroed)
      | inr outside ↦
          let untouched = for_up-fill_out 0 n (map_nr start_mem) i used (ground arith) in
          (λ z. absurd (ground arith), λ both. absurd (ground arith))
    ]
  where
    n : ℕ
    n = (end_mem - start_mem) / 2 ^ 12

    used : ℕ → ℕ
    used j = if ltb j paging_pages then 100 else m.map j
