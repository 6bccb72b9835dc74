-- ===== src/Mm/Tests.antt =====
-- mm/memory.c at a small memory, and the masks of page-table entries against the bit operations.
use Prim.Native.Nat.{bit_and, bit_or}
use hit_os.Common.{
  ℕ, zero, suc, ◌+◌, ◌*◌, ◌/◌, ◌%◌, ◌^◌, ◌≤◌, ◌<◌, ◌≡◌, refl, ◌≢◌, ◌⊎◌, inl, inr, Bool, true, ◌&&◌,
  arith, ok, exits, ◌==◌, if◌then◌else◌, update,
}
use hit_os.Common.Words.{page_of, clear_write, set_write, or_7, dir_of, offset_of}
use hit_os.Mm.Defs.{
  Memory, low_mem, paging_pages, map_nr, get_free_page, free_page, free_entries, copy_entries,
  un_wp_page,
}
use hit_os.Mm.Pages.{IsTaken, get_free_page-IsTaken, free_page-get_free_page}
use hit_os.Mm.Refs.{refs}
use hit_os.Mm.Fork.{source_entry}
use hit_os.Mm.Exit.{IsFreed, free_entries-IsFreed, free_entries-copy_entries}
use hit_os.Mm.Cow.{IsCopied, un_wp_page_cases}

-- The division forms of the masks are the bit operations, at 64 words spread over the range.
masks_agree : ℕ → Bool
masks_agree zero = true
masks_agree (suc n) =
    let x = n * 0x1234_567 % 2 ^ 32 in
    (page_of x == bit_and x 0xffff_f000)
    && ((clear_write x == bit_and x 0xffff_fffd)
        && ((set_write x == bit_or x 2)
            && ((or_7 x == bit_or x 7)
                && ((dir_of x == bit_and (x / 2 ^ 20) 0xffc)
                    && ((offset_of x == bit_and (x / 2 ^ 10) 0xffc) && masks_agree n)))))

masks : masks_agree 64 ≡ true
unfolding masks_agree
masks = refl

-- One page is free, the last; page 0 is shared by two tables.
abbrev memory : Memory
memory = record {
  map = λ i. if i == 3839 then 0 else if i == 0 then 2 else 1;
  word = update (update (λ _. 0) 0x1000 (low_mem + 5)) 0x1004 0x2007;
  high = 0x100_0000;
}

get_free_page-IsTaken_example :
    ((get_free_page memory ≡ (0, memory)) × ((i : ℕ) → i < paging_pages → memory.map i ≢ 0))
    ⊎ ((n : ℕ) × IsTaken memory n (get_free_page memory).0 (get_free_page memory).1)
get_free_page-IsTaken_example = get_free_page-IsTaken memory

memory-IsTaken : IsTaken memory 3839 (get_free_page memory).0 (get_free_page memory).1
unfolding get_free_page
memory-IsTaken = record {
  in_range = omega arith;
  address = refl;
  was_free = refl;
  last = λ i l h. absurd (omega arith);
  count = λ i. refl;
  cleared = λ a l h. ground arith;
  kept = λ a o. ground arith;
  same_high = refl;
}

free_entries-IsFreed_example :
    (m : Memory) × (free_entries 2 0x1000 memory ≡ ok m) × IsFreed memory 2 0x1000 m
unfolding refs
free_entries-IsFreed_example =
    free_entries-IsFreed 2 0x1000 memory (λ i h p. ground arith) (λ f. ground arith)

free_entries-copy_entries_example :
    (m : Memory) × (free_entries 2 0x3000 (copy_entries 2 0x1000 0x3000 memory) ≡ ok m)
    × ((f : ℕ) → m.map f ≡ memory.map f)
    × ((i : ℕ) → i < 2 → m.word (0x1000 + 4 * i) ≡ source_entry (memory.word (0x1000 + 4 * i)))
unfolding refs
free_entries-copy_entries_example =
    free_entries-copy_entries 2 0x1000 0x3000 memory (inl (omega arith)) (λ i h p. ground arith)
      (λ a l h. ground arith) (λ f. ground arith)

un_wp_page_cases_example :
    ((low_mem ≤ page_of (memory.word 0x1000))
      × (memory.map (map_nr (page_of (memory.word 0x1000))) ≡ 1)
      × (un_wp_page 0x1000 memory
          ≡ ok (record memory {
            word = update memory.word 0x1000 (set_write (memory.word 0x1000));
          })))
    ⊎ ((un_wp_page 0x1000 memory ≡ exits) × ((i : ℕ) → i < paging_pages → memory.map i ≢ 0))
    ⊎ ((n : ℕ) × (m : Memory) × (un_wp_page 0x1000 memory ≡ ok m) × IsCopied memory 0x1000 n m)
un_wp_page_cases_example =
    un_wp_page_cases 0x1000 memory (inl (omega arith)) (inr (omega arith, omega arith))
      (inl (omega arith)) (λ i. ground arith)

free_page-get_free_page_example :
    (m : Memory) × (free_page (get_free_page memory).0 (get_free_page memory).1 ≡ ok m)
    × ((i : ℕ) → m.map i ≡ memory.map i)
unfolding get_free_page
free_page-get_free_page_example = free_page-get_free_page memory 3839 memory-IsTaken (omega arith)
