-- ===== src/Mm/Defs.antt =====
-- mm/memory.c, line by line. Physical memory is a function from the (byte) address of a 32-bit word
-- to the word; the page directory lies at address 0. `invalidate` (a load of cr3) and the messages
-- of `printk` leave no trace in this state.
use hit_os.Common.{
  ℕ, zero, suc, ◌+◌, ◌-◌, ◌*◌, ◌/◌, ◌%◌, ◌^◌, true, false, not, ◌&&◌, ◌||◌, Option, none, some,
  Outcome, ok, panic, exits, ◌>>=◌, ltb, leb, ◌==◌, if◌then◌else◌, update, for_up,
}
use hit_os.Common.Int.{ℤ, pos, negsuc}
use hit_os.Common.Words.{
  add32, bit_at, page_of, present, clear_write, set_write, or_7, dir_of, offset_of,
}

-- `mem_map`, the memory itself and HIGH_MEMORY. A count in `mem_map` is an unsigned char.
pub record Memory : Type 0 where
  pub map : ℕ → ℕ
  pub word : ℕ → ℕ
  pub high : ℕ

abbrev pub low_mem : ℕ
low_mem = 0x10_0000

abbrev pub paging_pages : ℕ
paging_pages = 3840

abbrev pub map_nr : ℕ → ℕ
map_nr addr = (addr - low_mem) / 2 ^ 12

abbrev pub store : ℕ → ℕ → Memory → Memory
store a v m = record m { word = update m.word a v }

-- `repne scasb` with the direction flag set: the last zero of the first `n` counts.
unfoldable pub find_free : ℕ → (ℕ → ℕ) → Option ℕ
find_free zero map = none
find_free (suc n) map = elim (map n == 0) [ true ↦ some n | false ↦ find_free n map ]

-- The 1024 words from `page` on become 0.
abbrev pub clear_page : ℕ → (ℕ → ℕ) → ℕ → ℕ
clear_page page word a = if leb page a && ltb a (page + 4096) then 0 else word a

-- The 1024 words from `from` on are copied to `to`.
abbrev pub copy_page : (from to : ℕ) → (ℕ → ℕ) → ℕ → ℕ
copy_page from to word a = if leb to a && ltb a (to + 4096) then word (from + (a - to)) else word a

unfoldable pub get_free_page : Memory → ℕ × Memory
unfolding find_free
get_free_page m = elim (find_free paging_pages m.map) [
  | none ↦ (0, m)
  | some n ↦
      let page = n * 2 ^ 12 + low_mem in
      (page, record m { map = update m.map n 1; word = clear_page page m.word })
]

unfoldable pub free_page : ℕ → Memory → Outcome Memory
free_page addr m =
    if ltb addr low_mem
    then ok m
    else if leb m.high addr
    then panic
    else if m.map (map_nr addr) == 0
    then panic
    else ok (record m { map = update m.map (map_nr addr) (m.map (map_nr addr) - 1) })

-- `if (1 & *pg_table) free_page(...); *pg_table = 0;`
unfoldable pub free_entry : ℕ → Memory → Outcome Memory
unfolding free_page
free_entry entry m = do
  m' ← if present (m.word entry) then free_page (page_of (m.word entry)) m else ok m
  ok (store entry 0 m')

-- The loop over the `n` entries of a page table.
unfoldable pub free_entries : ℕ → ℕ → Memory → Outcome Memory
unfolding free_entry
free_entries zero table m = ok m
free_entries (suc n) table m = do m' ← free_entry table m; free_entries n (table + 4) m'

unfoldable pub free_table : ℕ → Memory → Outcome Memory
unfolding free_entries free_page
free_table dir m = if not (present (m.word dir)) then ok m else do
  m' ← free_entries 1024 (page_of (m.word dir)) m
  m'' ← free_page (page_of (m'.word dir)) m'
  ok (store dir 0 m'')

unfoldable pub free_tables : ℕ → ℕ → Memory → Outcome Memory
unfolding free_table
free_tables zero dir m = ok m
free_tables (suc n) dir m = do m' ← free_table dir m; free_tables n (dir + 4) m'

-- size = (size + 0x3fffff) >> 22
abbrev pub directories : ℕ → ℕ
directories size = add32 size 0x3f_ffff / 2 ^ 22

unfoldable pub free_page_tables : (from size : ℕ) → Memory → Outcome (ℤ × Memory)
unfolding free_tables
free_page_tables from size m =
    if not (from % 2 ^ 22 == 0)
    then panic
    else if from == 0
    then panic
    else do m' ← free_tables (directories size) (dir_of from) m; ok (pos 0, m')

-- The body of the inner loop of `copy_page_tables`.
unfoldable pub copy_entry : (from to : ℕ) → Memory → Memory
copy_entry from to m =
    let this_page = clear_write (m.word from) in
    if not (present (m.word from))
    then m
    else if ltb low_mem this_page
    then record m {
      map = update m.map (map_nr this_page) ((m.map (map_nr this_page) + 1) % 2 ^ 8);
      word = update (update m.word to this_page) from this_page;
    }
    else store to this_page m

unfoldable pub copy_entries : ℕ → (from to : ℕ) → Memory → Memory
unfolding copy_entry
copy_entries zero from to m = m
copy_entries (suc n) from to m = copy_entries n (from + 4) (to + 4) (copy_entry from to m)

-- The outer loop; `nr` is the number of entries that are copied of each table.
unfoldable pub copy_tables : (nr n from_dir to_dir : ℕ) → Memory → Outcome (ℤ × Memory)
unfolding copy_entries get_free_page
copy_tables nr zero from_dir to_dir m = ok (pos 0, m)
copy_tables nr (suc n) from_dir to_dir m =
    let skip = copy_tables nr n (from_dir + 4) (to_dir + 4) m in
    let from_table = page_of (m.word from_dir) in
    let (to_table, m') = get_free_page m in
    let copied = copy_entries nr from_table to_table (store to_dir (or_7 to_table) m') in
    let further = copy_tables nr n (from_dir + 4) (to_dir + 4) copied in
    if present (m.word to_dir)
    then panic
    else if not (present (m.word from_dir))
    then skip
    else if to_table == 0
    then ok (negsuc 0, m')
    else further

unfoldable pub copy_page_tables : (from to size : ℕ) → Memory → Outcome (ℤ × Memory)
unfolding copy_tables
copy_page_tables from to size m =
    if not (from % 2 ^ 22 == 0) || not (to % 2 ^ 22 == 0)
    then panic
    else copy_tables (if from == 0 then 0xa0 else 1024) (directories size) (dir_of from) (dir_of to)
        m

unfoldable pub put_page : (page address : ℕ) → Memory → ℕ × Memory
unfolding get_free_page
put_page page address m =
    let dir = dir_of address in
    let entry = address / 2 ^ 12 % 2 ^ 10 * 4 in
    let (tmp, m') = get_free_page m in
    if present (m.word dir)
    then (page, store (page_of (m.word dir) + entry) (or_7 page) m)
    else if tmp == 0
    then (0, m')
    else (page, store (tmp + entry) (or_7 page) (store dir (or_7 tmp) m'))

-- The end of `un_wp_page`: the old page loses a reference, and the entry gets a copy of it.
unfoldable pub replace_page : (table_entry old_page new_page : ℕ) → Memory → Memory
replace_page table_entry old_page new_page m = record m {
  map =
      if leb low_mem old_page
      then update m.map (map_nr old_page) ((m.map (map_nr old_page) + 255) % 2 ^ 8)
      else m.map;
  word = copy_page old_page new_page (update m.word table_entry (or_7 new_page));
}

unfoldable pub un_wp_page : ℕ → Memory → Outcome Memory
unfolding get_free_page replace_page
un_wp_page table_entry m =
    let old_page = page_of (m.word table_entry) in
    let (new_page, m') = get_free_page m in
    if leb low_mem old_page && (m.map (map_nr old_page) == 1)
    then ok (record m { word = update m.word table_entry (set_write (m.word table_entry)) })
    else if new_page == 0
    then exits
    else ok (replace_page table_entry old_page new_page m')

unfoldable pub do_wp_page : (error_code address : ℕ) → Memory → Outcome Memory
unfolding un_wp_page
do_wp_page error_code address m =
    un_wp_page (offset_of address + page_of (m.word (dir_of address))) m

unfoldable pub write_verify : ℕ → Memory → Outcome Memory
unfolding un_wp_page
write_verify address m =
    let entry = page_of (m.word (dir_of address)) + offset_of address in
    if not (present (m.word (dir_of address)))
    then ok m
    else if m.word entry % 4 == 1
    then un_wp_page entry m
    else ok m

unfoldable pub get_empty_page : ℕ → Memory → Outcome Memory
unfolding get_free_page put_page free_page
get_empty_page address m =
    let (tmp, m') = get_free_page m in
    let (page, m'') = put_page tmp address m' in
    if tmp == 0
    then free_page tmp m' >>= (λ _. exits)
    else if page == 0
    then free_page tmp m'' >>= (λ _. exits)
    else ok m''

-- `start_code` of the other task and of the current one.
unfoldable pub try_to_share : (address p_start current_start : ℕ) → Memory → Outcome (ℤ × Memory)
unfolding get_free_page
try_to_share address p_start current_start m =
    let from_dir = dir_of address + dir_of p_start in
    let to_dir = dir_of address + dir_of current_start in
    let from_entry = page_of (m.word from_dir) + offset_of address in
    let phys_addr = page_of (m.word from_entry) in
    let (tmp, fresh) = get_free_page m in
    let m' = if present (m.word to_dir) then m else store to_dir (or_7 tmp) fresh in
    let to = if present (m.word to_dir) then m.word to_dir else tmp in
    let to_entry = page_of to + offset_of address in
    let shared = clear_write (m'.word from_entry) in
    let word = update m'.word from_entry shared in
    if not (present (m.word from_dir))
    then ok (pos 0, m)
    else if not (present (m.word from_entry) && (bit_at (m.word from_entry) 6 == 0))
    then ok (pos 0, m)
    else if leb m.high phys_addr || ltb phys_addr low_mem
    then ok (pos 0, m)
    else if not (present (m.word to_dir)) && (tmp == 0)
    then exits
    else if present (m'.word to_entry)
    then panic
    else ok (
      pos 1,
      record m' {
        map = update m'.map (map_nr phys_addr) ((m'.map (map_nr phys_addr) + 1) % 2 ^ 8);
        word = update word to_entry (word from_entry);
      },
    )

-- The loop of `mem_init` that frees `n` pages from `i` on.
unfoldable pub mem_init : (start_mem end_mem : ℕ) → Memory → Memory
unfolding for_up
mem_init start_mem end_mem m = record m {
  map =
      for_up ((end_mem - start_mem) / 2 ^ 12) (map_nr start_mem) (λ i map. update map i 0)
        (λ i. if ltb i paging_pages then 100 else m.map i);
  high = end_mem;
}
