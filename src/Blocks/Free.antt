-- ===== src/Blocks/Free.antt =====
-- fs/bitmap.c: `free_block`.
use hit_os.Common.{
  ℕ, ◌+◌, ◌-◌, ◌/◌, ◌%◌, ◌^◌, ◌<◌, ◌≤◌, ◌≡◌, ◌≢◌, true, false, none, some, ◌==◌, if◌then◌else◌,
  Outcome, ok, panic, ◌⊎◌, update,
}
use hit_os.Blocks.{SuperBlock, Fs, map_bits}
use hit_os.Blocks.Zones.{is_taken, IsMarked}

-- Zone `z` has been freed, and nothing else has changed: what its buffer held is forgotten, so that
-- the block is again what the disk holds.
pub record IsFreed (sb : SuperBlock) (fs : Fs) (z : ℕ) (sb' : SuperBlock) (fs' : Fs) : Type 0 where
  pub mounted : fs'.super ≡ some sb'
  pub marked : IsMarked sb sb' (λ y. if y == z then false else is_taken sb y)
  pub forgotten : fs'.words z ≡ fs.disk z
  pub words : (y : ℕ) → y ≢ z → fs'.words y ≡ fs.words y
  pub read_again : fs'.readable z ≡ fs.disk_readable z
  pub readable : (y : ℕ) → y ≢ z → fs'.readable y ≡ fs.readable y
  pub b_count : fs'.b_count ≡ fs.b_count
  pub disk : fs'.disk ≡ fs.disk
  pub disk_readable : fs'.disk_readable ≡ fs.disk_readable

-- The ways of free_block. The last panic but one stands for the fault at a map that is not there.
pub data FreeBlock (sb : SuperBlock) (fs : Fs) (z : ℕ) : Outcome Fs → Type 0 where
  outside : (z < sb.s_firstdatazone) ⊎ (sb.s_nzones ≤ z) → FreeBlock sb fs z panic
  in_use :
      sb.s_firstdatazone ≤ z
      → z < sb.s_nzones
      → fs.b_count z ≢ 0
      → FreeBlock sb fs z
          (ok (record fs { b_count = update fs.b_count z ((fs.b_count z + 1) % 2 ^ 8) }))
  no_map :
      sb.s_firstdatazone ≤ z
      → z < sb.s_nzones
      → fs.b_count z ≡ 0
      → sb.s_zmap ((z - (sb.s_firstdatazone - 1)) / map_bits) ≡ none
      → FreeBlock sb fs z panic
  not_taken :
      sb.s_firstdatazone ≤ z
      → z < sb.s_nzones
      → fs.b_count z ≡ 0
      → is_taken sb z ≡ false
      → FreeBlock sb fs z panic
  freed :
      (sb' : SuperBlock) (fs' : Fs)
      → sb.s_firstdatazone ≤ z
      → z < sb.s_nzones
      → fs.b_count z ≡ 0
      → is_taken sb z ≡ true
      → IsFreed sb fs z sb' fs'
      → FreeBlock sb fs z (ok fs')
