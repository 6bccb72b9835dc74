-- ===== src/Blocks/Zones.antt =====
-- fs/bitmap.c: `new_block` and `free_block`.
use hit_os.Common.{
  ℕ, ◌+◌, ◌-◌, ◌*◌, ◌^◌, ◌<◌, ◌≤◌, ◌≡◌, ◌≢◌, refl, sym, ap, ◌∙◌, arith, Bool, true, false, not,
  Option, none, some, leb, ◌==◌, if◌then◌else◌, Outcome, ok, panic, leb→le, update, update_self,
  update_ne,
}
use mathlib.Core.Path.{subst}
use native.Mathlib.Decide.{ℕ_discrete}
use hit_os.Blocks.{
  Bits, SuperBlock, Fs, map_bits, find_map, put_bit, take_block, take_found, new_block,
}
use hit_os.Blocks.Search.{bit_of, Finds, find_map-Finds, bit_of-put_bit, bit_of-at}

-- Is zone `z` taken? Its bit is counted from the zone in front of the first data zone.
unfoldable pub is_taken : SuperBlock → ℕ → Bool
is_taken sb z = bit_of sb.s_zmap (z - (sb.s_firstdatazone - 1))

-- The file system is mounted, with room for its zones in the eight maps; bit 0 is set, as mkfs leaves
-- it; and no buffer of a free zone has a user.
pub record IsFs (sb : SuperBlock) (fs : Fs) : Type 0 where
  pub mounted : fs.super ≡ some sb
  pub first : 1 ≤ sb.s_firstdatazone
  pub last : sb.s_nzones < 2 ^ 16
  pub reserved : bit_of sb.s_zmap 0 ≡ true
  pub unused :
      (z : ℕ) → sb.s_firstdatazone ≤ z → z < sb.s_nzones → is_taken sb z ≡ false → fs.b_count z ≡ 0

-- The two super blocks are of one file system, whose zones are taken by `taken`.
pub record IsMarked (sb sb' : SuperBlock) (taken : ℕ → Bool) : Type 0 where
  pub nzones : sb'.s_nzones ≡ sb.s_nzones
  pub first : sb'.s_firstdatazone ≡ sb.s_firstdatazone
  pub zones : (z : ℕ) → sb.s_firstdatazone ≤ z → z < sb.s_nzones → is_taken sb' z ≡ taken z
  pub reserved : bit_of sb'.s_zmap 0 ≡ bit_of sb.s_zmap 0
  pub inodes : sb'.s_imap ≡ sb.s_imap

-- new_block gives the lowest free zone `z`: it is taken then, with its words 0, and nothing else has
-- changed.
pub record IsNew (sb : SuperBlock) (fs : Fs) (z : ℕ) (sb' : SuperBlock) (fs' : Fs) : Type 0 where
  pub low : sb.s_firstdatazone ≤ z
  pub high : z < sb.s_nzones
  pub free : is_taken sb z ≡ false
  pub lowest : (y : ℕ) → sb.s_firstdatazone ≤ y → y < z → is_taken sb y ≡ true
  pub mounted : fs'.super ≡ some sb'
  pub marked : IsMarked sb sb' (λ y. if y == z then true else is_taken sb y)
  pub blank : fs'.words z ≡ λ k. 0
  pub others : (y : ℕ) → y ≢ z → fs'.words y ≡ fs.words y
  pub b_count : fs'.b_count ≡ fs.b_count
  pub readable : fs'.readable z ≡ true
  pub others_readable : (y : ℕ) → y ≢ z → fs'.readable y ≡ fs.readable y

-- With all zones taken, new_block returns 0.
pub record IsAllTaken (sb : SuperBlock) (fs : Fs) (sb' : SuperBlock) (fs' : Fs) : Type 0 where
  pub all : (y : ℕ) → sb.s_firstdatazone ≤ y → y < sb.s_nzones → is_taken sb y ≡ true
  pub mounted : fs'.super ≡ some sb'
  pub marked : IsMarked sb sb' (is_taken sb)
  pub words : fs'.words ≡ fs.words
  pub b_count : fs'.b_count ≡ fs.b_count
  pub readable : fs'.readable ≡ fs.readable

pub data NewBlock (sb : SuperBlock) (fs : Fs) : Outcome (ℕ × Fs) → Type 0 where
  new : (z : ℕ) (sb' : SuperBlock) (fs' : Fs) → IsNew sb fs z sb' fs' → NewBlock sb fs (ok (z, fs'))
  all_taken :
      (sb' : SuperBlock) (fs' : Fs) → IsAllTaken sb fs sb' fs' → NewBlock sb fs (ok (0, fs'))

-- The bit of a map that stands for a zone.
pub put_bit-IsMarked :
    (i j : ℕ) (b : Bool) (bits : Bits) (sb : SuperBlock)
    → 1 ≤ sb.s_firstdatazone
    → j < map_bits
    → 1 ≤ i * map_bits + j
    → sb.s_zmap i ≡ some bits
    → IsMarked sb
        (record sb { s_zmap = put_bit i j b bits sb.s_zmap })
        (λ y. if y == j + (i * map_bits + sb.s_firstdatazone - 1) then b else is_taken sb y)
unfolding is_taken
put_bit-IsMarked i j b bits sb first h pos e = record {
  nzones = refl;
  first = refl;
  zones = λ z low high.
      ground (arith, bit_of-put_bit sb.s_zmap i j b bits (z - (sb.s_firstdatazone - 1)) h e);
  reserved = ground (arith, bit_of-put_bit sb.s_zmap i j b bits 0 h e);
  inodes = refl;
}

IsMarked-outside :
    (sb sb' : SuperBlock) (z : ℕ)
    → sb.s_nzones ≤ z
    → IsMarked sb sb' (λ y. if y == z then true else is_taken sb y)
    → IsMarked sb sb' (is_taken sb)
IsMarked-outside sb sb' z out m = record {
  nzones = m.nzones;
  first = m.first;
  zones = λ y low high. ground (arith, m.zones y low high);
  reserved = m.reserved;
  inodes = m.inodes;
}

zero_bit-pos :
    (i j : ℕ) (sb : SuperBlock)
    → bit_of sb.s_zmap 0 ≡ true
    → bit_of sb.s_zmap (i * map_bits + j) ≡ false
    → 1 ≤ i * map_bits + j
zero_bit-pos i j sb reserved e = elim (ℕ_discrete (i * map_bits + j) 0) [
  | yes same ↦ let bad = ap (bit_of sb.s_zmap) same in cc
  | no ne ↦ omega arith
]

zone-is_taken :
    (i j : ℕ) (sb : SuperBlock)
    → 1 ≤ sb.s_firstdatazone
    → 1 ≤ i * map_bits + j
    → bit_of sb.s_zmap (i * map_bits + j) ≡ false
    → is_taken sb (j + (i * map_bits + sb.s_firstdatazone - 1)) ≡ false
unfolding is_taken
zone-is_taken i j sb first pos e = ap (bit_of sb.s_zmap) (omega arith) ∙ e

-- The three tests behind the search.
tests {ℓ} :
    {A : Type 0} (P : Outcome A → Type ℓ) (set outside used : Bool) (x y : A)
    → set ≡ false
    → (outside ≡ true → P (ok x))
    → (outside ≡ false → (used ≡ false) × P (ok y))
    → P (if set then panic else if outside then ok x else if used then panic else ok y)
tests P true outside used x y e h k = cc
tests P false true used x y e h k = h refl
tests P false false true x y e h k = let bad = (k refl).0 in cc
tests P false false false x y e h k = (k refl).1

take_block-NewBlock :
    (i j : ℕ) (bits : Bits) (sb : SuperBlock) (fs : Fs)
    → IsFs sb fs
    → Finds 8 0 sb.s_zmap (some (i, j, bits))
    → NewBlock sb fs (take_block i j bits sb fs)
unfolding take_block is_taken
take_block-NewBlock i j bits sb fs valid (low, high, small, here, zero_bit, below) =
    let z = j + (i * map_bits + sb.s_firstdatazone - 1) in
    let sb' : SuperBlock = record sb { s_zmap = put_bit i j true bits sb.s_zmap } in
    let marked : Fs = record fs { super = some sb' } in
    let taken : Fs = record marked {
      words = update fs.words z (λ k. 0);
      readable = update fs.readable z true;
    } in
    let at = bit_of-at sb.s_zmap i j bits small here in
    let pos = zero_bit-pos i j sb valid.reserved (at ∙ zero_bit) in
    let mark = put_bit-IsMarked i j true bits sb valid.first small pos here in
    let free = zone-is_taken i j sb valid.first pos (at ∙ zero_bit) in
    let all_below = λ (y : ℕ) (l : sb.s_firstdatazone ≤ y) (h : y < z).
      below (y - (sb.s_firstdatazone - 1)) (omega arith) (omega (arith, valid.first)) in
    tests (NewBlock sb fs) (bits j) (leb sb.s_nzones z) (not (fs.b_count z == 0)) (0, marked)
      (z, taken) zero_bit
      (λ e. all_taken sb' marked (record {
        all = λ y l h. all_below y l (omega (arith, leb→le sb.s_nzones z e));
        mounted = refl;
        marked = IsMarked-outside sb sb' z (leb→le sb.s_nzones z e) mark;
        words = refl;
        b_count = refl;
        readable = refl;
      }))
      (λ e. (
        ground (arith, valid.unused z (omega (arith, valid.first))),
        new z sb' taken (record {
          low = omega (arith, valid.first);
          high = ground arith;
          free = free;
          lowest = all_below;
          mounted = refl;
          marked = mark;
          blank = update_self fs.words z (λ k. 0);
          others = λ y ne. update_ne fs.words z (λ k. 0) y (λ e. ne (sym e));
          b_count = refl;
          readable = update_self fs.readable z true;
          others_readable = λ y ne. update_ne fs.readable z true y (λ e. ne (sym e));
        }),
      ))

none-IsAllTaken :
    (sb : SuperBlock) (fs : Fs) → IsFs sb fs → Finds 8 0 sb.s_zmap none → IsAllTaken sb fs sb fs
unfolding is_taken
none-IsAllTaken sb fs valid full = record {
  all = λ y l h. full (y - (sb.s_firstdatazone - 1)) (omega arith) (omega (arith, valid.last));
  mounted = valid.mounted;
  marked = record {
    nzones = refl;
    first = refl;
    zones = λ z l h. refl;
    reserved = refl;
    inodes = refl;
  };
  words = refl;
  b_count = refl;
  readable = refl;
}

found-NewBlock :
    (r : Option (ℕ × ℕ × Bits)) (sb : SuperBlock) (fs : Fs)
    → IsFs sb fs
    → Finds 8 0 sb.s_zmap r
    → NewBlock sb fs (take_found r sb fs)
found-NewBlock none sb fs valid full = all_taken sb fs (none-IsAllTaken sb fs valid full)
found-NewBlock (some (i, j, bits)) sb fs valid found =
    take_block-NewBlock i j bits sb fs valid found

new_block_mounted :
    (sb : SuperBlock) (fs : Fs)
    → fs.super ≡ some sb
    → new_block fs ≡ take_found (find_map 8 0 sb.s_zmap) sb fs
unfolding new_block
new_block_mounted sb fs e = ground arith

pub new_block-NewBlock : (sb : SuperBlock) (fs : Fs) → IsFs sb fs → NewBlock sb fs (new_block fs)
new_block-NewBlock sb fs valid =
    subst (NewBlock sb fs) (sym (new_block_mounted sb fs valid.mounted))
      (found-NewBlock (find_map 8 0 sb.s_zmap) sb fs valid (find_map-Finds 8 0 sb.s_zmap))
