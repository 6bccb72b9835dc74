-- ===== src/Inode/Bmap.antt =====
-- fs/inode.c: what `bmap` and `create_block` give.
use hit_os.Common.{
  ℕ, ◌+◌, ◌-◌, ◌*◌, ◌/◌, ◌%◌, ◌<◌, ◌≡◌, refl, arith, false, not, ◌||◌, ok, ltb, ◌==◌, if◌then◌else◌,
}
use hit_os.Blocks.{Fs, MInode}
use hit_os.Inode.{make_zone, make_word, bmap_word, bmap_single, bmap_double, bmap_create, bmap}

-- Word `k` of block `b` as the file sees it: 0 where the block is missing or cannot be read.
abbrev pub word_of : Fs → ℕ → ℕ → ℕ
word_of fs b k = if (b == 0) || not (fs.readable b) then 0 else fs.words b k

-- The zone of a block of the file, or 0: the tree that the zones of the inode span.
unfoldable pub zone_of : MInode → Fs → ℕ → ℕ
zone_of inode fs n =
    if ltb n 7
    then inode.i_zone n
    else if ltb (n - 7) 512
    then word_of fs (inode.i_zone 7) (n - 7)
    else word_of fs (word_of fs (inode.i_zone 8) ((n - 519) / 512)) ((n - 519) % 512)

bmap_word_read : (b k : ℕ) (fs : Fs) → bmap_word false b k fs ≡ ok (word_of fs b k, fs)
unfolding bmap_word make_word
bmap_word_read b k fs = ground arith

make_zone_read :
    (now k : ℕ) (inode : MInode) (fs : Fs) → make_zone false now k inode fs ≡ ok (inode, fs)
unfolding make_zone
make_zone_read now k inode fs = refl

bmap_single_read :
    (now k : ℕ) (inode : MInode) (fs : Fs)
    → bmap_single false now k inode fs ≡ ok (word_of fs (inode.i_zone 7) k, inode, fs)
unfolding bmap_single
bmap_single_read now k inode fs = ground (arith, bmap_word_read (inode.i_zone 7) k fs)

bmap_double_read :
    (now k : ℕ) (inode : MInode) (fs : Fs)
    → bmap_double false now k inode fs
      ≡ ok (word_of fs (word_of fs (inode.i_zone 8) (k / 512)) (k % 512), inode, fs)
unfolding bmap_double
bmap_double_read now k inode fs = ground (
  arith,
  bmap_word_read (inode.i_zone 8) (k / 512) fs,
  bmap_word_read (word_of fs (inode.i_zone 8) (k / 512)) (k % 512) fs,
)

-- bmap changes nothing, and gives the zone of the tree.
pub bmap-eq-zone_of :
    (now n : ℕ) (inode : MInode) (fs : Fs)
    → n < 7 + 512 + 512 * 512
    → bmap now n inode fs ≡ ok (zone_of inode fs n, inode, fs)
unfolding bmap bmap_create zone_of
bmap-eq-zone_of now n inode fs h =
    let rest : n - 7 - 512 ≡ n - 519 = omega arith in
    ground (
      arith,
      make_zone_read now n inode fs,
      bmap_single_read now (n - 7) inode fs,
      bmap_double_read now (n - 7 - 512) inode fs,
      rest,
    )
