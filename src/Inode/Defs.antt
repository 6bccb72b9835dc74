-- ===== src/Inode/Defs.antt =====
-- fs/inode.c, `_bmap`, and fs/truncate.c, for an inode of the device of `Fs`. `bread` gives the words of
-- a block that is readable, and NULL for another; `brelse` gives the buffer back. In `_bmap` the count of
-- the buffer that is held in between is left as it is: `new_block` looks at it only where it comes to the
-- very block that is held.
use hit_os.Common.{
  ℕ, zero, suc, ◌+◌, ◌-◌, ◌*◌, ◌/◌, ◌%◌, ◌^◌, Bool, true, false, not, ◌&&◌, ◌||◌, Outcome, ok,
  panic, ◌>>=◌, ltb, leb, ◌==◌, if◌then◌else◌, update,
}
use hit_os.Blocks.{Fs, MInode, new_block, free_block}

-- Sets the zone, with the time.
abbrev pub set_zone : (now k z : ℕ) → MInode → MInode
set_zone now k z inode = record inode {
  i_zone = update inode.i_zone k z;
  i_ctime = now;
  i_dirt = 1;
}

-- Makes zone `k` of the inode, if there is none and `create` is set.
unfoldable pub make_zone : (create : Bool) (now k : ℕ) → MInode → Fs → Outcome (MInode × Fs)
make_zone create now k inode fs =
    if create && (inode.i_zone k == 0)
    then new_block fs
      >>= (λ (r : ℕ × Fs). ok (if r.0 == 0 then inode else set_zone now k r.0 inode, r.1))
    else ok (inode, fs)

abbrev pub set_word : (b k z : ℕ) → Fs → Fs
set_word b k z fs = record fs { words = update fs.words b (update (fs.words b) k z) }

-- Word `k` of block `b`, made if there is none and `create` is set.
unfoldable pub make_word : (create : Bool) (b k : ℕ) → Fs → Outcome (ℕ × Fs)
make_word create b k fs =
    if create && (fs.words b k == 0)
    then new_block fs >>= (λ (r : ℕ × Fs). ok (r.0, if r.0 == 0 then r.1 else set_word b k r.0 r.1))
    else ok (fs.words b k, fs)

-- Word `k` of an indirect block `b`; 0 where the block is missing or cannot be read.
unfoldable pub bmap_word : (create : Bool) (b k : ℕ) (fs : Fs) → Outcome (ℕ × Fs)
unfolding make_word
bmap_word create b k fs =
    if (b == 0) || not (fs.readable b) then ok (0, fs) else make_word create b k fs

-- `block` counts from the first block of the single indirect block.
unfoldable pub bmap_single :
    (create : Bool) (now block : ℕ) → MInode → Fs → Outcome (ℕ × MInode × Fs)
unfolding make_zone bmap_word
bmap_single create now block inode fs = do
  a ← make_zone create now 7 inode fs
  r ← bmap_word create (a.0.i_zone 7) block a.1
  ok (r.0, a.0, r.1)

-- `block` counts from the first block of the double indirect block.
unfoldable pub bmap_double :
    (create : Bool) (now block : ℕ) → MInode → Fs → Outcome (ℕ × MInode × Fs)
unfolding make_zone bmap_word
bmap_double create now block inode fs = do
  a ← make_zone create now 8 inode fs
  r ← bmap_word create (a.0.i_zone 8) (block / 512) a.1
  q ← bmap_word create r.0 (block % 512) r.1
  ok (q.0, a.0, q.1)

-- `_bmap` for a block number from 0 on. The number of the zone, or 0.
unfoldable pub bmap_create :
    (create : Bool) (now block : ℕ) → MInode → Fs → Outcome (ℕ × MInode × Fs)
unfolding make_zone bmap_single bmap_double
bmap_create create now block inode fs =
    if leb (7 + 512 + 512 * 512) block
    then panic
    else if ltb block 7
    then (make_zone create now block inode fs
        >>= (λ (a : MInode × Fs). ok (a.0.i_zone block, a.0, a.1)))
    else if ltb (block - 7) 512
    then bmap_single create now (block - 7) inode fs
    else bmap_double create now (block - 7 - 512) inode fs

unfoldable pub bmap : (now block : ℕ) → MInode → Fs → Outcome (ℕ × MInode × Fs)
unfolding bmap_create
bmap now block inode fs = bmap_create false now block inode fs

unfoldable pub create_block : (now block : ℕ) → MInode → Fs → Outcome (ℕ × MInode × Fs)
unfolding bmap_create
create_block now block inode fs = bmap_create true now block inode fs

-- The loop over `n` words of block `b` from word `i` on: what `f` does with those that are not 0.
unfoldable pub free_words : (f : ℕ → Fs → Outcome Fs) (b n i : ℕ) → Fs → Outcome Fs
free_words f b zero i fs = ok fs
free_words f b (suc n) i fs =
    (if fs.words b i == 0 then ok fs else f (fs.words b i) fs)
    >>= (λ (fs' : Fs). free_words f b n (i + 1) fs')

-- The buffer of a block gets a user, and loses it.
abbrev pub hold : ℕ → Fs → Fs
hold b fs = record fs { b_count = update fs.b_count b ((fs.b_count b + 1) % 2 ^ 8) }

abbrev pub let_go : ℕ → Fs → Outcome Fs
let_go b fs =
    if fs.b_count b == 0
    then panic
    else ok (record fs { b_count = update fs.b_count b (fs.b_count b - 1) })

-- `bread`, the loop over the words of the block, and `brelse`; nothing for a block that cannot be read.
unfoldable pub free_listed : (f : ℕ → Fs → Outcome Fs) (block : ℕ) → Fs → Outcome Fs
unfolding free_words
free_listed f block fs =
    if fs.readable block
    then free_words f block 512 0 (hold block fs) >>= (λ (fs' : Fs). let_go block fs')
    else ok fs

unfoldable pub free_ind : ℕ → Fs → Outcome Fs
unfolding free_listed
free_ind block fs =
    if block == 0
    then ok fs
    else (free_listed free_block block fs >>= (λ (fs' : Fs). free_block block fs'))

unfoldable pub free_dind : ℕ → Fs → Outcome Fs
unfolding free_listed free_ind
free_dind block fs =
    if block == 0
    then ok fs
    else (free_listed free_ind block fs >>= (λ (fs' : Fs). free_block block fs'))

-- The loop over the zones of the inode itself.
unfoldable pub free_zones : (n i : ℕ) → MInode → Fs → Outcome Fs
free_zones zero i inode fs = ok fs
free_zones (suc n) i inode fs =
    (if inode.i_zone i == 0 then ok fs else free_block (inode.i_zone i) fs)
    >>= (λ (fs' : Fs). free_zones n (i + 1) inode fs')

-- The blocks of the inode's own zones, and those of the two indirect ones.
unfoldable pub free_blocks : MInode → Fs → Outcome Fs
unfolding free_zones free_ind free_dind
free_blocks inode fs = do
  a ← free_zones 7 0 inode fs
  b ← free_ind (inode.i_zone 7) a
  free_dind (inode.i_zone 8) b

-- S_ISREG or S_ISDIR
abbrev pub has_zones : MInode → Bool
has_zones inode = (inode.i_mode / 2 ^ 12 % 16 == 8) || (inode.i_mode / 2 ^ 12 % 16 == 4)

-- The inode in the end: the loop and the line behind it clear the zones.
abbrev pub emptied : (now : ℕ) → MInode → MInode
emptied now inode = record inode {
  i_zone = λ k. if ltb k 9 then 0 else inode.i_zone k;
  i_size = 0;
  i_dirt = 1;
  i_mtime = now;
  i_ctime = now;
}

unfoldable pub truncate : (now : ℕ) → MInode → Fs → Outcome (MInode × Fs)
unfolding free_blocks
truncate now inode fs =
    if not (has_zones inode)
    then ok (inode, fs)
    else (free_blocks inode fs >>= (λ (fs' : Fs). ok (emptied now inode, fs')))
