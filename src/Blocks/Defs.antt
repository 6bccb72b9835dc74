-- ===== src/Blocks/Defs.antt =====
-- fs/bitmap.c, and the structures of include/linux/fs.h, for one device. A bitmap is the function that
-- its block holds. `b_dirt`, which says that a buffer has to be written, is left out, and so are the
-- messages of `printk`.
use hit_os.Common.{
  ℕ, zero, suc, ◌+◌, ◌-◌, ◌*◌, ◌/◌, ◌%◌, ◌^◌, Bool, true, false, not, ◌||◌, Option, none, some,
  Outcome, ok, panic, ltb, leb, ◌==◌, if◌then◌else◌, update,
}

abbrev pub Bits : Type 0
Bits = ℕ → Bool

-- A map is none where its pointer is NULL.
pub record SuperBlock : Type 0 where
  pub s_ninodes : ℕ
  pub s_nzones : ℕ
  pub s_firstdatazone : ℕ
  pub s_imap : ℕ → Option Bits
  pub s_zmap : ℕ → Option Bits

-- `super` is what get_super gives for the device. `b_count` counts the users of a block's buffer,
-- `words` are the 512 words of 16 bits that `bread` gives for each block, and a block that is not
-- readable gives an error: those of the buffer if that is up to date, and else those of the disk, which
-- `disk` and `disk_readable` say.
pub record Fs : Type 0 where
  pub super : Option SuperBlock
  pub b_count : ℕ → ℕ
  pub words : ℕ → ℕ → ℕ
  pub readable : ℕ → Bool
  pub disk : ℕ → ℕ → ℕ
  pub disk_readable : ℕ → Bool

abbrev pub map_bits : ℕ
map_bits = 2 ^ 13

-- `bsfl` takes the lowest bit of each word: the first zero of the `n` bits from bit `i` on.
unfoldable pub find_first_zero : (n i : ℕ) → Bits → ℕ
find_first_zero zero i bits = i
find_first_zero (suc n) i bits = elim (bits i) [ true ↦ find_first_zero n (i + 1) bits | false ↦ i ]

-- The loop over the maps: the first map with a zero, with its number and that of the bit.
unfoldable pub find_map : (n i : ℕ) → (ℕ → Option Bits) → Option (ℕ × ℕ × Bits)
unfolding find_first_zero
find_map zero i maps = none
find_map (suc n) i maps =
    let rest = find_map n (i + 1) maps in
    elim (maps i) [
      | none ↦ rest
      | some bits ↦
          let j = find_first_zero map_bits 0 bits in
          if ltb j map_bits then some (i, j, bits) else rest
    ]

abbrev pub put_bit : (i j : ℕ) (b : Bool) → Bits → (ℕ → Option Bits) → ℕ → Option Bits
put_bit i j b bits maps = update maps i (some (update bits j b))

-- After the loop. `getblk` finds a buffer with one more user than the block has; the buffer is up to
-- date then, so the block can be read.
unfoldable pub take_block : (i j : ℕ) → Bits → SuperBlock → Fs → Outcome (ℕ × Fs)
take_block i j bits sb fs =
    let sb' : SuperBlock = record sb { s_zmap = put_bit i j true bits sb.s_zmap } in
    let marked : Fs = record fs { super = some sb' } in
    let block = j + (i * map_bits + sb.s_firstdatazone - 1) in
    if bits j
    then panic
    else if leb sb.s_nzones block
    then ok (0, marked)
    else if not (fs.b_count block == 0)
    then panic
    else ok (
      block,
      record marked {
        words = update fs.words block (λ k. 0);
        readable = update fs.readable block true;
      },
    )

abbrev pub take_found : Option (ℕ × ℕ × Bits) → SuperBlock → Fs → Outcome (ℕ × Fs)
take_found none sb fs = ok (0, fs)
take_found (some (i, j, bits)) sb fs = take_block i j bits sb fs

unfoldable pub new_block : Fs → Outcome (ℕ × Fs)
unfolding find_map take_block
new_block fs = elim fs.super [ none ↦ panic | some sb ↦ take_found (find_map 8 0 sb.s_zmap) sb fs ]

-- The bit of a block is cleared. A NULL map is followed by the code; `panic` stands for the fault.
unfoldable pub clear_zone : ℕ → SuperBlock → Fs → Outcome Fs
clear_zone n sb fs = elim (sb.s_zmap (n / map_bits)) [
  | none ↦ panic
  | some bits ↦
      let sb' : SuperBlock = record sb {
        s_zmap = put_bit (n / map_bits) (n % map_bits) false bits sb.s_zmap;
      } in
      if not (bits (n % map_bits)) then panic else ok (record fs { super = some sb' })
]

-- b_uptodate = 0: the next `bread` reads the block from the disk.
abbrev pub forget : ℕ → Fs → Fs
forget block fs = record fs {
  words = update fs.words block (fs.disk block);
  readable = update fs.readable block (fs.disk_readable block);
}

-- Where the block's buffer has a user, the reference that get_hash_table takes is not given back.
unfoldable pub free_block : ℕ → Fs → Outcome Fs
unfolding clear_zone
free_block block fs = elim fs.super [
  | none ↦ panic
  | some sb ↦
      if ltb block sb.s_firstdatazone || leb sb.s_nzones block
      then panic
      else if not (fs.b_count block == 0)
      then ok (record fs { b_count = update fs.b_count block ((fs.b_count block + 1) % 2 ^ 8) })
      else clear_zone (block - (sb.s_firstdatazone - 1)) sb (forget block fs)
]

-- The fields of `struct m_inode` that its functions use here.
pub record MInode : Type 0 where
  pub i_mode : ℕ
  pub i_uid : ℕ
  pub i_gid : ℕ
  pub i_size : ℕ
  pub i_mtime : ℕ
  pub i_atime : ℕ
  pub i_ctime : ℕ
  pub i_nlinks : ℕ
  pub i_zone : ℕ → ℕ
  pub i_dev : ℕ
  pub i_num : ℕ
  pub i_count : ℕ
  pub i_dirt : ℕ

-- memset(inode,0,sizeof(*inode))
abbrev pub zero_inode : MInode
zero_inode = record {
  i_mode = 0;
  i_uid = 0;
  i_gid = 0;
  i_size = 0;
  i_mtime = 0;
  i_atime = 0;
  i_ctime = 0;
  i_nlinks = 0;
  i_zone = λ k. 0;
  i_dev = 0;
  i_num = 0;
  i_count = 0;
  i_dirt = 0;
}

-- `inode` is not NULL.
unfoldable pub free_inode : MInode → Fs → Outcome (MInode × Fs)
free_inode inode fs =
    if inode.i_dev == 0
    then ok (zero_inode, fs)
    else if ltb 1 inode.i_count || not (inode.i_nlinks == 0)
    then panic
    else elim fs.super [
      | none ↦ panic
      | some sb ↦
          let i = inode.i_num / map_bits in
          let j = inode.i_num % map_bits in
          if ltb inode.i_num 1 || ltb sb.s_ninodes inode.i_num then panic else elim (sb.s_imap i) [
            | none ↦ panic
            | some bits ↦
                let sb' : SuperBlock = record sb { s_imap = put_bit i j false bits sb.s_imap } in
                ok (zero_inode, record fs { super = some sb' })
          ]
    ]

-- The fields of a new inode.
abbrev pub fresh : (dev num euid egid now : ℕ) → MInode → MInode
fresh dev num euid egid now inode = record inode {
  i_count = 1;
  i_nlinks = 1;
  i_dev = dev;
  i_uid = euid;
  i_gid = egid % 2 ^ 8;
  i_dirt = 1;
  i_num = num;
  i_mtime = now;
  i_atime = now;
  i_ctime = now;
}

-- After the loop, with the super block and the empty inode. Where no inode is free, `iput` gives the
-- empty one back.
abbrev pub take_inode :
    Option (ℕ × ℕ × Bits) → (ℕ → MInode) → SuperBlock → Fs → Outcome (Option MInode × Fs)
take_inode none make sb fs = ok (none, fs)
take_inode (some (i, j, bits)) make sb fs =
    let num = j + i * map_bits in
    let sb' : SuperBlock = record sb { s_imap = put_bit i j true bits sb.s_imap } in
    if ltb sb.s_ninodes num
    then ok (none, fs)
    else if bits j
    then panic
    else ok (some (make num), record fs { super = some sb' })

-- `empty` is what get_empty_inode gives.
unfoldable pub new_inode :
    (dev euid egid now : ℕ) (empty : Option MInode) → Fs → Outcome (Option MInode × Fs)
unfolding find_map
new_inode dev euid egid now none fs = ok (none, fs)
new_inode dev euid egid now (some inode) fs = elim fs.super [
  | none ↦ panic
  | some sb ↦
      take_inode (find_map 8 0 sb.s_imap) (λ (num : ℕ). fresh dev num euid egid now inode) sb fs
]
