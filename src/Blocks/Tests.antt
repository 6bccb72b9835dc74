-- ===== src/Blocks/Tests.antt =====
-- fs/bitmap.c on a small file system, and witnesses.
use hit_os.Common.{refl, arith, true, none, some, update, ltb}
use hit_os.Blocks.{SuperBlock, Fs, zero_inode, new_inode}
use hit_os.Blocks.Inodes.{NewInode, new_inode-NewInode}

-- 20 zones from zone 5 on, of which 5 and 6 are taken, and 10 inodes, with the first taken.
abbrev sb : SuperBlock
sb = record {
  s_ninodes = 10;
  s_nzones = 20;
  s_firstdatazone = 5;
  s_imap = update (λ i. none) 0 (some (λ k. ltb k 2));
  s_zmap = update (λ i. none) 0 (some (λ k. ltb k 3));
}

abbrev fs : Fs
fs = record {
  super = some sb;
  b_count = λ b. 0;
  words = λ b k. 1;
  readable = λ b. true;
  disk = λ b k. 2;
  disk_readable = λ b. true;
}

new_inode-NewInode_example :
    NewInode 1 0 0 7 zero_inode sb fs (new_inode 1 0 0 7 (some zero_inode) fs)
new_inode-NewInode_example = new_inode-NewInode 1 0 0 7 zero_inode sb fs refl (omega arith)
