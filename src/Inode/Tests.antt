-- ===== src/Inode/Tests.antt =====
-- fs/inode.c and fs/truncate.c on a small file system, and witnesses.
use hit_os.Common.{false, ◌^◌, ◌≡◌, refl, arith, true, none, some, ok, update, ltb}
use hit_os.Blocks.{SuperBlock, Fs, MInode, zero_inode}
use hit_os.Blocks.Search.{bit_of}
use hit_os.Blocks.Zones.{IsFs}
use hit_os.Inode.{emptied, bmap, create_block, truncate}
use hit_os.Inode.Bmap.{zone_of, bmap-eq-zone_of}
use hit_os.Inode.Create.{bmap-create_block}

-- 20 zones from zone 5 on, of which 5 and 6 are taken.
abbrev sb : SuperBlock
sb = record {
  s_ninodes = 10;
  s_nzones = 20;
  s_firstdatazone = 5;
  s_imap = update (λ i. none) 0 (some (λ k. ltb k 2));
  s_zmap = update (λ i. none) 0 (some (λ k. ltb k 3));
}

abbrev fs : Fs
fs = record {
  super = some sb;
  b_count = λ b. 0;
  words = λ b k. 1;
  readable = λ b. true;
  disk = λ b k. 2;
  disk_readable = λ b. true;
}

fs-IsFs : IsFs sb fs
unfolding bit_of
fs-IsFs = record {
  mounted = refl;
  first = omega arith;
  last = omega arith;
  reserved = refl;
  unused = λ z l h e. refl;
}

-- A regular file whose first zone is 6.
abbrev file : MInode
file = record zero_inode { i_mode = 2 ^ 15; i_zone = update (λ k. 0) 0 6 }

bmap-eq-zone_of_example : bmap 3 0 file fs ≡ ok (zone_of file fs 0, file, fs)
bmap-eq-zone_of_example = bmap-eq-zone_of 3 0 file fs (omega arith)

-- Block 6 is free afterwards, and forgotten.
abbrev fs_empty : Fs
fs_empty = record fs {
  super = some (record sb { s_zmap = update sb.s_zmap 0 (some (update (λ k. ltb k 3) 2 false)) });
  words = update fs.words 6 (λ k. 2);
  readable = update fs.readable 6 true;
}

truncate_run : truncate 3 file fs ≡ ok (emptied 3 file, fs_empty)
unfolding truncate hit_os.Blocks.free_block
truncate_run = refl

-- A new second block, which is 7.
abbrev longer : MInode
longer = record file { i_zone = update file.i_zone 1 7; i_ctime = 3; i_dirt = 1 }

abbrev fs_longer : Fs
fs_longer = record fs {
  super = some (record sb { s_zmap = update sb.s_zmap 0 (some (update (λ k. ltb k 3) 3 true)) });
  words = update fs.words 7 (λ k. 0);
  readable = update fs.readable 7 true;
}

create_block_run : create_block 3 1 file fs ≡ ok (7, longer, fs_longer)
unfolding create_block hit_os.Blocks.new_block
create_block_run = refl

bmap-create_block_example : bmap 9 1 longer fs_longer ≡ ok (7, longer, fs_longer)
bmap-create_block_example =
    bmap-create_block sb 3 9 1 7 file longer fs fs_longer fs-IsFs (λ ne. absurd (ne refl))
      (λ ne. absurd (ne refl)) create_block_run (omega arith)
