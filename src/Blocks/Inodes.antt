-- ===== src/Blocks/Inodes.antt =====
-- fs/bitmap.c: `new_inode` and `free_inode`.
use mathlib.Core.Path.{subst}
use hit_os.Common.{
  ℕ, ◌+◌, ◌*◌, ◌%◌, ◌^◌, ◌<◌, ◌≤◌, ◌≡◌, refl, sym, ap, ◌∙◌, arith, Bool, true, false, Option, none,
  some, ltb, ◌==◌, if◌then◌else◌, Outcome, ok, panic, ltb→lt, not-ltb→le,
}
use hit_os.Blocks.{
  Bits, SuperBlock, Fs, MInode, map_bits, find_map, put_bit, take_inode, fresh, new_inode,
}
use hit_os.Blocks.Search.{bit_of, bit_of-at, Finds, find_map-Finds, bit_of-put_bit}

-- The new inode with number `num`: one user and one link, the ids of the process, the time, and the
-- rest of the empty inode.
pub record IsFresh (dev num euid egid now : ℕ) (empty inode : MInode) : Type 0 where
  pub users : inode.i_count ≡ 1
  pub links : inode.i_nlinks ≡ 1
  pub device : inode.i_dev ≡ dev
  pub number : inode.i_num ≡ num
  pub owner : inode.i_uid ≡ euid
  pub group : inode.i_gid ≡ egid % 2 ^ 8
  pub dirty : inode.i_dirt ≡ 1
  pub modified : inode.i_mtime ≡ now
  pub accessed : inode.i_atime ≡ now
  pub changed : inode.i_ctime ≡ now
  pub mode : inode.i_mode ≡ empty.i_mode
  pub size : inode.i_size ≡ empty.i_size
  pub zones : inode.i_zone ≡ empty.i_zone

-- What new_inode comes back with: no inode, where every number up to the last one is taken; or one
-- with the lowest free number, which is taken then.
pub data NewInode (dev euid egid now : ℕ) (empty : MInode) (sb : SuperBlock) (fs : Fs)
    : Outcome (Option MInode × Fs) → Type 0 where
  no_inode :
      ((n : ℕ) → n ≤ sb.s_ninodes → bit_of sb.s_imap n ≡ true)
      → NewInode dev euid egid now empty sb fs (ok (none, fs))
  an_inode :
      (num : ℕ) (inode : MInode) (imap : ℕ → Option Bits)
      → num ≤ sb.s_ninodes
      → bit_of sb.s_imap num ≡ false
      → ((n : ℕ) → n < num → bit_of sb.s_imap n ≡ true)
      → ((n : ℕ) → bit_of imap n ≡ (if n == num then true else bit_of sb.s_imap n))
      → IsFresh dev num euid egid now empty inode
      → NewInode dev euid egid now empty sb fs
          (ok (some inode, record fs { super = some (record sb { s_imap = imap }) }))

fresh-IsFresh :
    (dev num euid egid now : ℕ) (empty : MInode)
    → IsFresh dev num euid egid now empty (fresh dev num euid egid now empty)
fresh-IsFresh dev num euid egid now empty = record {
  users = refl;
  links = refl;
  device = refl;
  number = refl;
  owner = refl;
  group = refl;
  dirty = refl;
  modified = refl;
  accessed = refl;
  changed = refl;
  mode = refl;
  size = refl;
  zones = refl;
}

-- The two tests behind the search.
tests {ℓ} :
    {A : Type 0} (P : Outcome A → Type ℓ) (outside set : Bool) (x y : A)
    → set ≡ false
    → (outside ≡ true → P (ok x))
    → (outside ≡ false → P (ok y))
    → P (if outside then ok x else if set then panic else ok y)
tests P true set x y e h k = h refl
tests P false true x y e h k = cc
tests P false false x y e h k = k refl

found-NewInode :
    (dev euid egid now : ℕ) (empty : MInode) (r : Option (ℕ × ℕ × Bits)) (sb : SuperBlock) (fs : Fs)
    → sb.s_ninodes < 2 ^ 16
    → Finds 8 0 sb.s_imap r
    → NewInode dev euid egid now empty sb fs
        (take_inode r (λ (num : ℕ). fresh dev num euid egid now empty) sb fs)
found-NewInode dev euid egid now empty none sb fs last full =
    no_inode (λ n h. full n (omega arith) (omega arith))
found-NewInode dev euid egid now empty (some (i, j, bits)) sb fs last
      (low, high, small, here, zero_bit, below) =
    let num = j + i * map_bits in
    tests (NewInode dev euid egid now empty sb fs) (ltb sb.s_ninodes num) (bits j) (none, fs)
      (
        some (fresh dev num euid egid now empty),
        record fs { super = some (record sb { s_imap = put_bit i j true bits sb.s_imap }) },
      )
      zero_bit
      (λ e. no_inode (λ n h. below n (omega arith) (omega (arith, ltb→lt sb.s_ninodes num e))))
      (λ e.
        an_inode num (fresh dev num euid egid now empty) (put_bit i j true bits sb.s_imap)
          (not-ltb→le sb.s_ninodes num e)
          (ap (bit_of sb.s_imap) (omega arith) ∙ bit_of-at sb.s_imap i j bits small here ∙ zero_bit)
          (λ n h. below n (omega arith) (omega arith))
          (λ n. ground (arith, bit_of-put_bit sb.s_imap i j true bits n small here))
          (fresh-IsFresh dev num euid egid now empty))

new_inode_mounted :
    (dev euid egid now : ℕ) (inode : MInode) (sb : SuperBlock) (fs : Fs)
    → fs.super ≡ some sb
    → new_inode dev euid egid now (some inode) fs
      ≡ take_inode (find_map 8 0 sb.s_imap) (λ (num : ℕ). fresh dev num euid egid now inode) sb fs
unfolding new_inode
new_inode_mounted dev euid egid now inode sb fs e = ground arith

-- On a mounted device with fewer than 2^16 inodes, with an empty inode: new_inode comes back with the
-- lowest free inode number up to the last, in an inode with one user and one link, the ids of the
-- process and the time, or with none, and nothing changed, if there is no such number.
pub new_inode-NewInode :
    (dev euid egid now : ℕ) (empty : MInode) (sb : SuperBlock) (fs : Fs)
    → fs.super ≡ some sb
    → sb.s_ninodes < 2 ^ 16
    → NewInode dev euid egid now empty sb fs (new_inode dev euid egid now (some empty) fs)
new_inode-NewInode dev euid egid now empty sb fs e last =
    subst (NewInode dev euid egid now empty sb fs)
      (sym (new_inode_mounted dev euid egid now empty sb fs e))
      (found-NewInode dev euid egid now empty (find_map 8 0 sb.s_imap) sb fs last
        (find_map-Finds 8 0 sb.s_imap))
