-- ===== src/Inode/Step.antt =====
-- fs/inode.c: what a call of `new_block` does to a file.
use mathlib.Core.Path.{subst}
use hit_os.Common.{
  ℕ, ◌<◌, ◌≤◌, ◌≡◌, ◌≢◌, refl, sym, ap, ◌∙◌, arith, Bool, true, false, Outcome, ok, panic, exits,
}
use native.Mathlib.Decide.{ℕ_discrete}
use hit_os.Blocks.{SuperBlock, Fs, new_block}
use hit_os.Blocks.Zones.{
  IsFs, IsNew, IsAllTaken, NewBlock, new, all_taken, is_taken, new_block-NewBlock,
}

-- A zone of the file system that is taken.
pub record IsUsed (sb : SuperBlock) (z : ℕ) : Type 0 where
  pub low : sb.s_firstdatazone ≤ z
  pub high : z < sb.s_nzones
  pub taken : is_taken sb z ≡ true

-- What a call of new_block that comes back with `z` has done.
pub record IsStep (sb : SuperBlock) (fs : Fs) (z : ℕ) (fs' : Fs) : Type 0 where
  pub sb' : SuperBlock
  pub valid : IsFs sb' fs'
  pub kept : (y : ℕ) → IsUsed sb y → IsUsed sb' y
  pub used : z ≢ 0 → IsUsed sb' z
  pub fresh : (y : ℕ) → z ≢ 0 → IsUsed sb y → y ≢ z
  pub blank : z ≢ 0 → fs'.words z ≡ λ k. 0
  pub readable : z ≢ 0 → fs'.readable z ≡ true
  pub words : (y : ℕ) → (z ≢ 0 → y ≢ z) → fs'.words y ≡ fs.words y
  pub others_readable : (y : ℕ) → fs.readable y ≡ true → fs'.readable y ≡ true

new-IsStep :
    (sb : SuperBlock) (fs : Fs) (z : ℕ) (sb' : SuperBlock) (fs' : Fs)
    → IsFs sb fs
    → IsNew sb fs z sb' fs'
    → IsStep sb fs z fs'
new-IsStep sb fs z sb' fs' v k =
    let kept =
      λ (y : ℕ) (l : sb.s_firstdatazone ≤ y) (h : y < sb.s_nzones) (t : is_taken sb y ≡ true).
        (let r : is_taken sb' y ≡ true = ground (arith, k.marked.zones y l h) in r) in
    record {
      sb' = sb';
      valid = record {
        mounted = k.mounted;
        first = omega (arith, v.first, k.marked.first);
        last = omega (arith, v.last, k.marked.nzones);
        reserved = k.marked.reserved ∙ v.reserved;
        unused = λ y l h e.
            ap (λ (f : ℕ → ℕ). f y) k.b_count
            ∙ v.unused y (omega (arith, k.marked.first)) (omega (arith, k.marked.nzones)) (
                ground (
                  arith,
                  k.marked.zones y (omega (arith, k.marked.first)) (omega (arith, k.marked.nzones)),
                ));
      };
      kept = λ y u. record {
        low = omega (arith, u.low, k.marked.first);
        high = omega (arith, u.high, k.marked.nzones);
        taken = kept y u.low u.high u.taken;
      };
      used = λ ne. record {
        low = omega (arith, k.low, k.marked.first);
        high = omega (arith, k.high, k.marked.nzones);
        taken = ground (arith, k.marked.zones z k.low k.high);
      };
      fresh = λ y ne u same.
          (let bad : true ≡ false = sym (ap (is_taken sb) (sym same) ∙ u.taken) ∙ k.free in cc);
      blank = λ ne. k.blank;
      readable = λ ne. k.readable;
      words = λ y ne. k.others y (ne (λ e. omega (arith, k.low, v.first)));
      others_readable = λ y r. elim (ℕ_discrete y z) [
        | yes e ↦ ap fs'.readable e ∙ k.readable
        | no ne ↦ k.others_readable y ne ∙ r
      ];
    }

all_taken-IsStep :
    (sb : SuperBlock) (fs : Fs) (sb' : SuperBlock) (fs' : Fs)
    → IsFs sb fs
    → IsAllTaken sb fs sb' fs'
    → IsStep sb fs 0 fs'
all_taken-IsStep sb fs sb' fs' v k = record {
  sb' = sb';
  valid = record {
    mounted = k.mounted;
    first = omega (arith, v.first, k.marked.first);
    last = omega (arith, v.last, k.marked.nzones);
    reserved = k.marked.reserved ∙ v.reserved;
    unused = λ y l h e.
        ap (λ (f : ℕ → ℕ). f y) k.b_count
        ∙ v.unused y (omega (arith, k.marked.first)) (omega (arith, k.marked.nzones)) (
            sym (k.marked.zones y (omega (arith, k.marked.first)) (omega (arith, k.marked.nzones)))
            ∙ e);
  };
  kept = λ y u. record {
    low = omega (arith, u.low, k.marked.first);
    high = omega (arith, u.high, k.marked.nzones);
    taken = k.marked.zones y u.low u.high ∙ u.taken;
  };
  used = λ ne. absurd (ne refl);
  fresh = λ y ne. absurd (ne refl);
  blank = λ ne. absurd (ne refl);
  readable = λ ne. absurd (ne refl);
  words = λ y ne. ap (λ (f : ℕ → ℕ → ℕ). f y) k.words;
  others_readable = λ y r. ap (λ (f : ℕ → Bool). f y) k.readable ∙ r;
}

outcome-IsStep :
    (sb : SuperBlock) (fs : Fs) (z : ℕ) (fs' : Fs) (o : Outcome (ℕ × Fs))
    → IsFs sb fs
    → NewBlock sb fs o
    → o ≡ ok (z, fs')
    → IsStep sb fs z fs'
outcome-IsStep sb fs z fs' (ok _) v (new z1 sb1 fs1 k) e =
    let same : (z1, fs1) ≡ (z, fs') = cc in
    subst (λ (r : ℕ × Fs). IsStep sb fs r.0 r.1) same (new-IsStep sb fs z1 sb1 fs1 v k)
outcome-IsStep sb fs z fs' (ok _) v (all_taken sb1 fs1 k) e =
    let same : (0, fs1) ≡ (z, fs') = cc in
    subst (λ (r : ℕ × Fs). IsStep sb fs r.0 r.1) same (all_taken-IsStep sb fs sb1 fs1 v k)
outcome-IsStep sb fs z fs' panic v k e = elim k [ ]
outcome-IsStep sb fs z fs' exits v k e = elim k [ ]

pub new_block-IsStep :
    (sb : SuperBlock) (fs : Fs) (z : ℕ) (fs' : Fs)
    → IsFs sb fs
    → new_block fs ≡ ok (z, fs')
    → IsStep sb fs z fs'
new_block-IsStep sb fs z fs' v e =
    outcome-IsStep sb fs z fs' (new_block fs) v (new_block-NewBlock sb fs v) e
