-- ===== src/Inode/Words.antt =====
-- fs/inode.c: the words of the indirect blocks.
use mathlib.Core.Path.{subst}
use hit_os.Common.{
  ok-inj, ℕ, ◌≡◌, ◌≢◌, refl, sym, ap, ◌∙◌, arith, true, not, ◌||◌, ok, >>=-eq-ok, ◌>>=◌, ◌==◌,
  if◌then◌else◌, update, update_self, update_ne, inl, inr, Bool-cases,
}
use native.Mathlib.Decide.{ℕ_discrete}
use hit_os.Blocks.{SuperBlock, Fs, new_block}
use hit_os.Blocks.Zones.{IsFs}
use hit_os.Inode.{set_word, make_word, bmap_word}
use hit_os.Inode.Bmap.{word_of}
use hit_os.Inode.Step.{IsUsed, IsStep, new_block-IsStep}

pub word_of_there :
    (fs : Fs) (b k : ℕ) → b ≢ 0 → fs.readable b ≡ true → word_of fs b k ≡ fs.words b k
word_of_there fs b k ne r = ground arith

-- What bmap_word has done where it comes back with a zone: word `k` of `b` names it, and the words of
-- other blocks that are taken stay.
pub record IsWord (sb : SuperBlock) (fs : Fs) (b k z : ℕ) (fs' : Fs) : Type 0 where
  pub sb' : SuperBlock
  pub valid : IsFs sb' fs'
  pub kept : (y : ℕ) → IsUsed sb y → IsUsed sb' y
  pub there : word_of fs' b k ≡ z
  pub source : (y : ℕ) → IsUsed sb y → fs.words b k ≢ y → z ≢ y
  pub words : (y : ℕ) → IsUsed sb y → y ≢ b → fs'.words y ≡ fs.words y
  pub readable : (y : ℕ) → fs.readable y ≡ true → fs'.readable y ≡ true

found-IsWord :
    (sb : SuperBlock) (fs : Fs) (b k z : ℕ)
    → IsFs sb fs
    → b ≢ 0
    → fs.readable b ≡ true
    → fs.words b k ≡ z
    → IsWord sb fs b k z fs
found-IsWord sb fs b k z v there r e = record {
  sb' = sb;
  valid = v;
  kept = λ y u. u;
  there = word_of_there fs b k there r ∙ e;
  source = λ y u ne same. ne (e ∙ same);
  words = λ y u ne. refl;
  readable = λ y r. r;
}

set_word-IsFs : (sb : SuperBlock) (fs : Fs) (b k z : ℕ) → IsFs sb fs → IsFs sb (set_word b k z fs)
set_word-IsFs sb fs b k z v = record {
  mounted = v.mounted;
  first = v.first;
  last = v.last;
  reserved = v.reserved;
  unused = v.unused;
}

made-IsWord :
    (sb : SuperBlock) (fs : Fs) (b k z : ℕ) (fs' : Fs)
    → IsStep sb fs z fs'
    → b ≢ 0
    → fs.readable b ≡ true
    → z ≢ 0
    → IsWord sb fs b k z (set_word b k z fs')
made-IsWord sb fs b k z fs' s there r ne = record {
  sb' = s.sb';
  valid = set_word-IsFs s.sb' fs' b k z s.valid;
  kept = s.kept;
  there =
      word_of_there (set_word b k z fs') b k there (s.others_readable b r)
      ∙ ap (λ (f : ℕ → ℕ). f k) (update_self fs'.words b (update (fs'.words b) k z))
      ∙ update_self (fs'.words b) k z;
  source = λ y u _ same. s.fresh y ne u (sym same);
  words = λ y u other.
      update_ne fs'.words b (update (fs'.words b) k z) y (λ e. other (sym e))
      ∙ s.words y (λ nz. s.fresh y nz u);
  readable = s.others_readable;
}

-- The three ways through bmap_word, each from its tests.
bmap_word-found :
    (b k : ℕ) (fs : Fs)
    → b ≢ 0
    → fs.readable b ≡ true
    → fs.words b k ≢ 0
    → bmap_word true b k fs ≡ ok (fs.words b k, fs)
unfolding bmap_word make_word
bmap_word-found b k fs there r ne = ground arith

bmap_word-made :
    (b k : ℕ) (fs : Fs)
    → b ≢ 0
    → fs.readable b ≡ true
    → fs.words b k ≡ 0
    → bmap_word true b k fs ≡ (
        new_block fs >>= (λ (r : ℕ × Fs). ok (r.0, if r.0 == 0 then r.1 else set_word b k r.0 r.1)))
unfolding bmap_word make_word
bmap_word-made b k fs there r e = ground arith

bmap_word-missing :
    (b k : ℕ) (fs : Fs)
    → ((b == 0) || not (fs.readable b)) ≡ true
    → bmap_word true b k fs ≡ ok (0, fs)
unfolding bmap_word
bmap_word-missing b k fs e = ground arith

pub bmap_word-there :
    (b k z : ℕ) (fs fs' : Fs)
    → bmap_word true b k fs ≡ ok (z, fs')
    → z ≢ 0
    → (b ≢ 0) × (fs.readable b ≡ true)
bmap_word-there b k z fs fs' e ne = elim (Bool-cases ((b == 0) || not (fs.readable b))) [
  | inl t ↦
      let same : (0, fs) ≡ (z, fs') = ok-inj (sym (bmap_word-missing b k fs t) ∙ e) in
      absurd (ne (sym (ap (λ (q : ℕ × Fs). q.0) same)))
  | inr t ↦ (ground arith, ground arith)
]

pub bmap_word-IsWord :
    (sb : SuperBlock) (b k z : ℕ) (fs fs' : Fs)
    → IsFs sb fs
    → bmap_word true b k fs ≡ ok (z, fs')
    → z ≢ 0
    → IsWord sb fs b k z fs'
bmap_word-IsWord sb b k z fs fs' v e ne =
    let (there, r) = bmap_word-there b k z fs fs' e ne in
    elim (ℕ_discrete (fs.words b k) 0) [
      | no some_zone ↦
          let same : (fs.words b k, fs) ≡ (z, fs') =
            ok-inj (sym (bmap_word-found b k fs there r some_zone) ∙ e) in
          subst (λ (q : ℕ × Fs). IsWord sb fs b k q.0 q.1) same
            (found-IsWord sb fs b k (fs.words b k) v there r refl)
      | yes none_yet ↦
          let ((z1, fs1), e1, e2) =
            >>=-eq-ok (new_block fs) _ (z, fs')
              (sym (bmap_word-made b k fs there r none_yet) ∙ e) in
          let same = ok-inj e2 in
          let nz : z1 ≢ 0 = λ e. ne (sym (ap (λ (q : ℕ × Fs). q.0) same) ∙ e) in
          let pick : (if z1 == 0 then fs1 else set_word b k z1 fs1) ≡ set_word b k z1 fs1 =
            ground arith in
          subst (λ (q : ℕ × Fs). IsWord sb fs b k q.0 q.1)
            (ap (λ (w : Fs). (z1, w)) (sym pick) ∙ same)
            (made-IsWord sb fs b k z1 fs1 (new_block-IsStep sb fs z1 fs1 v e1) there r nz)
    ]
