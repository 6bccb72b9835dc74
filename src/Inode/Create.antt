-- ===== src/Inode/Create.antt =====
-- fs/inode.c: the zones that `create_block` makes.
use mathlib.Core.Path.{subst}
use hit_os.Common.{
  ok-inj, ℕ, ◌+◌, ◌-◌, ◌*◌, ◌/◌, ◌%◌, ◌<◌, ◌≤◌, ◌≡◌, ◌≢◌, refl, sym, ap, ◌∙◌, arith, true, ok,
  panic, >>=-eq-ok, ◌>>=◌, ltb, leb, ◌==◌, if◌then◌else◌, update_self, inl, inr, Bool-cases,
  not-==→ne,
}
use native.Mathlib.Decide.{ℕ_discrete}
use hit_os.Blocks.{SuperBlock, Fs, MInode, new_block}
use hit_os.Blocks.Zones.{IsFs}
use hit_os.Inode.{
  set_zone, make_zone, bmap_word, bmap_single, bmap_double, bmap_create, bmap, create_block,
}
use hit_os.Inode.Bmap.{word_of, zone_of, bmap-eq-zone_of}
use hit_os.Inode.Step.{IsUsed, IsStep, new_block-IsStep}
use hit_os.Inode.Words.{bmap_word-IsWord, bmap_word-there, word_of_there}

-- Zone `k` of the inode, if there is one, is a block that is taken and does not name itself.
abbrev pub IsTree : SuperBlock → MInode → Fs → ℕ → Type 0
IsTree sb inode fs k =
    inode.i_zone k ≢ 0
    → IsUsed sb (inode.i_zone k) × ((j : ℕ) → fs.words (inode.i_zone k) j ≢ inode.i_zone k)

-- What make_zone keeps.
record IsZone (inode' : MInode) (k : ℕ) (fs' : Fs) : Type 0 where
  sb' : SuperBlock
  valid : IsFs sb' fs'
  tree : IsTree sb' inode' fs' k

make_zone-there :
    (now k : ℕ) (inode : MInode) (fs : Fs)
    → inode.i_zone k ≢ 0
    → make_zone true now k inode fs ≡ ok (inode, fs)
unfolding make_zone
make_zone-there now k inode fs ne = ground arith

make_zone-missing :
    (now k : ℕ) (inode : MInode) (fs : Fs)
    → inode.i_zone k ≡ 0
    → make_zone true now k inode fs ≡ (
        new_block fs
        >>= (λ (r : ℕ × Fs). ok (if r.0 == 0 then inode else set_zone now k r.0 inode, r.1)))
unfolding make_zone
make_zone-missing now k inode fs e = ground arith

made-IsZone :
    (sb : SuperBlock) (now k z : ℕ) (inode : MInode) (fs fs' : Fs)
    → IsStep sb fs z fs'
    → z ≢ 0
    → IsZone (set_zone now k z inode) k fs'
made-IsZone sb now k z inode fs fs' s nz = record {
  sb' = s.sb';
  valid = s.valid;
  tree = λ ne.
      subst (λ (b : ℕ). IsUsed s.sb' b × ((j : ℕ) → fs'.words b j ≢ b))
        (sym (update_self inode.i_zone k z))
        (s.used nz, λ j e. nz (sym e ∙ ap (λ (f : ℕ → ℕ). f j) (s.blank nz)));
}

new-IsZone :
    (sb : SuperBlock) (now k z : ℕ) (inode : MInode) (fs fs' : Fs)
    → IsStep sb fs z fs'
    → inode.i_zone k ≡ 0
    → IsZone (if z == 0 then inode else set_zone now k z inode) k fs'
new-IsZone sb now k z inode fs fs' s e = elim (Bool-cases (z == 0)) [
  | inl t ↦ rw t (record { sb' = s.sb'; valid = s.valid; tree = λ ne. absurd (ne e) })
  | inr t ↦ rw t (made-IsZone sb now k z inode fs fs' s (not-==→ne z 0 t))
]

make_zone-IsZone :
    (sb : SuperBlock) (now k : ℕ) (inode inode' : MInode) (fs fs' : Fs)
    → IsFs sb fs
    → IsTree sb inode fs k
    → make_zone true now k inode fs ≡ ok (inode', fs')
    → IsZone inode' k fs'
make_zone-IsZone sb now k inode inode' fs fs' v t e = elim (ℕ_discrete (inode.i_zone k) 0) [
  | no there ↦
      subst (λ (q : MInode × Fs). IsZone q.0 k q.1)
        (ok-inj (sym (make_zone-there now k inode fs there) ∙ e))
        (record { sb' = sb; valid = v; tree = t })
  | yes missing ↦
      let ((z1, fs1), e1, e2) =
        >>=-eq-ok (new_block fs) _ (inode', fs')
          (sym (make_zone-missing now k inode fs missing) ∙ e) in
      subst (λ (q : MInode × Fs). IsZone q.0 k q.1) (ok-inj e2)
        (new-IsZone sb now k z1 inode fs fs1 (new_block-IsStep sb fs z1 fs1 v e1) missing)
]

bmap_single-word :
    (sb : SuperBlock) (now k z : ℕ) (inode inode' : MInode) (fs fs' : Fs)
    → IsFs sb fs
    → IsTree sb inode fs 7
    → bmap_single true now k inode fs ≡ ok (z, inode', fs')
    → z ≢ 0
    → word_of fs' (inode'.i_zone 7) k ≡ z
unfolding bmap_single
bmap_single-word sb now k z inode inode' fs fs' v t e ne =
    let ((i1, fs1), e1, e2) = >>=-eq-ok (make_zone true now 7 inode fs) _ (z, inode', fs') e in
    let ((z2, fs2), e3, e4) =
      >>=-eq-ok (bmap_word true (i1.i_zone 7) k fs1) _ (z, inode', fs') e2 in
    let made = make_zone-IsZone sb now 7 inode i1 fs fs1 v t e1 in
    let same : (z2, i1, fs2) ≡ (z, inode', fs') = ok-inj e4 in
    let nz : z2 ≢ 0 = λ e. ne (sym (ap (λ (q : ℕ × MInode × Fs). q.0) same) ∙ e) in
    let w = bmap_word-IsWord made.sb' (i1.i_zone 7) k z2 fs1 fs2 made.valid e3 nz in
    subst (λ (q : ℕ × MInode × Fs). word_of q.2 (q.1.i_zone 7) k ≡ q.0) same w.there

-- Two words on the way: the second write does not reach the first block.
double-word :
    (sb : SuperBlock) (b i q hi lo : ℕ) (fs1 fs2 fs3 : Fs)
    → IsFs sb fs1
    → (b ≢ 0 → IsUsed sb b × ((j : ℕ) → fs1.words b j ≢ b))
    → bmap_word true b hi fs1 ≡ ok (i, fs2)
    → bmap_word true i lo fs2 ≡ ok (q, fs3)
    → q ≢ 0
    → word_of fs3 (word_of fs3 b hi) lo ≡ q
double-word sb b i q hi lo fs1 fs2 fs3 v tree e1 e2 nz =
    let (inz, ri) = bmap_word-there i lo q fs2 fs3 e2 nz in
    let (bnz, rb) = bmap_word-there b hi i fs1 fs2 e1 inz in
    let (used, other) = tree bnz in
    let w1 = bmap_word-IsWord sb b hi i fs1 fs2 v e1 inz in
    let w2 = bmap_word-IsWord w1.sb' i lo q fs2 fs3 w1.valid e2 nz in
    let apart : b ≢ i = λ e. w1.source b used (other hi) (sym e) in
    let rb2 = w1.readable b rb in
    let inner : word_of fs3 b hi ≡ i =
      word_of_there fs3 b hi bnz (w2.readable b rb2)
      ∙ ap (λ (f : ℕ → ℕ). f hi) (w2.words b (w1.kept b used) apart)
      ∙ sym (word_of_there fs2 b hi bnz rb2)
      ∙ w1.there in
    ap (λ (m : ℕ). word_of fs3 m lo) inner ∙ w2.there

bmap_double-word :
    (sb : SuperBlock) (now k z : ℕ) (inode inode' : MInode) (fs fs' : Fs)
    → IsFs sb fs
    → IsTree sb inode fs 8
    → bmap_double true now k inode fs ≡ ok (z, inode', fs')
    → z ≢ 0
    → word_of fs' (word_of fs' (inode'.i_zone 8) (k / 512)) (k % 512) ≡ z
unfolding bmap_double
bmap_double-word sb now k z inode inode' fs fs' v t e ne =
    let ((i1, fs1), e1, e2) = >>=-eq-ok (make_zone true now 8 inode fs) _ (z, inode', fs') e in
    let b = i1.i_zone 8 in
    let ((i, fs2), e3, e4) = >>=-eq-ok (bmap_word true b (k / 512) fs1) _ (z, inode', fs') e2 in
    let ((q, fs3), e5, e6) = >>=-eq-ok (bmap_word true i (k % 512) fs2) _ (z, inode', fs') e4 in
    let made = make_zone-IsZone sb now 8 inode i1 fs fs1 v t e1 in
    let same : (q, i1, fs3) ≡ (z, inode', fs') = ok-inj e6 in
    let nz : q ≢ 0 = λ e. ne (sym (ap (λ (a : ℕ × MInode × Fs). a.0) same) ∙ e) in
    let word =
      double-word made.sb' b i q (k / 512) (k % 512) fs1 fs2 fs3 made.valid made.tree e3 e5 nz in
    subst
      (λ (a : ℕ × MInode × Fs). word_of a.2 (word_of a.2 (a.1.i_zone 8) (k / 512)) (k % 512) ≡ a.0)
      same word

zone_of-direct : (n : ℕ) (inode : MInode) (fs : Fs) → n < 7 → zone_of inode fs n ≡ inode.i_zone n
unfolding zone_of
zone_of-direct n inode fs h = ground arith

zone_of-single :
    (n : ℕ) (inode : MInode) (fs : Fs)
    → 7 ≤ n
    → n < 519
    → zone_of inode fs n ≡ word_of fs (inode.i_zone 7) (n - 7)
unfolding zone_of
zone_of-single n inode fs l h = ground arith

zone_of-double :
    (n : ℕ) (inode : MInode) (fs : Fs)
    → 519 ≤ n
    → zone_of inode fs n
      ≡ word_of fs (word_of fs (inode.i_zone 8) ((n - 7 - 512) / 512)) ((n - 7 - 512) % 512)
unfolding zone_of
zone_of-double n inode fs l = let same : n - 7 - 512 ≡ n - 519 = omega arith in ground (arith, same)

-- The four ways of _bmap.
create_block-out :
    (now n : ℕ) (inode : MInode) (fs : Fs)
    → leb (7 + 512 + 512 * 512) n ≡ true
    → create_block now n inode fs ≡ panic
unfolding create_block bmap_create
create_block-out now n inode fs h = simp h refl

create_block-direct :
    (now n : ℕ) (inode : MInode) (fs : Fs)
    → n < 7
    → create_block now n inode fs
      ≡ (make_zone true now n inode fs >>= (λ (a : MInode × Fs). ok (a.0.i_zone n, a.0, a.1)))
unfolding create_block bmap_create
create_block-direct now n inode fs h = ground arith

create_block-single :
    (now n : ℕ) (inode : MInode) (fs : Fs)
    → 7 ≤ n
    → n < 519
    → create_block now n inode fs ≡ bmap_single true now (n - 7) inode fs
unfolding create_block bmap_create
create_block-single now n inode fs l h = ground arith

create_block-double :
    (now n : ℕ) (inode : MInode) (fs : Fs)
    → 519 ≤ n
    → n < 7 + 512 + 512 * 512
    → create_block now n inode fs ≡ bmap_double true now (n - 7 - 512) inode fs
unfolding create_block bmap_create
create_block-double now n inode fs l h = ground arith

direct-zone_of :
    (now n z : ℕ) (inode inode' : MInode) (fs fs' : Fs)
    → n < 7
    → ◌>>=◌ {B = ℕ × MInode × Fs}
        (make_zone true now n inode fs)
        (λ (a : MInode × Fs). ok (a.0.i_zone n, a.0, a.1))
      ≡ ok (z, inode', fs')
    → zone_of inode' fs' n ≡ z
direct-zone_of now n z inode inode' fs fs' h e =
    let ((i1, fs1), e1, e2) = >>=-eq-ok (make_zone true now n inode fs) _ (z, inode', fs') e in
    subst (λ (a : ℕ × MInode × Fs). zone_of a.1 a.2 n ≡ a.0) (ok-inj e2) (zone_of-direct n i1 fs1 h)

create_block-zone_of :
    (sb : SuperBlock) (now n z : ℕ) (inode inode' : MInode) (fs fs' : Fs)
    → IsFs sb fs
    → IsTree sb inode fs 7
    → IsTree sb inode fs 8
    → create_block now n inode fs ≡ ok (z, inode', fs')
    → z ≢ 0
    → (n < 7 + 512 + 512 * 512) × (zone_of inode' fs' n ≡ z)
create_block-zone_of sb now n z inode inode' fs fs' v t7 t8 e ne =
    elim (Bool-cases (leb (7 + 512 + 512 * 512) n)) [
      | inl out ↦ let bad = create_block-out now n inode fs out in cc
      | inr in_range ↦ elim (Bool-cases (ltb n 7)) [
        | inl d ↦ (
          ground arith,
          direct-zone_of now n z inode inode' fs fs' (ground arith)
              (sym (create_block-direct now n inode fs (ground arith)) ∙ e),
        )
        | inr nd ↦ elim (Bool-cases (ltb n 519)) [
          | inl s ↦ (
            ground arith,
            zone_of-single n inode' fs' (ground arith) (ground arith)
                ∙ bmap_single-word sb now (n - 7) z inode inode' fs fs' v t7
                    (sym (create_block-single now n inode fs (ground arith) (ground arith)) ∙ e) ne,
          )
          | inr ns ↦ (
            ground arith,
            zone_of-double n inode' fs' (ground arith)
                ∙ bmap_double-word sb now (n - 7 - 512) z inode inode' fs fs' v t8
                    (sym (create_block-double now n inode fs (ground arith) (ground arith)) ∙ e) ne,
          )
        ]
      ]
    ]

-- What create_block gives, bmap finds: in a file system that is in order, for an inode whose indirect
-- blocks are taken and do not name themselves, a zone that create_block comes back with, if it is not
-- 0, is the one that bmap gives from then on.
pub bmap-create_block :
    (sb : SuperBlock) (now later n z : ℕ) (inode inode' : MInode) (fs fs' : Fs)
    → IsFs sb fs
    → IsTree sb inode fs 7
    → IsTree sb inode fs 8
    → create_block now n inode fs ≡ ok (z, inode', fs')
    → z ≢ 0
    → bmap later n inode' fs' ≡ ok (z, inode', fs')
bmap-create_block sb now later n z inode inode' fs fs' v t7 t8 e ne =
    let (range, found) = create_block-zone_of sb now n z inode inode' fs fs' v t7 t8 e ne in
    bmap-eq-zone_of later n inode' fs' range ∙ ap (λ (y : ℕ). ok (y, inode', fs')) found
