-- ===== src/Blocks/Search.antt =====
-- fs/bitmap.c: the search for a zero in the bitmaps.
use hit_os.Common.{
  ℕ, zero, suc, ◌+◌, ◌-◌, ◌*◌, ◌/◌, ◌%◌, ◌<◌, ◌≤◌, ◌≡◌, inl, inr, refl, ap, ◌∙◌, arith, Bool, true,
  false, Option, none, some, ltb, ◌==◌, if◌then◌else◌, Bool-cases, Option-cases, ltb→lt, not-ltb→le,
}
use native.Mathlib.Decide.{ℕ_discrete}
use hit_os.Blocks.{Bits, map_bits, find_first_zero, find_map, put_bit}

-- Bit `n` of the maps taken together. Where a map is missing all bits count as set.
abbrev pub bit_in : Option Bits → ℕ → Bool
bit_in none j = true
bit_in (some bits) j = bits j

unfoldable pub bit_of : (ℕ → Option Bits) → ℕ → Bool
bit_of maps n = bit_in (maps (n / map_bits)) (n % map_bits)

-- What the first zero of `n` bits from bit `i` on is: `n + i` where there is none.
pub record IsFirst (n i : ℕ) (bits : Bits) (j : ℕ) : Type 0 where
  pub low : i ≤ j
  pub high : j ≤ n + i
  pub below : (k : ℕ) → i ≤ k → k < j → bits k ≡ true
  pub found : j < n + i → bits j ≡ false

pub find_first_zero-IsFirst : (n i : ℕ) (bits : Bits) → IsFirst n i bits (find_first_zero n i bits)
unfolding find_first_zero
find_first_zero-IsFirst zero i bits = record {
  low = omega arith;
  high = omega arith;
  below = λ k l h. absurd (omega arith);
  found = λ h. absurd (omega arith);
}
find_first_zero-IsFirst (suc n) i bits = elim (Bool-cases (bits i)) [
  | inl e ↦
      let r = find_first_zero-IsFirst n (i + 1) bits in
      rw (e, find_first_zero)
        (record {
          low = omega (arith, r.low);
          high = omega (arith, r.high);
          below = λ k l h. elim (ℕ_discrete k i) [
            | yes same ↦ rw same e
            | no ne ↦ r.below k (omega arith) h
          ];
          found = λ h. r.found (omega arith);
        })
  | inr e ↦
      rw (e, find_first_zero)
        (record {
          low = omega arith;
          high = omega arith;
          below = λ k l h. absurd (omega arith);
          found = λ h. e;
        })
]

-- What the search of `n` maps from map `i` on finds: every bit of them is set, or the lowest bit that
-- is not.
abbrev pub Finds : (n i : ℕ) → (ℕ → Option Bits) → Option (ℕ × ℕ × Bits) → Type 0
Finds n i maps none = (k : ℕ) → i * map_bits ≤ k → k < (n + i) * map_bits → bit_of maps k ≡ true
Finds n i maps (some (m, j, bits)) =
    (i ≤ m)
    × (m < n + i)
    × (j < map_bits)
    × (maps m ≡ some bits)
    × (bits j ≡ false)
    × ((k : ℕ) → i * map_bits ≤ k → k < m * map_bits + j → bit_of maps k ≡ true)

-- A map that has no zero leaves the search to the next one.
Finds-next :
    (n i : ℕ) (maps : ℕ → Option Bits) (r : Option (ℕ × ℕ × Bits))
    → ((k : ℕ) → i * map_bits ≤ k → k < (i + 1) * map_bits → bit_of maps k ≡ true)
    → Finds n (i + 1) maps r
    → Finds (suc n) i maps r
Finds-next n i maps none full rest = λ k l h. elim (Bool-cases (ltb k ((i + 1) * map_bits))) [
  | inl e ↦ full k l (ltb→lt k ((i + 1) * map_bits) e)
  | inr e ↦ rest k (not-ltb→le k ((i + 1) * map_bits) e) (omega arith)
]
Finds-next n i maps (some (m, j, bits)) full (low, high, small, here, zero_bit, below) = (
  omega arith,
  omega arith,
  small,
  here,
  zero_bit,
  λ k l h. elim (Bool-cases (ltb k ((i + 1) * map_bits))) [
    | inl e ↦ full k l (ltb→lt k ((i + 1) * map_bits) e)
    | inr e ↦ below k (not-ltb→le k ((i + 1) * map_bits) e) h
  ],
)

bit_of-place :
    (maps : ℕ → Option Bits) (i k : ℕ) (bits : Bits)
    → i * map_bits ≤ k
    → k < (i + 1) * map_bits
    → maps i ≡ some bits
    → bit_of maps k ≡ bits (k - i * map_bits)
unfolding bit_of
bit_of-place maps i k bits l h e =
    let place : k / map_bits ≡ i = omega arith in
    let bit : k % map_bits ≡ k - i * map_bits = omega arith in
    ap (λ (m : ℕ). bit_in (maps m) (k % map_bits)) place
    ∙ ap (λ (o : Option Bits). bit_in o (k % map_bits)) e
    ∙ ap bits bit

pub bit_of-at :
    (maps : ℕ → Option Bits) (i j : ℕ) (bits : Bits)
    → j < map_bits
    → maps i ≡ some bits
    → bit_of maps (i * map_bits + j) ≡ bits j
bit_of-at maps i j bits h e =
    bit_of-place maps i (i * map_bits + j) bits (omega arith) (omega arith) e
    ∙ ap bits (omega arith)

bit_of-missing :
    (maps : ℕ → Option Bits) (i k : ℕ)
    → i * map_bits ≤ k
    → k < (i + 1) * map_bits
    → maps i ≡ none
    → bit_of maps k ≡ true
unfolding bit_of
bit_of-missing maps i k l h e =
    let place : k / map_bits ≡ i = omega arith in
    ap (λ (m : ℕ). bit_in (maps m) (k % map_bits)) place
    ∙ ap (λ (o : Option Bits). bit_in o (k % map_bits)) e

Finds-here :
    (b : Bool) (n i : ℕ) (maps : ℕ → Option Bits) (bits : Bits) (j : ℕ) (r : Option (ℕ × ℕ × Bits))
    → ltb j map_bits ≡ b
    → maps i ≡ some bits
    → IsFirst map_bits 0 bits j
    → Finds n (i + 1) maps r
    → Finds (suc n) i maps (if b then some (i, j, bits) else r)
Finds-here true n i maps bits j r t e f rest = (
  omega arith,
  omega arith,
  ltb→lt j map_bits t,
  e,
  f.found (omega (arith, ltb→lt j map_bits t)),
  λ k l h.
      bit_of-place maps i k bits l (omega (arith, ltb→lt j map_bits t)) e
      ∙ f.below (k - i * map_bits) (omega arith) (omega arith),
)
Finds-here false n i maps bits j r t e f rest =
    Finds-next n i maps r
      (λ k l h.
        bit_of-place maps i k bits l h e
        ∙ f.below (k - i * map_bits) (omega arith) (omega (arith, not-ltb→le j map_bits t, f.high)))
      rest

pub find_map-Finds : (n i : ℕ) (maps : ℕ → Option Bits) → Finds n i maps (find_map n i maps)
unfolding find_map
find_map-Finds zero i maps = λ k l h. absurd (omega arith)
find_map-Finds (suc n) i maps = elim (Option-cases (maps i)) [
  | inl e ↦
      rw (e, find_map)
        (Finds-next n i maps _ (λ k l h. bit_of-missing maps i k l h e)
          (find_map-Finds n (i + 1) maps))
  | inr (bits, e) ↦
      rw (e, find_map)
        (Finds-here (ltb (find_first_zero map_bits 0 bits) map_bits) n i maps bits
          (find_first_zero map_bits 0 bits) (find_map n (i + 1) maps) refl e
          (find_first_zero-IsFirst map_bits 0 bits) (find_map-Finds n (i + 1) maps))
]

-- A write of one bit.
pub bit_of-put_bit :
    (maps : ℕ → Option Bits) (i j : ℕ) (b : Bool) (bits : Bits) (k : ℕ)
    → j < map_bits
    → maps i ≡ some bits
    → bit_of (put_bit i j b bits maps) k ≡ (if k == i * map_bits + j then b else bit_of maps k)
unfolding bit_of
bit_of-put_bit maps i j b bits k h e = ground arith
