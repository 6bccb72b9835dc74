-- ===== src/Vsprintf/Digits.antt =====
-- kernel/vsprintf.c: what `number` prints in base 10, `skip_atoi` reads.
use hit_os.Common.{
  ℕ, zero, suc, ◌+◌, ◌-◌, ◌*◌, ◌/◌, ◌%◌, ◌^◌, ◌<◌, ◌≡◌, refl, ◌∙◌, Bool, true, false, some, List,
  [], ◌∷◌, ◌++◌, length, arith, ap,
}
use hit_os.Common.Int.{ℤ, pos, negsuc, pos_part, ◌-ℤ◌}
use mathlib.Core.List.{append_assoc, append-nil}
use native.Mathlib.Nat.{pow-suc}
use hit_os.Vsprintf.{
  no_flags, is_digit, skip_atoi, digit, low_digits, replicate, backwards, digits_of, padded,
  run_out, lay_out, number, head, sign_of, prefix_of,
}

digit_lem : (small : Bool) (d : ℕ) → d < 10 → digit small d ≡ 48 + d
digit_lem small d h = ground arith

digit-is_digit : (small : Bool) (d : ℕ) → d < 10 → is_digit (digit small d) ≡ true
digit-is_digit small d h = ground (arith, digit_lem small d h)

-- One more digit is read.
skip_atoi-step :
    (i c : ℕ) (s : List ℕ)
    → is_digit c ≡ true
    → skip_atoi i (c ∷ s) ≡ skip_atoi ((i * 10 + c - b'0') % 2 ^ 32) s
unfolding skip_atoi
skip_atoi-step i c s e = ground arith

skip_atoi-digit :
    (small : Bool) (n : ℕ) (s : List ℕ)
    → n < 2 ^ 32
    → skip_atoi (n / 10) (digit small (n % 10) ∷ s) ≡ skip_atoi n s
skip_atoi-digit small n s h =
    skip_atoi-step (n / 10) (digit small (n % 10)) s (digit-is_digit small (n % 10) (omega arith))
    ∙ ap (λ (m : ℕ). skip_atoi m s) (omega (arith, digit_lem small (n % 10) (omega arith)))

tenth : (fuel n : ℕ) → n < 2 ^ suc fuel → n / 10 < 2 ^ fuel
tenth fuel n k = omega (arith, pow-suc 2 fuel)

skip_atoi-low_digits :
    (fuel : ℕ) (small : Bool) (n : ℕ) (s : List ℕ)
    → n < 2 ^ 32
    → n < 2 ^ fuel
    → skip_atoi 0 (backwards (low_digits fuel 10 small n) s) ≡ skip_atoi n s
unfolding low_digits backwards
skip_atoi-low_digits zero small n s h k = ap (λ (m : ℕ). skip_atoi m s) (omega arith)
skip_atoi-low_digits (suc fuel) small n s h k = ground (
  arith,
  skip_atoi-low_digits fuel small (n / 10) (digit small (n % 10) ∷ s) (omega arith)
      (tenth fuel n k),
  skip_atoi-digit small n s h,
  ap (λ (m : ℕ). skip_atoi m s),
)

skip_atoi-digits_of :
    (small : Bool) (n : ℕ) (s : List ℕ)
    → n < 2 ^ 32
    → skip_atoi 0 (backwards (digits_of 10 small n) s) ≡ skip_atoi n s
unfolding digits_of backwards
skip_atoi-digits_of small n s h =
    ground (arith, skip_atoi-low_digits 32 small n s h h, skip_atoi-step 0 b'0' s refl)

skip_atoi-zeros : (k : ℕ) (s : List ℕ) → skip_atoi 0 (replicate k b'0' ++ s) ≡ skip_atoi 0 s
unfolding skip_atoi replicate
skip_atoi-zeros zero s = refl
skip_atoi-zeros (suc k) s = skip_atoi-zeros k s

-- The bytes stand in front of what follows.
pub backwards-append : (tmp s t : List ℕ) → backwards tmp s ++ t ≡ backwards tmp (s ++ t)
unfolding backwards
backwards-append [] s t = refl
backwards-append (c ∷ tmp) s t = backwards-append tmp (c ∷ s) t

skip_atoi-stops : (n : ℕ) (s : List ℕ) → is_digit (head s) ≡ false → skip_atoi n s ≡ (n, s)
unfolding skip_atoi
skip_atoi-stops n [] e = refl
skip_atoi-stops n (c ∷ s) e = ground arith

minus_one : (m : ℕ) → negsuc 0 -ℤ pos m ≡ negsuc m
unfolding ◌-ℤ◌
minus_one m = ground arith

run_out_negsuc : (m : ℕ) → run_out (negsuc m) ≡ negsuc (m + 1)
unfolding run_out ◌-ℤ◌
run_out_negsuc m = ground arith

lay_out-plain : (m : ℕ) (body : List ℕ) → lay_out no_flags (negsuc m) [] body ≡ body
unfolding lay_out replicate
lay_out-plain m body = simp (run_out_negsuc m, run_out_negsuc (m + 1)) (append-nil body)

number-plain :
    (n : ℕ) (precision : ℤ)
    → number n 10 (negsuc 0) precision no_flags ≡ some (padded (digits_of 10 false n) precision)
unfolding number sign_of prefix_of
number-plain n precision =
    let body = padded (digits_of 10 false n) precision in
    ap some (
      ap (λ (w : ℤ). lay_out no_flags w [] body) (minus_one (0 + length body))
      ∙ lay_out-plain (0 + length body) body)

skip_atoi-padded :
    (n : ℕ) (precision : ℤ) (s : List ℕ)
    → n < 2 ^ 32
    → skip_atoi 0 (padded (digits_of 10 false n) precision ++ s) ≡ skip_atoi n s
unfolding padded
skip_atoi-padded n precision s h =
    let tmp = digits_of 10 false n in
    let k = pos_part precision - length tmp in
    ap (skip_atoi 0) (append_assoc (replicate k b'0') (backwards tmp []) s)
    ∙ skip_atoi-zeros k (backwards tmp [] ++ s)
    ∙ ap (skip_atoi 0) (backwards-append tmp [] s)
    ∙ skip_atoi-digits_of false n s h

-- In base 10, without flags and a width, with any precision: what `number` prints, in front of what
-- is no digit, is read by skip_atoi as the number itself, and what follows is left.
pub skip_atoi-number :
    (n : ℕ) (precision : ℤ) (rest : List ℕ)
    → n < 2 ^ 32
    → is_digit (head rest) ≡ false
    → (text : List ℕ) × (number n 10 (negsuc 0) precision no_flags ≡ some text)
      × (skip_atoi 0 (text ++ rest) ≡ (n, rest))
skip_atoi-number n precision rest h e = (
  padded (digits_of 10 false n) precision,
  number-plain n precision,
  skip_atoi-padded n precision rest h ∙ skip_atoi-stops n rest e,
)
