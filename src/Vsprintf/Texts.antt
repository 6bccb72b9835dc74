-- ===== src/Vsprintf/Texts.antt =====
-- kernel/vsprintf.c: the loop of `vsprintf` ends.
use hit_os.Common.{
  ℕ, zero, suc, ◌+◌, ◌-◌, ◌*◌, ◌%◌, ◌^◌, ◌≤◌, ◌≡◌, refl, ap, Bool, true, false, List, [], ◌∷◌, ◌++◌,
  length, arith, ◌==◌,
}
use hit_os.Common.Int.{negsuc}
use native.Mathlib.Nat.{suc-add, zero-add}
use hit_os.Vsprintf.{
  Flags, Directive, Converted, no_flags, tail, skip_atoi, read_flags, read_width, read_precision,
  skip_qualifier, directive, convert, vsprintf,
}

skip_atoi-shortens : (i : ℕ) (s : List ℕ) → length (skip_atoi i s).1 ≤ length s
unfolding skip_atoi
skip_atoi-shortens i [] = omega arith
skip_atoi-shortens i (c ∷ s) = ground (arith, skip_atoi-shortens ((i * 10 + c - b'0') % 2 ^ 32) s)

read_flags-shortens : (s : List ℕ) (f : Flags) → length (read_flags s f).0 ≤ length s
unfolding read_flags
read_flags-shortens [] f = omega arith
read_flags-shortens (c ∷ s) f = grind (arith, read_flags-shortens s)

length-tail : (s : List ℕ) → length (tail s) ≤ length s
length-tail [] = omega arith
length-tail (c ∷ s) = omega arith

read_width-shortens : (d : Directive) → length (read_width d).fmt ≤ length d.fmt
unfolding read_width
read_width-shortens d = ground (arith, skip_atoi-shortens 0 d.fmt)

read_precision-shortens : (d : Directive) → length (read_precision d).fmt ≤ length d.fmt
unfolding read_precision
read_precision-shortens d = ground (arith, skip_atoi-shortens 0 (tail d.fmt), length-tail d.fmt)

skip_qualifier-shortens : (d : Directive) → length (skip_qualifier d).fmt ≤ length d.fmt
unfolding skip_qualifier
skip_qualifier-shortens d = ground (arith, length-tail d.fmt)

directive-shortens : (fmt args : List ℕ) → length (directive fmt args).fmt ≤ length fmt
unfolding directive
directive-shortens fmt args =
    let (fmt', flags) = read_flags fmt no_flags in
    let start : Directive = record {
      fmt = fmt';
      args = args;
      flags = flags;
      width = negsuc 0;
      precision = negsuc 0;
    } in
    omega (
      arith,
      read_flags-shortens fmt no_flags,
      read_width-shortens start,
      read_precision-shortens (read_width start),
      skip_qualifier-shortens (read_precision (read_width start)),
    )

convert-shortens :
    (strings : ℕ → List ℕ) (len : ℕ) (d : Directive)
    → length (convert strings len d).fmt ≤ length d.fmt
unfolding convert
convert-shortens strings len d = ground (arith, length-tail d.fmt)

-- A round of the loop is settled where its two ways on are.
round-eq :
    (b : Bool) (c : ℕ) (r : Converted) {p p' q q' : List ℕ × List (ℕ × ℕ)}
    → p ≡ p'
    → q ≡ q'
    → (elim b as (λ (x : Bool). List ℕ × List (ℕ × ℕ)) [
      | true ↦ (r.text ++ p.0, r.stores ++ p.1)
      | false ↦ (c ∷ q.0, q.1)
    ])
      ≡ (elim b as (λ (x : Bool). List ℕ × List (ℕ × ℕ)) [
        | true ↦ (r.text ++ p'.0, r.stores ++ p'.1)
        | false ↦ (c ∷ q'.0, q'.1)
      ])
round-eq true c r e d = ap (λ (x : List ℕ × List (ℕ × ℕ)). (r.text ++ x.0, r.stores ++ x.1)) e
round-eq false c r e d = ap (λ (x : List ℕ × List (ℕ × ℕ)). (c ∷ x.0, x.1)) d

-- Whatever the format, the arguments and the strings are: the loop ends, and a round for each byte of
-- the format is enough.
pub vsprintf-ends :
    (strings : ℕ → List ℕ) (fuel more len : ℕ) (fmt args : List ℕ)
    → length fmt ≤ fuel
    → vsprintf strings (fuel + more) len fmt args ≡ vsprintf strings fuel len fmt args
unfolding vsprintf
vsprintf-ends strings zero zero len fmt args h = refl
vsprintf-ends strings zero (suc more) len [] args h = simp zero-add refl
vsprintf-ends strings zero (suc more) len (c ∷ fmt) args h = absurd (omega arith)
vsprintf-ends strings (suc fuel) more len [] args h = simp suc-add refl
vsprintf-ends strings (suc fuel) more len (c ∷ fmt) args h =
    let r = convert strings len (directive fmt args) in
    let short : length r.fmt ≤ fuel =
      omega
        (arith, directive-shortens fmt args, convert-shortens strings len (directive fmt args)) in
    simp suc-add (
      round-eq (c == b'%') c r
        (vsprintf-ends strings fuel more (len + length r.text) r.fmt r.args short)
        (vsprintf-ends strings fuel more (len + 1) fmt args (omega arith)))
