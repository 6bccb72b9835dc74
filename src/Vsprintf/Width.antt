-- ===== src/Vsprintf/Width.antt =====
-- kernel/vsprintf.c: how long is what `number` prints. The field width pads, and cuts nothing.
use Prim.Native.Nat.{max}
use hit_os.Common.{
  ℕ, zero, suc, ◌+◌, ◌-◌, ◌/◌, ◌^◌, ◌≤◌, ◌<◌, ◌≡◌, refl, ap, Bool, true, false, ◌||◌, none, some,
  List, ◌++◌, length, length-append, arith, ltb, if◌then◌else◌,
}
use hit_os.Common.Int.{ℤ, pos, negsuc, pos_part, ◌-ℤ◌}
use native.Mathlib.Nat.{suc-add, pow-suc, div-lt_iff_lt-mul}
use hit_os.Common.{mul_mono}
use hit_os.Vsprintf.{
  Flags, replicate, run_out, low_digits, is_negative, digits_of, padded, sign_of, prefix_of,
  lay_out, number,
}

length-replicate : (n c : ℕ) → length (replicate n c) ≡ n
unfolding replicate
length-replicate zero c = refl
length-replicate (suc n) c = ap suc (length-replicate n c)

-- No loop that fills up runs after another.
pos_part-run_out : (size : ℤ) → pos_part (run_out size) ≡ 0
unfolding run_out ◌-ℤ◌
pos_part-run_out (pos n) = ground arith
pos_part-run_out (negsuc n) = ground arith

run_out-ends : (size : ℤ) → (k : ℕ) × (run_out size ≡ negsuc k)
unfolding run_out ◌-ℤ◌
run_out-ends (pos zero) = (0, refl)
run_out-ends (pos (suc n)) = (0, ground arith)
run_out-ends (negsuc n) = (n + 1, ground arith)

length-lay_out_flags :
    (zeropad left : Bool) (type : Flags) (size : ℤ) (front body : List ℕ)
    → length (lay_out (record type { zeropad = zeropad; left = left }) size front body)
      ≡ length front + length body + pos_part size
unfolding lay_out
length-lay_out_flags true true type size front body =
    simp (length-append, length-replicate) (omega arith)
length-lay_out_flags false true type size front body =
    simp (length-append, length-replicate) (omega arith)
length-lay_out_flags true false type size front body =
    simp (length-append, length-replicate, pos_part-run_out) (omega arith)
length-lay_out_flags false false type size front body =
    let (k, e) = run_out-ends size in
    let (j, d) = run_out-ends (negsuc k) in
    simp (length-append, length-replicate, e, d) (omega arith)

length-lay_out :
    (type : Flags) (size : ℤ) (front body : List ℕ)
    → length (lay_out type size front body) ≡ length front + length body + pos_part size
length-lay_out type size front body =
    length-lay_out_flags type.zeropad type.left type size front body

length-field :
    (type : Flags) (w : ℕ) (front body : List ℕ)
    → length (lay_out type (pos w -ℤ pos (length front + length body)) front body)
      ≡ max w (length (lay_out type (negsuc 0 -ℤ pos (length front + length body)) front body))
unfolding ◌-ℤ◌
length-field type w front body =
    let m = length front + length body in
    ground (
      arith,
      length-lay_out type (pos w -ℤ pos m) front body,
      length-lay_out type (negsuc 0 -ℤ pos m) front body,
    )

pad_option :
    (out : Bool) (padded plain text : List ℕ) (w : ℕ)
    → length padded ≡ max w (length plain)
    → (if out then none else some plain) ≡ some text
    → (r : List ℕ) × ((if out then none else some padded) ≡ some r)
      × (length r ≡ max w (length text))
pad_option true padded plain text w h e = cc
pad_option false padded plain text w h e = (padded, refl, cc)

-- Whatever the field width is, and the flags are: `number` makes nothing of a base out of range, and
-- else its text has the length of the text without a width, or that of the field if this is more.
pub length-number :
    (num base w : ℕ) (precision : ℤ) (type : Flags) (plain : List ℕ)
    → number num base (negsuc 0) precision type ≡ some plain
    → (text : List ℕ) × (number num base (pos w) precision type ≡ some text)
      × (length text ≡ max w (length plain))
unfolding number
length-number num base w precision type plain e =
    let value = if is_negative type num then 2 ^ 32 - num else num in
    let front = sign_of type num ++ prefix_of type base in
    let body = padded (digits_of base type.small value) precision in
    pad_option (ltb base 2 || ltb 36 base)
      (lay_out type (pos w -ℤ pos (length front + length body)) front body)
      (lay_out type (negsuc 0 -ℤ pos (length front + length body)) front body) plain w
      (length-field type w front body) e

low_digits-bound :
    (fuel base : ℕ) (small : Bool) (num : ℕ) → length (low_digits fuel base small num) ≤ fuel
unfolding low_digits
low_digits-bound zero base small num = omega arith
low_digits-bound (suc fuel) base small num =
    ground (arith, low_digits-bound fuel base small (num / base))

div_less : (fuel base num : ℕ) → 2 ≤ base → num < 2 ^ suc fuel → num / base < 2 ^ fuel
div_less fuel base num b h =
    (div-lt_iff_lt-mul (omega arith)).1
      (omega (arith, pow-suc 2 fuel, mul_mono 2 base (2 ^ fuel) b, h))

-- `tmp` has 36 bytes: in every base, 32 digits are enough for 32 bits, and more rounds would add none.
pub low_digits-settled :
    (fuel more base : ℕ) (small : Bool) (num : ℕ)
    → 2 ≤ base
    → num < 2 ^ fuel
    → low_digits (fuel + more) base small num ≡ low_digits fuel base small num
unfolding low_digits
low_digits-settled zero zero base small num b h = refl
low_digits-settled zero (suc more) base small num b h = ground arith
low_digits-settled (suc fuel) more base small num b h = simp suc-add (
    ground
      (arith, low_digits-settled fuel more base small (num / base) b (div_less fuel base num b h)))
