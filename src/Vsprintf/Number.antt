-- ===== src/Vsprintf/Number.antt =====
-- kernel/vsprintf.c: `skip_atoi` and `number`. What is stored at `str` is the list of its bytes, and
-- the bits of `type` are Booleans. A number is the 32-bit pattern of its `int`.
use hit_os.Common.{
  ℕ, zero, suc, ◌+◌, ◌-◌, ◌*◌, ◌/◌, ◌%◌, ◌^◌, Bool, true, false, ◌&&◌, ◌||◌, not, Option, none,
  some, List, [], ◌∷◌, ◌++◌, length, ltb, leb, ◌==◌, if◌then◌else◌,
}
use hit_os.Common.Int.{ℤ, pos, negsuc, pos_part, ltz, ◌-ℤ◌}

pub record Flags : Type 0 where
  pub zeropad : Bool
  pub sign : Bool
  pub plus : Bool
  pub space : Bool
  pub left : Bool
  pub special : Bool
  pub small : Bool

abbrev pub is_digit : ℕ → Bool
is_digit c = leb b'0' c && leb c b'9'

-- From the value `i` on; a digit after 2^32 wraps, as an `int` does.
unfoldable pub skip_atoi : ℕ → List ℕ → ℕ × List ℕ
skip_atoi i [] = (i, [])
skip_atoi i (c ∷ s) = elim (is_digit c) [
  | true ↦ skip_atoi ((i * 10 + c - b'0') % 2 ^ 32) s
  | false ↦ (i, c ∷ s)
]

-- digits[d], in capitals or not
abbrev pub digit : Bool → ℕ → ℕ
digit small d = if ltb d 10 then b'0' + d else (if small then b'a' else b'A') + (d - 10)

-- tmp[0], tmp[1], ... of a number that is not 0: `while (num!=0)`, on fuel
unfoldable pub low_digits : (fuel base : ℕ) (small : Bool) (num : ℕ) → List ℕ
low_digits zero base small num = []
low_digits (suc fuel) base small num = elim (num == 0) [
  | true ↦ []
  | false ↦ digit small (num % base) ∷ low_digits fuel base small (num / base)
]

-- while(n-->0) *str++ = c;
unfoldable pub replicate : ℕ → ℕ → List ℕ
replicate zero c = []
replicate (suc n) c = c ∷ replicate n c

-- while(i-->0) *str++ = tmp[i];
unfoldable pub backwards : List ℕ → List ℕ → List ℕ
backwards [] str = str
backwards (c ∷ tmp) str = backwards tmp (c ∷ str)

-- The value of `size` behind `while(size-->0)`.
unfoldable pub run_out : ℤ → ℤ
unfolding ◌-ℤ◌
run_out size = if ltz (pos 0) size then negsuc 0 else size -ℤ pos 1

-- The digits of `num` in `tmp`, the lowest first; 32 rounds are enough for 32 bits.
unfoldable pub digits_of : (base : ℕ) (small : Bool) (num : ℕ) → List ℕ
unfolding low_digits
digits_of base small num = if num == 0 then b'0' ∷ [] else low_digits 32 base small num

abbrev pub is_negative : Flags → ℕ → Bool
is_negative type num = type.sign && leb (2 ^ 31) num

-- The sign, if there is one.
unfoldable pub sign_of : Flags → ℕ → List ℕ
sign_of type num =
    if is_negative type num
    then b'-' ∷ []
    else if type.plus
    then b'+' ∷ []
    else if type.space
    then b' ' ∷ []
    else []

-- The prefix of SPECIAL: digits[33] is x or X.
unfoldable pub prefix_of : Flags → (base : ℕ) → List ℕ
prefix_of type base =
    if not type.special
    then []
    else if base == 8
    then b'0' ∷ []
    else if base == 16
    then b'0' ∷ (if type.small then b'x' else b'X') ∷ []
    else []

-- The digits with the zeros that `precision` asks for.
unfoldable pub padded : (tmp : List ℕ) (precision : ℤ) → List ℕ
unfolding replicate backwards
padded tmp precision = replicate (pos_part precision - length tmp) b'0' ++ backwards tmp []

-- The three places where `size` is filled up, around the sign, the prefix and the digits.
unfoldable pub lay_out : (type : Flags) (size : ℤ) (front body : List ℕ) → List ℕ
unfolding replicate run_out
lay_out type size front body =
    let zeropad = type.zeropad && not type.left in
    let first = not zeropad && not type.left in
    let size1 = if first then run_out size else size in
    let size2 = if not type.left then run_out size1 else size1 in
    (if first then replicate (pos_part size) b' ' else [])
    ++ (front
        ++ ((if not type.left
              then replicate (pos_part size1) (if zeropad then b'0' else b' ')
              else [])
            ++ (body ++ replicate (pos_part size2) b' ')))

-- `none` for a base that is out of range, where the code returns 0.
unfoldable pub number : (num base : ℕ) (size precision : ℤ) → Flags → Option (List ℕ)
unfolding digits_of sign_of prefix_of padded lay_out ◌-ℤ◌
number num base size precision type =
    let front = sign_of type num ++ prefix_of type base in
    let value = if is_negative type num then 2 ^ 32 - num else num in
    let body = padded (digits_of base type.small value) precision in
    if ltb base 2 || ltb 36 base
    then none
    else some (lay_out type (size -ℤ pos (length front + length body)) front body)
