-- ===== src/Vsprintf/Format.antt =====
-- kernel/vsprintf.c: `vsprintf`. The arguments are 32-bit words, `strings` gives the bytes of the
-- string at an address, and what `%n` stores is recorded with its address.
use Prim.Native.Nat.{min}
use hit_os.Common.{
  ℕ, zero, suc, ◌+◌, ◌-◌, ◌%◌, ◌^◌, true, false, ◌||◌, not, none, some, List, [], ◌∷◌, ◌++◌, length,
  ltb, ◌==◌, if◌then◌else◌,
}
use hit_os.Common.Int.{ℤ, pos, negsuc, pos_part, ltz, eqz, ◌-ℤ◌}
use hit_os.Vsprintf.Number.{Flags, is_digit, skip_atoi, replicate, number}

abbrev pub no_flags : Flags
no_flags = record {
  zeropad = false;
  sign = false;
  plus = false;
  space = false;
  left = false;
  special = false;
  small = false;
}

-- The format that is left, the arguments that are left, and what has been read of a directive.
pub record Directive : Type 0 where
  pub fmt : List ℕ
  pub args : List ℕ
  pub flags : Flags
  pub width : ℤ
  pub precision : ℤ

-- The loop at `repeat`, behind the %.
unfoldable pub read_flags : List ℕ → Flags → List ℕ × Flags
read_flags [] f = ([], f)
read_flags (c ∷ s) f =
    let flag = (c == b'-') || (c == b'+') || (c == b' ') || (c == b'#') || (c == b'0') in
    let f' = record f {
      left = f.left || (c == b'-');
      plus = f.plus || (c == b'+');
      space = f.space || (c == b' ');
      special = f.special || (c == b'#');
      zeropad = f.zeropad || (c == b'0');
    } in
    elim flag [ true ↦ read_flags s f' | false ↦ (c ∷ s, f) ]

-- The value of a word as an `int`.
abbrev pub to_int : ℕ → ℤ
to_int n = if ltb n (2 ^ 31) then pos n else negsuc (2 ^ 32 - 1 - n)

-- va_arg; behind the last argument lies whatever the stack holds, here 0.
abbrev pub next_arg : List ℕ → ℕ × List ℕ
next_arg [] = (0, [])
next_arg (a ∷ args) = (a, args)

abbrev pub head : List ℕ → ℕ
head [] = 0
head (c ∷ s) = c

-- The first `n` bytes, and what is left behind them.
unfoldable pub take : ℕ → List ℕ → List ℕ
take zero s = []
take (suc n) [] = []
take (suc n) (c ∷ s) = c ∷ take n s

abbrev pub tail : List ℕ → List ℕ
tail [] = []
tail (c ∷ s) = s

-- The field width. The star is not skipped.
unfoldable pub read_width : Directive → Directive
unfolding skip_atoi ◌-ℤ◌
read_width d =
    let (n, fmt) = skip_atoi 0 d.fmt in
    let (a, args) = next_arg d.args in
    let w = to_int a in
    if is_digit (head d.fmt)
    then record d { width = to_int n; fmt = fmt }
    else if head d.fmt == b'*'
    then (if ltz w (pos 0)
        then record d { width = pos 0 -ℤ w; flags = record d.flags { left = true }; args = args }
        else record d { width = w; args = args })
    else d

-- The precision, behind a dot. The star is not skipped here either.
unfoldable pub read_precision : Directive → Directive
unfolding skip_atoi
read_precision d =
    let fmt = tail d.fmt in
    let (n, fmt') = skip_atoi 0 fmt in
    let (a, args) = next_arg d.args in
    let floor = λ (p : ℤ). if ltz p (pos 0) then pos 0 else p in
    if not (head d.fmt == b'.')
    then d
    else if is_digit (head fmt)
    then record d { precision = floor (to_int n); fmt = fmt' }
    else if head fmt == b'*'
    then record d { precision = floor (to_int a); fmt = fmt; args = args }
    else record d { precision = pos 0; fmt = fmt }

-- The qualifier is read and not used.
unfoldable pub skip_qualifier : Directive → Directive
skip_qualifier d =
    let c = head d.fmt in
    if (c == b'h') || (c == b'l') || (c == b'L') then record d { fmt = tail d.fmt } else d

unfoldable pub directive : (fmt args : List ℕ) → Directive
unfolding read_flags read_width read_precision skip_qualifier
directive fmt args =
    let (fmt', flags) = read_flags fmt no_flags in
    skip_qualifier (
      read_precision (
        read_width (record {
          fmt = fmt';
          args = args;
          flags = flags;
          width = negsuc 0;
          precision = negsuc 0;
        })))

-- What a directive makes: its text, what it stores, and the format and the arguments behind it.
pub record Converted : Type 0 where
  pub text : List ℕ
  pub stores : List (ℕ × ℕ)
  pub fmt : List ℕ
  pub args : List ℕ

-- A number in base 8, 10 or 16, where `number` does not return 0.
abbrev pub number_text : (num base : ℕ) (size precision : ℤ) → Flags → List ℕ
number_text num base size precision f = elim (number num base size precision f) [
  | none ↦ []
  | some text ↦ text
]

-- %c and %s: `text` in the field.
unfoldable pub in_field : Directive → List ℕ → List ℕ
unfolding replicate ◌-ℤ◌
in_field d text =
    let spaces = replicate (pos_part (d.width -ℤ pos (length text))) b' ' in
    if d.flags.left then text ++ spaces else spaces ++ text

-- The switch on the conversion; `len` is `str - buf`.
unfoldable pub convert : (strings : ℕ → List ℕ) (len : ℕ) → Directive → Converted
unfolding number in_field take
convert strings len d =
    let c = head d.fmt in
    let (a, args) = next_arg d.args in
    let made = λ (text : List ℕ).
      (let r : Converted = record { text = text; stores = []; fmt = tail d.fmt; args = args } in
        r) in
    let f = d.flags in
    let s = strings a in
    let len_s =
      if ltz d.precision (pos 0) then length s else min (length s) (pos_part d.precision) in
    let unset = eqz d.width (negsuc 0) in
    if c == b'c'
    then made (in_field d ((a % 2 ^ 8) ∷ []))
    else if c == b's'
    then made (in_field d (take len_s s))
    else if c == b'o'
    then made (number_text a 8 d.width d.precision f)
    else if c == b'p'
    then made (
        number_text a 16 (if unset then pos 8 else d.width) d.precision
          (record f { zeropad = f.zeropad || unset }))
    else if c == b'x'
    then made (number_text a 16 d.width d.precision (record f { small = true }))
    else if c == b'X'
    then made (number_text a 16 d.width d.precision f)
    else if (c == b'd') || (c == b'i')
    then made (number_text a 10 d.width d.precision (record f { sign = true }))
    else if c == b'u'
    then made (number_text a 10 d.width d.precision f)
    else if c == b'n'
    then record { text = []; stores = (a, len) ∷ []; fmt = tail d.fmt; args = args }
    else record {
      text = (if c == b'%' then [] else b'%' ∷ []) ++ take 1 d.fmt;
      stores = [];
      fmt = tail d.fmt;
      args = d.args;
    }

-- The loop, on fuel: each round takes at least one character of the format.
unfoldable pub vsprintf :
    (strings : ℕ → List ℕ) (fuel len : ℕ) (fmt args : List ℕ) → List ℕ × List (ℕ × ℕ)
unfolding directive convert
vsprintf strings zero len fmt args = ([], [])
vsprintf strings (suc fuel) len [] args = ([], [])
vsprintf strings (suc fuel) len (c ∷ fmt) args =
    let r = convert strings len (directive fmt args) in
    elim (c == b'%') [
      | true ↦
          let (text, stores) = vsprintf strings fuel (len + length r.text) r.fmt r.args in
          (r.text ++ text, r.stores ++ stores)
      | false ↦ let (text, stores) = vsprintf strings fuel (len + 1) fmt args in (c ∷ text, stores)
    ]
