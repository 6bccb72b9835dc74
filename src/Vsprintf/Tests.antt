-- ===== src/Vsprintf/Tests.antt =====
-- Formatted output at concrete inputs, and witnesses.
use Prim.Native.Nat.{max}
use hit_os.Common.{ℕ, ◌-◌, ◌^◌, ◌≡◌, refl, some, List, [], ◌∷◌, ◌++◌, length, arith}
use hit_os.Common.Int.{pos, negsuc}
use hit_os.Vsprintf.{no_flags, skip_atoi, number, vsprintf}
use hit_os.Vsprintf.Digits.{skip_atoi-number}
use hit_os.Vsprintf.Width.{length-number}

abbrev no_strings : ℕ → List ℕ
no_strings a = []

-- "%5d" of -42
abbrev field : List ℕ
field = b'%' ∷ b'5' ∷ b'd' ∷ []

field_text :
    vsprintf no_strings 3 0 field ((2 ^ 32 - 42) ∷ []) ≡ (b' ' ∷ b' ' ∷ b'-' ∷ b'4' ∷ b'2' ∷ [], [])
unfolding vsprintf
field_text = refl

-- "%*d": the star is not skipped.
abbrev star : List ℕ
star = b'%' ∷ b'*' ∷ b'd' ∷ []

star_text : vsprintf no_strings 3 0 star (5 ∷ 42 ∷ []) ≡ (b'%' ∷ b'*' ∷ b'd' ∷ [], [])
unfolding vsprintf
star_text = refl

skip_atoi-number_example :
    (text : List ℕ) × (number 1991 10 (negsuc 0) (pos 6) no_flags ≡ some text)
    × (skip_atoi 0 (text ++ (b'.' ∷ [])) ≡ (1991, b'.' ∷ []))
skip_atoi-number_example = skip_atoi-number 1991 (pos 6) (b'.' ∷ []) (omega arith) refl

plain_hex : number 255 16 (negsuc 0) (negsuc 0) no_flags ≡ some (b'F' ∷ b'F' ∷ [])
unfolding number
plain_hex = refl

length-number_example :
    (text : List ℕ) × (number 255 16 (pos 8) (negsuc 0) no_flags ≡ some text)
    × (length text ≡ max 8 2)
length-number_example = length-number 255 16 8 (negsuc 0) no_flags (b'F' ∷ b'F' ∷ []) plain_hex
