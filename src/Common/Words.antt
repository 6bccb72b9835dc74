-- ===== src/Common/Words.antt =====
-- 32-bit words as the code uses them: masks and flag bits. The masks that the page tables use are
-- written by division and remainder.
use Prim.Native.Nat.{ℕ, ◌+◌, ◌-◌, ◌*◌, ◌/◌, ◌%◌, ◌^◌, bit_xor}
use mathlib.Core.Bool.{Bool}
use hit_os.Common.Tests.{◌==◌}

-- ~x, of an unsigned 32-bit x
abbrev pub not32 : ℕ → ℕ
not32 x = bit_xor x 0xffff_ffff

-- a + b and a - b of unsigned longs
abbrev pub add32 : ℕ → ℕ → ℕ
add32 a b = (a + b) % 2 ^ 32

abbrev pub sub32 : ℕ → ℕ → ℕ
sub32 a b = (a + 2 ^ 32 - b) % 2 ^ 32

-- bit k of x
abbrev pub bit_at : ℕ → ℕ → ℕ
bit_at x k = x / 2 ^ k % 2

-- x & 0xfffff000, of a 32-bit x
abbrev pub page_of : ℕ → ℕ
page_of x = x / 2 ^ 12 * 2 ^ 12

-- x & 1, as a test
abbrev pub present : ℕ → Bool
present x = x % 2 == 1

-- x & ~2
abbrev pub clear_write : ℕ → ℕ
clear_write x = x - bit_at x 1 * 2

-- x | 2
abbrev pub set_write : ℕ → ℕ
set_write x = x + (1 - bit_at x 1) * 2

-- x | 7
abbrev pub or_7 : ℕ → ℕ
or_7 x = x / 8 * 8 + 7

-- (x >> 20) & 0xffc, the address of the page-directory entry of x
abbrev pub dir_of : ℕ → ℕ
dir_of x = x / 2 ^ 20 % 2 ^ 12 / 4 * 4

-- (x >> 10) & 0xffc, the offset in its page table of the entry of x
abbrev pub offset_of : ℕ → ℕ
offset_of x = x / 2 ^ 10 % 2 ^ 12 / 4 * 4

-- x & ~(1 << k) and x | (1 << k)
abbrev pub clear_bit : ℕ → ℕ → ℕ
clear_bit x k = x - bit_at x k * 2 ^ k

abbrev pub set_bit : ℕ → ℕ → ℕ
set_bit x k = x + (1 - bit_at x k) * 2 ^ k
