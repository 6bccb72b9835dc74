-- ===== src/Common/Numbers.antt =====
-- Products of variables, which the arithmetic takes for unknowns.
use Prim.Native.Nat.{ℕ, ◌+◌, ◌-◌, ◌*◌, ◌≤◌}
use mathlib.Core.Path.{◌≡◌, ap}
use native.Mathlib.Omega.{arith}

pub mul_split : (a b c r : ℕ) → a ≡ b + c → a * r ≡ b * r + c * r
mul_split a b c r e = omega (arith, ap (λ (t : ℕ). t * r) e)

pub mul_suc : (a b r : ℕ) → a ≡ b + 1 → a * r ≡ b * r + r
mul_suc a b r e = omega (arith, ap (λ (t : ℕ). t * r) e)

pub mul_mono : (a b r : ℕ) → a ≤ b → a * r ≤ b * r
mul_mono a b r h = omega (arith, mul_split b a (b - a) r (omega arith))
