-- ===== src/Files/Uses.antt =====
-- How many descriptors of a process refer to a file: the view by which `f_count` is judged.
use mathlib.Core.Path.{subst}
use native.Mathlib.Decide.{ℕ_discrete}
use hit_os.Common.{
  ℕ, zero, suc, ◌+◌, ◌≤◌, ◌<◌, ◌≡◌, refl, sym, ap, Option, none, some, arith, ◌==◌, if◌then◌else◌,
  update, update_self, update_ne,
}

abbrev pub one_if_refers : Option ℕ → ℕ → ℕ
one_if_refers none f = 0
one_if_refers (some g) f = if g == f then 1 else 0

-- The number of the first `n` descriptors that refer to file `f`.
unfoldable pub uses : (ℕ → Option ℕ) → ℕ → ℕ → ℕ
uses filp zero f = 0
uses filp (suc n) f = one_if_refers (filp n) f + uses filp n f

uses-update_above :
    (filp : ℕ → Option ℕ) (n i f : ℕ) (v : Option ℕ)
    → n ≤ i
    → uses (update filp i v) n f ≡ uses filp n f
unfolding uses
uses-update_above filp zero i f v h = refl
uses-update_above filp (suc n) i f v h =
    ground (arith, uses-update_above filp n i f v (omega arith), update_ne filp i v n (omega arith))

uses-update_last :
    (filp : ℕ → Option ℕ) (n f : ℕ) (v : Option ℕ)
    → uses (update filp n v) (suc n) f + one_if_refers (filp n) f
      ≡ uses filp (suc n) f + one_if_refers v f
unfolding uses
uses-update_last filp n f v =
    rw (update_self filp n v, uses-update_above filp n n f v (omega arith)) (omega arith)

-- A change of one descriptor moves one use.
pub uses-update :
    (filp : ℕ → Option ℕ) (n i f : ℕ) (v : Option ℕ)
    → i < n
    → uses (update filp i v) n f + one_if_refers (filp i) f ≡ uses filp n f + one_if_refers v f
unfolding uses
uses-update filp zero i f v h = absurd (omega arith)
uses-update filp (suc n) i f v h = elim (ℕ_discrete i n) [
  | yes e ↦
      subst
        (λ k.
          uses (update filp k v) (suc n) f + one_if_refers (filp k) f
          ≡ uses filp (suc n) f + one_if_refers v f)
        (sym e) (uses-update_last filp n f v)
  | no ne ↦
      let same = update_ne filp i v n ne in
      rw same (omega (arith, uses-update filp n i f v (omega arith)))
]

pub uses-le : (filp : ℕ → Option ℕ) (n f : ℕ) → uses filp n f ≤ n
unfolding uses
uses-le filp zero f = omega arith
uses-le filp (suc n) f = ground (arith, uses-le filp n f)

-- A file to which some descriptor refers has a use.
pub uses-pos : (filp : ℕ → Option ℕ) (n i f : ℕ) → i < n → filp i ≡ some f → 1 ≤ uses filp n f
unfolding uses
uses-pos filp zero i f h e = absurd (omega arith)
uses-pos filp (suc n) i f h e = elim (ℕ_discrete i n) [
  | yes same ↦ ground (arith, ap filp same)
  | no ne ↦ omega (arith, uses-pos filp n i f (omega arith) e)
]
