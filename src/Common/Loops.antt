-- ===== src/Common/Loops.antt =====
-- The loop shapes that the kernel's C code uses again and again.
use Prim.Native.Nat.{ℕ, zero, suc, ◌+◌, ◌≤◌, ◌<◌}
use mathlib.Core.Path.{◌≡◌, refl, sym, ap, ◌∙◌}
use mathlib.Core.Logic.{◌⊎◌, inl}
use native.Mathlib.Decide.{ℕ_discrete}
use native.Mathlib.Omega.{arith}
use hit_os.Common.Lists.{update, update_self, update_ne}

-- for (i = n; i > 0; i--) s = body(i, s)
unfoldable pub for_down {ℓ} : {S : Type ℓ} → ℕ → (ℕ → S → S) → S → S
for_down zero body s = s
for_down (suc n) body s = for_down n body (body (suc n) s)

-- for (i = lo; n rounds; i++) s = body(i, s)
unfoldable pub for_up {ℓ} : {S : Type ℓ} → ℕ → ℕ → (ℕ → S → S) → S → S
for_up zero i body s = s
for_up (suc n) i body s = for_up n (i + 1) body (body i s)

-- What holds before the loop and is kept by each of its rounds holds after it.
pub for_down_inv {ℓ κ} :
    {S : Type ℓ} (P : S → Type κ) (body : ℕ → S → S)
    → ((i : ℕ) (s : S) → P s → P (body i s))
    → (n : ℕ) (s : S) → P s
    → P (for_down n body s)
unfolding for_down
for_down_inv P body keep zero s h = h
for_down_inv P body keep (suc n) s h =
    for_down_inv P body keep n (body (suc n) s) (keep (suc n) s h)

pub for_up_inv {ℓ κ} :
    {S : Type ℓ} (P : S → Type κ) (body : ℕ → S → S)
    → ((i : ℕ) (s : S) → P s → P (body i s))
    → (n i : ℕ) (s : S) → P s
    → P (for_up n i body s)
unfolding for_up
for_up_inv P body keep zero i s h = h
for_up_inv P body keep (suc n) i s h = for_up_inv P body keep n (i + 1) (body i s) (keep i s h)

-- for (i = n; i > 0; i--) f[i] = g(f[i])
module _ {ℓ} {A : Type ℓ} (g : A → A) where
  abbrev pub rewrite_at : ℕ → (ℕ → A) → ℕ → A
  rewrite_at i f = update f i (g (f i))

  pub for_down-rewrite_above : (n j : ℕ) (f : ℕ → A) → n < j → for_down n rewrite_at f j ≡ f j
  unfolding for_down
  for_down-rewrite_above zero j f h = refl
  for_down-rewrite_above (suc n) j f h =
      for_down-rewrite_above n j (rewrite_at (suc n) f) (omega arith)
      ∙ update_ne f (suc n) (g (f (suc n))) j (omega arith)

  pub for_down-rewrite_zero : (n : ℕ) (f : ℕ → A) → for_down n rewrite_at f 0 ≡ f 0
  unfolding for_down
  for_down-rewrite_zero zero f = refl
  for_down-rewrite_zero (suc n) f =
      for_down-rewrite_zero n (rewrite_at (suc n) f)
      ∙ update_ne f (suc n) (g (f (suc n))) 0 (omega arith)

  pub for_down-rewrite_in :
      (n j : ℕ) (f : ℕ → A) → 0 < j → j ≤ n → for_down n rewrite_at f j ≡ g (f j)
  unfolding for_down
  for_down-rewrite_in zero j f h k = absurd (omega arith)
  for_down-rewrite_in (suc n) j f h k = elim (ℕ_discrete j (suc n)) [
    | yes e ↦ rw e (
        for_down-rewrite_above n (suc n) (rewrite_at (suc n) f) (omega arith)
        ∙ update_self f (suc n) (g (f (suc n))))
    | no ne ↦
        for_down-rewrite_in n j (rewrite_at (suc n) f) h (omega arith)
        ∙ ap g (update_ne f (suc n) (g (f (suc n))) j (λ e. ne (sym e)))
  ]

-- for (i = lo; n rounds; i++) f[i] = v
module _ {ℓ} {A : Type ℓ} (v : A) where
  abbrev pub fill_at : ℕ → (ℕ → A) → ℕ → A
  fill_at i f = update f i v

  pub for_up-fill_out :
      (n lo j : ℕ) (f : ℕ → A) → (j < lo) ⊎ (lo + n ≤ j) → for_up n lo fill_at f j ≡ f j
  unfolding for_up
  for_up-fill_out zero lo j f h = refl
  for_up-fill_out (suc n) lo j f h =
      for_up-fill_out n (lo + 1) j (fill_at lo f) (grind arith) ∙ update_ne f lo v j (grind arith)

  pub for_up-fill_in : (n lo j : ℕ) (f : ℕ → A) → lo ≤ j → j < lo + n → for_up n lo fill_at f j ≡ v
  unfolding for_up
  for_up-fill_in zero lo j f l h = absurd (omega arith)
  for_up-fill_in (suc n) lo j f l h = elim (ℕ_discrete j lo) [
    | yes e ↦
        rw e (for_up-fill_out n (lo + 1) lo (fill_at lo f) (inl (omega arith)) ∙ update_self f lo v)
    | no ne ↦ for_up-fill_in n (lo + 1) j (fill_at lo f) (omega arith) (omega arith)
  ]
