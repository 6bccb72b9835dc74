-- ===== src/Requests/Elevator.antt =====
-- kernel/blk_drv/ll_rw_blk.c: the order of a queue. From its first request on it never goes back more
-- than once.
use hit_os.Common.{
  ℕ, suc, ◌≡◌, arith, true, false, not, ◌&&◌, ◌||◌, List, [], ◌∷◌, ◌⊎◌, inl, inr, Bool-cases,
}
use hit_os.Requests.{Request, in_order, insert_behind}

-- Behind request `t`: in order, but for at most `n` steps back.
pub data Sweeps : ℕ → Request → List Request → Type 0 where
  done : {n : ℕ} {t : Request} → Sweeps n t []
  on :
      {n : ℕ} {t x : Request} {l : List Request}
      → in_order t x ≡ true
      → Sweeps n x l
      → Sweeps n t (x ∷ l)
  back :
      {n : ℕ} {t x : Request} {l : List Request}
      → in_order x t ≡ true
      → Sweeps n x l
      → Sweeps (suc n) t (x ∷ l)

-- One comes before the other.
abbrev pub IsApart : Request → Request → Type 0
IsApart a b = (in_order a b ≡ true) ⊎ (in_order b a ≡ true)

-- Every request of the list has the property.
pub data Each (P : Request → Type 0) : List Request → Type 0 where
  none_left : Each P []
  first : {x : Request} {l : List Request} → P x → Each P l → Each P (x ∷ l)

in_order_asym : (a b : Request) → in_order a b ≡ true → in_order b a ≡ false
unfolding in_order
in_order_asym a b h = ground arith

in_order_trans : (a b c : Request) → in_order a b ≡ true → in_order b c ≡ true → in_order a c ≡ true
unfolding in_order
in_order_trans a b c h k = ground arith

pub Each-insert_behind :
    (P : Request → Type 0) (r t : Request) (l : List Request)
    → P r
    → Each P l
    → Each P (insert_behind r t l)
unfolding insert_behind
Each-insert_behind P r t [] p e = first p e
Each-insert_behind P r t (x ∷ l) p (first q e) =
    elim (Bool-cases ((in_order t r || not (in_order t x)) && in_order r x)) [
      | inl c ↦ rw c (first p (first q e))
      | inr c ↦ rw c (first q (Each-insert_behind P r x l p e))
    ]

-- One round of the loop.
round :
    (P : List Request → Type 0) (r t x : Request) (l : List Request)
    → ((in_order t r || not (in_order t x)) ≡ true → in_order r x ≡ true → P (r ∷ x ∷ l))
    → (((in_order t r || not (in_order t x)) && in_order r x) ≡ false → P (x ∷ insert_behind r x l))
    → P (insert_behind r t (x ∷ l))
unfolding insert_behind
round P r t x l here later =
    elim (Bool-cases ((in_order t r || not (in_order t x)) && in_order r x)) [
      | inl c ↦ rw c (here (ground arith) (ground arith))
      | inr c ↦ rw c (later c)
    ]

-- In a run that goes up, the request is put where it belongs.
up-insert_behind :
    (r t : Request) (l : List Request)
    → in_order t r ≡ true
    → Each (IsApart r) l
    → Sweeps 0 t l
    → Sweeps 0 t (insert_behind r t l)
unfolding insert_behind
up-insert_behind r t [] h a s = on h done
up-insert_behind r t (x ∷ l) h (first (inl a) all) (on k s) =
    round (Sweeps 0 t) r t x l (λ c d. on h (on d s)) (λ c. absurd (ground arith))
up-insert_behind r t (x ∷ l) h (first (inr a) all) (on k s) =
    round (Sweeps 0 t) r t x l (λ c d. on h (on d s)) (λ c. on k (up-insert_behind r x l a all s))

-- Where the loop passes an element, the request is in order behind it, or it has not come to the place.
pub Sweeps-insert_behind :
    (r t : Request) (l : List Request)
    → IsApart r t
    → Each (IsApart r) l
    → Sweeps 1 t l
    → Sweeps 1 t (insert_behind r t l)
unfolding insert_behind
Sweeps-insert_behind r t [] (inl a) all s = back a done
Sweeps-insert_behind r t [] (inr a) all s = on a done
Sweeps-insert_behind r t (x ∷ l) a (first b all) (on k s) =
    round (Sweeps 1 t) r t x l (λ c d. on (ground arith) (on d s))
      (λ c. on k (Sweeps-insert_behind r x l b all s))
Sweeps-insert_behind r t (x ∷ l) a (first (inl b) all) (back k s) =
    let above = in_order_asym x t k in
    round (Sweeps 1 t) r t x l (λ c d. back (in_order_trans r x t d k) (on d s))
      (λ c. absurd (ground arith))
Sweeps-insert_behind r t (x ∷ l) a (first (inr b) all) (back k s) =
    round (Sweeps 1 t) r t x l (λ c d. back (in_order_trans r x t d k) (on d s))
      (λ c. back k (up-insert_behind r x l b all s))

Sweeps-more : (n : ℕ) (t : Request) (l : List Request) → Sweeps n t l → Sweeps (suc n) t l
Sweeps-more n t [] s = done
Sweeps-more n t (x ∷ l) (on k s) = on k (Sweeps-more n x l s)
Sweeps-more (suc n) t (x ∷ l) (back k s) = back k (Sweeps-more n x l s)

-- When the first request has been served.
pub Sweeps-tail : (t x : Request) (l : List Request) → Sweeps 1 t (x ∷ l) → Sweeps 1 x l
Sweeps-tail t x l (on k s) = s
Sweeps-tail t x l (back k s) = Sweeps-more 0 x l s
