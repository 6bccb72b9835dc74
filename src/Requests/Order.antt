-- ===== src/Requests/Order.antt =====
-- kernel/blk_drv/ll_rw_blk.c: `add_request` keeps the order of a queue.
use hit_os.Common.{
  ℕ, suc, ◌<◌, ◌≡◌, arith, true, List, [], ◌∷◌, ◌++◌, ◌⊎◌, inl, inr, Bool-cases, ltb,
}
use mathlib.Core.Path.{subst}
use hit_os.Requests.{Request, BlkDev, in_order, add_request, put_queue, clean}
use hit_os.Requests.Elevator.{
  Sweeps, done, on, back, IsApart, Each, none_left, first, Sweeps-insert_behind,
}
use hit_os.Requests.Entries.{insert_behind-append, add_request-behind}

-- Reads before writes, then by device, then by sector.
abbrev pub IsBefore : Request → Request → Type 0
IsBefore a b =
    (a.cmd < b.cmd)
    ⊎ ((a.cmd ≡ b.cmd) × ((a.dev < b.dev) ⊎ ((a.dev ≡ b.dev) × (a.sector < b.sector))))

in_order-IsBefore : (a b : Request) → in_order a b ≡ true → IsBefore a b
unfolding in_order
in_order-IsBefore a b e = elim (Bool-cases (ltb a.cmd b.cmd)) [
  | inl c ↦ inl (ground arith)
  | inr c ↦ elim (Bool-cases (ltb a.dev b.dev)) [
    | inl d ↦ inr (ground arith, inl (ground arith))
    | inr d ↦ inr (ground arith, inr (ground arith, ground arith))
  ]
]

IsBefore-in_order : (a b : Request) → IsBefore a b → in_order a b ≡ true
unfolding in_order
IsBefore-in_order a b (inl l) = ground arith
IsBefore-in_order a b (inr (e, inl l)) = ground arith
IsBefore-in_order a b (inr (e, inr (f, l))) = ground arith

-- Behind request `t` each request comes before the next one, but for at most `n` steps back.
pub data IsSwept : ℕ → Request → List Request → Type 0 where
  ended : {n : ℕ} {t : Request} → IsSwept n t []
  up :
      {n : ℕ} {t x : Request} {l : List Request}
      → IsBefore t x
      → IsSwept n x l
      → IsSwept n t (x ∷ l)
  turn :
      {n : ℕ} {t x : Request} {l : List Request}
      → IsBefore x t
      → IsSwept n x l
      → IsSwept (suc n) t (x ∷ l)

to_Sweeps : (n : ℕ) (t : Request) (l : List Request) → IsSwept n t l → Sweeps n t l
to_Sweeps n t [] s = done
to_Sweeps n t (x ∷ l) (up b s) = on (IsBefore-in_order t x b) (to_Sweeps n x l s)
to_Sweeps (suc n) t (x ∷ l) (turn b s) = back (IsBefore-in_order x t b) (to_Sweeps n x l s)

from_Sweeps : (n : ℕ) (t : Request) (l : List Request) → Sweeps n t l → IsSwept n t l
from_Sweeps n t [] s = ended
from_Sweeps n t (x ∷ l) (on b s) = up (in_order-IsBefore t x b) (from_Sweeps n x l s)
from_Sweeps (suc n) t (x ∷ l) (back b s) = turn (in_order-IsBefore x t b) (from_Sweeps n x l s)

-- The two requests are not for the same sector of the same device with the same command.
abbrev pub IsOther : Request → Request → Type 0
IsOther a b = IsBefore a b ⊎ IsBefore b a

to_IsApart : (a b : Request) → IsOther a b → IsApart a b
to_IsApart a b (inl l) = inl (IsBefore-in_order a b l)
to_IsApart a b (inr l) = inr (IsBefore-in_order b a l)

all_IsApart : (r : Request) (l : List Request) → Each (IsOther r) l → Each (IsApart r) l
all_IsApart r [] e = none_left
all_IsApart r (x ∷ l) (first o e) = first (to_IsApart r x o) (all_IsApart r l e)

-- A request that is not for the same sector, device and command as one of the queue of a busy device
-- is put at one place behind the first request, with all others kept in their order. If the requests
-- behind the first one came one before the other (reads before writes, then by device, then by sector),
-- with at most one step back, they do so afterwards: two sweeps over the disk serve them all.
pub add_request-IsSwept :
    (f : BlkDev → BlkDev) (m : ℕ) (r t : Request) (l : List Request) (d : BlkDev)
    → IsOther r t
    → Each (IsOther r) l
    → IsSwept 1 t l
    → (l1 : List Request) × (l2 : List Request) × (l ≡ l1 ++ l2)
      × (add_request f m r (t ∷ l) d ≡ put_queue m (t ∷ (l1 ++ (r ∷ l2))) (clean r.bh d))
      × IsSwept 1 t (l1 ++ (r ∷ l2))
add_request-IsSwept f m r t l d o e s =
    let (l1, l2, split, put) = insert_behind-append r t l in
    let swept =
      Sweeps-insert_behind r t l (to_IsApart r t o) (all_IsApart r l e) (to_Sweeps 1 t l s) in
    (
      l1,
      l2,
      split,
      add_request-behind f m r t l l1 l2 d put,
      from_Sweeps 1 t _ (subst (Sweeps 1 t) put swept),
    )
