-- ===== src/Requests/Entries.antt =====
-- kernel/blk_drv/ll_rw_blk.c: the entry and the place that a request gets.
use mathlib.Core.Path.{subst}
use hit_os.Common.{
  ℕ, zero, suc, ◌*◌, ◌/◌, ◌<◌, ◌≡◌, refl, sym, ap, ◌∙◌, arith, Bool, true, false, not, ◌&&◌, ◌||◌,
  Option, none, some, List, [], ◌∷◌, ◌++◌, ◌==◌, inl, inr, if◌then◌else◌, Bool-cases,
}
use native.Mathlib.Decide.{ℕ_discrete}
use hit_os.Requests.{
  Request, BlkDev, Reached, in_order, insert_behind, add_request, use_entry, find_request, filled,
  take_entry, put_queue, clean, set_lock, queue_request, read, nr_request,
}

-- The last free entry below `n`, or none when all of them are in use.
abbrev pub IsLastFree : ℕ → (ℕ → Bool) → Option ℕ → Type 0
IsLastFree n used none = (j : ℕ) → j < n → used j ≡ true
IsLastFree n used (some i) = (i < n) × (used i ≡ false) × ((j : ℕ) → i < j → j < n → used j ≡ true)

widen :
    (n : ℕ) (used : ℕ → Bool) (o : Option ℕ)
    → used n ≡ true
    → IsLastFree n used o
    → IsLastFree (suc n) used o
widen n used none e f =
    λ j h. elim (ℕ_discrete j n) [ yes s ↦ ap used s ∙ e | no ne ↦ f j (omega arith) ]
widen n used (some i) e (low, free, above) = (
  omega arith,
  free,
  λ j l h. elim (ℕ_discrete j n) [ yes s ↦ ap used s ∙ e | no ne ↦ above j l (omega arith) ],
)

find_request-IsLastFree : (n : ℕ) (used : ℕ → Bool) → IsLastFree n used (find_request n used)
unfolding find_request
find_request-IsLastFree zero used = λ j h. absurd (omega arith)
find_request-IsLastFree (suc n) used = elim (Bool-cases (used n)) [
  | inl e ↦
      rw (e, find_request) (widen n used (find_request n used) e (find_request-IsLastFree n used))
  | inr e ↦ rw e (omega arith, e, λ j l h. absurd (omega arith))
]

-- The queue with the request at one place.
pub insert_behind-append :
    (r t : Request) (l : List Request)
    → (l1 : List Request) × (l2 : List Request) × (l ≡ l1 ++ l2)
      × (insert_behind r t l ≡ l1 ++ (r ∷ l2))
unfolding insert_behind
insert_behind-append r t [] = ([], [], refl, refl)
insert_behind-append r t (x ∷ l) =
    let (l1, l2, e, f) = insert_behind-append r x l in
    elim (Bool-cases ((in_order t r || not (in_order t x)) && in_order r x)) [
      | inl c ↦ ([], x ∷ l, refl, rw c refl)
      | inr c ↦ (
        x ∷ l1,
        l2,
        ap (λ (q : List Request). x ∷ q) e,
        rw c (ap (λ (q : List Request). x ∷ q) f),
      )
    ]

-- How many entries a command may look at: a write leaves the last third to the reads.
abbrev pub limit : ℕ → ℕ
limit cmd = if cmd == read then 32 else 21

-- What comes of the search in a queue `t ∷ l` of device `m`.
pub data Queues (cmd b m : ℕ) (ahead : Bool) (t : Request) (l : List Request) (d : BlkDev)
    : Reached × BlkDev → Type 0 where
  all_used :
      ((j : ℕ) → j < limit cmd → d.used j ≡ true)
      → Queues cmd b m ahead t l d
          (if ahead then (Reached.finished, set_lock false b d) else (Reached.sleeps_on_request, d))
  queued :
      (i : ℕ) (l1 l2 : List Request)
      → i < limit cmd
      → d.used i ≡ false
      → ((j : ℕ) → i < j → j < limit cmd → d.used j ≡ true)
      → l ≡ l1 ++ l2
      → Queues cmd b m ahead t l d (
        Reached.finished,
        put_queue m
            (t ∷ (l1 ++ (filled cmd i b (d.buffer b) ∷ l2)))
            (clean (some b) (take_entry i d)),
      )

limit_lem : (cmd : ℕ) → (if cmd == read then nr_request else nr_request * 2 / 3) ≡ limit cmd
limit_lem cmd = ground arith

pub add_request-behind :
    (f : BlkDev → BlkDev) (m : ℕ) (r t : Request) (l l1 l2 : List Request) (d : BlkDev)
    → insert_behind r t l ≡ l1 ++ (r ∷ l2)
    → add_request f m r (t ∷ l) d ≡ put_queue m (t ∷ (l1 ++ (r ∷ l2))) (clean r.bh d)
unfolding add_request
add_request-behind f m r t l l1 l2 d e =
    ap (λ (q : List Request). put_queue m (t ∷ q) (clean r.bh d)) e

use_entry-Queues :
    (f : BlkDev → BlkDev) (cmd b m : ℕ) (ahead : Bool) (t : Request) (l : List Request) (d : BlkDev)
    (o : Option ℕ)
    → d.queue m ≡ t ∷ l
    → IsLastFree (limit cmd) d.used o
    → Queues cmd b m ahead t l d (use_entry f m cmd ahead b o d)
unfolding use_entry
use_entry-Queues f cmd b m true t l d none e full = all_used full
use_entry-Queues f cmd b m false t l d none e full = all_used full
use_entry-Queues f cmd b m ahead t l d (some i) e (low, free, above) =
    let r = filled cmd i b (d.buffer b) in
    let (l1, l2, s, h) = insert_behind-append r t l in
    subst (λ (x : BlkDev). Queues cmd b m ahead t l d (Reached.finished, x))
      (sym (
        ap (λ (q : List Request). add_request f m r q (take_entry i d)) e
        ∙ add_request-behind f m r t l l1 l2 (take_entry i d) h))
      (queued i l1 l2 low free above s)

-- For a device that is busy.
pub queue_request-Queues :
    (f : BlkDev → BlkDev) (cmd b m : ℕ) (ahead : Bool) (t : Request) (l : List Request) (d : BlkDev)
    → d.queue m ≡ t ∷ l
    → Queues cmd b m ahead t l d (queue_request f m cmd ahead b d)
unfolding queue_request
queue_request-Queues f cmd b m ahead t l d e =
    let n = if cmd == read then nr_request else nr_request * 2 / 3 in
    use_entry-Queues f cmd b m ahead t l d (find_request n d.used) e (
      subst (λ (k : ℕ). IsLastFree k d.used (find_request n d.used)) (limit_lem cmd)
        (find_request-IsLastFree n d.used))
