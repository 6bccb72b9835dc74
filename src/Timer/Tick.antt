-- ===== src/Timer/Tick.antt =====
-- kernel/sched.c, `do_timer`: when a timer's function is called.
use mathlib.Core.Option
use mathlib.Core.Path.{subst}
use native.Mathlib.Decide.{ℕ_discrete}
use hit_os.Common.{
  ℕ, zero, suc, ◌+◌, ◌-◌, ◌≡◌, refl, ◌∙◌, ◌≢◌, Option, none, some, List, [], ◌∷◌, ◌++◌, map, arith,
  ◌<◌, ok, length, if◌then◌else◌, ◌==◌, eq→==, ne→not-==,
}
use hit_os.Common.Int.{ℤ, ◌≤ℤ◌, pos, pos_part, ◌-ℤ◌, wrap32}
use hit_os.Timer.{Timer, queued, expire, tick, add_timer}
use hit_os.Timer.Add.{IsPending, AllPending, expiry, add_timer-front}

-- `call` leaves pending timers pending, as `add_timer` does.
abbrev pub KeepsPending : (ℕ → List Timer → List Timer) → Type 0
KeepsPending call = (fn : ℕ) (l : List Timer) → AllPending l → AllPending (call fn l)

abbrev pub count_down : Timer → Timer
count_down t = record t { jiffies = pos (pos_part t.jiffies - 1) }

expire-pending :
    (call : ℕ → List Timer → List Timer) (fuel : ℕ) (l : List Timer)
    → AllPending l
    → expire call (suc fuel) l ≡ some ([], l)
unfolding expire
expire-pending call fuel [] p = refl
expire-pending call fuel (t ∷ l) p = ground arith

wrap32-pred : (t : Timer) → IsPending t → wrap32 (t.jiffies -ℤ pos 1) ≡ pos (pos_part t.jiffies - 1)
unfolding wrap32 ◌-ℤ◌
wrap32-pred t p = ground arith

-- With pending timers, and functions that keep timers pending, one tick calls the function of the first timer if that one was due in one
-- tick, and no other function; else it only counts the first timer down. Two rounds of the loop are
-- enough, whatever the called function adds to the list.
pub tick_lem :
    (call : ℕ → List Timer → List Timer) (fuel : ℕ) (t : Timer) (l : List Timer)
    → KeepsPending call
    → IsPending t
    → AllPending l
    → tick call (suc (suc fuel)) (t ∷ l) ≡ (
        if pos_part t.jiffies == 1
        then some (t.fn ∷ [], call t.fn l)
        else some ([], count_down t ∷ l))
unfolding tick expire
tick_lem call fuel t l keep p q =
    rw (wrap32-pred t p) (ground (arith, expire-pending call fuel (call t.fn l) (keep t.fn l q)))

-- `n` ticks, with functions that leave the timers alone: the functions called, and what is left.
pub ticks : ℕ → List Timer → Option (List ℕ × List Timer)
ticks zero l = some ([], l)
ticks (suc n) l = elim (tick (λ fn l. l) 2 l) [
  | none ↦ none
  | some (fns, l') ↦ Option.map (λ (more, l''). (fns ++ more, l'')) (ticks n l')
]

ticks-suc :
    (m : ℕ) (l l' l'' : List Timer) (fns more : List ℕ)
    → tick (λ fn r. r) 2 l ≡ some (fns, l')
    → ticks m l' ≡ some (more, l'')
    → ticks (suc m) l ≡ some (fns ++ more, l'')
unfolding ticks
ticks-suc m l l' l'' fns more e h = ground arith

count_down-IsPending : (t : Timer) → IsPending t → pos_part t.jiffies ≢ 1 → IsPending (count_down t)
count_down-IsPending t p later = ground arith

ticks-timer :
    (m n : ℕ) (t : Timer) (l : List Timer) (fns : List ℕ) (l' : List Timer)
    → m ≡ pos_part t.jiffies + n
    → IsPending t
    → AllPending l
    → ticks n l ≡ some (fns, l')
    → ticks m (t ∷ l) ≡ some (t.fn ∷ fns, l')
ticks-timer zero n t l fns l' e p q h = absurd (omega arith)
ticks-timer (suc m) n t l fns l' e p q h = elim (ℕ_discrete (pos_part t.jiffies) 1) [
  | yes due ↦
      let now : m ≡ n = omega arith in
      ticks-suc m (t ∷ l) l l' (t.fn ∷ []) fns
        (tick_lem (λ fn r. r) 0 t l (λ fn r k. k) p q ∙ rw (eq→== _ _ due) refl) (rw now h)
  | no later ↦
      ticks-suc m (t ∷ l) (count_down t ∷ l) l' [] (t.fn ∷ fns)
        (tick_lem (λ fn r. r) 0 t l (λ fn r k. k) p q ∙ rw (ne→not-== _ _ later) refl)
        (ticks-timer m n (count_down t) l fns l' (omega arith) (count_down-IsPending t p later) q h)
]

-- For pending timers whose functions leave the list alone: after as many ticks as the first timers of
-- the list wait for together, the functions of exactly these have been called, in order, and the
-- timers behind them are as they were.
pub ticks-expiry :
    (before after : List Timer)
    → AllPending (before ++ after)
    → ticks (expiry before) (before ++ after) ≡ some (map (λ t. t.fn) before, after)
unfolding ticks
ticks-expiry [] after p = refl
ticks-expiry (t ∷ before) after (p, q) =
    ticks-timer _ (expiry before) t (before ++ after) _ after refl p q (ticks-expiry before after q)

-- With pending timers, a function and a free entry: a new timer that is not due behind the first one
-- makes it late. The first timer was due in its own number of ticks; now, when these have passed
-- behind the delay of the new timer, and not before that, its function is called.
pub add_timer-late :
    (t : Timer) (jiffies : ℤ) (fn : ℕ) (l : List Timer)
    → fn ≢ 0
    → IsPending (record { jiffies = jiffies; fn = fn })
    → AllPending (t ∷ l)
    → jiffies ≤ℤ t.jiffies
    → length l < 63
    → (l' : List Timer) × (add_timer jiffies fn (t ∷ l) ≡ ok (queued l'))
      × (ticks (pos_part t.jiffies) (t ∷ l) ≡ some (t.fn ∷ [], l))
      × (ticks (pos_part jiffies) l' ≡ some (fn ∷ [], t ∷ l))
      × (ticks (pos_part jiffies + pos_part t.jiffies) l' ≡ some (fn ∷ t.fn ∷ [], l))
add_timer-late t jiffies fn l f p q h free =
    let new : Timer = record { jiffies = jiffies; fn = fn } in
    (
      new ∷ t ∷ l,
      add_timer-front t jiffies fn l f p.0 h free,
      subst (λ (n : ℕ). ticks n (t ∷ l) ≡ some (t.fn ∷ [], l)) (omega arith)
          (ticks-expiry (t ∷ []) l q),
      subst (λ (n : ℕ). ticks n (new ∷ t ∷ l) ≡ some (fn ∷ [], t ∷ l)) (omega arith)
          (ticks-expiry (new ∷ []) (t ∷ l) (p, q)),
      subst (λ (n : ℕ). ticks n (new ∷ t ∷ l) ≡ some (fn ∷ t.fn ∷ [], l)) (omega arith)
          (ticks-expiry (new ∷ t ∷ []) l (p, q)),
    )
