-- ===== src/Timer.antt =====
-- kernel/sched.c, `add_timer` and the timers of `do_timer`. The entries of `timer_list` that are in
-- use (`fn` is not NULL) are exactly those on the list behind `next_timer`, so the state is that
-- list, in its order; a `fn` is a number, 0 for NULL. Each entry counts the ticks from the expiry of
-- the entry before it.
pub mod Add
pub mod Tick
mod Tests
use mathlib.Core.Option
use hit_os.Common.{
  ℕ, zero, suc, ◌+◌, ◌^◌, ◌<◌, ◌≡◌, Bool, true, false, not, Option, none, some, List, [], ◌∷◌,
  Outcome, ok, panic, ltb, ◌==◌, if◌then◌else◌, length,
}
use hit_os.Common.Int.{ℤ, pos, pos_part, ◌-ℤ◌, ltz, wrap32}

pub record Timer : Type 0 where
  pub jiffies : ℤ
  pub fn : ℕ

abbrev pub time_requests : ℕ
time_requests = 64

-- The `while` loop of `add_timer`: `t` stands in front of the list, and moves behind each entry that
-- expires before it, by an exchange of the contents.
unfoldable pub sift : Timer → List Timer → List Timer
unfolding wrap32 ◌-ℤ◌
sift t [] = t ∷ []
sift t (n ∷ rest) =
    let behind = n ∷ sift (record t { jiffies = wrap32 (t.jiffies -ℤ n.jiffies) }) rest in
    if ltz n.jiffies t.jiffies then behind else t ∷ n ∷ rest

-- What `add_timer` has done: nothing, or the call of `fn` at once, or a new list.
pub data Added : Type 0 where
  ignored : Added
  called : ℕ → Added
  queued : List Timer → Added

unfoldable pub add_timer : ℤ → ℕ → List Timer → Outcome Added
unfolding sift
add_timer jiffies fn l =
    if fn == 0
    then ok ignored
    else if not (ltz (pos 0) jiffies)
    then ok (called fn)
    else if ltb (length l) time_requests
    then ok (queued (sift (record { jiffies = jiffies; fn = fn }) l))
    else panic

-- The loop of `do_timer` that takes the expired entries off the list and calls their functions,
-- on fuel. `call fn` is what `fn` does to the list (it may call `add_timer`).
-- The result is the functions called, in order, and the list.
unfoldable pub expire :
    (call : ℕ → List Timer → List Timer) → ℕ → List Timer → Option (List ℕ × List Timer)
expire call zero l = none
expire call (suc fuel) [] = some ([], [])
expire call (suc fuel) (t ∷ rest) =
    let after = Option.map (λ (fns, l). (t.fn ∷ fns, l)) (expire call fuel (call t.fn rest)) in
    if ltz (pos 0) t.jiffies then some ([], t ∷ rest) else after

-- The part of `do_timer` under `if (next_timer)`.
unfoldable pub tick :
    (call : ℕ → List Timer → List Timer) → ℕ → List Timer → Option (List ℕ × List Timer)
unfolding expire wrap32 ◌-ℤ◌
tick call fuel [] = some ([], [])
tick call fuel (t ∷ rest) =
    expire call fuel (record t { jiffies = wrap32 (t.jiffies -ℤ pos 1) } ∷ rest)
