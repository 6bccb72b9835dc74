-- ===== src/Timer/Tests.antt =====
-- kernel/sched.c, the timers at small lists.
use hit_os.Common.{ℕ, ◌+◌, ◌≡◌, refl, some, List, [], ◌∷◌, arith, ok}
use hit_os.Common.Int.{pos}
use hit_os.Timer.{Timer, queued, add_timer}
use hit_os.Timer.Add.{IsPlaced, add_timer-IsPlaced}
use hit_os.Timer.Tick.{ticks, ticks-expiry, add_timer-late}

abbrev timer : ℕ → ℕ → Timer
timer j f = record { jiffies = pos j; fn = f }

abbrev two : List Timer
two = timer 5 1 ∷ timer 3 2 ∷ []

-- The new timer is due in 6 ticks; timer 2 was due in 8 and is now due in 9.
add-two : add_timer (pos 6) 3 two ≡ ok (queued (timer 5 1 ∷ timer 1 3 ∷ timer 3 2 ∷ []))
unfolding add_timer
add-two = refl

add_timer-IsPlaced_example :
    (l : List Timer) × (add_timer (pos 6) 3 two ≡ ok (queued l)) × IsPlaced (timer 6 3) two l
add_timer-IsPlaced_example =
    add_timer-IsPlaced (pos 6) 3 two (omega arith) (omega arith) (omega arith) (omega arith)

add_timer-late_example :
    (l' : List Timer) × (add_timer (pos 2) 3 two ≡ ok (queued l'))
    × (ticks 5 two ≡ some (1 ∷ [], timer 3 2 ∷ []))
    × (ticks 2 l' ≡ some (3 ∷ [], two))
    × (ticks (2 + 5) l' ≡ some (3 ∷ 1 ∷ [], timer 3 2 ∷ []))
add_timer-late_example =
    add_timer-late (timer 5 1) (pos 2) 3 (timer 3 2 ∷ []) (omega arith) (omega arith) (omega arith)
      (omega arith) (omega arith)

ticks-expiry_example : ticks 5 two ≡ some (1 ∷ [], timer 3 2 ∷ [])
ticks-expiry_example = ticks-expiry (timer 5 1 ∷ []) (timer 3 2 ∷ []) (omega arith)
