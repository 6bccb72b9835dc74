-- ===== src/TtyQueue/Tests.antt =====
-- include/linux/tty.h: a ring with two characters across its end.
use hit_os.Common.{◌≡◌, refl, [], ◌∷◌, arith, false, update}
use hit_os.TtyQueue.{TtyQueue, is_empty, is_full}
use hit_os.TtyQueue.Fifo.{IsRing, contents}

abbrev two : TtyQueue
two = record { head = 1; tail = 1023; buf = update (update (λ _. 0) 1023 65) 0 66 }

two-IsRing : IsRing two
two-IsRing = record { head_in = omega arith; tail_in = omega arith }

contents-two : contents two ≡ 65 ∷ 66 ∷ []
unfolding contents
contents-two = refl

not_full : is_full two ≡ false
unfolding is_full
not_full = refl

not_empty : is_empty two ≡ false
unfolding is_empty
not_empty = refl
