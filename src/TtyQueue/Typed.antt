-- ===== src/TtyQueue/Typed.antt =====
-- include/linux/tty.h: the ring read from its head, the way a line is edited: the newest character
-- first.
use hit_os.Common.{
  ℕ, zero, suc, ◌+◌, ◌-◌, ◌%◌, ◌^◌, ◌≤◌, ◌<◌, ◌≡◌, refl, ap, ◌≢◌, List, [], ◌∷◌, arith, true, false,
  length, update, update_self, update_ne,
}
use hit_os.Common.Words.{sub32}
use hit_os.TtyQueue.{
  TtyQueue, in_ring, inc, dec, is_empty, is_full, left, last, chars, getch, putch, unput,
}
use hit_os.TtyQueue.Fifo.{IsRing, held, contents}

-- The `n` characters before place `h`.
unfoldable pub held_back : (ℕ → ℕ) → ℕ → ℕ → List ℕ
held_back buf h zero = []
held_back buf h (suc n) = buf (dec h) ∷ held_back buf (dec h) n

unfoldable pub typed : TtyQueue → List ℕ
unfolding held_back chars
typed q = held_back q.buf q.head (chars q)

held_back-update :
    (buf : ℕ → ℕ) (h n p c : ℕ)
    → h < 2 ^ 10
    → p < 2 ^ 10
    → n < 2 ^ 10
    → n ≤ (h + 2 ^ 10 - p - 1) % 2 ^ 10
    → held_back (update buf p c) h n ≡ held_back buf h n
unfolding held_back
held_back-update buf h zero p c a b d e = refl
held_back-update buf h (suc n) p c a b d e =
    let ne : p ≢ dec h = λ q. omega arith in
    let rest = held_back-update buf (dec h) n p c (omega arith) b (omega arith) (omega arith) in
    rw (rest, update_ne buf p c (dec h) ne) refl

length-held_back : (buf : ℕ → ℕ) (h n : ℕ) → length (held_back buf h n) ≡ n
unfolding held_back
length-held_back buf h zero = refl
length-held_back buf h (suc n) = ap suc (length-held_back buf (dec h) n)

length-held : (buf : ℕ → ℕ) (t n : ℕ) → length (held buf t n) ≡ n
unfolding held
length-held buf t zero = refl
length-held buf t (suc n) = ap suc (length-held buf (inc t) n)

pub length-contents : (q : TtyQueue) → length (contents q) ≡ chars q
unfolding contents
length-contents q = length-held q.buf q.tail (chars q)

pub length-typed : (q : TtyQueue) → length (typed q) ≡ chars q
unfolding typed
length-typed q = length-held_back q.buf q.head (chars q)

pub chars_small : (q : TtyQueue) → chars q < 2 ^ 10
unfolding chars
chars_small q = omega arith

pub chars-empty : (q : TtyQueue) → is_empty q ≡ true → chars q ≡ 0
unfolding chars is_empty
chars-empty q e = ground arith

pub chars-getch : (q : TtyQueue) → IsRing q → is_empty q ≡ false → chars q ≡ chars (getch q).1 + 1
unfolding chars is_empty getch
chars-getch q ring e = ground (arith, ring.head_in, ring.tail_in)

pub getch-IsRing : (q : TtyQueue) → IsRing q → IsRing (getch q).1
unfolding getch
getch-IsRing q ring = ground (arith, ring.head_in, ring.tail_in)

pub putch-IsRing : (c : ℕ) (q : TtyQueue) → IsRing q → IsRing (putch c q)
unfolding putch
putch-IsRing c q ring = ground (arith, ring.head_in, ring.tail_in)

pub unput-IsRing : (q : TtyQueue) → IsRing q → IsRing (unput q)
unfolding unput
unput-IsRing q ring = ground (arith, ring.head_in, ring.tail_in)

pub typed-putch :
    (c : ℕ) (q : TtyQueue) → IsRing q → is_full q ≡ false → typed (putch c q) ≡ c ∷ typed q
unfolding typed putch is_full left chars
typed-putch c q ring room =
    let n = in_ring (sub32 q.head q.tail) in
    let grown : in_ring (sub32 (inc q.head) q.tail) ≡ suc n =
      ground (arith, ring.head_in, ring.tail_in, room) in
    let back : dec (inc q.head) ≡ q.head = omega (arith, ring.head_in) in
    let old =
      held_back-update q.buf q.head n q.head c ring.head_in ring.head_in (omega arith)
        (omega (arith, ring.head_in)) in
    rw (grown, back, update_self q.buf q.head c, old) refl

pub typed-unput :
    (q : TtyQueue) → IsRing q → is_empty q ≡ false → typed q ≡ last q ∷ typed (unput q)
unfolding typed unput last is_empty chars
typed-unput q ring some_in =
    let grown : in_ring (sub32 q.head q.tail) ≡ suc (in_ring (sub32 (dec q.head) q.tail)) =
      ground (arith, ring.head_in, ring.tail_in, some_in) in
    rw grown refl

pub chars-unput : (q : TtyQueue) → IsRing q → is_empty q ≡ false → chars q ≡ chars (unput q) + 1
unfolding chars is_empty unput
chars-unput q ring e = ground (arith, ring.head_in, ring.tail_in)

pub typed-empty : (q : TtyQueue) → is_empty q ≡ true → typed q ≡ []
unfolding typed
typed-empty q e = rw (chars-empty q e) refl

pub contents-empty : (q : TtyQueue) → is_empty q ≡ true → contents q ≡ []
unfolding contents
contents-empty q e = rw (chars-empty q e) refl
