-- ===== src/TtyQueue/Fifo.antt =====
-- include/linux/tty.h: the ring as the sequence of the characters in it.
use hit_os.Common.{
  ℕ, zero, suc, ◌+◌, ◌%◌, ◌^◌, ◌<◌, ◌≡◌, refl, sym, ap, ◌∙◌, ◌≢◌, List, [], ◌∷◌, ◌++◌, arith, false,
  update, update_self, update_ne,
}
use hit_os.Common.Words.{sub32}
use hit_os.TtyQueue.{
  TtyQueue, in_ring, inc, dec, is_empty, is_full, left, last, chars, getch, putch, unput,
}

pub record IsRing (q : TtyQueue) : Type 0 where
  pub head_in : q.head < 2 ^ 10
  pub tail_in : q.tail < 2 ^ 10

-- The `n` characters from place `t` on.
unfoldable pub held : (ℕ → ℕ) → ℕ → ℕ → List ℕ
held buf t zero = []
held buf t (suc n) = buf t ∷ held buf (inc t) n

-- The characters of the queue, the first one to be taken first.
unfoldable pub contents : TtyQueue → List ℕ
unfolding held chars
contents q = held q.buf q.tail (chars q)

held-snoc :
    (buf : ℕ → ℕ) (t n : ℕ)
    → t < 2 ^ 10
    → held buf t (suc n) ≡ held buf t n ++ (buf ((t + n) % 2 ^ 10) ∷ [])
unfolding held
held-snoc buf t zero h = let same : (t + 0) % 2 ^ 10 ≡ t = omega arith in rw same refl
held-snoc buf t (suc n) h =
    let same : (inc t + n) % 2 ^ 10 ≡ (t + suc n) % 2 ^ 10 = omega arith in
    let more = held-snoc buf (inc t) n (omega arith) in
    ap (λ l. buf t ∷ l) (more ∙ ap (λ k. held buf (inc t) n ++ (buf k ∷ [])) same)

-- A write outside the characters.
held-update :
    (buf : ℕ → ℕ) (t n p c : ℕ)
    → t < 2 ^ 10
    → ((i : ℕ) → i < n → (t + i) % 2 ^ 10 ≢ p)
    → held (update buf p c) t n ≡ held buf t n
unfolding held
held-update buf t zero p c h out = refl
held-update buf t (suc n) p c h out =
    let ne : t ≢ p = λ e. out 0 (omega arith) (omega arith) in
    let rest =
      held-update buf (inc t) n p c (omega arith)
        (λ i l e. out (suc i) (omega arith) (omega arith)) in
    rw (rest, update_ne buf p c t (λ e. ne (sym e))) refl

-- With head and tail in range, the room that is left and the characters add up to 1023.
pub left-chars : (q : TtyQueue) → IsRing q → left q + chars q ≡ 1023
unfolding left chars
left-chars q ring = omega (arith, ring.head_in, ring.tail_in)

-- In a ring with its head and tail in range that is not full, `PUTCH` appends the character.
pub contents-putch :
    (c : ℕ) (q : TtyQueue)
    → IsRing q
    → is_full q ≡ false
    → contents (putch c q) ≡ contents q ++ (c ∷ [])
unfolding contents putch is_full left chars
contents-putch c q ring room =
    let n = in_ring (sub32 q.head q.tail) in
    let grown : in_ring (sub32 (inc q.head) q.tail) ≡ suc n =
      ground (arith, ring.head_in, ring.tail_in, room) in
    let place : (q.tail + n) % 2 ^ 10 ≡ q.head = omega (arith, ring.head_in, ring.tail_in) in
    let old =
      held-update q.buf q.tail n q.head c ring.tail_in
        (λ i l e. omega (arith, ring.head_in, ring.tail_in)) in
    rw grown (
      held-snoc (update q.buf q.head c) q.tail n ring.tail_in
      ∙ rw (place, update_self q.buf q.head c, old) refl)

-- From a ring with its head and tail in range that is not empty, `GETCH` takes the first character.
pub contents-getch :
    (q : TtyQueue) → IsRing q → is_empty q ≡ false → contents q ≡ (getch q).0 ∷ contents (getch q).1
unfolding contents getch is_empty chars
contents-getch q ring some_in =
    let grown : in_ring (sub32 q.head q.tail) ≡ suc (in_ring (sub32 q.head (inc q.tail))) =
      ground (arith, ring.head_in, ring.tail_in, some_in) in
    rw grown refl

-- In a ring with its head and tail in range that is not empty, `LAST` is the last character, and `DEC` of the head takes it off.
pub contents-unput :
    (q : TtyQueue)
    → IsRing q
    → is_empty q ≡ false
    → contents q ≡ contents (unput q) ++ (last q ∷ [])
unfolding contents unput last is_empty chars
contents-unput q ring some_in =
    let n = in_ring (sub32 (dec q.head) q.tail) in
    let grown : in_ring (sub32 q.head q.tail) ≡ suc n =
      ground (arith, ring.head_in, ring.tail_in, some_in) in
    let place : (q.tail + n) % 2 ^ 10 ≡ dec q.head = omega (arith, ring.head_in, ring.tail_in) in
    rw grown (
      held-snoc q.buf q.tail n ring.tail_in ∙ ap (λ k. held q.buf q.tail n ++ (q.buf k ∷ [])) place)
