-- ===== src/PipeIo/Window.antt =====
-- fs/pipe.c: the page of a pipe as the sequence of the bytes that are in it.
use hit_os.Common.{
  ℕ, zero, suc, ◌+◌, ◌%◌, ◌^◌, ◌<◌, ◌≤◌, ◌≡◌, refl, sym, ap, ◌∙◌, ◌≢◌, List, [], ◌∷◌, ◌++◌, arith,
  update, update_self, update_ne, length,
}
use mathlib.Core.List.{append_assoc, append-nil}
use native.Mathlib.Nat.{suc-add, zero-add}
use hit_os.PipeIo.{Pipe, pipe_size, get_bytes, put_chars}

pub record IsPipe (p : Pipe) : Type 0 where
  pub head_in : p.head < 2 ^ 12
  pub tail_in : p.tail < 2 ^ 12

-- The `n` bytes from place `t` on, where the page goes on from its start.
unfoldable pub window : (ℕ → ℕ) → ℕ → ℕ → List ℕ
window page t zero = []
window page t (suc n) = page (t % 2 ^ 12) ∷ window page (suc t) n

-- The bytes of the pipe, the first one to be read first.
unfoldable pub contents : Pipe → List ℕ
unfolding window pipe_size
contents p = window p.page p.tail (pipe_size p)

pub length-window : (page : ℕ → ℕ) (t n : ℕ) → length (window page t n) ≡ n
unfolding window
length-window page t zero = refl
length-window page t (suc n) = ap suc (length-window page (suc t) n)

pub window-mod :
    (page : ℕ → ℕ) (t u n : ℕ) → t % 2 ^ 12 ≡ u % 2 ^ 12 → window page t n ≡ window page u n
unfolding window
window-mod page t u zero e = refl
window-mod page t u (suc n) e = rw (e, window-mod page (suc t) (suc u) n (omega arith)) refl

pub window-append :
    (page : ℕ → ℕ) (t a b : ℕ) → window page t (a + b) ≡ window page t a ++ window page (t + a) b
unfolding window
window-append page t zero b =
    ap (window page t) (zero-add b) ∙ ap (λ (u : ℕ). window page u b) (omega arith)
window-append page t (suc a) b = simp suc-add (
    ap (λ (l : List ℕ). page (t % 2 ^ 12) ∷ l)
      (window-append page (suc t) a b
        ∙ ap (λ (u : ℕ). window page (suc t) a ++ window page u b) (omega arith)))

-- Up to the end of the page, the loop of `read_pipe` gives these bytes.
pub get_bytes_lem :
    (n : ℕ) (page : ℕ → ℕ) (t : ℕ) → t + n ≤ 2 ^ 12 → get_bytes n page t ≡ window page t n
unfolding get_bytes window
get_bytes_lem zero page t h = refl
get_bytes_lem (suc n) page t h =
    let same : t % 2 ^ 12 ≡ t = omega arith in
    rw (same, get_bytes_lem n page (suc t) (omega arith)) refl

-- A write outside the bytes.
window-update :
    (page : ℕ → ℕ) (t n p c : ℕ)
    → ((i : ℕ) → i < n → (t + i) % 2 ^ 12 ≢ p)
    → window (update page p c) t n ≡ window page t n
unfolding window
window-update page t zero p c out = refl
window-update page t (suc n) p c out =
    let ne : p ≢ t % 2 ^ 12 = λ e. out 0 (omega arith) (omega arith) in
    let rest =
      window-update page (suc t) n p c (λ i l e. out (suc i) (omega arith) (omega arith)) in
    rw (rest, update_ne page p c (t % 2 ^ 12) ne) refl

window-snoc :
    (page : ℕ → ℕ) (t n c : ℕ)
    → n < 2 ^ 12
    → window (update page ((t + n) % 2 ^ 12) c) t (n + 1) ≡ window page t n ++ (c ∷ [])
unfolding window
window-snoc page t n c h =
    let p = (t + n) % 2 ^ 12 in
    window-append (update page p c) t n 1
    ∙ rw (window-update page t n p c (λ i l e. omega arith), update_self page p c) refl

-- The loop of `write_pipe` puts the first `n` bytes of `buf` behind those of the pipe.
pub put_chars_lem :
    (n : ℕ) (page : ℕ → ℕ) (h t k : ℕ) (buf : List ℕ)
    → h % 2 ^ 12 ≡ (t + k) % 2 ^ 12
    → h + n ≤ 2 ^ 12
    → k + n ≤ 2 ^ 12
    → n ≤ length buf
    → (front : List ℕ) × (buf ≡ front ++ (put_chars n page h buf).1)
      × (length front ≡ n)
      × (window (put_chars n page h buf).0 t (k + n) ≡ window page t k ++ front)
unfolding put_chars
put_chars_lem zero page h t k buf e room fits long =
    ([], refl, refl, ap (window page t) (omega arith) ∙ sym (append-nil (window page t k)))
put_chars_lem (suc n) page h t k [] e room fits long = absurd (omega arith)
put_chars_lem (suc n) page h t k (c ∷ buf) e room fits long =
    let (front, split, size, held) =
      put_chars_lem n (update page h c) (suc h) t (k + 1) buf (omega arith) (omega arith)
        (omega arith) (omega arith) in
    let place : h ≡ (t + k) % 2 ^ 12 = omega arith in
    let put : window (update page h c) t (k + 1) ≡ window page t k ++ (c ∷ []) =
      ap (λ (p : ℕ). window (update page p c) t (k + 1)) place
      ∙ window-snoc page t k c (omega arith) in
    (
      c ∷ front,
      ap (λ (l : List ℕ). c ∷ l) split,
      ap suc size,
      ap (window (put_chars n (update page h c) (suc h) buf).0 t) (omega arith)
          ∙ held
          ∙ ap (λ (l : List ℕ). l ++ front) put
          ∙ append_assoc (window page t k) (c ∷ []) front,
    )
