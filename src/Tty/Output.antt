-- ===== src/Tty/Output.antt =====
-- kernel/chr_drv/tty_io.c, `tty_write`: the loop that fills the write queue.
use mathlib.Core.List.{append_assoc, append-nil}
use hit_os.Common.{
  ℕ, zero, suc, ◌+◌, ◌*◌, ◌<◌, ◌≡◌, refl, sym, ap, ◌∙◌, ◌⊎◌, inl, inr, Bool, true, false, ◌&&◌, not,
  List, [], ◌∷◌, ◌++◌, arith, length, Bool-cases, ◌==◌, if◌then◌else◌,
}
use hit_os.TtyQueue.{TtyQueue, is_full, putch}
use hit_os.TtyQueue.Fifo.{IsRing, contents, contents-putch}
use hit_os.TtyQueue.Typed.{putch-IsRing}
use hit_os.Tty.Defs.{Termios, is_set, to_upper}

module _ (t : Termios) where
  -- The changes of CR and NL, under O_POST.
  unfoldable pub out_char : ℕ → ℕ
  out_char c =
      if not (is_set t.c_oflag 0)
      then c
      else if (c == 13) && is_set t.c_oflag 3
      then 10
      else if (c == 10) && is_set t.c_oflag 5
      then 13
      else c

  -- The test for a CR in front of a NL, but for `cr_flag`.
  unfoldable pub wants_cr : ℕ → Bool
  unfolding out_char
  wants_cr c = is_set t.c_oflag 0 && (out_char c == 10) && is_set t.c_oflag 2

  unfoldable pub out_case : ℕ → ℕ
  unfolding out_char
  out_case c =
      if is_set t.c_oflag 0 && is_set t.c_oflag 1 then to_upper (out_char c) else out_char c

  -- The loop on fuel: `cr_flag`, the characters that are left of the user's, and the write queue.
  unfoldable pub fill_queue : ℕ → Bool → List ℕ → TtyQueue → Bool × List ℕ × TtyQueue
  unfolding wants_cr out_case is_full putch
  fill_queue zero cr_flag l q = (cr_flag, l, q)
  fill_queue (suc fuel) cr_flag [] q = (cr_flag, [], q)
  fill_queue (suc fuel) cr_flag (c ∷ l) q = elim (is_full q) [
    | true ↦ (cr_flag, c ∷ l, q)
    | false ↦ elim (wants_cr c && not cr_flag) [
      | true ↦ fill_queue fuel true (c ∷ l) (putch 13 q)
      | false ↦ fill_queue fuel false l (putch (out_case c) q)
    ]
  ]

  -- What one character of the user becomes, and what several become.
  unfoldable pub expanded : List ℕ → List ℕ
  unfolding wants_cr out_case
  expanded [] = []
  expanded (c ∷ l) = if wants_cr c then 13 ∷ out_case c ∷ expanded l else out_case c ∷ expanded l

  -- The same where `cr_flag` may be set: a CR is there for the first character, whatever that is.
  unfoldable pub expanded_from : Bool → List ℕ → List ℕ
  unfolding expanded
  expanded_from false l = expanded l
  expanded_from true [] = []
  expanded_from true (c ∷ l) = 13 ∷ out_case c ∷ expanded l

-- The CR that has been put in front of the next character.
abbrev pub pending : Bool → List ℕ
pending true = 13 ∷ []
pending false = []

-- What the loop makes of `l` and `q`: it takes characters off the front, until none is left or the
-- queue is full, and appends to the queue what they become. A CR that is already there counts.
pub record IsFilled (t : Termios) (cr_flag : Bool) (l : List ℕ) (q : TtyQueue)
    (r : Bool × List ℕ × TtyQueue) : Type 0 where
  pub taken : List ℕ
  pub out : List ℕ
  pub split : l ≡ taken ++ r.1
  pub appended : contents r.2 ≡ contents q ++ out
  pub became : pending cr_flag ++ out ≡ expanded_from t cr_flag taken ++ pending r.0
  pub end : (r.1 ≡ []) ⊎ (is_full r.2 ≡ true)
  pub ring : IsRing r.2

module _ (t : Termios) where
  -- The CR is that of the first character.
  expanded_cr :
      (c : ℕ) (l taken rest : List ℕ)
      → wants_cr t c ≡ true
      → c ∷ l ≡ taken ++ rest
      → expanded_from t true taken ≡ expanded_from t false taken
  unfolding expanded expanded_from
  expanded_cr c l [] rest cr e = refl
  expanded_cr c l (x ∷ taken) rest cr e =
      let same : c ≡ x = cc in
      let cr' : wants_cr t x ≡ true = ap (λ (k : ℕ). wants_cr t k) (sym same) ∙ cr in rw cr' refl

  put_cr :
      (c : ℕ) (l : List ℕ) (q : TtyQueue) (r : Bool × List ℕ × TtyQueue)
      → wants_cr t c ≡ true
      → contents (putch 13 q) ≡ contents q ++ (13 ∷ [])
      → IsFilled t true (c ∷ l) (putch 13 q) r
      → IsFilled t false (c ∷ l) q r
  put_cr c l q r cr put f = record {
    taken = f.taken;
    out = 13 ∷ f.out;
    split = f.split;
    appended = f.appended ∙ ap (λ k. k ++ f.out) put ∙ append_assoc (contents q) (13 ∷ []) f.out;
    became = f.became ∙ ap (λ k. k ++ pending r.0) (expanded_cr c l f.taken r.1 cr f.split);
    end = f.end;
    ring = f.ring;
  }

  out_became :
      (cr_flag : Bool) (c : ℕ) (taken out end : List ℕ)
      → wants_cr t c && not cr_flag ≡ false
      → out ≡ expanded t taken ++ end
      → pending cr_flag ++ (out_case t c ∷ out) ≡ expanded_from t cr_flag (c ∷ taken) ++ end
  unfolding expanded_from
  out_became true c taken out end plain e = ap (λ k. 13 ∷ out_case t c ∷ k) e
  out_became false c taken out end plain e =
      let no : wants_cr t c ≡ false = ground arith in rw no (ap (λ k. out_case t c ∷ k) e)

  put_out :
      (cr_flag : Bool) (c : ℕ) (l : List ℕ) (q : TtyQueue) (r : Bool × List ℕ × TtyQueue)
      → wants_cr t c && not cr_flag ≡ false
      → contents (putch (out_case t c) q) ≡ contents q ++ (out_case t c ∷ [])
      → IsFilled t false l (putch (out_case t c) q) r
      → IsFilled t cr_flag (c ∷ l) q r
  unfolding expanded expanded_from
  put_out cr_flag c l q r plain put f = record {
    taken = c ∷ f.taken;
    out = out_case t c ∷ f.out;
    split = ap (λ k. c ∷ k) f.split;
    appended =
        f.appended ∙ ap (λ k. k ++ f.out) put ∙ append_assoc (contents q) (out_case t c ∷ []) f.out;
    became = out_became cr_flag c f.taken f.out (pending r.0) plain f.became;
    end = f.end;
    ring = f.ring;
  }

  nothing : (cr_flag : Bool) → pending cr_flag ++ [] ≡ expanded_from t cr_flag [] ++ pending cr_flag
  unfolding expanded_from
  nothing true = refl
  nothing false = refl

  -- Nothing is taken.
  stopped :
      (cr_flag : Bool) (l : List ℕ) (q : TtyQueue)
      → IsRing q
      → (l ≡ []) ⊎ (is_full q ≡ true)
      → IsFilled t cr_flag l q (cr_flag, l, q)
  unfolding expanded_from
  stopped cr_flag l q ring end = record {
    taken = [];
    out = [];
    split = refl;
    appended = sym (append-nil (contents q));
    became = nothing cr_flag;
    end = end;
    ring = ring;
  }

  -- Whatever is to be written, the loop of `tty_write` ends (fuel for two rounds for each character
  -- is enough), and takes characters off the front until none is left or the queue, which is in
  -- order, is full. What it appends is what these characters become. Where `cr_flag` is set to begin
  -- with, the CR that stands in the queue already counts as put in front of the first character,
  -- whatever that is.
  pub fill_queue-IsFilled :
      (fuel : ℕ) (cr_flag : Bool) (l : List ℕ) (q : TtyQueue)
      → IsRing q
      → length l * 2 < fuel + (if cr_flag then 1 else 0)
      → IsFilled t cr_flag l q (fill_queue t fuel cr_flag l q)
  unfolding fill_queue
  fill_queue-IsFilled zero true [] q ring h = stopped true [] q ring (inl refl)
  fill_queue-IsFilled zero true (c ∷ l) q ring h = absurd (omega arith)
  fill_queue-IsFilled zero false l q ring h = absurd (omega arith)
  fill_queue-IsFilled (suc fuel) cr_flag [] q ring h = stopped cr_flag [] q ring (inl refl)
  fill_queue-IsFilled (suc fuel) cr_flag (c ∷ l) q ring h = elim (Bool-cases (is_full q)) [
    | inl full ↦ rw (fill_queue, full) (stopped cr_flag (c ∷ l) q ring (inr full))
    | inr room ↦ elim (Bool-cases (wants_cr t c && not cr_flag)) [
      | inl cr ↦
          let first : cr_flag ≡ false = ground arith in
          let rest =
            fill_queue-IsFilled fuel true (c ∷ l) (putch 13 q) (putch-IsRing 13 q ring)
              (ground arith) in
          rw (fill_queue, room, cr, first)
            (put_cr c l q _ (ground arith) (contents-putch 13 q ring room) rest)
      | inr plain ↦
          let rest =
            fill_queue-IsFilled fuel false l (putch (out_case t c) q)
              (putch-IsRing (out_case t c) q ring) (ground arith) in
          rw (fill_queue, room, plain)
            (put_out cr_flag c l q _ plain (contents-putch (out_case t c) q ring room) rest)
    ]
  ]
