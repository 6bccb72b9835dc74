-- ===== src/Tty/Line.antt =====
-- kernel/chr_drv/tty_io.c, `copy_to_cooked`: the edit of the line that each character stands for.
use hit_os.Common.{
  ℕ, ◌≡◌, Bool, true, false, ◌&&◌, Option, none, some, List, [], ◌∷◌, if◌then◌else◌,
}
use hit_os.TtyQueue.Fifo.{IsRing}
use hit_os.TtyQueue.Typed.{typed}
use hit_os.Tty.Defs.{Termios, Tty, is_char, l_canon, l_isig, ends_line, translate}

module _ (t : Termios) where
  -- What is left of the line, the newest character first, after KILL_CHAR and ERASE_CHAR.
  unfoldable pub killed : List ℕ → List ℕ
  killed [] = []
  killed (c ∷ l) = if ends_line t c then c ∷ l else killed l

  unfoldable pub erased : List ℕ → List ℕ
  erased [] = []
  erased (c ∷ l) = if ends_line t c then c ∷ l else l

  -- The line after a character that is not for editing.
  unfoldable pub extended : ℕ → List ℕ → List ℕ
  extended c l =
      if l_isig t && is_char c (t.c_cc 0)
      then l
      else if l_isig t && is_char c (t.c_cc 1)
      then l
      else c ∷ l

  -- The line after one translated character.
  unfoldable pub edited : ℕ → List ℕ → List ℕ
  unfolding killed erased extended
  edited c l =
      if l_canon t && is_char c (t.c_cc 3)
      then killed l
      else if l_canon t && is_char c (t.c_cc 2)
      then erased l
      else if l_canon t && is_char c (t.c_cc 9)
      then l
      else if l_canon t && is_char c (t.c_cc 8)
      then l
      else extended c l

  -- The line after the characters `cs`, which were typed in this order.
  unfoldable pub disciplined : List ℕ → List ℕ → List ℕ
  unfolding edited
  disciplined [] l = l
  disciplined (c ∷ cs) l =
      disciplined cs (elim (translate t c) [ none ↦ l | some c' ↦ edited c' l ])

-- `tty->write` leaves the two input queues alone.
pub record KeepsInput (write : Tty → Tty) : Type 0 where
  pub read_q : (s : Tty) → (write s).read_q ≡ s.read_q
  pub secondary : (s : Tty) → (write s).secondary ≡ s.secondary

-- A step that makes the line `l` and leaves `read_q`.
pub record Makes (l : List ℕ) (s s' : Tty) : Type 0 where
  pub line : typed s'.secondary ≡ l
  pub input : s'.read_q ≡ s.read_q
  pub ring : IsRing s'.secondary

pub if-Makes :
    (b : Bool) (l l' : List ℕ) (s s' s'' : Tty)
    → Makes l s s'
    → Makes l' s s''
    → Makes (if b then l else l') s (if b then s' else s'')
if-Makes true l l' s s' s'' p q = p
if-Makes false l l' s s' s'' p q = q

abbrev pub MakesSome : List ℕ → Tty → Option Tty → Type 0
MakesSome l s o = (s' : Tty) × (o ≡ some s') × Makes l s s'

pub if-MakesSome :
    (b : Bool) (l l' : List ℕ) (s : Tty) (o o' : Option Tty)
    → MakesSome l s o
    → MakesSome l' s o'
    → MakesSome (if b then l else l') s (if b then o else o')
if-MakesSome true l l' s o o' p q = p
if-MakesSome false l l' s o o' p q = q
