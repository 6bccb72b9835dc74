-- ===== src/Signal/Frame.antt =====
-- kernel/signal.c, `do_signal`: the frame on the user's stack.
use hit_os.Common.{
  ℕ, zero, suc, ◌+◌, ◌-◌, ◌*◌, ◌^◌, ◌<◌, ◌≤◌, ◌≡◌, ◌≢◌, ◌⊎◌, inl, inr, refl, sym, ap, arith, List,
  [], ◌∷◌, length, update, update_self, update_ne, true, false, Bool, Bool-cases, Option, none,
  some, get_or, if◌then◌else◌,
}
use hit_os.Common.Words.{add32, sub32}
use hit_os.Signal.{
  SigAction, Regs, Process, comes_back, does_exit, put_longs, frame, call_handler, do_signal,
  has_nomask,
}

-- The `n` words from address `a` on.
unfoldable pub longs_at : (n a : ℕ) → (ℕ → ℕ) → List ℕ
longs_at zero a user = []
longs_at (suc n) a user = user a ∷ longs_at n (a + 4) user

put_longs-outside :
    (a : ℕ) (l : List ℕ) (user : ℕ → ℕ) (b : ℕ)
    → a + 4 * length l < 2 ^ 32
    → (b < a) ⊎ (a + 4 * length l ≤ b)
    → put_longs a l user b ≡ user b
unfolding put_longs
put_longs-outside a [] user b h out = refl
put_longs-outside a (v ∷ l) user b h out =
    let step : add32 a 4 ≡ a + 4 = omega arith in
    rw
      (
        step,
        put_longs-outside (a + 4) l (update user a v) b (omega arith)
            (elim out [ inl lt ↦ inl (omega arith) | inr le ↦ inr (omega arith) ]),
      )
      (update_ne user a v b (elim out [ inl lt ↦ λ e. omega arith | inr le ↦ λ e. omega arith ]))

longs_at-put_longs :
    (a : ℕ) (l : List ℕ) (user : ℕ → ℕ)
    → a + 4 * length l < 2 ^ 32
    → longs_at (length l) a (put_longs a l user) ≡ l
unfolding put_longs longs_at
longs_at-put_longs a [] user h = refl
longs_at-put_longs a (v ∷ l) user h =
    let step : add32 a 4 ≡ a + 4 = omega arith in
    rw
      (
        step,
        put_longs-outside (a + 4) l (update user a v) a (omega arith) (inl (omega arith)),
        update_self user a v,
        longs_at-put_longs (a + 4) l (update user a v) (omega arith),
      )
      refl

-- The registers and the mask that the words of a frame hold, popped in their order behind the address
-- of the restorer and the number of the signal.
unfoldable pub popped : (nomask : Bool) → Process → Regs × Option ℕ
popped nomask p =
    let u = p.user in
    let mask = p.regs.esp + 4 + 4 in
    let a = if nomask then mask else mask + 4 in
    (
      record {
        eax = u a;
        ecx = u (a + 4);
        edx = u (a + 4 + 4);
        eflags = u (a + 4 + 4 + 4);
        eip = u (a + 4 + 4 + 4 + 4);
        esp = a + 4 + 4 + 4 + 4 + 4;
      },
      if nomask then none else some (u mask),
    )

frame_nomask :
    (signr : ℕ) (sa : SigAction) (p : Process)
    → has_nomask sa ≡ true
    → frame signr sa p
      ≡ sa.sa_restorer ∷ signr ∷ p.regs.eax ∷ p.regs.ecx ∷ p.regs.edx ∷ p.regs.eflags ∷ p.regs.eip
        ∷ []
unfolding frame
frame_nomask signr sa p e = ground arith

frame_mask :
    (signr : ℕ) (sa : SigAction) (p : Process)
    → has_nomask sa ≡ false
    → frame signr sa p
      ≡ sa.sa_restorer ∷ signr ∷ p.handlers.blocked ∷ p.regs.eax ∷ p.regs.ecx ∷ p.regs.edx
        ∷ p.regs.eflags ∷ p.regs.eip ∷ []
unfolding frame
frame_mask signr sa p e = ground arith

frame-fits : (signr : ℕ) (sa : SigAction) (p : Process) → length (frame signr sa p) ≤ 8
frame-fits signr sa p = elim (Bool-cases (has_nomask sa)) [
  | inl e ↦ omega (arith, ap length (frame_nomask signr sa p e))
  | inr e ↦ omega (arith, ap length (frame_mask signr sa p e))
]

call_handler-pushed :
    (signr : ℕ) (p : Process) (l : List ℕ)
    → frame signr (p.handlers.sigaction (signr - 1)) p ≡ l
    → 4 * length l ≤ p.regs.esp
    → p.regs.esp < 2 ^ 32
    → ((call_handler signr p).regs.esp + 4 * length l ≡ p.regs.esp)
      × (longs_at (length l) (call_handler signr p).regs.esp (call_handler signr p).user ≡ l)
unfolding call_handler
call_handler-pushed signr p l e room small =
    let f = frame signr (p.handlers.sigaction (signr - 1)) p in
    let size : length f ≡ length l = ap length e in
    let a = sub32 p.regs.esp (4 * length f) in
    (omega arith, rw (sym e) (longs_at-put_longs a f p.user (omega arith)))

-- What lies outside the frame stays.
pub call_handler-outside :
    (signr : ℕ) (p : Process) (b : ℕ)
    → 32 ≤ p.regs.esp
    → p.regs.esp < 2 ^ 32
    → (b < p.regs.esp - 32) ⊎ (p.regs.esp ≤ b)
    → (call_handler signr p).user b ≡ p.user b
unfolding call_handler
call_handler-outside signr p b room small out =
    let f = frame signr (p.handlers.sigaction (signr - 1)) p in
    let fits = frame-fits signr (p.handlers.sigaction (signr - 1)) p in
    put_longs-outside (sub32 p.regs.esp (4 * length f)) f p.user b (omega (arith, fits))
      (elim out [ inl lt ↦ inl (omega (arith, fits)) | inr le ↦ inr (omega (arith, fits)) ])

popped-call_handler :
    (nomask : Bool) (signr : ℕ) (p : Process)
    → has_nomask (p.handlers.sigaction (signr - 1)) ≡ nomask
    → 32 ≤ p.regs.esp
    → p.regs.esp < 2 ^ 32
    → popped nomask (call_handler signr p)
      ≡ (p.regs, if nomask then none else some p.handlers.blocked)
unfolding popped longs_at
popped-call_handler true signr p e room small =
    let sa = p.handlers.sigaction (signr - 1) in
    let (top, words) =
      call_handler-pushed signr p
        (sa.sa_restorer ∷ signr ∷ p.regs.eax ∷ p.regs.ecx ∷ p.regs.edx ∷ p.regs.eflags ∷ p.regs.eip
          ∷ [])
        (frame_nomask signr sa p e) (omega arith) small in
    let q = call_handler signr p in
    let esp : q.regs.esp + 4 + 4 + 4 + 4 + 4 + 4 + 4 ≡ p.regs.esp = omega arith in
    rw
      (
        ap (λ l. get_or l 2 0) words,
        ap (λ l. get_or l 3 0) words,
        ap (λ l. get_or l 4 0) words,
        ap (λ l. get_or l 5 0) words,
        ap (λ l. get_or l 6 0) words,
        esp,
      )
      refl
popped-call_handler false signr p e room small =
    let sa = p.handlers.sigaction (signr - 1) in
    let (top, words) =
      call_handler-pushed signr p
        (sa.sa_restorer ∷ signr ∷ p.handlers.blocked ∷ p.regs.eax ∷ p.regs.ecx ∷ p.regs.edx
          ∷ p.regs.eflags ∷ p.regs.eip ∷ [])
        (frame_mask signr sa p e) (omega arith) small in
    let q = call_handler signr p in
    let esp : q.regs.esp + 4 + 4 + 4 + 4 + 4 + 4 + 4 + 4 ≡ p.regs.esp = omega arith in
    rw
      (
        ap (λ l. get_or l 2 0) words,
        ap (λ l. get_or l 3 0) words,
        ap (λ l. get_or l 4 0) words,
        ap (λ l. get_or l 5 0) words,
        ap (λ l. get_or l 6 0) words,
        ap (λ l. get_or l 7 0) words,
        esp,
      )
      refl

pub do_signal-address :
    (signr : ℕ) (p : Process)
    → 2 ≤ (p.handlers.sigaction (signr - 1)).sa_handler
    → do_signal signr p ≡ comes_back (call_handler signr p)
unfolding do_signal
do_signal-address signr p address = ground arith

pub do_signal-default :
    (signr : ℕ) (p : Process)
    → (p.handlers.sigaction (signr - 1)).sa_handler ≡ 0
    → signr ≢ 17
    → do_signal signr p ≡ does_exit (2 ^ (signr - 1))
unfolding do_signal
do_signal-default signr p default other = ground arith

-- A signal with a handler that is an address: if the stack pointer is at least 32, do_signal comes
-- back in the handler, and what it has pushed gives back, popped in its order, the registers, and the
-- mask unless the action has SA_NOMASK; memory outside the 32 bytes below the stack pointer stays.
pub popped-do_signal :
    (signr : ℕ) (p : Process)
    → 2 ≤ (p.handlers.sigaction (signr - 1)).sa_handler
    → 32 ≤ p.regs.esp
    → p.regs.esp < 2 ^ 32
    → (q : Process) × (do_signal signr p ≡ comes_back q)
      × (q.regs.eip ≡ (p.handlers.sigaction (signr - 1)).sa_handler)
      × (let nomask = has_nomask (p.handlers.sigaction (signr - 1)) in
          popped nomask q ≡ (p.regs, if nomask then none else some p.handlers.blocked))
      × ((b : ℕ) → (b < p.regs.esp - 32) ⊎ (p.regs.esp ≤ b) → q.user b ≡ p.user b)
unfolding call_handler
popped-do_signal signr p address room small = (
  call_handler signr p,
  do_signal-address signr p address,
  refl,
  popped-call_handler (has_nomask (p.handlers.sigaction (signr - 1))) signr p refl room small,
  λ b out. call_handler-outside signr p b room small out,
)
