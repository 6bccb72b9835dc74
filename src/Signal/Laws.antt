-- ===== src/Signal/Laws.antt =====
-- kernel/signal.c: handlers that are set once, and SIGKILL.
use hit_os.Common.{
  ℕ, ◌+◌, ◌⊎◌, inl, inr, Bool-cases, ==→eq, not-==→ne, ◌-◌, ◌^◌, ◌≤◌, ◌≡◌, ◌≢◌, refl, ap, ◌∙◌,
  arith, update_self, Bool, true, false, ◌==◌, if◌then◌else◌,
}
use hit_os.Signal.{
  SigAction, Handlers, Regs, Process, comes_back, does_exit, sigkill, sigchld, is_refused,
  sys_signal, sys_sigaction, sys_ssetmask, call_handler, do_signal, has_oneshot,
}
use hit_os.Signal.Frame.{do_signal-address, do_signal-default}

sys_signal-set :
    (signum handler restorer : ℕ) (h : Handlers)
    → is_refused signum ≡ false
    → (sys_signal signum handler restorer h).1.sigaction (signum - 1) ≡ record {
      sa_handler = handler;
      sa_mask = 0;
      sa_flags = 2 ^ 31 + 2 ^ 30;
      sa_restorer = restorer;
    }
unfolding sys_signal
sys_signal-set signum handler restorer h set = simp set (update_self h.sigaction (signum - 1) _)

call_handler-oneshot :
    (signr : ℕ) (p : Process)
    → has_oneshot (p.handlers.sigaction (signr - 1)) ≡ true
    → ((call_handler signr p).handlers.sigaction (signr - 1)).sa_handler ≡ 0
unfolding call_handler
call_handler-oneshot signr p once = ground arith

call_handler-others :
    (signr : ℕ) (p : Process)
    → 1 ≤ signr
    → signr ≢ sigkill
    → (call_handler signr p).handlers.sigaction (sigkill - 1) ≡ p.handlers.sigaction (sigkill - 1)
unfolding call_handler
call_handler-others signr p some_signal other = ground arith

-- A handler set by signal is called once: where `signum` is a signal that can have one, and not SIGCHLD,
-- and the handler an address, the first such signal goes to the handler, and another ends the process.
pub do_signal-sys_signal :
    (signum handler restorer : ℕ) (p : Process)
    → is_refused signum ≡ false
    → signum ≢ sigchld
    → 2 ≤ handler
    → (q : Process) × (do_signal signum
          (record p { handlers = (sys_signal signum handler restorer p.handlers).1 })
        ≡ comes_back q)
      × (q.regs.eip ≡ handler)
      × (do_signal signum q ≡ does_exit (2 ^ (signum - 1)))
unfolding call_handler
do_signal-sys_signal signum handler restorer p set other address =
    let p' : Process = record p { handlers = (sys_signal signum handler restorer p.handlers).1 } in
    let action = sys_signal-set signum handler restorer p.handlers set in
    let first = ap (λ (sa : SigAction). sa.sa_handler) action in
    let once = ap has_oneshot action in
    let q = call_handler signum p' in
    (
      q,
      do_signal-address signum p' (omega (arith, first)),
      first,
      do_signal-default signum q (call_handler-oneshot signum p' once) other,
    )

-- What a process can do to its handlers and masks, and what signals do; between two of these, its
-- registers and its memory change in any way.
pub data Reaches (p : Process) : Process → Type 0 where
  start : Reaches p p
  signal :
      {q : Process} (signum handler restorer : ℕ)
      → Reaches p q
      → Reaches p (record q { handlers = (sys_signal signum handler restorer q.handlers).1 })
  sigaction :
      {q : Process} (signum : ℕ) (action : SigAction) (oldaction : Bool)
      → Reaches p q
      → Reaches p (record q { handlers = (sys_sigaction signum action oldaction q.handlers).2 })
  ssetmask :
      {q : Process} (newmask : ℕ)
      → Reaches p q
      → Reaches p (record q { handlers = (sys_ssetmask newmask q.handlers).1 })
  delivery :
      {q r : Process} (signr : ℕ)
      → Reaches p q
      → 1 ≤ signr
      → do_signal signr q ≡ comes_back r
      → Reaches p r
  between :
      {q : Process} (regs : Regs) (user : ℕ → ℕ)
      → Reaches p q
      → Reaches p (record q { regs = regs; user = user })

abbrev pub HasDefaultKill : Process → Type 0
HasDefaultKill p = (p.handlers.sigaction (sigkill - 1)).sa_handler ≡ 0

sys_signal-kill :
    (signum handler restorer : ℕ) (h : Handlers)
    → (sys_signal signum handler restorer h).1.sigaction (sigkill - 1) ≡ h.sigaction (sigkill - 1)
unfolding sys_signal is_refused
sys_signal-kill signum handler restorer h = ground arith

sys_sigaction-kill :
    (signum : ℕ) (action : SigAction) (oldaction : Bool) (h : Handlers)
    → (sys_sigaction signum action oldaction h).2.sigaction (sigkill - 1)
      ≡ h.sigaction (sigkill - 1)
unfolding sys_sigaction is_refused
sys_sigaction-kill signum action oldaction h = ground arith

back_cases :
    (ignored default child : Bool) (p q r : Process) (code : ℕ)
    → (if ignored
        then comes_back p
        else if default
        then (if child then comes_back p else does_exit code)
        else comes_back q)
      ≡ comes_back r
    → (r ≡ p) ⊎ ((default ≡ false) × (r ≡ q))
back_cases true default child p q r code e = inl cc
back_cases false true true p q r code e = inl cc
back_cases false true false p q r code e = cc
back_cases false false child p q r code e = inr (refl, cc)

call_handler-HasDefaultKill :
    (signr : ℕ) (q : Process)
    → 1 ≤ signr
    → HasDefaultKill q
    → ((q.handlers.sigaction (signr - 1)).sa_handler == 0) ≡ false
    → HasDefaultKill (call_handler signr q)
call_handler-HasDefaultKill signr q some_signal d address = elim (Bool-cases (signr == sigkill)) [
  | inl e ↦ absurd (
      not-==→ne ((q.handlers.sigaction (signr - 1)).sa_handler) 0 address
        (ap (λ (n : ℕ). (q.handlers.sigaction (n - 1)).sa_handler) (==→eq signr sigkill e) ∙ d))
  | inr ne ↦
      ap (λ (sa : SigAction). sa.sa_handler)
        (call_handler-others signr q some_signal (not-==→ne signr sigkill ne))
      ∙ d
]

do_signal-HasDefaultKill :
    (signr : ℕ) (q r : Process)
    → 1 ≤ signr
    → HasDefaultKill q
    → do_signal signr q ≡ comes_back r
    → HasDefaultKill r
unfolding do_signal
do_signal-HasDefaultKill signr q r some_signal d e =
    let handler = (q.handlers.sigaction (signr - 1)).sa_handler in
    elim (back_cases (handler == 1) (handler == 0) (signr == sigchld) q (call_handler signr q) r
      (2 ^ (signr - 1)) e) [
        | inl same ↦ rw same d
        | inr (address, same) ↦ rw same (call_handler-HasDefaultKill signr q some_signal d address)
      ]

Reaches-HasDefaultKill : {p q : Process} → HasDefaultKill p → Reaches p q → HasDefaultKill q
unfolding sys_ssetmask
Reaches-HasDefaultKill d start = d
Reaches-HasDefaultKill d (signal {q} signum handler restorer r) =
    ap (λ (sa : SigAction). sa.sa_handler) (sys_signal-kill signum handler restorer q.handlers)
    ∙ Reaches-HasDefaultKill d r
Reaches-HasDefaultKill d (sigaction {q} signum action oldaction r) =
    ap (λ (sa : SigAction). sa.sa_handler) (sys_sigaction-kill signum action oldaction q.handlers)
    ∙ Reaches-HasDefaultKill d r
Reaches-HasDefaultKill d (ssetmask newmask r) = Reaches-HasDefaultKill d r
Reaches-HasDefaultKill d (delivery {q} {r = r'} signr r some_signal e) =
    do_signal-HasDefaultKill signr q r' some_signal (Reaches-HasDefaultKill d r) e
Reaches-HasDefaultKill d (between regs user r) = Reaches-HasDefaultKill d r

-- SIGKILL cannot be caught: from a process whose action for it is the default, as it is for the first
-- process, by whatever calls and signals, one comes only to processes that SIGKILL ends.
pub Reaches-kill :
    {p q : Process} → HasDefaultKill p → Reaches p q → do_signal sigkill q ≡ does_exit (2 ^ 8)
Reaches-kill {q = q} d r = do_signal-default sigkill q (Reaches-HasDefaultKill d r) (omega arith)
