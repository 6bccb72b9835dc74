-- ===== src/Signal.antt =====
-- kernel/signal.c: the calls that set handlers and masks, and the delivery of a signal. The bytes that
-- go to and from user memory as a `struct sigaction` are one value.
pub mod Frame
pub mod Laws
mod Tests
use Prim.Native.Nat.{bit_and, bit_or}
use hit_os.Common.{
  ℕ, zero, suc, ◌+◌, ◌-◌, ◌*◌, ◌^◌, Bool, ◌||◌, ◌&&◌, Option, none, some, List, [], ◌∷◌, ◌++◌,
  length, ltb, ◌==◌, if◌then◌else◌, update,
}
use hit_os.Common.Int.{ℤ, pos, negsuc}
use hit_os.Common.Words.{not32, add32, sub32, bit_at}

pub record SigAction : Type 0 where
  pub sa_handler : ℕ
  pub sa_mask : ℕ
  pub sa_flags : ℕ
  pub sa_restorer : ℕ

-- `blocked` and `sigaction` of the current task.
pub record Handlers : Type 0 where
  pub blocked : ℕ
  pub sigaction : ℕ → SigAction

abbrev pub sigkill : ℕ
sigkill = 9

abbrev pub sigchld : ℕ
sigchld = 17

abbrev pub sa_nomask : ℕ
sa_nomask = 2 ^ 30

abbrev pub sa_oneshot : ℕ
sa_oneshot = 2 ^ 31

abbrev pub has_nomask : SigAction → Bool
has_nomask sa = bit_at sa.sa_flags 30 == 1

abbrev pub has_oneshot : SigAction → Bool
has_oneshot sa = bit_at sa.sa_flags 31 == 1

unfoldable pub sys_sgetmask : Handlers → ℕ
sys_sgetmask h = h.blocked

unfoldable pub sys_ssetmask : (newmask : ℕ) → Handlers → ℕ × Handlers
sys_ssetmask newmask h =
    (h.blocked, record h { blocked = bit_and newmask (not32 (2 ^ (sigkill - 1))) })

-- The signals for which no handler can be set.
unfoldable pub is_refused : ℕ → Bool
is_refused signum = ltb signum 1 || ltb 32 signum || (signum == sigkill)

-- The old handler, or -1. An address is the number of its 32 bits.
unfoldable pub sys_signal : (signum handler restorer : ℕ) → Handlers → Option ℕ × Handlers
unfolding is_refused
sys_signal signum handler restorer h =
    let tmp : SigAction = record {
      sa_handler = handler;
      sa_mask = 0;
      sa_flags = sa_oneshot + sa_nomask;
      sa_restorer = restorer;
    } in
    if is_refused signum then (none, h) else (
      some (h.sigaction (signum - 1)).sa_handler,
      record h { sigaction = update h.sigaction (signum - 1) tmp },
    )

-- The mask of the action that has been read.
abbrev pub own_mask : ℕ → SigAction → SigAction
own_mask signum sa =
    if has_nomask sa
    then record sa { sa_mask = 0 }
    else record sa { sa_mask = bit_or sa.sa_mask (2 ^ (signum - 1)) }

-- What is stored at `oldaction` is the second part of the result.
unfoldable pub sys_sigaction :
    (signum : ℕ) (action : SigAction) (oldaction : Bool)
    → Handlers
    → ℤ × Option SigAction × Handlers
unfolding is_refused
sys_sigaction signum action oldaction h = if is_refused signum then (negsuc 0, none, h) else (
  pos 0,
  if oldaction then some (h.sigaction (signum - 1)) else none,
  record h { sigaction = update h.sigaction (signum - 1) (own_mask signum action) },
)

-- The registers on the kernel's stack that do_signal reads or writes, and the user's memory by the
-- addresses of its 32-bit words.
pub record Regs : Type 0 where
  pub eax : ℕ
  pub ecx : ℕ
  pub edx : ℕ
  pub eip : ℕ
  pub eflags : ℕ
  pub esp : ℕ

pub record Process : Type 0 where
  pub handlers : Handlers
  pub regs : Regs
  pub user : ℕ → ℕ

-- put_fs_long(..., tmp_esp++), for each of the words
unfoldable pub put_longs : (tmp_esp : ℕ) → List ℕ → (ℕ → ℕ) → ℕ → ℕ
put_longs tmp_esp [] user = user
put_longs tmp_esp (l ∷ longs) user = put_longs (add32 tmp_esp 4) longs (update user tmp_esp l)

-- The words of the frame, the lowest first.
unfoldable pub frame : ℕ → SigAction → Process → List ℕ
frame signr sa p =
    let mask = if has_nomask sa then [] else p.handlers.blocked ∷ [] in
    sa.sa_restorer ∷ signr ∷ mask
    ++ (p.regs.eax ∷ p.regs.ecx ∷ p.regs.edx ∷ p.regs.eflags ∷ p.regs.eip ∷ [])

-- How do_signal ends: it comes back, or it calls do_exit with a code.
pub data Delivery : Type 0 where
  comes_back : Process → Delivery
  does_exit : (error_code : ℕ) → Delivery

-- Where a handler is called.
unfoldable pub call_handler : ℕ → Process → Process
unfolding put_longs frame
call_handler signr p =
    let h = p.handlers in
    let sa = h.sigaction (signr - 1) in
    let sa' = if has_oneshot sa then record sa { sa_handler = 0 } else sa in
    let esp = sub32 p.regs.esp (4 * length (frame signr sa p)) in
    record {
      handlers = record {
        sigaction = update h.sigaction (signr - 1) sa';
        blocked = bit_or h.blocked sa.sa_mask;
      };
      regs = record p.regs { eip = sa.sa_handler; esp = esp };
      user = put_longs esp (frame signr sa p) p.user;
    }

unfoldable pub do_signal : (signr : ℕ) → Process → Delivery
unfolding call_handler
do_signal signr p =
    let handler = (p.handlers.sigaction (signr - 1)).sa_handler in
    if handler == 1
    then comes_back p
    else if handler == 0
    then (if signr == sigchld then comes_back p else does_exit (2 ^ (signr - 1)))
    else comes_back (call_handler signr p)
