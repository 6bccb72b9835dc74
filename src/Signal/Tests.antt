-- ===== src/Signal/Tests.antt =====
-- kernel/signal.c at one process, and witnesses.
use hit_os.Common.{ℕ, ◌-◌, ◌^◌, ◌<◌, ◌≤◌, ◌≡◌, ◌⊎◌, refl, arith, false, some, update}
use hit_os.Signal.{
  SigAction, Process, comes_back, does_exit, sigkill, is_refused, sys_signal, do_signal,
}
use hit_os.Signal.Frame.{popped, popped-do_signal}
use hit_os.Signal.Laws.{start, signal, do_signal-sys_signal, Reaches-kill}

abbrev default : SigAction
default = record { sa_handler = 0; sa_mask = 0; sa_flags = 0; sa_restorer = 0 }

-- A process with a handler at 4096 for SIGINT, which blocks SIGINT.
abbrev process : Process
process = record {
  handlers = record {
    blocked = 1;
    sigaction =
        update (λ i. default) 1
          (record { sa_handler = 4096; sa_mask = 2; sa_flags = 0; sa_restorer = 8192 });
  };
  regs = record { eax = 10; ecx = 11; edx = 12; eip = 13; eflags = 14; esp = 65536 };
  user = λ a. 0;
}

popped-do_signal_example :
    (q : Process) × (do_signal 2 process ≡ comes_back q)
    × (q.regs.eip ≡ 4096)
    × (popped false q ≡ (process.regs, some 1))
    × ((b : ℕ) → (b < 65536 - 32) ⊎ (65536 ≤ b) → q.user b ≡ 0)
popped-do_signal_example = popped-do_signal 2 process (omega arith) (omega arith) (omega arith)

alarm_can : is_refused 14 ≡ false
unfolding is_refused
alarm_can = refl

do_signal-sys_signal_example :
    (q : Process) × (do_signal 14
        (record process { handlers = (sys_signal 14 4096 8192 process.handlers).1 })
      ≡ comes_back q)
    × (q.regs.eip ≡ 4096)
    × (do_signal 14 q ≡ does_exit (2 ^ 13))
do_signal-sys_signal_example =
    do_signal-sys_signal 14 4096 8192 process alarm_can (λ e. omega arith) (omega arith)

-- Asking for a handler of SIGKILL does not help.
Reaches-kill_example :
    do_signal sigkill (record process { handlers = (sys_signal 9 4096 8192 process.handlers).1 })
    ≡ does_exit (2 ^ 8)
Reaches-kill_example = Reaches-kill {p = process} refl (signal 9 4096 8192 start)
