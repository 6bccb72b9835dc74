-- ===== src/Kill.antt =====
-- kernel/exit.c: `send_sig` and the system call `kill`.
pub mod Laws
mod Tests
use Prim.Native.Nat.{bit_or}
use hit_os.Common.{
  ℕ, ◌-◌, ◌^◌, Bool, true, ◌||◌, Option, none, some, ◌==◌, if◌then◌else◌, update, for_down,
}
use hit_os.Common.Int.{ℤ, pos, negsuc, pos_part, ◌-ℤ◌, ltz, eqz, is_zero, wrap32}
use hit_os.Task.{Task}

abbrev pub einval : ℤ
einval = negsuc 21

abbrev pub eperm : ℤ
eperm = negsuc 0

-- `send_sig(sig, p, priv)` of a current task with effective user id `euid`.
unfoldable pub send_sig : (sig : ℤ) (euid : ℕ) (priv : Bool) → Option Task → ℤ × Option Task
send_sig sig euid priv none = (einval, none)
send_sig sig euid priv (some p) =
    let bit = 2 ^ (pos_part sig - 1) in
    if ltz sig (pos 1) || ltz (pos 32) sig
    then (einval, some p)
    else if priv || (euid == p.euid) || (euid == 0)
    then (pos 0, some (record p { signal = bit_or p.signal bit }))
    else (eperm, some p)

-- The test in the loops of `sys_kill`, for the current task `me`. The loop for `pid == -1` has none.
abbrev pub is_addressed : (pid : ℤ) (me : Task) → Option Task → Bool
is_addressed pid me none = eqz pid (negsuc 0)
is_addressed pid me (some p) =
    if is_zero pid
    then eqz p.pgrp me.pid
    else if ltz (pos 0) pid
    then eqz p.pid pid
    else if eqz pid (negsuc 0)
    then true
    else eqz p.pgrp (wrap32 (pos 0 -ℤ pid))

-- One round of the loops, at slot `i`.
unfoldable pub kill_one :
    (pid sig : ℤ) (me : Task) → ℕ → ℤ × (ℕ → Option Task) → ℤ × (ℕ → Option Task)
unfolding send_sig wrap32 ◌-ℤ◌
kill_one pid sig me i (retval, task) =
    let (err, p) = send_sig sig me.euid (is_zero pid) (task i) in
    if is_addressed pid me (task i)
    then (if is_zero err then retval else err, update task i p)
    else (retval, task)

unfoldable pub sys_kill : (pid sig : ℤ) (me : Task) (task : ℕ → Option Task) → ℤ × (ℕ → Option Task)
unfolding kill_one
sys_kill pid sig me task = for_down 63 (kill_one pid sig me) (pos 0, task)
