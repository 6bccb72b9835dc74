-- ===== src/Ids.antt =====
-- kernel/sys.c: the system calls that set user and group ids, the session and the mask of a process.
-- Each is a function from the current task to the returned value and the new current task.
pub mod Rights
pub mod Groups
mod Tests
use hit_os.Common.{
  ℕ, ◌+◌, ◌-◌, ◌%◌, ◌^◌, Bool, true, false, not, ◌&&◌, ◌||◌, Option, none, some, ◌==◌,
  if◌then◌else◌,
}
use hit_os.Common.Int.{ℤ, pos, negsuc, ltz, eqz, is_zero, to16}
use hit_os.Task.{Task}

-- -EPERM
abbrev pub eperm : ℤ
eperm = negsuc 0

abbrev pub suser : Task → Bool
suser t = t.euid == 0

-- The first `if` of `sys_setregid`; `none` is the return of -EPERM.
unfoldable pub set_gid : ℤ → Task → Option Task
set_gid rgid t =
    if not (ltz (pos 0) rgid)
    then some t
    else if eqz (pos t.gid) rgid || suser t
    then some (record t { gid = to16 rgid })
    else none

-- The second one.
unfoldable pub set_egid : ℤ → Task → Option Task
set_egid egid t =
    if not (ltz (pos 0) egid)
    then some t
    else if eqz (pos t.gid) egid || eqz (pos t.egid) egid || eqz (pos t.sgid) egid || suser t
    then some (record t { egid = to16 egid })
    else none

unfoldable pub sys_setregid : (rgid egid : ℤ) → Task → ℤ × Task
unfolding set_gid set_egid
sys_setregid rgid egid t = elim (set_gid rgid t) [
  | none ↦ (eperm, t)
  | some t' ↦ elim (set_egid egid t') [ none ↦ (eperm, t') | some t'' ↦ (pos 0, t'') ]
]

unfoldable pub sys_setgid : ℤ → Task → ℤ × Task
unfolding sys_setregid
sys_setgid gid t = sys_setregid gid gid t

-- The first `if` of `sys_setreuid`; `none` is the return of -EPERM.
unfoldable pub set_uid : ℤ → Task → Option Task
set_uid ruid t =
    if not (ltz (pos 0) ruid)
    then some t
    else if eqz (pos t.euid) ruid || eqz (pos t.uid) ruid || suser t
    then some (record t { uid = to16 ruid })
    else none

-- The second one.
unfoldable pub set_euid : (old_ruid : ℕ) (euid : ℤ) → Task → Option Task
set_euid old_ruid euid t =
    if not (ltz (pos 0) euid)
    then some t
    else if eqz (pos old_ruid) euid || eqz (pos t.euid) euid || suser t
    then some (record t { euid = to16 euid })
    else none

unfoldable pub sys_setreuid : (ruid euid : ℤ) → Task → ℤ × Task
unfolding set_uid set_euid
sys_setreuid ruid euid t = elim (set_uid ruid t) [
  | none ↦ (eperm, t)
  | some t' ↦ elim (set_euid t.uid euid t') [
    | none ↦ (eperm, record t' { uid = t.uid })
    | some t'' ↦ (pos 0, t'')
  ]
]

unfoldable pub sys_setuid : ℤ → Task → ℤ × Task
unfolding sys_setreuid
sys_setuid uid t = sys_setreuid uid uid t

unfoldable pub sys_getpgrp : Task → ℤ
sys_getpgrp t = t.pgrp

unfoldable pub sys_setsid : Task → ℤ × Task
sys_setsid t =
    if not (is_zero t.leader) && not (suser t)
    then (eperm, t)
    else (t.pid, record t { leader = pos 1; session = t.pid; pgrp = t.pid; tty = negsuc 0 })

-- mask & 0777, octal
unfoldable pub sys_umask : ℤ → Task → ℕ × Task
sys_umask mask t = (t.umask, record t { umask = to16 mask % 2 ^ 9 })
