-- ===== src/Ids/Tests.antt =====
-- kernel/sys.c: a user's process, and the superuser's.
use hit_os.Common.{ℕ, ◌^◌, ◌<◌, ◌≡◌, refl, inl, inr, [], ◌∷◌, arith}
use hit_os.Common.Int.{pos}
use hit_os.Task.{Task, running}
use hit_os.Ids.{eperm, sys_setregid, sys_setreuid, sys_setuid}
use hit_os.Ids.Rights.{HasShortIds, HasUids, setreuids, setreuids-HasUids, setreuids-sys_setuid}

abbrev user : ℕ → ℕ → Task
user uid euid = record {
  state = running;
  counter = pos 15;
  priority = pos 15;
  signal = 0;
  blocked = 0;
  exit_code = pos 0;
  pid = pos 7;
  father = pos 1;
  pgrp = pos 7;
  session = pos 7;
  leader = pos 0;
  uid = uid;
  euid = euid;
  suid = euid;
  gid = 5;
  egid = 5;
  sgid = 5;
  alarm = pos 0;
  utime = pos 0;
  stime = pos 0;
  cutime = pos 0;
  cstime = pos 0;
  used_math = 0;
  tty = pos 0;
  umask = 18;
}

short : (a b : ℕ) → a < 2 ^ 16 → b < 2 ^ 16 → HasShortIds (user a b)
short a b h k = record {
  uid = h;
  euid = k;
  gid = omega arith;
  egid = omega arith;
  sgid = omega arith;
}

swap : (sys_setreuid (pos 4) (pos 3) (user 3 4)) ≡ (pos 0, record (user 3 4) { uid = 4; euid = 3 })
unfolding sys_setreuid
swap = refl

refused : (sys_setreuid (pos 4) (pos 9) (user 3 4)) ≡ (eperm, user 3 4)
unfolding sys_setreuid
refused = refl

refused_group : (sys_setregid (pos 4) (pos 9) (user 3 4)).0 ≡ eperm
unfolding sys_setregid
refused_group = refl

setreuids-HasUids_example :
    HasUids 3 4 (setreuids ((pos 4, pos 3) ∷ (pos 1, pos 3) ∷ []) (user 3 4))
setreuids-HasUids_example =
    setreuids-HasUids ((pos 4, pos 3) ∷ (pos 1, pos 3) ∷ []) 3 4 (user 3 4)
      (short 3 4 (omega arith) (omega arith)) (omega arith) (omega arith) (inl refl, inr refl)

setreuids-sys_setuid_example :
    ((sys_setuid (pos 3) (user 0 0)).0 ≡ pos 0)
    × ((setreuids ((pos 0, pos 1) ∷ []) (sys_setuid (pos 3) (user 0 0)).1).uid ≡ 3)
    × ((setreuids ((pos 0, pos 1) ∷ []) (sys_setuid (pos 3) (user 0 0)).1).euid ≡ 3)
setreuids-sys_setuid_example =
    setreuids-sys_setuid ((pos 0, pos 1) ∷ []) 3 (user 0 0) (short 0 0 (omega arith) (omega arith))
      refl (omega arith) (omega arith)
