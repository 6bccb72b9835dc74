-- ===== src/Ids/Groups.antt =====
-- kernel/sys.c, `sys_setregid` of a process that is not the superuser.
use hit_os.Common.{ℕ, ◌≡◌, refl, ◌≢◌, ◌⊎◌, inl, inr, none, some, arith, Bool-cases}
use hit_os.Common.Int.{ℤ, pos, ltz, eqz}
use hit_os.Task.{Task}
use hit_os.Ids.{eperm, set_gid, set_egid, sys_setregid}
use hit_os.Ids.Rights.{HasShortIds, eqz-to16}

set_gid-cases :
    (rgid : ℤ) (t : Task)
    → HasShortIds t
    → t.euid ≢ 0
    → (set_gid rgid t ≡ none) ⊎ (set_gid rgid t ≡ some t)
unfolding set_gid
set_gid-cases rgid t s ne = elim (Bool-cases (ltz (pos 0) rgid)) [
  | inr low ↦ inr (rw low refl)
  | inl high ↦ elim (Bool-cases (eqz (pos t.gid) rgid)) [
    | inl e ↦ inr (rw (high, e, eqz-to16 t.gid rgid s.gid e) refl)
    | inr n ↦ inl (rw (high, n) (ground arith))
  ]
]

set_egid-cases :
    (egid : ℤ) (t : Task)
    → HasShortIds t
    → t.euid ≢ 0
    → (set_egid egid t ≡ none)
      ⊎ ((v : ℕ) × ((v ≡ t.egid) ⊎ (v ≡ t.gid) ⊎ (v ≡ t.sgid))
          × (set_egid egid t ≡ some (record t { egid = v })))
unfolding set_egid
set_egid-cases egid t s ne = elim (Bool-cases (ltz (pos 0) egid)) [
  | inr low ↦ inr (t.egid, inl refl, rw low refl)
  | inl high ↦ elim (Bool-cases (eqz (pos t.gid) egid)) [
    | inl e ↦ inr (t.gid, inr (inl refl), rw (high, e, eqz-to16 t.gid egid s.gid e) refl)
    | inr n ↦ elim (Bool-cases (eqz (pos t.egid) egid)) [
      | inl e ↦ inr (t.egid, inl refl, rw (high, n, e, eqz-to16 t.egid egid s.egid e) refl)
      | inr m ↦ elim (Bool-cases (eqz (pos t.sgid) egid)) [
        | inl e ↦
            inr (t.sgid, inr (inr refl), rw (high, n, m, e, eqz-to16 t.sgid egid s.sgid e) refl)
        | inr o ↦ inl (rw (high, n, m, o) (ground arith))
      ]
    ]
  ]
]

-- Called by a process with ids of 16 bits whose effective user id is not 0, `sys_setregid` fails with
-- EPERM and changes nothing, or returns 0, and then at most the effective group id is another: it is
-- one of the effective, the real and the saved group id that the process had.
pub sys_setregid-IsUnprivileged :
    (rgid egid : ℤ) (t : Task)
    → HasShortIds t
    → t.euid ≢ 0
    → (sys_setregid rgid egid t ≡ (eperm, t))
      ⊎ ((v : ℕ) × ((v ≡ t.egid) ⊎ (v ≡ t.gid) ⊎ (v ≡ t.sgid))
          × (sys_setregid rgid egid t ≡ (pos 0, record t { egid = v })))
unfolding sys_setregid
sys_setregid-IsUnprivileged rgid egid t s ne = elim (set_gid-cases rgid t s ne) [
  | inl e ↦ inl (rw (sys_setregid, e) refl)
  | inr e ↦ elim (set_egid-cases egid t s ne) [
    | inl e' ↦ inl (rw (sys_setregid, e, e') refl)
    | inr (v, among, e') ↦ inr (v, among, rw (sys_setregid, e, e') refl)
  ]
]
