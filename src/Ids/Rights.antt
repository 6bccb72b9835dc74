-- ===== src/Ids/Rights.antt =====
-- kernel/sys.c, `sys_setreuid` and `sys_setregid`: who may change what.
use hit_os.Common.{
  ℕ, ◌%◌, ◌^◌, ◌<◌, ◌≡◌, refl, ◌≢◌, ◌⊎◌, inl, inr, true, none, some, List, [], ◌∷◌, arith,
  Bool-cases, sym, ap, ◌∙◌,
}
use hit_os.Common.Int.{ℤ, pos, negsuc, ltz, eqz, to16}
use hit_os.Task.{Task}
use hit_os.Ids.{eperm, set_uid, set_euid, sys_setreuid, sys_setuid}

-- The ids are 16-bit numbers.
pub record HasShortIds (t : Task) : Type 0 where
  pub uid : t.uid < 2 ^ 16
  pub euid : t.euid < 2 ^ 16
  pub gid : t.gid < 2 ^ 16
  pub egid : t.egid < 2 ^ 16
  pub sgid : t.sgid < 2 ^ 16

pub eqz-to16 : (a : ℕ) (z : ℤ) → a < 2 ^ 16 → eqz (pos a) z ≡ true → to16 z ≡ a
eqz-to16 a (pos n) h e = ground arith
eqz-to16 a (negsuc n) h e = cc

-- What a process without the rights of the superuser can do to its user ids.
set_uid-cases :
    (ruid : ℤ) (t : Task)
    → HasShortIds t
    → t.euid ≢ 0
    → (set_uid ruid t ≡ none)
      ⊎ (set_uid ruid t ≡ some t)
      ⊎ (set_uid ruid t ≡ some (record t { uid = t.euid }))
unfolding set_uid
set_uid-cases ruid t s ne = elim (Bool-cases (ltz (pos 0) ruid)) [
  | inr low ↦ inr (inl (rw low refl))
  | inl high ↦ elim (Bool-cases (eqz (pos t.euid) ruid)) [
    | inl e ↦ inr (inr (rw (high, e, eqz-to16 t.euid ruid s.euid e) refl))
    | inr n ↦ elim (Bool-cases (eqz (pos t.uid) ruid)) [
      | inl e ↦ inr (inl (rw (high, n, e, eqz-to16 t.uid ruid s.uid e) refl))
      | inr m ↦ inl (rw (high, n, m) (ground arith))
    ]
  ]
]

set_euid-cases :
    (old : ℕ) (euid : ℤ) (t : Task)
    → HasShortIds t
    → old < 2 ^ 16
    → t.euid ≢ 0
    → (set_euid old euid t ≡ none)
      ⊎ (set_euid old euid t ≡ some t)
      ⊎ (set_euid old euid t ≡ some (record t { euid = old }))
unfolding set_euid
set_euid-cases old euid t s o ne = elim (Bool-cases (ltz (pos 0) euid)) [
  | inr low ↦ inr (inl (rw low refl))
  | inl high ↦ elim (Bool-cases (eqz (pos old) euid)) [
    | inl e ↦ inr (inr (rw (high, e, eqz-to16 old euid o e) refl))
    | inr n ↦ elim (Bool-cases (eqz (pos t.euid) euid)) [
      | inl e ↦ inr (inl (rw (high, n, e, eqz-to16 t.euid euid s.euid e) refl))
      | inr m ↦ inl (rw (high, n, m) (ground arith))
    ]
  ]
]

-- What a call of `sys_setreuid` by such a process may return, and what it leaves: EPERM and the task
-- as it was, or 0 and ids of which each is one of the two that the task had.
pub record IsUnprivileged (t : Task) (r : ℤ × Task) : Type 0 where
  pub refused : r.0 ≡ eperm → r.1 ≡ t
  pub uid : (r.1.uid ≡ t.uid) ⊎ (r.1.uid ≡ t.euid)
  pub euid : (r.1.euid ≡ t.euid) ⊎ (r.1.euid ≡ t.uid)
  pub groups : (r.1.gid ≡ t.gid) × (r.1.egid ≡ t.egid) × (r.1.sgid ≡ t.sgid)

after_uid :
    (ruid euid : ℤ) (t t' : Task)
    → HasShortIds t
    → HasShortIds t'
    → t.euid ≢ 0
    → set_uid ruid t ≡ some t'
    → (t'.uid ≡ t.uid) ⊎ (t'.uid ≡ t.euid)
    → t' ≡ record t { uid = t'.uid }
    → IsUnprivileged t (sys_setreuid ruid euid t)
unfolding sys_setreuid
after_uid ruid euid t t' s s' ne e from moved =
    let back : record t' { uid = t.uid } ≡ t =
      ap {A = Task} {B = Task} (λ x. record x { uid = t.uid }) moved in
    let kept : t'.euid ≡ t.euid = ap (λ x. x.euid) moved in
    let groups : (t'.gid ≡ t.gid) × (t'.egid ≡ t.egid) × (t'.sgid ≡ t.sgid) =
      (ap (λ x. x.gid) moved, ap (λ x. x.egid) moved, ap (λ x. x.sgid) moved) in
    elim (set_euid-cases t.uid euid t' s' s.uid (λ z. ne (sym kept ∙ z))) [
      | inl e' ↦
          rw (sys_setreuid, e, e')
            (record { refused = λ _. back; uid = inl refl; euid = inl kept; groups = groups })
      | inr (inl e') ↦
          rw (sys_setreuid, e, e')
            (record { refused = λ q. cc; uid = from; euid = inl kept; groups = groups })
      | inr (inr e') ↦
          rw (sys_setreuid, e, e')
            (record { refused = λ q. cc; uid = from; euid = inr refl; groups = groups })
    ]

-- A process that is not the superuser, with ids of 16 bits: `sys_setreuid` either fails with EPERM
-- and changes nothing, or leaves a real and an effective user id that are each one of the two that
-- the process had. The group ids stay.
pub sys_setreuid-IsUnprivileged :
    (ruid euid : ℤ) (t : Task)
    → HasShortIds t
    → t.euid ≢ 0
    → IsUnprivileged t (sys_setreuid ruid euid t)
unfolding sys_setreuid
sys_setreuid-IsUnprivileged ruid euid t s ne = elim (set_uid-cases ruid t s ne) [
  | inl e ↦
      rw (sys_setreuid, e)
        (record {
          refused = λ _. refl;
          uid = inl refl;
          euid = inl refl;
          groups = (refl, refl, refl);
        })
  | inr (inl e) ↦ after_uid ruid euid t t s s ne e (inl refl) refl
  | inr (inr e) ↦
      after_uid ruid euid t (record t { uid = t.euid }) s
        (record { uid = s.euid; euid = s.euid; gid = s.gid; egid = s.egid; sgid = s.sgid }) ne e
        (inr refl) refl
]

-- A sequence of calls of `sys_setreuid` by one process.
unfoldable pub setreuids : List (ℤ × ℤ) → Task → Task
setreuids [] t = t
setreuids ((ruid, euid) ∷ calls) t = setreuids calls (sys_setreuid ruid euid t).1

-- Both user ids are among `a` and `b`.
abbrev pub HasUids : ℕ → ℕ → Task → Type 0
HasUids a b t = ((t.uid ≡ a) ⊎ (t.uid ≡ b)) × ((t.euid ≡ a) ⊎ (t.euid ≡ b))

sys_setreuid-HasUids :
    (ruid euid : ℤ) (a b : ℕ) (t : Task)
    → HasShortIds t
    → t.euid ≢ 0
    → HasUids a b t
    → HasShortIds (sys_setreuid ruid euid t).1 × HasUids a b (sys_setreuid ruid euid t).1
sys_setreuid-HasUids ruid euid a b t s ne has =
    let r = sys_setreuid-IsUnprivileged ruid euid t s ne in
    (
      record {
        uid = omega (arith, r.uid, s.uid, s.euid);
        euid = omega (arith, r.euid, s.uid, s.euid);
        gid = omega (arith, r.groups.0, s.gid);
        egid = omega (arith, r.groups.1, s.egid);
        sgid = omega (arith, r.groups.2, s.sgid);
      },
      (omega (arith, r.uid, has), omega (arith, r.euid, has)),
    )

-- A process with user ids among `a` and `b`, neither of which is 0 (the superuser), and ids of 16
-- bits, has user ids among `a` and `b` after any sequence of calls of `sys_setreuid`.
pub setreuids-HasUids :
    (calls : List (ℤ × ℤ)) (a b : ℕ) (t : Task)
    → HasShortIds t
    → a ≢ 0
    → b ≢ 0
    → HasUids a b t
    → HasUids a b (setreuids calls t)
unfolding setreuids
setreuids-HasUids [] a b t s na nb has = has
setreuids-HasUids ((ruid, euid) ∷ calls) a b t s na nb has =
    let ne : t.euid ≢ 0 = omega (arith, has, na, nb) in
    let (s', has') = sys_setreuid-HasUids ruid euid a b t s ne has in
    setreuids-HasUids calls a b (sys_setreuid ruid euid t).1 s' na nb has'

set_uid-root :
    (n : ℕ) (t : Task)
    → t.euid ≡ 0
    → n ≢ 0
    → n < 2 ^ 16
    → set_uid (pos n) t ≡ some (record t { uid = n })
unfolding set_uid
set_uid-root n t root nz h = let small : n % 2 ^ 16 ≡ n = omega arith in rw small (ground arith)

set_euid-root :
    (n old : ℕ) (t : Task)
    → t.euid ≡ 0
    → n ≢ 0
    → n < 2 ^ 16
    → set_euid old (pos n) t ≡ some (record t { euid = n })
unfolding set_euid
set_euid-root n old t root nz h =
    let small : n % 2 ^ 16 ≡ n = omega arith in rw small (ground arith)

-- The superuser gives up its rights for good: `setuid` of an id from 1 to 65535 succeeds, and after
-- any sequence of calls of `sys_setreuid` both user ids are that id.
pub setreuids-sys_setuid :
    (calls : List (ℤ × ℤ)) (n : ℕ) (t : Task)
    → HasShortIds t
    → t.euid ≡ 0
    → n ≢ 0
    → n < 2 ^ 16
    → ((sys_setuid (pos n) t).0 ≡ pos 0)
      × ((setreuids calls (sys_setuid (pos n) t).1).uid ≡ n)
      × ((setreuids calls (sys_setuid (pos n) t).1).euid ≡ n)
unfolding sys_setuid sys_setreuid
setreuids-sys_setuid calls n t s root nz h =
    let t' = record t { uid = n; euid = n } in
    let done : sys_setuid (pos n) t ≡ (pos 0, t') =
      rw
        (
          sys_setuid,
          sys_setreuid,
          set_uid-root n t root nz h,
          set_euid-root n t.uid (record t { uid = n }) root nz h,
        )
        refl in
    let s' : HasShortIds t' = record {
      uid = h;
      euid = h;
      gid = s.gid;
      egid = s.egid;
      sgid = s.sgid;
    } in
    let (u, e) = setreuids-HasUids calls n n t' s' nz nz (inl refl, inl refl) in
    rw done (refl, omega (arith, u), omega (arith, e))
