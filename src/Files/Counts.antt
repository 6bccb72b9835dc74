-- ===== src/Files/Counts.antt =====
-- fs/fcntl.c, fs/open.c, fs/pipe.c: `f_count` is the number of descriptors that refer to a file.
use native.Mathlib.Decide.{ℕ_discrete}
use hit_os.Common.{
  ℕ, zero, suc, ◌+◌, ◌-◌, ◌^◌, ◌≤◌, ◌<◌, ◌≡◌, refl, ap, ◌≢◌, ◌⊎◌, inl, inr, Bool, true, false,
  Option, none, some, arith, ok, leb, ◌==◌, update, Bool-cases, Option-cases, ne→not-==, ◌∷◌,
}
use hit_os.Common.{fun_ext}
use hit_os.Common.Words.{clear_bit}
use hit_os.Common.Int.{ℤ, pos}
use hit_os.Files.Defs.{
  Files, nr_open, ebadf, einval, emfile, is_none, find_first, with_count, copy_descriptor, dupfd,
  drop_file, sys_close, sys_dup2,
}
use hit_os.Files.Uses.{uses, uses-update, uses-le, uses-pos}

-- Every file is counted once for each descriptor of this process that refers to it, and `ext` times
-- for others (forked processes), which leaves the 16-bit count far from its limit.
pub record IsCounted (ext : ℕ → ℕ) (s : Files) : Type 0 where
  pub counted : (f : ℕ) → (s.file_table f).f_count ≡ uses s.filp nr_open f + ext f
  pub small : (f : ℕ) → ext f < 2 ^ 15

pub find_first-some :
    (test : ℕ → Bool) (n i k : ℕ)
    → find_first test n i ≡ some k
    → (i ≤ k) × (k < i + n) × (test k ≡ true) × ((j : ℕ) → i ≤ j → j < k → test j ≡ false)
unfolding find_first
find_first-some test zero i k e = cc
find_first-some test (suc n) i k e = elim (Bool-cases (test i)) [
  | inl hit ↦
      let same : i ≡ k = ground arith in
      (omega arith, omega arith, rw (← same) hit, λ j a b. absurd (omega arith))
  | inr miss ↦
      let (l, h, t, before) = find_first-some test n (i + 1) k (ground arith) in
      (
        omega arith,
        omega arith,
        t,
        λ j a b. elim (ℕ_discrete i j) [ yes q ↦ rw (← q) miss | no q ↦ before j (omega arith) b ],
      )
]

pub find_first-none :
    (test : ℕ → Bool) (n i : ℕ)
    → find_first test n i ≡ none
    → (j : ℕ) → i ≤ j
    → j < i + n
    → test j ≡ false
unfolding find_first
find_first-none test zero i e j a b = absurd (omega arith)
find_first-none test (suc n) i e j a b = elim (Bool-cases (test i)) [
  | inl hit ↦ ground arith
  | inr miss ↦ elim (ℕ_discrete i j) [
    | yes q ↦ rw (← q) miss
    | no q ↦ find_first-none test n (i + 1) (ground arith) j (omega arith) (omega arith)
  ]
]

pub is_none-true : (o : Option ℕ) → is_none o ≡ true → o ≡ none
is_none-true none e = refl
is_none-true (some x) e = cc

pub is_none-false : (o : Option ℕ) → is_none o ≡ false → o ≢ none
is_none-false none e q = cc
is_none-false (some x) e q = cc

-- What `dupfd` may return, and when: EBADF for a descriptor that is not open, EINVAL for a start out
-- of range, EMFILE if no descriptor is free from the start on; otherwise the first one that is free.
abbrev pub DupfdResult : (fd arg : ℕ) → Files → ℤ × Files → Type 0
DupfdResult fd arg s r =
    (((nr_open ≤ fd) ⊎ (s.filp fd ≡ none)) × (r ≡ (ebadf, s)))
    ⊎ ((nr_open ≤ arg) × (r ≡ (einval, s)))
    ⊎ (((j : ℕ) → arg ≤ j → j < nr_open → s.filp j ≢ none) × (r ≡ (emfile, s)))
    ⊎ ((f : ℕ) × (i : ℕ) × (fd < nr_open)
        × (s.filp fd ≡ some f)
        × (arg ≤ i)
        × (i < nr_open)
        × (s.filp i ≡ none)
        × ((j : ℕ) → arg ≤ j → j < i → s.filp j ≢ none)
        × (r ≡ (pos i, copy_descriptor f i s)))

-- `dupfd` fails with EBADF only for a descriptor that is not open, with EINVAL only for a start out
-- of range, and with EMFILE only if no descriptor from the start on is free, and then changes
-- nothing; otherwise the first free descriptor from the start on becomes a copy and is returned.
pub dupfd_cases : (fd arg : ℕ) (s : Files) → DupfdResult fd arg s (dupfd fd arg s)
unfolding dupfd
dupfd_cases fd arg s = elim (Bool-cases (leb nr_open fd)) [
  | inl high ↦ inl (inl (ground arith), rw high refl)
  | inr low ↦ elim (Option-cases (s.filp fd)) [
    | inl closed ↦ inl (inr closed, rw (low, closed) refl)
    | inr (f, open_at) ↦ elim (Bool-cases (leb nr_open arg)) [
      | inl beyond ↦ inr (inl (ground arith, rw (low, open_at, beyond) refl))
      | inr within ↦
          elim (Option-cases (find_first (λ i. is_none (s.filp i)) (nr_open - arg) arg)) [
            | inl e ↦ inr (
                inr (
                  inl (
                    λ j a b. is_none-false (s.filp j) (
                        find_first-none (λ i. is_none (s.filp i)) (nr_open - arg) arg e j a
                          (ground arith)),
                    rw (low, open_at, within, e) refl,
                  )))
            | inr (i, e) ↦
                let (l, h, t, before) =
                  find_first-some (λ i. is_none (s.filp i)) (nr_open - arg) arg i e in
                inr (
                  inr (
                    inr (
                      f,
                      i,
                      ground arith,
                      open_at,
                      l,
                      ground arith,
                      is_none-true (s.filp i) t,
                      λ j a b. is_none-false (s.filp j) (before j a b),
                      rw (low, open_at, within, e) refl,
                    )))
          ]
    ]
  ]
]

pub drop_file-ok :
    (f : ℕ) (s : Files)
    → (s.file_table f).f_count ≢ 0
    → (s' : Files) × (drop_file f s ≡ ok s')
      × (s'.filp ≡ s.filp)
      × (s'.file_table ≡ with_count f (λ c. c - 1) s.file_table)
unfolding drop_file
drop_file-ok f s h = elim (Bool-cases ((s.file_table f).f_count - 1 == 0)) [
  | inl last ↦ (
    record s {
      file_table = with_count f (λ c. c - 1) s.file_table;
      put = (s.file_table f).f_inode ∷ s.put;
    },
    rw (ne→not-== _ _ h, last) refl,
    refl,
    refl,
  )
  | inr more ↦ (
    record s { file_table = with_count f (λ c. c - 1) s.file_table },
    rw (ne→not-== _ _ h, more) refl,
    refl,
    refl,
  )
]

module _ (ext : ℕ → ℕ) where
  copy_descriptor-IsCounted :
      (f arg : ℕ) (s : Files)
      → IsCounted ext s
      → arg < nr_open
      → s.filp arg ≡ none
      → IsCounted ext (copy_descriptor f arg s)
  unfolding copy_descriptor
  copy_descriptor-IsCounted f arg s inv h free = record {
    counted = λ g.
        let moved = uses-update s.filp nr_open arg g (some f) h in
        ground (arith, inv.counted g, inv.small g, uses-le s.filp nr_open g, moved, free);
    small = inv.small;
  }

  -- Where the counts are right, `dupfd` keeps them right, whatever it returns.
  pub dupfd-IsCounted :
      (fd arg : ℕ) (s : Files) → IsCounted ext s → IsCounted ext (dupfd fd arg s).1
  dupfd-IsCounted fd arg s inv = elim (dupfd_cases fd arg s) [
    | inl (h, e) ↦ rw e inv
    | inr (inl (h, e)) ↦ rw e inv
    | inr (inr (inl (h, e))) ↦ rw e inv
    | inr (inr (inr (f, i, a, b, c, d, free, g, e))) ↦
        rw e (copy_descriptor-IsCounted f i s inv d free)
  ]

  dropped-IsCounted :
      (f fd : ℕ) (s s' : Files)
      → IsCounted ext s
      → fd < nr_open
      → s.filp fd ≡ some f
      → ((i : ℕ) → s'.filp i ≡ update s.filp fd none i)
      → ((g : ℕ) → (s'.file_table g).f_count ≡ (with_count f (λ c. c - 1) s.file_table g).f_count)
      → IsCounted ext s'
  dropped-IsCounted f fd s s' inv h e p q = record {
    counted = λ g.
        let moved = uses-update s.filp nr_open fd g none h in
        let used = uses-pos s.filp nr_open fd f h e in
        let same : s'.filp ≡ update s.filp fd none = fun_ext p in
        rw same (ground (arith, q g, inv.counted g, inv.counted f, moved, used, e));
    small = inv.small;
  }

  -- Where the counts are right, closing a descriptor does not panic ("file count is 0") and keeps
  -- them right.
  pub sys_close-IsCounted :
      (fd : ℕ) (s : Files)
      → IsCounted ext s
      → (r : ℤ) × (s' : Files) × (sys_close fd s ≡ ok (r, s')) × IsCounted ext s'
  unfolding sys_close
  sys_close-IsCounted fd s inv = elim (Bool-cases (leb nr_open fd)) [
    | inl high ↦ (einval, s, rw high refl, inv)
    | inr low ↦ elim (Option-cases (s.filp fd)) [
      | inl closed ↦ (
        einval,
        record s { close_on_exec = clear_bit s.close_on_exec fd },
        rw (low, closed) refl,
        record { counted = inv.counted; small = inv.small },
      )
      | inr (f, at) ↦
          let used = uses-pos s.filp nr_open fd f (ground arith) at in
          let s' = record s {
            filp = update s.filp fd none;
            close_on_exec = clear_bit s.close_on_exec fd;
          } in
          let (s'', e, p, q) = drop_file-ok f s' (omega (arith, inv.counted f)) in
          (
            pos 0,
            s'',
            rw (low, at, e) refl,
            dropped-IsCounted f fd s s'' inv (ground arith) at (λ i. ap (λ t. t i) p)
                (λ g. ap (λ t. (t g).f_count) q),
          )
    ]
  ]

  -- Where the counts are right, `dup2` does not panic and keeps them right.
  pub sys_dup2-IsCounted :
      (oldfd newfd : ℕ) (s : Files)
      → IsCounted ext s
      → (r : ℤ) × (s' : Files) × (sys_dup2 oldfd newfd s ≡ ok (r, s')) × IsCounted ext s'
  unfolding sys_dup2
  sys_dup2-IsCounted oldfd newfd s inv =
      let (r, s', e, inv') = sys_close-IsCounted newfd s inv in
      (
        (dupfd oldfd newfd s').0,
        (dupfd oldfd newfd s').1,
        rw e refl,
        dupfd-IsCounted oldfd newfd s' inv',
      )
