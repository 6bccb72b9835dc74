-- ===== src/Who/Laws.antt =====
-- kernel/who.c: what `iam` stores is what `whoami` gives back.
use native.Mathlib.Decide.{ℕ_discrete}
use hit_os.Common.{
  ℕ, zero, suc, ◌+◌, ◌≤◌, ◌<◌, ◌≡◌, refl, sym, ◌∙◌, ◌≢◌, ◌⊎◌, inl, none, some, arith, update,
  le→not-ltb, lt→ltb, update_self, update_ne,
}
use hit_os.Common.Int.{pos}
use hit_os.Who.{Names, einval, find_zero, copy_string, sys_iam, put_bytes, sys_whoami}

-- A string of length `len` stands in `bytes`.
abbrev pub IsString : (ℕ → ℕ) → ℕ → Type 0
IsString bytes len = (bytes len ≡ 0) × ((i : ℕ) → i < len → bytes i ≢ 0)

find_zero-suc :
    (bytes : ℕ → ℕ) (n i : ℕ) → bytes i ≢ 0 → find_zero bytes (suc n) i ≡ find_zero bytes n (i + 1)
unfolding find_zero
find_zero-suc bytes n i h = ground arith

find_zero-some :
    (bytes : ℕ → ℕ) (n i len : ℕ)
    → i ≤ len
    → len < i + n
    → bytes len ≡ 0
    → ((j : ℕ) → i ≤ j → j < len → bytes j ≢ 0)
    → find_zero bytes n i ≡ some len
unfolding find_zero
find_zero-some bytes zero i len l h z nz = absurd (omega arith)
find_zero-some bytes (suc n) i len l h z nz = elim (ℕ_discrete i len) [
  | yes e ↦ ground arith
  | no ne ↦
      find_zero-suc bytes n i (nz i (omega arith) (omega arith))
      ∙ find_zero-some bytes n (i + 1) len (omega arith) (omega arith) z
          (λ j a b. nz j (omega arith) b)
]

find_zero-none :
    (bytes : ℕ → ℕ) (n i : ℕ)
    → ((j : ℕ) → i ≤ j → j < i + n → bytes j ≢ 0)
    → find_zero bytes n i ≡ none
unfolding find_zero
find_zero-none bytes zero i nz = refl
find_zero-none bytes (suc n) i nz =
    find_zero-suc bytes n i (nz i (omega arith) (omega arith))
    ∙ find_zero-none bytes n (i + 1) (λ j a b. nz j (omega arith) (omega arith))

-- A name of fewer than 24 bytes is stored whole, with its zero byte, and its length is returned.
pub sys_iam-short :
    (name len : ℕ) (s : Names)
    → len < 24
    → IsString (λ i. s.user (name + i)) len
    → (s' : Names) × (sys_iam name s ≡ (pos len, s'))
      × ((i : ℕ) → i ≤ len → s'.msg i ≡ s.user (name + i))
      × (s'.user ≡ s.user)
unfolding sys_iam
sys_iam-short name len s short (z, nz) =
    let found =
      find_zero-some (λ i. s.user (name + i)) 24 0 len (omega arith) (omega arith) z
        (λ j a b. nz j b) in
    (
      record s { msg = copy_string (λ i. s.user (name + i)) len s.msg },
      rw (found, sys_iam) refl,
      λ i h. ground arith,
      refl,
    )

-- A name with no zero byte among its first 24 bytes is refused, and nothing is stored.
pub sys_iam-long :
    (name : ℕ) (s : Names)
    → ((i : ℕ) → i < 24 → s.user (name + i) ≢ 0)
    → sys_iam name s ≡ (einval, s)
unfolding sys_iam
sys_iam-long name s nz =
    rw (find_zero-none (λ i. s.user (name + i)) 24 0 (λ j a b. nz j (omega arith)), sys_iam) refl

module _ (msg : ℕ → ℕ) (name n i : ℕ) (user : ℕ → ℕ) where
  put_bytes-suc :
      msg i ≢ 0
      → put_bytes msg name (suc n) i user
        ≡ put_bytes msg name n (i + 1) (update user (name + i) (msg i))
  unfolding put_bytes
  put_bytes-suc h = ground arith

  put_bytes-end :
      msg i ≡ 0 → put_bytes msg name (suc n) i user ≡ (i, update user (name + i) (msg i))
  unfolding put_bytes
  put_bytes-end h = ground arith

-- What the loop of `sys_whoami` has done: the string is at `name` from index `i` on, its zero byte
-- too if there is room for it, and all other bytes are as before.
record IsPut (msg : ℕ → ℕ) (name n i : ℕ) (user : ℕ → ℕ) (len : ℕ) (r : ℕ × (ℕ → ℕ)) : Type 0 where
  count : r.0 ≡ len
  bytes : (j : ℕ) → i ≤ j → j < len → r.1 (name + j) ≡ msg j
  ended : len < i + n → r.1 (name + len) ≡ 0
  others : (a : ℕ) → (a < name + i) ⊎ (name + len < a) → r.1 a ≡ user a

put_bytes-IsPut :
    (msg : ℕ → ℕ) (name n i : ℕ) (user : ℕ → ℕ) (len : ℕ)
    → i ≤ len
    → len ≤ i + n
    → IsString msg len
    → IsPut msg name n i user len (put_bytes msg name n i user)
unfolding put_bytes
put_bytes-IsPut msg name zero i user len l h (z, nz) = record {
  count = omega arith;
  bytes = λ j a b. absurd (omega arith);
  ended = λ q. absurd (omega arith);
  others = λ a o. refl;
}
put_bytes-IsPut msg name (suc n) i user len l h (z, nz) = elim (ℕ_discrete i len) [
  | yes e ↦ rw (put_bytes-end msg name n i user (rw e z)) (record {
    count = e;
    bytes = λ j a b. absurd (omega arith);
    ended = λ q. rw e (update_self user (name + len) (msg len) ∙ z);
    others = λ a o. update_ne user (name + i) (msg i) a (grind arith);
  })
  | no ne ↦
      let user' = update user (name + i) (msg i) in
      let r = put_bytes-IsPut msg name n (i + 1) user' len (omega arith) (omega arith) (z, nz) in
      rw (put_bytes-suc msg name n i user (nz i (omega arith))) (record {
        count = r.count;
        bytes = λ j a b. elim (ℕ_discrete i j) [
          | yes same ↦
              r.others (name + j) (inl (omega arith))
              ∙ rw (← same) (update_self user (name + i) (msg i))
          | no other ↦ r.bytes j (omega arith) b
        ];
        ended = λ q. r.ended (omega arith);
        others =
            λ a o. r.others a (grind arith) ∙ update_ne user (name + i) (msg i) a (grind arith);
      })
]

-- With room for the stored name, of fewer than 24 bytes, `whoami` returns its length and writes it, with its zero byte if
-- `size` is larger than the length, and nothing else.
pub sys_whoami-fits :
    (name size len : ℕ) (s : Names)
    → len < 24
    → IsString s.msg len
    → len ≤ size
    → (s' : Names) × (sys_whoami name size s ≡ some (pos len, s'))
      × ((j : ℕ) → j < len → s'.user (name + j) ≡ s.msg j)
      × (len < size → s'.user (name + len) ≡ 0)
      × ((a : ℕ) → (a < name) ⊎ (name + len < a) → s'.user a ≡ s.user a)
      × (s'.msg ≡ s.msg)
unfolding sys_whoami
sys_whoami-fits name size len s short (z, nz) room =
    let found = find_zero-some s.msg 24 0 len (omega arith) (omega arith) z (λ j a b. nz j b) in
    let r = put_bytes-IsPut s.msg name size 0 s.user len (omega arith) (omega arith) (z, nz) in
    (
      record s { user = (put_bytes s.msg name size 0 s.user).1 },
      rw (found, sys_whoami, le→not-ltb size len room, r.count) refl,
      λ j h. r.bytes j (omega arith) h,
      λ h. r.ended (omega arith),
      λ a o. r.others a (grind arith),
      refl,
    )

-- With less room than the stored name, of fewer than 24 bytes, `whoami` fails with EINVAL and changes
-- nothing.
pub sys_whoami-small :
    (name size len : ℕ) (s : Names)
    → len < 24
    → IsString s.msg len
    → size < len
    → sys_whoami name size s ≡ some (einval, s)
unfolding sys_whoami
sys_whoami-small name size len s short (z, nz) small =
    let found = find_zero-some s.msg 24 0 len (omega arith) (omega arith) z (λ j a b. nz j b) in
    rw (found, sys_whoami, lt→ltb size len small) refl

-- What `iam` was given, a string of fewer than 24 bytes, comes back from a `whoami` with room for it:
-- the same length, and the same bytes.
pub sys_whoami-sys_iam :
    (name buf size len : ℕ) (s : Names)
    → len < 24
    → IsString (λ i. s.user (name + i)) len
    → len ≤ size
    → (s' : Names) × (s'' : Names) × (sys_iam name s ≡ (pos len, s'))
      × (sys_whoami buf size s' ≡ some (pos len, s''))
      × ((j : ℕ) → j < len → s''.user (buf + j) ≡ s.user (name + j))
sys_whoami-sys_iam name buf size len s short (z, nz) room =
    let (s', e, stored, kept) = sys_iam-short name len s short (z, nz) in
    let string : IsString s'.msg len =
      (stored len (omega arith) ∙ z, λ i h q. nz i h (sym (stored i (omega arith)) ∙ q)) in
    let (s'', e', bytes, ended, others, same) = sys_whoami-fits buf size len s' short string room in
    (s', s'', e, e', λ j h. bytes j h ∙ stored j (omega arith))
