-- ===== src/Who.antt =====
-- kernel/who.c: the system calls `iam` and `whoami`. The kernel's buffer and user memory are
-- functions from the index or address to the byte; `get_fs_byte` and `put_fs_byte` read and write
-- user memory.
pub mod Laws
mod Tests
use hit_os.Common.{
  ℕ, zero, suc, ◌+◌, Bool, true, false, Option, none, some, ltb, leb, ◌==◌, if◌then◌else◌, update,
}
use hit_os.Common.Int.{ℤ, pos, negsuc}

pub record Names : Type 0 where
  pub msg : ℕ → ℕ
  pub user : ℕ → ℕ

abbrev pub max_size : ℕ
max_size = 24

-- -EINVAL
abbrev pub einval : ℤ
einval = negsuc 21

-- The first zero byte at or behind `i`, within `n` bytes.
unfoldable pub find_zero : (ℕ → ℕ) → ℕ → ℕ → Option ℕ
find_zero bytes zero i = none
find_zero bytes (suc n) i = elim (bytes i == 0) [
  | true ↦ some i
  | false ↦ find_zero bytes n (i + 1)
]

-- strcpy(msg, tmp), of a string of length `len`
abbrev pub copy_string : (from : ℕ → ℕ) (len : ℕ) (to : ℕ → ℕ) → ℕ → ℕ
copy_string from len to i = if leb i len then from i else to i

-- The loop fills `tmp` with the bytes up to the zero byte.
unfoldable pub sys_iam : ℕ → Names → ℤ × Names
unfolding find_zero
sys_iam name s = elim (find_zero (λ i. s.user (name + i)) max_size 0) [
  | none ↦ (einval, s)
  | some len ↦ (pos len, record s { msg = copy_string (λ i. s.user (name + i)) len s.msg })
]

-- The loop of `sys_whoami` that writes to user memory, with `n` rounds left at index `i`.
unfoldable pub put_bytes : (msg : ℕ → ℕ) (name n i : ℕ) (user : ℕ → ℕ) → ℕ × (ℕ → ℕ)
put_bytes msg name zero i user = (i, user)
put_bytes msg name (suc n) i user =
    let user' = update user (name + i) (msg i) in
    elim (msg i == 0) [ true ↦ (i, user') | false ↦ put_bytes msg name n (i + 1) user' ]

-- `none` if no zero byte ends the kernel's buffer, and the code reads behind it.
unfoldable pub sys_whoami : (name size : ℕ) → Names → Option (ℤ × Names)
unfolding find_zero put_bytes
sys_whoami name size s = elim (find_zero s.msg max_size 0) [
  | none ↦ none
  | some msg_size ↦
      let (i, user) = put_bytes s.msg name size 0 s.user in
      if ltb size msg_size then some (einval, s) else some (pos i, record s { user = user })
]
