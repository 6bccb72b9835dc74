-- ===== src/Files/Defs.antt =====
-- fs/fcntl.c, fs/open.c and fs/pipe.c, line by line. A `struct file *` is the index of its entry in
-- `file_table`, an inode is a number, and a user's `errno` value -E is `negsuc (E - 1)`.
use hit_os.Common.{
  ℕ, zero, suc, ◌+◌, ◌-◌, ◌*◌, ◌/◌, ◌%◌, ◌^◌, Bool, true, false, not, Option, none, some, List, ◌∷◌,
  Outcome, ok, panic, ◌>>=◌, leb, ◌==◌, if◌then◌else◌, update,
}
use hit_os.Common.Int.{ℤ, pos, negsuc}
use hit_os.Common.Words.{bit_at, clear_bit, set_bit}

-- include/linux/fs.h
pub record File : Type 0 where
  pub f_mode : ℕ
  pub f_flags : ℕ
  pub f_count : ℕ
  pub f_inode : ℕ
  pub f_pos : ℤ

-- The part of the current task and of the kernel that these calls change. `put` holds the inodes
-- that were given back by `iput`, the last one first.
pub record Files : Type 0 where
  pub filp : ℕ → Option ℕ
  pub close_on_exec : ℕ
  pub file_table : ℕ → File
  pub put : List ℕ

abbrev pub nr_open : ℕ
nr_open = 20

abbrev pub nr_file : ℕ
nr_file = 64

abbrev pub ebadf : ℤ
ebadf = negsuc 8

abbrev pub einval : ℤ
einval = negsuc 21

abbrev pub emfile : ℤ
emfile = negsuc 23

abbrev pub is_none : Option ℕ → Bool
is_none none = true
is_none (some _) = false

-- The first of the `n` indices from `i` on that passes the test.
unfoldable pub find_first : (ℕ → Bool) → ℕ → ℕ → Option ℕ
find_first test zero i = none
find_first test (suc n) i = elim (test i) [ true ↦ some i | false ↦ find_first test n (i + 1) ]

abbrev pub with_count : ℕ → (ℕ → ℕ) → (ℕ → File) → ℕ → File
with_count f g files = update files f (record (files f) { f_count = g (files f).f_count })

-- The end of `dupfd`: descriptor `arg` becomes a copy of one that refers to file `f`.
unfoldable pub copy_descriptor : (f arg : ℕ) → Files → Files
copy_descriptor f arg s = record s {
  close_on_exec = clear_bit s.close_on_exec arg;
  filp = update s.filp arg (some f);
  file_table = with_count f (λ c. (c + 1) % 2 ^ 16) s.file_table;
}

unfoldable pub dupfd : (fd arg : ℕ) → Files → ℤ × Files
unfolding find_first copy_descriptor
dupfd fd arg s =
    let free = find_first (λ i. is_none (s.filp i)) (nr_open - arg) arg in
    if leb nr_open fd then (ebadf, s) else elim (s.filp fd) [
      | none ↦ (ebadf, s)
      | some f ↦
          if leb nr_open arg
          then (einval, s)
          else elim free [ none ↦ (emfile, s) | some i ↦ (pos i, copy_descriptor f i s) ]
    ]

-- The end of `sys_close`, for a descriptor that refers to file `f`.
unfoldable pub drop_file : ℕ → Files → Outcome Files
drop_file f s =
    let count = (s.file_table f).f_count in
    let s' = record s { file_table = with_count f (λ c. c - 1) s.file_table } in
    if count == 0
    then panic
    else if not (count - 1 == 0)
    then ok s'
    else ok (record s' { put = (s.file_table f).f_inode ∷ s.put })

unfoldable pub sys_close : ℕ → Files → Outcome (ℤ × Files)
unfolding drop_file
sys_close fd s =
    let s' = record s { close_on_exec = clear_bit s.close_on_exec fd } in
    if leb nr_open fd then ok (einval, s) else elim (s.filp fd) [
      | none ↦ ok (einval, s')
      | some f ↦ do s'' ← drop_file f (record s' { filp = update s.filp fd none }); ok (pos 0, s'')
    ]

unfoldable pub sys_dup2 : (oldfd newfd : ℕ) → Files → Outcome (ℤ × Files)
unfolding sys_close dupfd
sys_dup2 oldfd newfd s = do (_, s') ← sys_close newfd s; ok (dupfd oldfd newfd s')

unfoldable pub sys_dup : ℕ → Files → ℤ × Files
unfolding dupfd
sys_dup fildes s = dupfd fildes 0 s

-- The bits O_APPEND | O_NONBLOCK (02000 and 04000, octal) of a flag word.
abbrev pub status_bits : ℕ → ℕ
status_bits x = x / 2 ^ 10 % 4 * 2 ^ 10

-- The commands are F_DUPFD (0), F_GETFD (1), F_SETFD (2), F_GETFL (3) and F_SETFL (4).
unfoldable pub sys_fcntl : (fd cmd arg : ℕ) → Files → ℤ × Files
unfolding dupfd
sys_fcntl fd cmd arg s = if leb nr_open fd then (ebadf, s) else elim (s.filp fd) [
  | none ↦ (ebadf, s)
  | some f ↦
      let file = s.file_table f in
      let flags = file.f_flags - status_bits file.f_flags + status_bits arg in
      let mark =
        if arg % 2 == 1 then set_bit s.close_on_exec fd else clear_bit s.close_on_exec fd in
      if cmd == 0
      then dupfd fd arg s
      else if cmd == 1
      then (pos (bit_at s.close_on_exec fd), s)
      else if cmd == 2
      then (pos 0, record s { close_on_exec = mark })
      else if cmd == 3
      then (pos file.f_flags, s)
      else if cmd == 4
      then (
        pos 0,
        record s { file_table = update s.file_table f (record file { f_flags = flags }) },
      )
      else (negsuc 0, s)
]

-- `for (; i < NR_FILE; i++) if (!file_table[i].f_count)`, from `i` on
unfoldable pub free_file : ℕ → Files → Option ℕ
unfolding find_first
free_file i s = find_first (λ f. (s.file_table f).f_count == 0) (nr_file - i) i

unfoldable pub free_descriptor : ℕ → Files → Option ℕ
unfolding find_first
free_descriptor i s = find_first (λ fd. is_none (s.filp fd)) (nr_open - i) i

-- The search for a second file, after `f`; if there is none, the count of `f` is set back.
unfoldable pub second_file : ℕ → Files → Option (ℕ × ℕ) × Files
second_file f s = elim (free_file (f + 1) s) [
  | none ↦ (none, record s { file_table = with_count f (λ _. 0) s.file_table })
  | some g ↦ (some (f, g), record s { file_table = with_count g (λ c. c + 1) s.file_table })
]

-- The two files of a pipe, each with its count raised.
unfoldable pub pipe_files : Files → Option (ℕ × ℕ) × Files
pipe_files s = elim (free_file 0 s) [
  | none ↦ (none, s)
  | some f ↦ second_file f (record s { file_table = with_count f (λ c. c + 1) s.file_table })
]

-- The search for a second descriptor, after `fd`; if there is none, `fd` is set back.
unfoldable pub second_descriptor : (g fd : ℕ) → Files → Option (ℕ × ℕ) × Files
second_descriptor g fd s = elim (free_descriptor (fd + 1) s) [
  | none ↦ (none, record s { filp = update s.filp fd none })
  | some fd' ↦ (some (fd, fd'), record s { filp = update s.filp fd' (some g) })
]

-- The two descriptors, which refer to files `f` and `g`.
unfoldable pub pipe_descriptors : (f g : ℕ) → Files → Option (ℕ × ℕ) × Files
pipe_descriptors f g s = elim (free_descriptor 0 s) [
  | none ↦ (none, s)
  | some fd ↦ second_descriptor g fd (record s { filp = update s.filp fd (some f) })
]

-- f[0]->f_count = f[1]->f_count = 0
abbrev pub drop_pipe_files : (f g : ℕ) → Files → Files
drop_pipe_files f g s = record s {
  file_table = with_count f (λ _. 0) (with_count g (λ _. 0) s.file_table);
}

abbrev pub pipe_end : (mode inode : ℕ) → File → File
pipe_end mode inode file = record file { f_mode = mode; f_inode = inode; f_pos = pos 0 }

-- The end of `sys_pipe`: no inode, and all is set back; or both files get the inode.
unfoldable pub join_ends : (inode : Option ℕ) (f g fd fd' : ℕ) → Files → Option (ℕ × ℕ) × Files
join_ends none f g fd fd' s =
    (none, drop_pipe_files f g (record s { filp = update (update s.filp fd' none) fd none }))
join_ends (some i) f g fd fd' s =
    let table = update s.file_table f (pipe_end 1 i (s.file_table f)) in
    (some (fd, fd'), record s { file_table = update table g (pipe_end 2 i (table g)) })

-- What follows the search for two descriptors.
unfoldable pub pipe_last :
    (inode : Option ℕ) (f g : ℕ) → Option (ℕ × ℕ) × Files → Option (ℕ × ℕ) × Files
pipe_last inode f g (none, s) = (none, drop_pipe_files f g s)
pipe_last inode f g (some (fd, fd'), s) = join_ends inode f g fd fd' s

-- What follows the search for two files.
unfoldable pub pipe_next : (inode : Option ℕ) → Option (ℕ × ℕ) × Files → Option (ℕ × ℕ) × Files
pipe_next inode (none, s) = (none, s)
pipe_next inode (some (f, g), s) = pipe_last inode f g (pipe_descriptors f g s)

-- `inode` is what `get_pipe_inode` returns. The result is the two descriptors that are stored at
-- `fildes`, or `none` for the return of -1.
unfoldable pub sys_pipe : (inode : Option ℕ) → Files → Option (ℕ × ℕ) × Files
sys_pipe inode s = pipe_next inode (pipe_files s)
