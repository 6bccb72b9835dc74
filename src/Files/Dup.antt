-- ===== src/Files/Dup.antt =====
-- fs/fcntl.c `sys_dup2`.
use hit_os.Common.{ℕ, ◌<◌, ◌≡◌, refl, ap, ◌∙◌, ◌≢◌, none, some, ok, update, update_self}
use hit_os.Common.{lt→not-leb}
use hit_os.Common.Words.{clear_bit}
use hit_os.Common.Int.{pos}
use hit_os.Files.Defs.{Files, nr_open, ebadf, dupfd, sys_close, sys_dup2}
use hit_os.Files.Counts.{drop_file-ok}

-- `dup2` of an open descriptor, whose file is counted, onto itself closes it and fails with EBADF.
pub sys_dup2_self :
    (fd f : ℕ) (s : Files)
    → fd < nr_open
    → s.filp fd ≡ some f
    → (s.file_table f).f_count ≢ 0
    → (s' : Files) × (sys_dup2 fd fd s ≡ ok (ebadf, s')) × (s'.filp fd ≡ none)
unfolding sys_dup2 sys_close dupfd
sys_dup2_self fd f s low at used =
    let s' = record s {
      filp = update s.filp fd none;
      close_on_exec = clear_bit s.close_on_exec fd;
    } in
    let (s'', e, p, q) = drop_file-ok f s' used in
    let closed : s''.filp fd ≡ none = ap (λ t. t fd) p ∙ update_self s.filp fd none in
    let back : dupfd fd fd s'' ≡ (ebadf, s'') = rw (lt→not-leb nr_open fd low, closed) refl in
    let shut : sys_close fd s ≡ ok (pos 0, s'') = rw (lt→not-leb nr_open fd low, at, e) refl in
    (s'', rw (shut, back) refl, closed)
