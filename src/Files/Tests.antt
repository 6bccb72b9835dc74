-- ===== src/Files/Tests.antt =====
-- Runs of the calls on descriptors 0, 1 (file 0) and 2 (file 1).
use hit_os.Common.{ℕ, ◌+◌, ◌≡◌, refl, Option, none, some, arith, ok, update, []}
use hit_os.Common.Int.{ℤ, pos}
use hit_os.Files.Defs.{
  File, Files, sys_close, sys_dup, sys_dup2, sys_pipe, sys_fcntl, pipe_files, second_file,
  free_file, find_first, pipe_next, pipe_last, pipe_descriptors, second_descriptor, free_descriptor,
  join_ends,
}
use hit_os.Files.Uses.{uses, one_if_refers}
use hit_os.Files.Counts.{IsCounted, sys_close-IsCounted, sys_dup2-IsCounted}
use hit_os.Files.Pipe.{PipeResult, sys_pipe_cases}

abbrev descriptors : ℕ → Option ℕ
descriptors = update (update (update (λ _. none) 0 (some 0)) 1 (some 0)) 2 (some 1)

abbrev table : ℕ → File
table f = record {
  f_mode = 3;
  f_flags = 0;
  f_count = one_if_refers (some 0) f + one_if_refers (some 0) f + one_if_refers (some 1) f;
  f_inode = 10 + f;
  f_pos = pos 0;
}

abbrev three_open : Files
three_open = record { filp = descriptors; close_on_exec = 0; file_table = table; put = [] }

abbrev alone : ℕ → ℕ
alone f = 0

three_open-IsCounted : IsCounted alone three_open
unfolding uses
three_open-IsCounted = record { counted = λ f. omega arith; small = λ f. omega arith }

run_dup : (sys_dup 2 three_open).0 ≡ pos 3
unfolding sys_dup
run_dup = refl

run_fcntl : (sys_fcntl 0 0 7 three_open).0 ≡ pos 7
unfolding sys_fcntl
run_fcntl = refl

run_pipe : (sys_pipe (some 9) three_open).0 ≡ some (3, 4)
unfolding sys_pipe pipe_files second_file free_file find_first pipe_next pipe_last pipe_descriptors
    second_descriptor free_descriptor join_ends
run_pipe = refl

sys_close-IsCounted_example :
    (r : ℤ) × (s' : Files) × (sys_close 1 three_open ≡ ok (r, s')) × IsCounted alone s'
sys_close-IsCounted_example = sys_close-IsCounted alone 1 three_open three_open-IsCounted

sys_pipe_cases_example : PipeResult (some 9) three_open (sys_pipe (some 9) three_open)
sys_pipe_cases_example = sys_pipe_cases (some 9) three_open

sys_dup2-IsCounted_example :
    (r : ℤ) × (s' : Files) × (sys_dup2 2 1 three_open ≡ ok (r, s')) × IsCounted alone s'
sys_dup2-IsCounted_example = sys_dup2-IsCounted alone 2 1 three_open three_open-IsCounted
