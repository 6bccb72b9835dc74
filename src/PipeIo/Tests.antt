-- ===== src/PipeIo/Tests.antt =====
-- fs/pipe.c at the end of the page, and witnesses.
use hit_os.Common.{ℕ, ◌≡◌, refl, arith, Option, none, some, List, [], ◌∷◌, ◌++◌}
use hit_os.Common.Int.{pos}
use hit_os.Sched.{Kernel}
use hit_os.PipeIo.{Pipe, Progress, returns, sleeps, panics, read_pipe, write_pipe}
use hit_os.PipeIo.Window.{IsPipe, contents}
use hit_os.PipeIo.Read.{IsRead, read_pipe-IsRead}
use hit_os.PipeIo.Write.{IsWritten, write_pipe-IsWritten}
use hit_os.PipeIo.Steps.{Steps, start, writing, Steps-Fifo}

abbrev kernel : Kernel
kernel = record { task = λ i. none; current = 1; jiffies = pos 0 }

-- Two bytes before the end of the page, with a reader and a writer.
abbrev empty : Pipe
empty = record {
  page = λ i. 0;
  head = 4094;
  tail = 4094;
  i_count = 2;
  i_wait = none;
  kernel = kernel;
}

empty-IsPipe : IsPipe empty
empty-IsPipe = record { head_in = omega arith; tail_in = omega arith }

abbrev abc : List ℕ
abc = b'a' ∷ b'b' ∷ b'c' ∷ []

abbrev seen : Option (Progress × List ℕ × ℕ × Pipe) → Option (Progress × List ℕ × ℕ × ℕ × ℕ)
seen none = none
seen (some (progress, buf, n, p)) = some (progress, buf, n, p.head, p.tail)

write_abc : seen (write_pipe 4 abc 0 empty) ≡ some (returns (pos 3), [], 3, 1, 4094)
unfolding write_pipe
write_abc = refl

-- The reader of an empty pipe sleeps.
read_empty : seen (read_pipe 3 2 [] empty) ≡ some (sleeps none, [], 2, 4094, 4094)
unfolding read_pipe
read_empty = refl

abbrev state_of : Option (Progress × List ℕ × ℕ × Pipe) → Progress × List ℕ × ℕ × Pipe
state_of none = (panics, [], 0, empty)
state_of (some r) = r

abbrev written : Progress × List ℕ × ℕ × Pipe
unfolding write_pipe
written = state_of (write_pipe 4 abc 0 empty)

write_step : Steps empty abc [] written.3
unfolding write_pipe
write_step = writing 4 abc 0 abc written start (omega arith) refl refl

Steps-Fifo_example : (contents empty ++ abc ≡ [] ++ contents written.3) × IsPipe written.3
Steps-Fifo_example = Steps-Fifo empty-IsPipe write_step

read_pipe-IsRead_example :
    (r : Progress × List ℕ × ℕ × Pipe) × (read_pipe 3 2 [] empty ≡ some r) × IsRead 2 [] empty r
read_pipe-IsRead_example = read_pipe-IsRead 3 2 [] empty empty-IsPipe (omega arith)

write_pipe-IsWritten_example :
    (r : Progress × List ℕ × ℕ × Pipe) × (write_pipe 4 abc 0 empty ≡ some r)
    × IsWritten abc 0 empty r
write_pipe-IsWritten_example = write_pipe-IsWritten 4 abc 0 empty empty-IsPipe (omega arith)
