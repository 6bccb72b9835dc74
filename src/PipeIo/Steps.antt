-- ===== src/PipeIo/Steps.antt =====
-- fs/pipe.c: readers and writers of one pipe, in any order.
use mathlib.Core.List.{append_assoc, append-nil, append_cancel_left, append_cancel_right}
use hit_os.Common.{ℕ, ◌<◌, ◌≡◌, sym, ap, ◌∙◌, List, [], ◌++◌, some, length}
use hit_os.Sched.{Kernel, WaitQueue}
use hit_os.PipeIo.{Pipe, Progress, read_pipe, write_pipe}
use hit_os.PipeIo.Window.{IsPipe, contents}
use hit_os.PipeIo.Read.{IsRead, read_pipe-IsRead}
use hit_os.PipeIo.Write.{IsWritten, write_pipe-IsWritten}

-- From `p`, readers and writers have come to another state of the pipe. A step is a call, or what is
-- left of one that has slept, up to its end or to where it sleeps; between two of them the rest of the
-- kernel, the wait queue and the number of users change in any way. `input` is what the writers have
-- put in, `output` what the readers have got.
pub data Steps (p : Pipe) : (input output : List ℕ) → Pipe → Type 0 where
  start : Steps p [] [] p
  reading :
      {input output : List ℕ} {q : Pipe} (fuel count : ℕ) (buf got : List ℕ)
      (r : Progress × List ℕ × ℕ × Pipe)
      → Steps p input output q
      → count < fuel
      → read_pipe fuel count buf q ≡ some r
      → r.1 ≡ buf ++ got
      → Steps p input (output ++ got) r.3
  writing :
      {input output : List ℕ} {q : Pipe} (fuel : ℕ) (buf : List ℕ) (written : ℕ) (put : List ℕ)
      (r : Progress × List ℕ × ℕ × Pipe)
      → Steps p input output q
      → length buf < fuel
      → write_pipe fuel buf written q ≡ some r
      → buf ≡ put ++ r.1
      → Steps p (input ++ put) output r.3
  between :
      {input output : List ℕ} {q : Pipe} (k : Kernel) (queue : WaitQueue) (users : ℕ)
      → Steps p input output q
      → Steps p input output (record q { kernel = k; i_wait = queue; i_count = users })

read_pipe-front :
    (fuel count : ℕ) (buf got : List ℕ) (q : Pipe) (r : Progress × List ℕ × ℕ × Pipe)
    → IsPipe q
    → count < fuel
    → read_pipe fuel count buf q ≡ some r
    → r.1 ≡ buf ++ got
    → (contents q ≡ got ++ contents r.3) × IsPipe r.3
read_pipe-front fuel count buf got q r ring less e split =
    let (r', e', k') = read_pipe-IsRead fuel count buf q ring less in
    let same : r ≡ r' = cc in
    let k : IsRead count buf q r = rw same k' in
    let taken : k.taken ≡ got = append_cancel_left buf k.taken got (sym k.got ∙ split) in
    (k.front ∙ ap (λ (l : List ℕ). l ++ contents r.3) taken, k.pipe)

write_pipe-back :
    (fuel : ℕ) (buf : List ℕ) (written : ℕ) (put : List ℕ) (q : Pipe)
    (r : Progress × List ℕ × ℕ × Pipe)
    → IsPipe q
    → length buf < fuel
    → write_pipe fuel buf written q ≡ some r
    → buf ≡ put ++ r.1
    → (contents r.3 ≡ contents q ++ put) × IsPipe r.3
write_pipe-back fuel buf written put q r ring less e split =
    let (r', e', k') = write_pipe-IsWritten fuel buf written q ring less in
    let same : r ≡ r' = cc in
    let k : IsWritten buf written q r = rw same k' in
    let taken : k.put ≡ put = append_cancel_right k.put put r.1 (sym k.split ∙ split) in
    (k.appended ∙ ap (λ (l : List ℕ). contents q ++ l) taken, k.pipe)

-- In whatever order readers and writers of a pipe with its head and tail in range run, sleep and go
-- on: what was in the pipe, with what they have put in, is what they have got, with what is in the
-- pipe, in the same order; and head and tail stay in range.
pub Steps-Fifo :
    {p q : Pipe} {input output : List ℕ}
    → IsPipe p
    → Steps p input output q
    → (contents p ++ input ≡ output ++ contents q) × IsPipe q
unfolding contents
Steps-Fifo {p} ring start = (append-nil (contents p), ring)
Steps-Fifo {p} ring (reading {input} {output} {q} fuel count buf got r steps less e split) =
    let (held, ring') = Steps-Fifo ring steps in
    let (front, ring'') = read_pipe-front fuel count buf got q r ring' less e split in
    (
      held ∙ ap (λ (l : List ℕ). output ++ l) front ∙ sym (append_assoc output got (contents r.3)),
      ring'',
    )
Steps-Fifo {p} ring (writing {input} {output} {q} fuel buf written put r steps less e split) =
    let (held, ring') = Steps-Fifo ring steps in
    let (back, ring'') = write_pipe-back fuel buf written put q r ring' less e split in
    (
      sym (append_assoc (contents p) input put)
          ∙ ap (λ (l : List ℕ). l ++ put) held
          ∙ append_assoc output (contents q) put
          ∙ ap (λ (l : List ℕ). output ++ l) (sym back),
      ring'',
    )
Steps-Fifo {p} ring (between {q = q} k queue users steps) =
    let (held, ring') = Steps-Fifo ring steps in
    (held, record { head_in = ring'.head_in; tail_in = ring'.tail_in })
