-- ===== src/PipeIo/Write.antt =====
-- fs/pipe.c: `write_pipe` puts bytes behind those of the pipe.
use Prim.Native.Nat.{bit_or}
use mathlib.Core.List.{append_assoc, append-nil}
use hit_os.Common.{
  ℕ, none, zero, suc, ◌+◌, ◌-◌, ◌^◌, ◌<◌, ◌≡◌, refl, sym, ap, ◌∙◌, ◌≢◌, List, [], ◌∷◌, ◌++◌, arith,
  ◌⊎◌, inl, inr, length, length-append, true, false, not, some, ◌==◌, ==→eq, if◌then◌else◌,
}
use hit_os.Common.Int.{pos, negsuc}
use hit_os.Task.{Task}
use hit_os.Sched.{Kernel, WaitQueue, wake_task, modify_current}
use hit_os.PipeIo.{
  Pipe, Progress, returns, page_size, pipe_size, write_chars, write_chunk, write_pipe, wake_others,
  wait, broken, put_chars,
}
use hit_os.PipeIo.Window.{IsPipe, contents, window, length-window, put_chars_lem}
use hit_os.PipeIo.Rounds.{
  IsSame, IsSame-trans, wake_others-IsSame, wait-IsSame, IsAwake, IsAsleep, wake_others-IsAwake,
  wait-IsAsleep, contents-IsSame, IsPipe-IsSame, round_cases,
}

-- The sleeper of the queue `o` has been woken, and the current task has been sent SIGPIPE, signal 13.
pub record IsBroken (k : Kernel) (o : WaitQueue) (q : Pipe) : Type 0 where
  pub kernel :
      q.kernel
      ≡ modify_current
          (λ (t : Task). record t { signal = bit_or t.signal (2 ^ 12) })
          (wake_task o k)
  pub queue : q.i_wait ≡ none

broken-IsBroken : (k : Kernel) (o : WaitQueue) (w : Pipe) → IsAwake k o w → IsBroken k o (broken w)
broken-IsBroken k o w awake = record {
  kernel =
      ap
        (λ (k : Kernel).
          modify_current (λ (t : Task). record t { signal = bit_or t.signal (2 ^ 12) }) k)
        awake.kernel;
  queue = awake.queue;
}

-- What a write makes of the pipe, where `written` bytes are written and `buf` is left: it has put a
-- part off the front of `buf` behind the bytes of the pipe. It returns the number of bytes where none
-- is left, and also, or -1 if it is 0, where the pipe is full and has no other user; where the pipe
-- is full and has another user it falls asleep (or panics, if task 0 has called). In each case the sleeper
-- of the queue has been woken, and where there is no other user SIGPIPE has been sent.
pub record IsWritten (buf : List ℕ) (written : ℕ) (p : Pipe) (r : Progress × List ℕ × ℕ × Pipe)
    : Type 0 where
  pub put : List ℕ
  pub split : buf ≡ put ++ r.1
  pub appended : contents r.3 ≡ contents p ++ put
  pub counted : r.2 ≡ written + length put
  pub end :
      ((r.1 ≡ []) × (r.0 ≡ returns (pos r.2)) × IsAwake p.kernel p.i_wait r.3)
      ⊎ ((length (contents r.3) ≡ 4095)
          × (p.i_count ≢ 2)
          × (r.0 ≡ returns (if r.2 == 0 then negsuc 0 else pos r.2))
          × IsBroken p.kernel p.i_wait r.3)
      ⊎ ((length (contents r.3) ≡ 4095) × (p.i_count ≡ 2) × IsAsleep p.kernel p.i_wait r.0 r.3)
  pub pipe : IsPipe r.3
  pub users : r.3.i_count ≡ p.i_count

write_chunk_lem :
    (buf : List ℕ) (p : Pipe)
    → IsPipe p
    → (front : List ℕ) × (buf ≡ front ++ (write_chunk buf p).0)
      × (length front ≡ write_chars (length buf) p)
      × (contents (write_chunk buf p).1 ≡ contents p ++ front)
unfolding contents write_chunk pipe_size
write_chunk_lem buf p ring =
    let n = write_chars (length buf) p in
    let (front, split, size, held) =
      put_chars_lem n p.page p.head p.tail (pipe_size p) buf
        (omega (arith, ring.head_in, ring.tail_in)) (omega (arith, ring.head_in))
        (omega (arith, ring.head_in, ring.tail_in)) (omega arith) in
    (
      front,
      split,
      size,
      ap (window (put_chars n p.page p.head buf).0 p.tail)
            (omega (arith, ring.head_in, ring.tail_in))
          ∙ held,
    )

write_chunk-IsPipe : (buf : List ℕ) (p : Pipe) → IsPipe p → IsPipe (write_chunk buf p).1
unfolding write_chunk
write_chunk-IsPipe buf p r = record { head_in = omega arith; tail_in = r.tail_in }

-- A pipe with the same bytes, to which nothing has been put.
none-IsWritten :
    (buf : List ℕ) (written : ℕ) (p q : Pipe) (progress : Progress)
    → IsPipe p
    → IsSame p q
    → ((buf ≡ []) × (progress ≡ returns (pos written)) × IsAwake p.kernel p.i_wait q)
      ⊎ ((length (contents p) ≡ 4095)
          × (p.i_count ≢ 2)
          × (progress ≡ returns (if written == 0 then negsuc 0 else pos written))
          × IsBroken p.kernel p.i_wait q)
      ⊎ ((length (contents p) ≡ 4095) × (p.i_count ≡ 2) × IsAsleep p.kernel p.i_wait progress q)
    → IsWritten buf written p (progress, buf, written, q)
none-IsWritten buf written p q progress ring s e =
    let same = contents-IsSame p q s in
    record {
      put = [];
      split = refl;
      appended = same ∙ sym (append-nil (contents p));
      counted = omega arith;
      end = rw same e;
      pipe = IsPipe-IsSame p q s ring;
      users = s.i_count;
    }

write_chunk-IsWritten :
    (buf : List ℕ) (written : ℕ) (p : Pipe) (r : Progress × List ℕ × ℕ × Pipe)
    → IsPipe p
    → (let (left, p') = write_chunk buf p in
        IsWritten left (written + (length buf - length left)) p' r)
    → IsWritten buf written p r
unfolding write_chunk
write_chunk-IsWritten buf written p r ring k =
    let (left, p') = write_chunk buf p in
    let (front, split, size, held) = write_chunk_lem buf p ring in
    record {
      put = front ++ k.put;
      split = split ∙ ap (λ (l : List ℕ). front ++ l) k.split ∙ sym (append_assoc front k.put r.1);
      appended =
          k.appended ∙ ap (λ (l : List ℕ). l ++ k.put) held ∙ append_assoc (contents p) front k.put;
      counted =
          omega (
            arith,
            k.counted,
            ap length split,
            length-append front left,
            length-append front k.put,
          );
      end = k.end;
      pipe = k.pipe;
      users = k.users;
    }

pipe_size-lt : (p : Pipe) → pipe_size p < 2 ^ 12
unfolding pipe_size
pipe_size-lt p = omega arith

write_chunk-less :
    (fuel : ℕ) (buf : List ℕ) (p : Pipe)
    → IsPipe p
    → length buf < suc fuel
    → (length buf == 0) ≡ false
    → not (pipe_size p == page_size - 1) ≡ true
    → length (write_chunk buf p).0 < fuel
write_chunk-less fuel buf p ring h d l =
    let (front, split, size, held) = write_chunk_lem buf p ring in
    ground (
      arith,
      ap length split,
      length-append front (write_chunk buf p).0,
      size,
      ring.head_in,
      pipe_size-lt p,
    )

contents-full : (p : Pipe) → not (pipe_size p == page_size - 1) ≡ false → length (contents p) ≡ 4095
unfolding contents
contents-full p l = length-window p.page p.tail (pipe_size p) ∙ ground arith

length-nil : (l : List ℕ) → length l ≡ 0 → l ≡ []
length-nil [] e = refl
length-nil (c ∷ l) e = absurd (omega arith)

-- From a pipe with its head and tail in range, a call of `write_pipe`, or what is left of one, comes
-- to its end (fuel above the number of bytes is enough) and writes behind the bytes of the pipe.
pub write_pipe-IsWritten :
    (fuel : ℕ) (buf : List ℕ) (written : ℕ) (p : Pipe)
    → IsPipe p
    → length buf < fuel
    → (r : Progress × List ℕ × ℕ × Pipe) × (write_pipe fuel buf written p ≡ some r)
      × IsWritten buf written p r
unfolding write_pipe
write_pipe-IsWritten zero buf written p ring h = absurd (omega arith)
write_pipe-IsWritten (suc fuel) buf written p ring h =
    let w = wake_others p in
    let awake = wake_others-IsSame p in
    let left = (write_chunk buf p).0 in
    let more = written + (length buf - length left) in
    round_cases (IsWritten buf written p) (length buf == 0) (not (pipe_size p == page_size - 1))
      (w.i_count == 2) (write_pipe fuel left more (write_chunk buf p).1)
      (returns (pos written), buf, written, w)
      (returns (if written == 0 then negsuc 0 else pos written), buf, written, broken w)
      ((wait w).0, buf, written, (wait w).1)
      (λ d.
        none-IsWritten buf written p w (returns (pos written)) ring awake
          (inl (length-nil buf (==→eq (length buf) 0 d), refl, wake_others-IsAwake p)))
      (λ d l.
        (let (r, e, k) =
            write_pipe-IsWritten fuel left more (write_chunk buf p).1
              (write_chunk-IsPipe buf p ring) (write_chunk-less fuel buf p ring h d l) in
          (r, e, write_chunk-IsWritten buf written p r ring k)))
      (λ d l u.
        none-IsWritten buf written p (broken w) _ ring
          (IsSame-trans p w (broken w) awake
            (record { page = refl; head = refl; tail = refl; i_count = refl }))
          (inr (
            inl (
              contents-full p l,
              ground (arith, awake.i_count),
              refl,
              broken-IsBroken p.kernel p.i_wait w (wake_others-IsAwake p),
            ))))
      (λ d l u.
        none-IsWritten buf written p (wait w).1 (wait w).0 ring
          (IsSame-trans p w (wait w).1 awake (wait-IsSame w))
          (inr (
            inr (
              contents-full p l,
              ground (arith, awake.i_count),
              wait-IsAsleep p w (wake_others-IsAwake p),
            ))))
