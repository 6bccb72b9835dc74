-- ===== src/PipeIo/Read.antt =====
-- fs/pipe.c: `read_pipe` takes bytes off the front.
use hit_os.Common.{
  ℕ, zero, suc, ◌+◌, ◌-◌, ◌%◌, ◌<◌, ◌≡◌, refl, sym, ap, ◌∙◌, ◌≢◌, List, [], ◌++◌, arith, ◌⊎◌, inl,
  inr, length, length-append, true, false, not, some, ◌==◌, ==→eq,
}
use mathlib.Core.List.{append_assoc, append-nil}
use hit_os.Common.Int.{pos}
use hit_os.PipeIo.{
  Pipe, Progress, returns, page_size, pipe_size, read_chars, read_chunk, read_pipe, wake_others,
  wait,
}
use hit_os.PipeIo.Window.{
  IsPipe, contents, window, length-window, window-append, window-mod, get_bytes_lem,
}
use hit_os.PipeIo.Rounds.{
  IsSame, wake_others-IsSame, wait-IsSame, IsAwake, IsAsleep, wake_others-IsAwake, wait-IsAsleep,
  contents-IsSame, IsPipe-IsSame, IsSame-trans, round_cases,
}

-- What a read makes of the pipe, where `buf` has been read and `count` bytes are wanted: it has taken
-- bytes off the front. It returns their number where it has got all that are wanted, or where the
-- pipe is empty and has no other user; where the pipe is empty and has another user it falls asleep (or
-- panics, if task 0 has called). In each case the sleeper of the queue has been woken.
pub record IsRead (count : ℕ) (buf : List ℕ) (p : Pipe) (r : Progress × List ℕ × ℕ × Pipe)
    : Type 0 where
  pub taken : List ℕ
  pub got : r.1 ≡ buf ++ taken
  pub front : contents p ≡ taken ++ contents r.3
  pub counted : length taken + r.2 ≡ count
  pub end :
      ((r.2 ≡ 0) × (r.0 ≡ returns (pos (length r.1))) × IsAwake p.kernel p.i_wait r.3)
      ⊎ ((contents r.3 ≡ [])
          × (p.i_count ≢ 2)
          × (r.0 ≡ returns (pos (length r.1)))
          × IsAwake p.kernel p.i_wait r.3)
      ⊎ ((contents r.3 ≡ []) × (p.i_count ≡ 2) × IsAsleep p.kernel p.i_wait r.0 r.3)
  pub pipe : IsPipe r.3
  pub users : r.3.i_count ≡ p.i_count

read_chunk_lem :
    (count : ℕ) (p : Pipe)
    → IsPipe p
    → contents p ≡ (read_chunk count p).0 ++ contents (read_chunk count p).1
unfolding contents read_chunk pipe_size
read_chunk_lem count p r =
    let n = read_chars count p in
    let size = pipe_size p in
    let after = (let q : Pipe = record p { tail = (p.tail + n) % page_size } in q) in
    let split : size ≡ n + pipe_size after = omega (arith, r.head_in, r.tail_in) in
    ap (window p.page p.tail) split
    ∙ window-append p.page p.tail n (pipe_size after)
    ∙ rw
        (
          get_bytes_lem n p.page p.tail (omega (arith, r.tail_in)),
          window-mod p.page ((p.tail + n) % page_size) (p.tail + n) (pipe_size after) (omega arith),
        )
        refl

read_chunk-length :
    (count : ℕ) (p : Pipe) → IsPipe p → length (read_chunk count p).0 ≡ read_chars count p
unfolding read_chunk
read_chunk-length count p r =
    let n = read_chars count p in
    ap length (get_bytes_lem n p.page p.tail (omega (arith, r.tail_in)))
    ∙ length-window p.page p.tail n

read_chunk-IsPipe : (count : ℕ) (p : Pipe) → IsPipe p → IsPipe (read_chunk count p).1
unfolding read_chunk
read_chunk-IsPipe count p r = record { head_in = r.head_in; tail_in = omega arith }

contents-empty : (p : Pipe) → pipe_size p ≡ 0 → contents p ≡ []
unfolding contents window
contents-empty p e = ap (window p.page p.tail) e

-- A pipe with the same bytes, from which nothing has been taken.
none-IsRead :
    (count : ℕ) (buf : List ℕ) (p q : Pipe) (progress : Progress)
    → IsPipe p
    → IsSame p q
    → ((count ≡ 0) × (progress ≡ returns (pos (length buf))) × IsAwake p.kernel p.i_wait q)
      ⊎ ((contents p ≡ [])
          × (p.i_count ≢ 2)
          × (progress ≡ returns (pos (length buf)))
          × IsAwake p.kernel p.i_wait q)
      ⊎ ((contents p ≡ []) × (p.i_count ≡ 2) × IsAsleep p.kernel p.i_wait progress q)
    → IsRead count buf p (progress, buf, count, q)
none-IsRead count buf p q progress r s e =
    let same = contents-IsSame p q s in
    record {
      taken = [];
      got = sym (append-nil buf);
      front = sym same;
      counted = omega arith;
      end = rw same e;
      pipe = IsPipe-IsSame p q s r;
      users = s.i_count;
    }

read_chunk-IsRead :
    (count : ℕ) (buf : List ℕ) (p : Pipe) (r : Progress × List ℕ × ℕ × Pipe)
    → IsPipe p
    → (let (chunk, p') = read_chunk count p in IsRead (count - length chunk) (buf ++ chunk) p' r)
    → IsRead count buf p r
unfolding read_chunk
read_chunk-IsRead count buf p r ring k =
    let (chunk, p') = read_chunk count p in
    let size = read_chunk-length count p ring in
    record {
      taken = chunk ++ k.taken;
      got = k.got ∙ append_assoc buf chunk k.taken;
      front =
          read_chunk_lem count p ring
          ∙ ap (λ (l : List ℕ). chunk ++ l) k.front
          ∙ sym (append_assoc chunk k.taken (contents r.3));
      counted = omega (arith, size, k.counted, length-append chunk k.taken);
      end = k.end;
      pipe = k.pipe;
      users = k.users;
    }

read_chunk-less :
    (fuel count : ℕ) (p : Pipe)
    → IsPipe p
    → count < suc fuel
    → (count == 0) ≡ false
    → not (pipe_size p == 0) ≡ true
    → count - length (read_chunk count p).0 < fuel
read_chunk-less fuel count p ring h d l =
    ground (arith, read_chunk-length count p ring, ring.tail_in)

-- From a pipe with its head and tail in range, a call of `read_pipe`, or what is left of one, comes to
-- its end (fuel above the number of bytes is enough) and reads off the front.
pub read_pipe-IsRead :
    (fuel count : ℕ) (buf : List ℕ) (p : Pipe)
    → IsPipe p
    → count < fuel
    → (r : Progress × List ℕ × ℕ × Pipe) × (read_pipe fuel count buf p ≡ some r)
      × IsRead count buf p r
unfolding read_pipe
read_pipe-IsRead zero count buf p ring h = absurd (omega arith)
read_pipe-IsRead (suc fuel) count buf p ring h =
    let w = wake_others p in
    let awake = wake_others-IsSame p in
    round_cases (IsRead count buf p) (count == 0) (not (pipe_size p == 0)) (w.i_count == 2)
      (read_pipe fuel (count - length (read_chunk count p).0) (buf ++ (read_chunk count p).0)
        (read_chunk count p).1)
      (returns (pos (length buf)), buf, count, w) (returns (pos (length buf)), buf, count, w)
      ((wait w).0, buf, count, (wait w).1)
      (λ d.
        none-IsRead count buf p w (returns (pos (length buf))) ring awake
          (inl (==→eq count 0 d, refl, wake_others-IsAwake p)))
      (λ d l.
        (let less : count - length (read_chunk count p).0 < fuel =
            read_chunk-less fuel count p ring h d l in
          let (r, e, k) =
            read_pipe-IsRead fuel (count - length (read_chunk count p).0)
              (buf ++ (read_chunk count p).0) (read_chunk count p).1
              (read_chunk-IsPipe count p ring) less in
          (r, e, read_chunk-IsRead count buf p r ring k)))
      (λ d l u. none-IsRead count buf p w (returns (pos (length buf))) ring awake (
        inr (
          inl (
            contents-empty p (ground arith),
            ground (arith, awake.i_count),
            refl,
            wake_others-IsAwake p,
          ))))
      (λ d l u.
        none-IsRead count buf p (wait w).1 (wait w).0 ring
          (IsSame-trans p w (wait w).1 awake (wait-IsSame w))
          (inr (
            inr (
              contents-empty p (ground arith),
              ground (arith, awake.i_count),
              wait-IsAsleep p w (wake_others-IsAwake p),
            ))))
