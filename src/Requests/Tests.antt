-- ===== src/Requests/Tests.antt =====
-- kernel/blk_drv/ll_rw_blk.c on two buffers, and witnesses.
use hit_os.Common.{
  ℕ, ◌+◌, ◌≡◌, refl, arith, true, false, Option, none, some, List, [], ◌∷◌, ◌++◌, inl, inr, ok,
  ◌==◌, if◌then◌else◌,
}
use hit_os.Requests.{
  Buffer, BlkDev, Reached, blk_dev_init, filled, take_entry, set_lock, clean, put_queue,
  queue_request, ll_rw_block, add_request, Request,
}
use hit_os.Requests.Elevator.{none_left, first}
use hit_os.Requests.Order.{IsSwept, ended, up, turn, add_request-IsSwept}
use hit_os.Requests.Entries.{Queues, queue_request-Queues}

-- Buffers of the hard disk, each of another device, with block 5.
abbrev buffers : ℕ → Buffer
buffers b = record {
  b_blocknr = 5;
  b_dev = 0x300 + b;
  b_uptodate = false;
  b_dirt = false;
  b_lock = false;
}

-- Only the hard disk has a driver, which starts the drive.
abbrev drivers : ℕ → Option (BlkDev → BlkDev)
drivers m = if m == 3 then some (λ d. d) else none

-- The last entry is taken for a read of buffer 1.
abbrev one_read : BlkDev
one_read =
    let held = set_lock true 1 (blk_dev_init buffers) in
    put_queue 3 (filled 0 31 1 (held.buffer 1) ∷ []) (clean (some 1) (take_entry 31 held))

reads : ll_rw_block drivers 0 1 (blk_dev_init buffers) ≡ ok (Reached.finished, one_read)
unfolding ll_rw_block
reads = refl

-- Sectors of the hard disk: 9 and then, on the way back, 2 are waited for behind 5. 7 goes in between.
abbrev at : ℕ → Request
at n = record {
  entry = n;
  dev = 0x301;
  cmd = 0;
  errors = 0;
  sector = n;
  nr_sectors = 2;
  bh = some n;
}

add_request-IsSwept_example :
    (l1 : List Request) × (l2 : List Request) × ((at 9 ∷ at 2 ∷ []) ≡ l1 ++ l2)
    × (add_request (λ d. d) 3 (at 7) (at 5 ∷ at 9 ∷ at 2 ∷ []) one_read
        ≡ put_queue 3 (at 5 ∷ (l1 ++ (at 7 ∷ l2))) (clean (some 7) one_read))
    × IsSwept 1 (at 5) (l1 ++ (at 7 ∷ l2))
add_request-IsSwept_example =
    add_request-IsSwept (λ d. d) 3 (at 7) (at 5) (at 9 ∷ at 2 ∷ []) one_read
      (inr (inr (refl, inr (refl, omega arith))))
      (first (inl (inr (refl, inr (refl, omega arith))))
        (first (inr (inr (refl, inr (refl, omega arith)))) none_left))
      (up (inr (refl, inr (refl, omega arith))) (turn (inr (refl, inr (refl, omega arith))) ended))

-- A write for buffer 2, while the read is served.
queue_request-Queues_example :
    Queues 1 2 3 false
      (filled 0 31 1 (record (buffers 1) { b_lock = true }))
      []
      one_read
      (queue_request (λ d. d) 3 1 false 2 one_read)
queue_request-Queues_example =
    queue_request-Queues (λ d. d) 1 2 3 false (filled 0 31 1 (record (buffers 1) { b_lock = true }))
      [] one_read refl
