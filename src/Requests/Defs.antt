-- ===== src/Requests/Defs.antt =====
-- kernel/blk_drv/ll_rw_blk.c, and `end_request` of kernel/blk_drv/blk.h. A queue is the list of its
-- requests from `current_request` on, each with its place in the array; of the array itself, `used`
-- says which entries have a device. `request_fn` of a device, which starts it, is an argument. A call
-- comes to its end or to `sleep_on`: what is left then is the loop of `lock_buffer`, or the search for
-- an entry. `wake_up`, which tells those who sleep to look again, and `printk` are left out.
use hit_os.Common.{
  ℕ, zero, suc, ◌*◌, ◌/◌, ◌%◌, ◌^◌, Bool, true, false, not, ◌&&◌, ◌||◌, Option, none, some, List,
  [], ◌∷◌, Outcome, ok, panic, ltb, leb, ◌==◌, if◌then◌else◌, update,
}

-- Of `b_dev` 16 bits are kept, as an unsigned short does.
pub record Buffer : Type 0 where
  pub b_blocknr : ℕ
  pub b_dev : ℕ
  pub b_uptodate : Bool
  pub b_dirt : Bool
  pub b_lock : Bool

-- `buffer` is the data of `bh`, and `waiting` is NULL.
pub record Request : Type 0 where
  pub entry : ℕ
  pub dev : ℕ
  pub cmd : ℕ
  pub errors : ℕ
  pub sector : ℕ
  pub nr_sectors : ℕ
  pub bh : Option ℕ

pub record BlkDev : Type 0 where
  pub used : ℕ → Bool
  pub queue : ℕ → List Request
  pub buffer : ℕ → Buffer

abbrev pub nr_request : ℕ
nr_request = 32

abbrev pub read : ℕ
read = 0

abbrev pub write : ℕ
write = 1

-- No request, whatever the buffers hold.
abbrev pub blk_dev_init : (ℕ → Buffer) → BlkDev
blk_dev_init buffer = record { used = λ i. false; queue = λ m. []; buffer = buffer }

unfoldable pub in_order : Request → Request → Bool
in_order s1 s2 =
    ltb s1.cmd s2.cmd
    || ((s1.cmd == s2.cmd)
        && (ltb s1.dev s2.dev || ((s1.dev == s2.dev) && ltb s1.sector s2.sector)))

-- The loop from `tmp` on: what follows `tmp` when the request has been put in.
unfoldable pub insert_behind : (req tmp : Request) → List Request → List Request
unfolding in_order
insert_behind req tmp [] = req ∷ []
insert_behind req tmp (next ∷ l) =
    let rest = insert_behind req next l in
    if (in_order tmp req || not (in_order tmp next)) && in_order req next
    then req ∷ next ∷ l
    else next ∷ rest

abbrev pub set_buffer : ℕ → Buffer → BlkDev → BlkDev
set_buffer b v d = record d { buffer = update d.buffer b v }

abbrev pub clean : Option ℕ → BlkDev → BlkDev
clean none d = d
clean (some b) d = set_buffer b (record (d.buffer b) { b_dirt = false }) d

abbrev pub put_queue : ℕ → List Request → BlkDev → BlkDev
put_queue m l d = record d { queue = update d.queue m l }

-- The queue of the device is `tmp` and what follows it.
unfoldable pub add_request :
    (request_fn : BlkDev → BlkDev) (major : ℕ) → Request → List Request → BlkDev → BlkDev
unfolding insert_behind
add_request request_fn major req [] d = request_fn (put_queue major (req ∷ []) (clean req.bh d))
add_request request_fn major req (tmp ∷ l) d =
    put_queue major (tmp ∷ insert_behind req tmp l) (clean req.bh d)

-- The last free entry of the first `n`.
unfoldable pub find_request : (n : ℕ) → (ℕ → Bool) → Option ℕ
find_request zero used = none
find_request (suc n) used = let rest = find_request n used in if not (used n) then some n else rest

abbrev pub set_lock : Bool → ℕ → BlkDev → BlkDev
set_lock l b d = set_buffer b (record (d.buffer b) { b_lock = l }) d

-- Where a call has got to.
pub data Reached : Type 0 where
  finished : Reached
  sleeps_on_buffer : Reached
  sleeps_on_request : Reached

-- The request for buffer `b` in entry `i`.
abbrev pub filled : (cmd i b : ℕ) → Buffer → Request
filled cmd i b bh = record {
  entry = i;
  dev = bh.b_dev % 2 ^ 16;
  cmd = cmd;
  errors = 0;
  sector = bh.b_blocknr * 2 % 2 ^ 32;
  nr_sectors = 2;
  bh = some b;
}

abbrev pub take_entry : ℕ → BlkDev → BlkDev
take_entry i d = record d { used = update d.used i true }

-- Behind the search: with the entry that was found, if there is one.
unfoldable pub use_entry :
    (request_fn : BlkDev → BlkDev) (major cmd : ℕ) (rw_ahead : Bool) (b : ℕ)
    → Option ℕ
    → BlkDev
    → Reached × BlkDev
unfolding add_request
use_entry request_fn major cmd true b none d = (finished, set_lock false b d)
use_entry request_fn major cmd false b none d = (sleeps_on_request, d)
use_entry request_fn major cmd rw_ahead b (some i) d =
    let req = filled cmd i b (d.buffer b) in
    (finished, add_request request_fn major req (d.queue major) (take_entry i d))

-- make_request from the label `repeat` on, with the buffer locked.
unfoldable pub queue_request :
    (request_fn : BlkDev → BlkDev) (major cmd : ℕ) (rw_ahead : Bool) (b : ℕ)
    → BlkDev
    → Reached × BlkDev
unfolding find_request use_entry
queue_request request_fn major cmd rw_ahead b d =
    let n = if cmd == read then nr_request else nr_request * 2 / 3 in
    use_entry request_fn major cmd rw_ahead b (find_request n d.used) d

-- Locked, and with nothing to do, or on to the queue.
unfoldable pub locked_request :
    (request_fn : BlkDev → BlkDev) (major cmd : ℕ) (rw_ahead : Bool) (b : ℕ)
    → BlkDev
    → Reached × BlkDev
unfolding queue_request
locked_request request_fn major cmd rw_ahead b d =
    let bh = d.buffer b in
    if ((cmd == write) && not bh.b_dirt) || ((cmd == read) && bh.b_uptodate)
    then (finished, set_lock false b d)
    else queue_request request_fn major cmd rw_ahead b d

abbrev pub is_ahead : ℕ → Bool
is_ahead rw_cmd = (rw_cmd == 2) || (rw_cmd == 3)

-- READA is a READ, and WRITEA a WRITE.
abbrev pub cmd_of : ℕ → ℕ
cmd_of rw_cmd = if rw_cmd == 2 then read else if rw_cmd == 3 then write else rw_cmd

unfoldable pub make_request :
    (request_fn : BlkDev → BlkDev) (major rw_cmd b : ℕ) → BlkDev → Outcome (Reached × BlkDev)
unfolding locked_request
make_request request_fn major rw_cmd b d =
    if is_ahead rw_cmd && (d.buffer b).b_lock
    then ok (finished, d)
    else if not (cmd_of rw_cmd == read) && not (cmd_of rw_cmd == write)
    then panic
    else if (d.buffer b).b_lock
    then ok (sleeps_on_buffer, d)
    else ok
        (locked_request request_fn major (cmd_of rw_cmd) (is_ahead rw_cmd) b (set_lock true b d))

-- `request_fn` is none where it is NULL.
unfoldable pub ll_rw_block :
    (request_fn : ℕ → Option (BlkDev → BlkDev)) (rw_cmd b : ℕ) → BlkDev → Outcome (Reached × BlkDev)
unfolding make_request
ll_rw_block request_fn rw_cmd b d =
    let major = (d.buffer b).b_dev % 2 ^ 16 / 256 in
    if leb 7 major then ok (finished, d) else elim (request_fn major) [
      | none ↦ ok (finished, d)
      | some f ↦ make_request f major rw_cmd b d
    ]

abbrev pub give_back : (uptodate : Bool) → Option ℕ → BlkDev → BlkDev
give_back uptodate none d = d
give_back uptodate (some b) d =
    set_buffer b (record (d.buffer b) { b_uptodate = uptodate; b_lock = false }) d

-- A NULL `CURRENT` is followed by the code; `panic` stands for the fault.
unfoldable pub end_request : (major : ℕ) (uptodate : Bool) → BlkDev → Outcome BlkDev
end_request major uptodate d = elim (d.queue major) [
  | [] ↦ panic
  | req ∷ l ↦ ok (
      put_queue major l
        (record (give_back uptodate req.bh d) { used = update d.used req.entry false }))
]
