-- ===== src/Pool.antt =====
-- pool/pool.go: transactions are gathered in a ring of `maxQueueSize` places and leave it in
-- batches. The maker of transactions, its clock and the channels' capacities are not modelled:
-- `run` is given the transactions in the order in which they come out of `txChannel`.
pub mod Ring
pub mod Fifo
pub mod Maker
use s_mvba.Base.{
  ℕ, zero, suc, ◌+◌, ◌-◌, ◌*◌, ◌%◌, ℤ, int64, negsuc, Bool, true, false, Option, none, some, List,
  [], ◌∷◌, ◌++◌, set, get_or, replicate, leb, ◌==◌, if◌then◌else◌,
}

abbrev pub Transaction : Type 0
Transaction = List ℕ

pub record Batch : Type 0 where
  pub id : ℤ
  pub txs : List Transaction

pub record TxQueue : Type 0 where
  pub queue : List Transaction
  -- The place that is written next.
  pub wind : ℕ
  -- The place that was read last; `none` is -1.
  pub rind : Option ℕ
  pub nums : ℕ
  pub max_queue_size : ℕ
  pub batch_size : ℕ
  pub n : ℕ
  pub id : ℕ
  pub bcnt : ℕ

unfoldable pub new_tx_queue : ℕ → ℕ → ℕ → ℕ → TxQueue
new_tx_queue max_queue_size batch_size n id = record {
  queue = replicate max_queue_size [];
  wind = 0;
  rind = none;
  nums = 0;
  max_queue_size = max_queue_size;
  batch_size = batch_size;
  n = n;
  id = id;
  bcnt = 0;
}

-- `(q.rind + 1) % q.maxQueueSize`.
abbrev pub next_rind : Option ℕ → ℕ → ℕ
next_rind none m = 0 % m
next_rind (some r) m = (r + 1) % m

-- The loop of `make`, of which `k` rounds are left.
unfoldable pub take_batch : ℕ → TxQueue → List Transaction → List Transaction × TxQueue
take_batch zero q txs = (txs, q)
take_batch (suc k) q txs =
    let r = next_rind q.rind q.max_queue_size in
    take_batch k (record q { rind = some r; nums = q.nums - 1 }) (txs ++ get_or q.queue r [] ∷ [])

-- The batch that goes to `batchChannel`. Its number is an `int`, which wraps around; as sums and products
-- wrap to the same number wherever that happens, `bcnt` itself is kept exact.
unfoldable pub make_batch : TxQueue → Batch × TxQueue
make_batch q =
    let (txs, q') = take_batch q.batch_size q [] in
    (record { id = int64 (q.id + q.n * q.bcnt); txs = txs }, record q' { bcnt = q'.bcnt + 1 })

abbrev is_full : TxQueue → Option ℕ → Bool
is_full q none = false
is_full q (some r) = q.wind == r

abbrev write_tx : Transaction → TxQueue → TxQueue
write_tx tx q = record q {
  queue = set q.queue q.wind tx;
  wind = (q.wind + 1) % q.max_queue_size;
  nums = q.nums + 1;
}

abbrev flush : TxQueue → List Batch × TxQueue
flush q = let (b, q') = make_batch q in (b ∷ [], q')

-- One round of `run`: a transaction that finds the ring full is dropped.
unfoldable pub add_tx : Transaction → TxQueue → List Batch × TxQueue
add_tx tx q =
    let q1 = write_tx tx q in
    if is_full q q.rind then ([], q) else if leb q.batch_size q1.nums then flush q1 else ([], q1)

unfoldable pub run_queue : List Transaction → TxQueue → List Batch × TxQueue
run_queue [] q = ([], q)
run_queue (tx ∷ txs) q =
    let (bs, q') = add_tx tx q in let (cs, q'') = run_queue txs q' in (bs ++ cs, q'')

-- `get`, over the batches that wait in `batchChannel`.
unfoldable pub get_batch : List Batch → Batch × List Batch
get_batch [] = (record { id = negsuc 0; txs = [] }, [])
get_batch (b ∷ bs) = (b, bs)
