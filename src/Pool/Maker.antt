-- ===== src/Pool/Maker.antt =====
-- pool/pool.go: the maker of transactions, a maker_tick of its clock at a time, and the pool around the queue.
-- Of negative rates and sizes nothing is modelled.
use native.Mathlib.Nat.{suc-mul}
use s_mvba.Base.{
  ℕ, zero, suc, ◌+◌, ◌*◌, ◌/◌, ◌<◌, List, [], ◌++◌, length, length-append, length-replicate,
  replicate, All, All-append, All-append_left, ◌≡◌, refl, sym, arith,
}
use s_mvba.Pool.{Transaction, Batch, TxQueue, new_tx_queue, run_queue, get_batch}
use s_mvba.Pool.Ring.{pending}
use s_mvba.Pool.Fifo.{contents, run_queue_lem}

pub record PoolParameters : Type 0 where
  pub rate : ℕ
  pub tx_size : ℕ
  pub batch_size : ℕ
  pub max_queue_size : ℕ

abbrev pub default_parameters : PoolParameters
default_parameters = record { rate = 1000; tx_size = 16; batch_size = 200; max_queue_size = 10000 }

pub record TxMaker : Type 0 where
  pub tx_size : ℕ
  pub rate : ℕ

abbrev pub precision : ℕ
precision = 20

-- What the maker writes to `txChannel` at one maker_tick of its clock, 50 milliseconds after the last.
unfoldable pub maker_tick : TxMaker → List Transaction
maker_tick maker = replicate (maker.rate / precision) (replicate maker.tx_size 0)

unfoldable pub run_maker : ℕ → TxMaker → List Transaction
run_maker zero maker = []
run_maker (suc ticks) maker = maker_tick maker ++ run_maker ticks maker

pub record Pool : Type 0 where
  pub parameters : PoolParameters
  pub queue : TxQueue
  pub maker : TxMaker
  pub batch_channel : List Batch

unfoldable pub new_pool : PoolParameters → ℕ → ℕ → Pool
new_pool parameters n id = record {
  parameters = parameters;
  queue = new_tx_queue parameters.max_queue_size parameters.batch_size n id;
  maker = record { tx_size = parameters.tx_size; rate = parameters.rate };
  batch_channel = [];
}

-- `Run`: what the maker wrote in a number of ticks has gone through the queue.
unfoldable pub run_pool : ℕ → Pool → Pool
run_pool ticks p =
    let (bs, q) = run_queue (run_maker ticks p.maker) p.queue in
    record p { queue = q; batch_channel = p.batch_channel ++ bs }

-- `GetBatch`.
unfoldable pub get_pool_batch : Pool → Batch × Pool
get_pool_batch p = let (b, bs) = get_batch p.batch_channel in (b, record p { batch_channel = bs })

length-run_maker :
    (ticks : ℕ) (maker : TxMaker)
    → length (run_maker ticks maker) ≡ ticks * (maker.rate / precision)
unfolding run_maker maker_tick
length-run_maker zero maker = omega arith
length-run_maker (suc ticks) maker =
    let made = maker.rate / precision in
    let tx : Transaction = replicate maker.tx_size 0 in
    rw
      (
        length-append (replicate made tx) (run_maker ticks maker),
        length-replicate made tx,
        length-run_maker ticks maker,
      )
      (omega (arith, suc-mul ticks made))

All-replicate : (n : ℕ) (tx : Transaction) → All (λ t. t ≡ tx) (replicate n tx)
All-replicate zero tx = tt
All-replicate (suc n) tx = (refl, All-replicate n tx)

run_maker-All :
    (ticks : ℕ) (maker : TxMaker)
    → All (λ tx. tx ≡ replicate maker.tx_size 0) (run_maker ticks maker)
unfolding run_maker maker_tick
run_maker-All zero maker = tt
run_maker-All (suc ticks) maker =
    All-append (λ tx. tx ≡ replicate maker.tx_size 0) (maker_tick maker) (run_maker ticks maker)
      (All-replicate (maker.rate / precision) (replicate maker.tx_size 0))
      (run_maker-All ticks maker)

-- After any number of ticks of a new pool, for 0 < batch size < queue size, the transactions in batches
-- and those that wait for a batch are rate / 20 for each maker_tick, fewer than a batch wait, and what is in
-- batches has the size of the parameters.
pub pool_rate :
    (ps : PoolParameters) (n id ticks : ℕ)
    → 0 < ps.batch_size
    → ps.batch_size < ps.max_queue_size
    → let p = run_pool ticks (new_pool ps n id) in
      (length (contents p.batch_channel) + length (pending p.queue) ≡ ticks * (ps.rate / 20))
      × (length (pending p.queue) < ps.batch_size)
      × All (λ tx. tx ≡ replicate ps.tx_size 0) (contents p.batch_channel)
unfolding run_pool new_pool
pool_rate ps n id ticks some fits =
    let maker : TxMaker = record { tx_size = ps.tx_size; rate = ps.rate } in
    let txs = run_maker ticks maker in
    let q0 = new_tx_queue ps.max_queue_size ps.batch_size n id in
    let bs = (run_queue txs q0).0 in
    let q = (run_queue txs q0).1 in
    let (order, numbered, few) = run_queue_lem ps.max_queue_size ps.batch_size n id txs some fits in
    let total : length (contents bs ++ pending q) ≡ ticks * (ps.rate / 20) =
      rw (order) (length-run_maker ticks maker) in
    (
      rw (sym (length-append (contents bs) (pending q))) total,
      few,
      All-append_left (λ tx. tx ≡ replicate ps.tx_size 0) (contents bs) (pending q)
          (rw (order) (run_maker-All ticks maker)),
    )
