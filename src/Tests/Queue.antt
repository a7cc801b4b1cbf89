-- ===== src/Tests/Queue.antt =====
-- The queue of pool/pool.go on concrete transactions.
use s_mvba.Base.{
  int64, max_int64, ◌-◌, ◌<◌, pos, negsuc, List, [], ◌∷◌, ◌++◌, ◌≡◌, refl, some, length, arith,
}
use s_mvba.Pool.{
  Transaction, TxQueue, new_tx_queue, add_tx, make_batch, take_batch, run_queue, get_batch,
}
use s_mvba.Pool.Ring.{pending}
use s_mvba.Pool.Fifo.{contents, Numbered, run_queue_lem}

abbrev seven : List Transaction
seven = (1 ∷ []) ∷ (2 ∷ []) ∷ (3 ∷ []) ∷ (4 ∷ []) ∷ (5 ∷ []) ∷ (6 ∷ []) ∷ (7 ∷ []) ∷ []

-- Batches of two in a ring of three, for node 1 of 4.
run_queue_lem_example :
    let (bs, q) = run_queue seven (new_tx_queue 3 2 4 1) in
    (contents bs ++ pending q ≡ seven) × Numbered 1 4 2 0 bs q.bcnt × (length (pending q) < 2)
run_queue_lem_example = run_queue_lem 3 2 4 1 seven (omega arith) (omega arith)

-- Batches as large as the ring: after the first one and two more transactions the ring counts as full.
abbrev stuck : TxQueue
stuck =
    (run_queue ((1 ∷ []) ∷ (2 ∷ []) ∷ (3 ∷ []) ∷ (4 ∷ []) ∷ (5 ∷ []) ∷ []) (new_tx_queue 3 3 4 1)).1

stuck_lem : (stuck.rind ≡ some stuck.wind) × (stuck.nums ≡ 2)
unfolding run_queue add_tx make_batch take_batch new_tx_queue
stuck_lem = (refl, refl)

first_batch :
    (get_batch (run_queue seven (new_tx_queue 3 2 4 1)).0).0
    ≡ record { id = pos 1; txs = (1 ∷ []) ∷ (2 ∷ []) ∷ [] }
unfolding get_batch run_queue add_tx make_batch take_batch new_tx_queue int64
first_batch = refl

-- The second number of the node with the largest id does not fit.
wrapped :
    (get_batch (run_queue seven (new_tx_queue 3 2 4 max_int64)).0).1
    ≡ record { id = negsuc (max_int64 - 3); txs = (3 ∷ []) ∷ (4 ∷ []) ∷ [] }
      ∷ record { id = negsuc (max_int64 - 7); txs = (5 ∷ []) ∷ (6 ∷ []) ∷ [] }
      ∷ []
unfolding get_batch run_queue add_tx make_batch take_batch new_tx_queue int64
wrapped = refl

no_batch : (get_batch []).0 ≡ record { id = negsuc 0; txs = [] }
unfolding get_batch
no_batch = refl
