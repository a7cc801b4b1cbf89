-- ===== src/Mempool.antt =====
-- mempool/mempool.go, mempool/message.go and mempool/synchronizer.go: blocks of
-- transactions are stored, sent to the others, put in the queue, and taken from it for consensus blocks.
pub mod Wire
pub mod Handlers
pub mod Capacity
pub mod Payloads
pub mod Sync
pub mod Waiters
pub mod Waiter
pub mod Kept
use s_mvba.Base.{
  ℕ, suc, ◌-◌, ◌^◌, ◌≤◌, ℤ, pos, negsuc, Bool, Option, none, some, List, [], ◌∷◌, ◌++◌, Map, leb,
  length, digest_eq, insert,
}
use s_mvba.Error.{
  Error, Outcome, ok, err, panic, not_found_key, external, M, pure, fail, ◌>>=◌, ◌>>◌, gets, when,
  modify,
}
use s_mvba.Committee.{Committee, Parameters, name, none_id}
use s_mvba.Crypto.{
  Bytes, Digest, Primitives, Hasher, new_hasher, add, sum256, Signature, SigService,
  request_signature, verify_signature,
}
use s_mvba.Crypto.Binary.{append_int2}
use s_mvba.Pool.{Transaction, Batch}

pub record Block : Type 0 where
  pub proposer : ℤ
  pub batch : Batch
  pub signature : Signature

-- What goes over the network. The block of an `OtherBlockMsg` is a pointer, and can be nil.
pub data MempoolMessage : Type 0 where
  own_block : Block → MempoolMessage
  other_block : Option Block → MempoolMessage
  request_block : List Digest → ℤ → MempoolMessage

-- What goes to the synchronizer: missing payloads, the author, the epoch and the block; or an epoch.
pub data SyncMessage : Type 0 where
  sync_block : List Digest → ℤ → ℤ → Digest → SyncMessage
  sync_clean_up_block : ℕ → SyncMessage

pub data VerifyStatus : Type 0 where
  status_ok status_wait status_reject : VerifyStatus

-- `uint64(x)` of an int64.
abbrev pub uint64 : ℤ → ℕ
uint64 (pos n) = n
uint64 (negsuc n) = 2 ^ 64 - suc n

-- gob, the methods of the store, `GetBatch`, and the order in which `range` reads the keys of a map, over
-- the state `W` of what lies behind them.
pub record Disk (W : Type 0) : Type 0 where
  pub encode : Block → Option Bytes
  pub decode : Bytes → Option Block
  pub write : Digest → Bytes → W → Option Error × W
  pub read : Digest → W → Outcome Bytes
  pub get_batch : W → Batch × W
  pub range : List Digest → W → List Digest

-- The fields that do not change.
pub record MempoolSite : Type 0 where
  pub name : ℤ
  pub committee : Committee
  pub parameters : Parameters
  pub sig_service : SigService

pub record Mempool (W : Type 0) : Type 0 where
  pub queue : Map Digest (Unit {0})
  pub actual_queue : List Digest
  pub own_pay_load : List Block
  pub world : W
  -- Messages to nodes (`none_id` for all others) and to the own channel, the newest first.
  pub sent : List (ℤ × MempoolMessage)
  pub own : List MempoolMessage
  -- The channel to the synchronizer, the newest first.
  pub inter_chan : List SyncMessage

unfoldable pub new_mempool : {W : Type 0} → W → Mempool W
new_mempool w = record {
  queue = [];
  actual_queue = [];
  own_pay_load = [];
  world = w;
  sent = [];
  own = [];
  inter_chan = [];
}

add_txs : Hasher → List Transaction → Hasher
add_txs h [] = h
add_txs h (tx ∷ txs) = add_txs (add h tx) txs

unfoldable pub payload_hash : Primitives → ℤ → Batch → Digest
unfolding new_hasher add sum256 add_txs
payload_hash cr proposer batch =
    let h = add (add new_hasher (append_int2 proposer)) (append_int2 batch.id) in
    (sum256 cr (add_txs h batch.txs) []).0

unfoldable pub new_block : Primitives → SigService → ℤ → Batch → Block
new_block cr sigs proposer batch = record {
  proposer = proposer;
  batch = batch;
  signature = request_signature cr sigs (payload_hash cr proposer batch);
}

unfoldable pub verify_block : Primitives → Committee → Block → Outcome Bool
verify_block cr c b =
    verify_signature cr b.signature (name c b.proposer) (payload_hash cr b.proposer b.batch)
