-- ===== src/Mempool/Sync.antt =====
-- `Run` of mempool/synchronizer.go: one round of its loop for each input. The time is in milliseconds,
-- and the waiter of a block, which reads all missing payloads by `NotifyRead`, is a name on a list.
use s_mvba.Base.{
  ℕ, ◌-◌, ℤ, Option, none, some, List, [], ◌∷◌, ◌++◌, Map, lookup, insert, delete, digest_eq,
  bytes_eq, leb, ltb, if◌then◌else◌,
}
use s_mvba.Committee.{none_id}
use s_mvba.Crypto.{Digest, zero_digest}
use s_mvba.Mempool.{
  MempoolMessage, request_block, SyncMessage, sync_block, sync_clean_up_block, uint64,
}

-- What `pending` holds of a block.
pub record Entry : Type 0 where
  pub epoch : ℕ
  pub last_send : ℕ
  pub missing : List Digest
  pub author : ℤ

pub record Synchronizer : Type 0 where
  pub pending : Map Digest Entry
  -- The blocks for which a waiter was started, and those whose `Notify` was closed, newest first.
  pub started : List Digest
  pub closed : List Digest
  pub sent : List (ℤ × MempoolMessage)
  pub loop_back_chan : List Digest

unfoldable pub new_synchronizer : Synchronizer
new_synchronizer = record {
  pending = [];
  started = [];
  closed = [];
  sent = [];
  loop_back_chan = [];
}

-- What the `select` of the loop yields.
pub data SyncInput : Type 0 where
  inter : SyncMessage → SyncInput
  waiting : Digest → SyncInput
  tick : SyncInput

-- The keys of the entries of an epoch or an earlier one.
unfoldable pub old_keys : ℕ → Map Digest Entry → List Digest
old_keys epoch [] = []
old_keys epoch ((key, v) ∷ m) =
    let rest = old_keys epoch m in if leb v.epoch epoch then key ∷ rest else rest

unfoldable pub delete_keys : List Digest → Map Digest Entry → Map Digest Entry
delete_keys [] m = m
delete_keys (key ∷ ks) m = delete_keys ks (delete key m)

module _ (name : ℤ) (retry_delay : ℕ) (now : ℕ) where
  abbrev start_request : List Digest → ℤ → ℤ → Digest → Option Entry → Synchronizer → Synchronizer
  start_request missing author epoch hash (some v) s = s
  start_request missing author epoch hash none s = record s {
    pending =
        insert hash
          (record { epoch = uint64 epoch; last_send = now; missing = missing; author = author })
          s.pending;
    started = hash ∷ s.started;
    sent = (author, request_block missing name) ∷ s.sent;
  }

  unfoldable pub sync_clean_up : ℕ → Synchronizer → Synchronizer
  sync_clean_up epoch s =
      let ks = old_keys epoch s.pending in
      record s { pending = delete_keys ks s.pending; closed = ks ++ s.closed }

  -- A waiter that was closed answers the zero digest.
  unfoldable pub sync_answered : Digest → Synchronizer → Synchronizer
  sync_answered block s =
      if bytes_eq block zero_digest
      then s
      else record s { pending = delete block s.pending; loop_back_chan = block ∷ s.loop_back_chan }

  -- The requests that are due go to all others, and their time is set.
  unfoldable pub due_entries : Map Digest Entry → Map Digest Entry
  due_entries [] = []
  due_entries ((key, v) ∷ m) =
      let rest = due_entries m in
      if ltb retry_delay (now - v.last_send)
      then (key, record v { last_send = now }) ∷ rest
      else (key, v) ∷ rest

  unfoldable pub due_requests : Map Digest Entry → List (ℤ × MempoolMessage)
  due_requests [] = []
  due_requests ((key, v) ∷ m) =
      let rest = due_requests m in
      if ltb retry_delay (now - v.last_send)
      then (none_id, request_block v.missing name) ∷ rest
      else rest

  unfoldable pub sync_step : SyncInput → Synchronizer → Synchronizer
  sync_step (inter (sync_block missing author epoch hash)) s =
      start_request missing author epoch hash (lookup hash s.pending) s
  sync_step (inter (sync_clean_up_block epoch)) s = sync_clean_up epoch s
  sync_step (waiting block) s = sync_answered block s
  sync_step tick s = record s {
    pending = due_entries s.pending;
    sent = due_requests s.pending ++ s.sent;
  }

-- Each input comes with its time.
unfoldable pub sync_run : ℤ → ℕ → List (ℕ × SyncInput) → Synchronizer → Synchronizer
sync_run name retry_delay [] s = s
sync_run name retry_delay ((now, i) ∷ is) s =
    sync_run name retry_delay is (sync_step name retry_delay now i s)
