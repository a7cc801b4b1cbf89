-- ===== src/Mempool/Handlers.antt =====
-- The handlers of mempool/mempool.go, its main loop, and `Verify` of mempool/synchronizer.go.
use s_mvba.Base.{
  suc, ◌-◌, ℤ, pos, negsuc, Bool, true, false, not, Option, none, some, List, [], ◌∷◌, ◌++◌, map,
  Map, leb, length, digest_eq, insert, delete, eqz, if◌then◌else◌,
}
use s_mvba.Error.{
  Error, Outcome, ok, err, panic, not_found_key, external, full_memory, M, pure, fail, crash, ◌>>=◌,
  ◌>>◌, gets, when, modify,
}
use s_mvba.Committee.{none_id}
use s_mvba.Crypto.{Bytes, Digest, Primitives}
use s_mvba.Pool.{Batch}
use s_mvba.Mempool.{
  Block, MempoolMessage, own_block, other_block, request_block, sync_block, sync_clean_up_block,
  VerifyStatus, status_ok, status_wait, uint64, Disk, MempoolSite, Mempool, payload_hash, new_block,
  verify_block,
}

-- `x - 1` of an int.
abbrev dec : ℤ → ℤ
dec (pos n) = if leb 1 n then pos (n - 1) else negsuc 0
dec (negsuc n) = negsuc (suc n)

-- The loop over the queue: it stops when the counter gets to 0.
unfoldable pub take_keys : ℤ → List Digest → List Digest
take_keys nums [] = []
take_keys nums (key ∷ keys) =
    let rest = take_keys (dec nums) keys in if eqz (dec nums) (pos 0) then key ∷ [] else key ∷ rest

unfoldable pub delete_all : List Digest → Map Digest (Unit {0}) → Map Digest (Unit {0})
delete_all [] q = q
delete_all (key ∷ keys) q = delete_all keys (delete key q)

abbrev pub keys_of : Map Digest (Unit {0}) → List Digest
keys_of = map (λ (e : Digest × Unit {0}). e.0)

module _ {W : Type 0} (dk : Disk W) (cr : Primitives) (n : MempoolSite) where
  abbrev send_to : ℤ → MempoolMessage → M (Mempool W) (Unit {0})
  send_to node m = modify (λ s. record s { sent = (node, m) ∷ s.sent })

  abbrev written : Option Error → Outcome (Unit {0})
  written none = ok tt
  written (some e) = err e

  abbrev pub store_encoded : Digest → Option Bytes → M (Mempool W) (Unit {0})
  store_encoded key none s = (err (external 1), s)
  store_encoded key (some v) s =
      let (e, w) = dk.write key v s.world in (written e, record s { world = w })

  unfoldable pub store_block : Block → M (Mempool W) (Unit {0})
  store_block b = store_encoded (payload_hash cr b.proposer b.batch) (dk.encode b)

  abbrev decoded : Option Block → Outcome (Option Block)
  decoded none = err (external 2)
  decoded (some b) = ok (some b)

  abbrev found : Outcome Bytes → Outcome (Option Block)
  found (ok v) = decoded (dk.decode v)
  found (err not_found_key) = ok none
  found (err e) = err e
  found panic = panic

  -- A missing key is no error: the block is nil.
  unfoldable pub get_block : Digest → M (Mempool W) (Option Block)
  get_block d s = (found (dk.read d s.world), s)

  -- `len(m.Queue) >= m.Parameters.MaxQueenSize`.
  abbrev pub is_full : Mempool W → Bool
  is_full s = leb n.parameters.max_queen_size (length s.queue)

  abbrev unless_full : M (Mempool W) (Unit {0}) → M (Mempool W) (Unit {0})
  unless_full m = do full ← gets is_full; if full then fail (full_memory n.name) else m

  unfoldable pub payload_process : Block → M (Mempool W) (Unit {0})
  payload_process b = unless_full do store_block b; send_to none_id (other_block (some b))

  abbrev enqueue : Digest → M (Mempool W) (Unit {0})
  enqueue d =
      modify
        (λ s. record s { queue = insert d tt s.queue; actual_queue = s.actual_queue ++ d ∷ [] })

  unfoldable pub handle_own_block : Block → M (Mempool W) (Unit {0})
  handle_own_block b =
      unless_full do payload_process b; enqueue (payload_hash cr b.proposer b.batch)

  -- What follows the look-up: any answer without an error, nil included, counts as received.
  abbrev if_new : Block → Outcome (Option Block) → M (Mempool W) (Unit {0})
  if_new b (ok _) = pure tt
  if_new b (err _) = do store_block b; enqueue (payload_hash cr b.proposer b.batch)
  if_new b panic = crash

  abbrev if_verified : Block → Outcome Bool → M (Mempool W) (Unit {0})
  if_verified b (ok true) s =
      let (o, t) = get_block (payload_hash cr b.proposer b.batch) s in if_new b o t
  if_verified b (ok false) s = (ok tt, s)
  if_verified b (err e) s = (err e, s)
  if_verified b panic s = (panic, s)

  -- A nil block is dereferenced.
  abbrev receive_other : Option Block → M (Mempool W) (Unit {0})
  receive_other none = crash
  receive_other (some b) = unless_full (if_verified b (verify_block cr n.committee b))

  unfoldable pub handle_othor_block : Option Block → M (Mempool W) (Unit {0})
  handle_othor_block b = receive_other b

  unfoldable pub handle_request_block : List Digest → ℤ → M (Mempool W) (Unit {0})
  handle_request_block [] author = pure tt
  handle_request_block (d ∷ ds) author = do
    b ← get_block d
    send_to author (other_block b)
    handle_request_block ds author

  abbrev next_batch : M (Mempool W) Batch
  next_batch s = let (b, w) = dk.get_batch s.world in (ok b, record s { world = w })

  -- With an empty queue, a block of the next batch, which can be the empty one.
  abbrev make_own : M (Mempool W) (List Digest)
  make_own = do
    batch ← next_batch
    payload_process (new_block cr n.sig_service n.name batch)
    pure (payload_hash cr n.name batch ∷ [])

  abbrev make_queued : ℤ → M (Mempool W) (List Digest)
  make_queued nums s =
      let ret = take_keys nums (dk.range (keys_of s.queue) s.world) in
      (ok ret, record s { queue = delete_all ret s.queue })

  unfoldable pub handle_make_block_msg : ℤ → M (Mempool W) (List Digest)
  handle_make_block_msg nums s = if leb (length s.queue) 0 then make_own s else make_queued nums s

  unfoldable pub handle_clean_block : List Digest → ℤ → M (Mempool W) (Unit {0})
  handle_clean_block ds epoch s = (
    ok tt,
    record s {
      queue = delete_all ds s.queue;
      inter_chan = sync_clean_up_block (uint64 epoch) ∷ s.inter_chan;
    },
  )

  abbrev pub is_error : Outcome Bytes → Bool
  is_error (ok v) = false
  is_error _ = true

  -- The loop of `Verify`.
  unfoldable pub missing : List Digest → W → List Digest
  missing [] w = []
  missing (d ∷ ds) w = let rest = missing ds w in if is_error (dk.read d w) then d ∷ rest else rest

  abbrev pub verified : ℤ → ℤ → Digest → List Digest → M (Mempool W) VerifyStatus
  verified proposer epoch hash [] s = (ok status_ok, s)
  verified proposer epoch hash (d ∷ ds) s = (
    ok status_wait,
    record s { inter_chan = sync_block (d ∷ ds) proposer epoch hash ∷ s.inter_chan },
  )

  unfoldable pub handle_verify_msg : ℤ → ℤ → List Digest → Digest → M (Mempool W) VerifyStatus
  handle_verify_msg proposer epoch digests hash s =
      verified proposer epoch hash (missing digests s.world) s

  -- One batch of `generateBlocks`.
  unfoldable pub generate_block : Batch → M (Mempool W) (Unit {0})
  generate_block batch =
      let b = new_block cr n.sig_service n.name batch in
      when (not (eqz batch.id (negsuc 0))) (
        modify
          (λ s. record s { own_pay_load = s.own_pay_load ++ b ∷ []; own = own_block b ∷ s.own }))

-- What the main loop and `generateBlocks` meet.
pub data MempoolInput : Type 0 where
  make_block : ℤ → MempoolInput
  verify : ℤ → ℤ → List Digest → Digest → MempoolInput
  clean : List Digest → ℤ → MempoolInput
  network : MempoolMessage → MempoolInput
  batch_made : Batch → MempoolInput

module _ {W : Type 0} (dk : Disk W) (cr : Primitives) (n : MempoolSite) where
  unfoldable pub handle_message : MempoolMessage → M (Mempool W) (Unit {0})
  handle_message (own_block b) = handle_own_block dk cr n b
  handle_message (other_block b) = handle_othor_block dk cr n b
  handle_message (request_block ds author) = handle_request_block dk cr n ds author

  -- The replies on the channels of the requests are left out.
  unfoldable pub handle_input : MempoolInput → M (Mempool W) (Unit {0})
  handle_input (make_block nums) = do _ ← handle_make_block_msg dk cr n nums; pure tt
  handle_input (verify proposer epoch ds hash) = do
    _ ← handle_verify_msg dk cr n proposer epoch ds hash
    pure tt
  handle_input (clean ds epoch) = handle_clean_block dk cr n ds epoch
  handle_input (network m) = handle_message m
  handle_input (batch_made b) = generate_block dk cr n b

  abbrev pub after_input :
      Outcome (Unit {0}) × Mempool W
      → (Mempool W → Outcome (Unit {0}) × Mempool W)
      → Outcome (Unit {0}) × Mempool W
  after_input (ok _, s) k = k s
  after_input (err _, s) k = k s
  after_input (panic, s) k = (panic, s)

  -- An error is logged and the loop goes on; a panic ends the process.
  unfoldable pub run_mempool : List MempoolInput → M (Mempool W) (Unit {0})
  run_mempool [] s = (ok tt, s)
  run_mempool (i ∷ is) s = let rest = run_mempool is in after_input (handle_input i s) rest
