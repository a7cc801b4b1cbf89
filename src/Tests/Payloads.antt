-- ===== src/Tests/Payloads.antt =====
-- A mempool whose store is a map and whose queue holds four digests at most.
use s_mvba.Base.{
  ℕ, ◌≤◌, ◌↔◌, pos, true, false, Option, none, some, List, [], ◌∷◌, ◌≡◌, refl, All, Map, leb,
  length, lookup, insert, delete, digest_eq, bytes_eq, int_eq, eqz, if◌then◌else◌, arith,
}
use s_mvba.Error.{Outcome, ok, err, not_found_key, ◌>>=◌}
use s_mvba.Committee.{name}
use s_mvba.Crypto.{
  Bytes, Digest, Primitives, new_hasher, add, sum256, verify_signature, request_signature,
}
use s_mvba.Crypto.Binary.{append_int2}
use s_mvba.Pool.{Batch}
use s_mvba.Mempool.{
  Block, own_block, other_block, request_block, status_ok, Disk, MempoolSite, Mempool, new_mempool,
  payload_hash, new_block, verify_block,
}
use s_mvba.Mempool.Handlers.{
  handle_make_block_msg, handle_verify_msg, take_keys, keys_of, is_error, MempoolInput, make_block,
  clean, network, batch_made, run_mempool, handle_input, handle_message, handle_own_block,
  handle_request_block, handle_clean_block, payload_process, store_block, get_block, generate_block,
  delete_all,
}
use s_mvba.Mempool.Capacity.{queue_bounded}
use s_mvba.Mempool.Payloads.{has_digest, make_block_takes, verify_complete}
use s_mvba.Tests.Toy.{toy, four, sigs}

-- A digest is the text itself.
abbrev pub plain : Primitives
plain = record toy { sha256 = λ b. b }

abbrev pub Table : Type 0
Table = Map Digest Bytes

abbrev pub read_value : Option Bytes → Outcome Bytes
read_value none = err not_found_key
read_value (some v) = ok v

abbrev pub payload : ℕ → Batch
payload k = record { id = pos k; txs = (k ∷ []) ∷ [] }

abbrev pub disk : Disk Table
disk = record {
  encode = λ b. some (payload_hash plain b.proposer b.batch);
  decode = λ v. none;
  write = λ k v w. (none, insert k v w);
  read = λ k w. read_value (lookup k w);
  get_batch = λ w. (payload 5, w);
  range = λ keys w. keys;
}

abbrev pub node : MempoolSite
node = record {
  name = pos 0;
  committee = four;
  parameters = record { faults = pos 0; max_payload_size = pos 10; max_queen_size = 4 };
  sig_service = sigs;
}

abbrev own : ℕ → MempoolInput
own k = network (own_block (new_block plain sigs (pos 0) (payload k)))

abbrev inputs : List MempoolInput
inputs = own 1 ∷ own 2 ∷ make_block (pos 1) ∷ own 3 ∷ own 4 ∷ own 5 ∷ own 6 ∷ clean [] (pos 0) ∷ []

queue_bounded_example : length (run_mempool disk plain node inputs (new_mempool [])).1.queue ≤ 4
queue_bounded_example = queue_bounded disk plain node [] inputs

-- Three digests wait, and the first is in the store.
abbrev pub busy : Mempool Table
busy = record (new_mempool ((1 ∷ [], 9 ∷ []) ∷ [])) {
  queue = (1 ∷ [], tt) ∷ (2 ∷ [], tt) ∷ (3 ∷ [], tt) ∷ [];
}

make_block_takes_example :
    let keys = keys_of busy.queue in
    let ret = take_keys (pos 2) keys in
    ((handle_make_block_msg disk plain node (pos 2) busy).0 ≡ ok ret)
    × (length ret ≡ (if leb 2 (length keys) then 2 else length keys))
    × ((d : Digest)
        → lookup d (handle_make_block_msg disk plain node (pos 2) busy).1.queue
          ≡ (if has_digest d ret then none else lookup d busy.queue))
make_block_takes_example = make_block_takes disk plain node 2 busy (omega arith) (omega arith)

verify_complete_example :
    ((handle_verify_msg disk plain node (pos 1) (pos 0) ((1 ∷ []) ∷ (2 ∷ []) ∷ []) (7 ∷ []) busy).0
      ≡ ok status_ok)
    ↔ All
        (λ d. is_error disk plain node (disk.read d busy.world) ≡ false)
        ((1 ∷ []) ∷ (2 ∷ []) ∷ [])
verify_complete_example =
    verify_complete disk plain node (pos 1) (pos 0) ((1 ∷ []) ∷ (2 ∷ []) ∷ []) (7 ∷ []) busy

known : length (name four (pos 1)) ≡ 32
unfolding name lookup eqz
known = refl

abbrev received : Block
received = new_block plain sigs (pos 1) (payload 3)

received_verified : verify_block plain four received ≡ ok true
unfolding verify_block new_block payload_hash new_hasher add sum256 append_int2 verify_signature
    request_signature name lookup eqz bytes_eq
received_verified = refl

-- What is left of the queue after the inputs: the second block and the next three.
abbrev left : Mempool Table
left = (run_mempool disk plain node inputs (new_mempool [])).1

left_lem : (length left.queue ≡ 4) × (length left.actual_queue ≡ 5) × (length left.sent ≡ 5)
unfolding run_mempool handle_input handle_message handle_own_block handle_make_block_msg
    handle_clean_block payload_process store_block take_keys delete_all new_mempool new_block
    payload_hash new_hasher add sum256 append_int2 lookup insert bytes_eq request_signature delete
    eqz ◌>>=◌
left_lem = (refl, refl, refl)

abbrev asked : Mempool Table
asked =
    (run_mempool disk plain node
      (batch_made (payload 8) ∷ network (request_block ((4 ∷ []) ∷ []) (pos 2)) ∷ [])
      (new_mempool [])).1

asked_lem : (asked.sent ≡ (pos 2, other_block none) ∷ []) × (length asked.own ≡ 1)
unfolding run_mempool handle_input handle_message handle_request_block generate_block get_block
    new_mempool lookup eqz ◌>>=◌
asked_lem = (refl, refl)
