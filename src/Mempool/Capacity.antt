-- ===== src/Mempool/Capacity.antt =====
-- The queue of mempool/mempool.go never holds more than `MaxQueenSize` digests.
use s_mvba.Base.{
  ◌+◌, ◌≤◌, ℤ, Option, none, some, List, [], ◌∷◌, ◌≡◌, refl, Map, length, digest_eq, insert, delete,
  arith,
}
use s_mvba.Error.{Outcome, ok, err, panic, bind_outcome, ◌>>=◌, ◌>>◌, modify}
use s_mvba.Crypto.{Digest, Primitives}
use s_mvba.Mempool.{
  Block, own_block, other_block, request_block, Disk, MempoolSite, Mempool, new_mempool,
  payload_hash, new_block,
}
use s_mvba.Mempool.Handlers.{
  store_block, get_block, payload_process, handle_own_block, handle_othor_block,
  handle_request_block, handle_make_block_msg, handle_clean_block, handle_verify_msg,
  generate_block, handle_message, handle_input, run_mempool, delete_all, take_keys, keys_of,
  after_input, MempoolInput, make_block, verify, clean, network, batch_made,
}

delete-shorter : (d : Digest) (q : Map Digest (Unit {0})) → length (delete d q) ≤ length q
unfolding delete
delete-shorter d [] = omega arith
delete-shorter d (e ∷ q) = ground (arith, delete-shorter d q)

delete_all-shorter :
    (ds : List Digest) (q : Map Digest (Unit {0})) → length (delete_all ds q) ≤ length q
unfolding delete_all
delete_all-shorter [] q = omega arith
delete_all-shorter (d ∷ ds) q =
    omega (arith, delete-shorter d q, delete_all-shorter ds (delete d q))

insert-longer : (d : Digest) (q : Map Digest (Unit {0})) → length (insert d tt q) ≤ length q + 1
unfolding insert
insert-longer d [] = omega arith
insert-longer d (e ∷ q) = ground (arith, insert-longer d q)

module _ {W : Type 0} (dk : Disk W) (cr : Primitives) (n : MempoolSite) where
  abbrev Bounded : Mempool W → Type 0
  Bounded s = length s.queue ≤ n.parameters.max_queen_size

  store_block-queue : (b : Block) (s : Mempool W) → (store_block dk cr n b s).1.queue ≡ s.queue
  unfolding store_block
  store_block-queue b s = ground arith

  payload_process-queue :
      (b : Block) (s : Mempool W) → (payload_process dk cr n b s).1.queue ≡ s.queue
  unfolding payload_process ◌>>=◌
  payload_process-queue b s = ground (arith, store_block-queue b s)

  own-Bounded : (b : Block) (s : Mempool W) → Bounded s → Bounded (handle_own_block dk cr n b s).1
  unfolding handle_own_block ◌>>=◌
  own-Bounded b s h =
      ground (
        arith,
        payload_process-queue b s,
        insert-longer (payload_hash cr b.proposer b.batch) s.queue,
      )

  othor-Bounded :
      (b : Option Block) (s : Mempool W) → Bounded s → Bounded (handle_othor_block dk cr n b s).1
  unfolding handle_othor_block get_block ◌>>=◌
  othor-Bounded none s h = h
  othor-Bounded (some b) s h =
      ground
        (arith, store_block-queue b s, insert-longer (payload_hash cr b.proposer b.batch) s.queue)

  request_bounded :
      (ds : List Digest) (author : ℤ) (s : Mempool W)
      → (handle_request_block dk cr n ds author s).1.queue ≡ s.queue
  unfolding handle_request_block get_block ◌>>=◌
  request_bounded [] author s = refl
  request_bounded (d ∷ ds) author s =
      go (λ t. request_bounded ds author t) (get_block dk cr n d s).0
    where
      go :
          ((t : Mempool W) → (handle_request_block dk cr n ds author t).1.queue ≡ t.queue)
          → (o : Outcome (Option Block))
          → (bind_outcome o
              (λ b.
                modify (λ s'. record s' { sent = (author, other_block b) ∷ s'.sent })
                >> handle_request_block dk cr n ds author)
              s).1.queue
            ≡ s.queue
      go rest (ok b) = rest (record s { sent = (author, other_block b) ∷ s.sent })
      go rest (err e) = refl
      go rest panic = refl

  make-Bounded :
      (nums : ℤ) (s : Mempool W) → Bounded s → Bounded (handle_make_block_msg dk cr n nums s).1
  unfolding handle_make_block_msg ◌>>=◌
  make-Bounded nums s h = ground (
    arith,
    payload_process-queue (new_block cr n.sig_service n.name (dk.get_batch s.world).0)
        (record s { world = (dk.get_batch s.world).1 }),
    delete_all-shorter (take_keys nums (dk.range (keys_of s.queue) s.world)) s.queue,
  )

  input-Bounded :
      (i : MempoolInput) (s : Mempool W) → Bounded s → Bounded (handle_input dk cr n i s).1
  unfolding handle_input handle_clean_block handle_verify_msg generate_block handle_message ◌>>=◌
  input-Bounded (make_block nums) s h = ground (arith, make-Bounded nums s h)
  input-Bounded (verify proposer epoch ds hash) s h = ground arith
  input-Bounded (clean ds epoch) s h = omega (arith, delete_all-shorter ds s.queue)
  input-Bounded (network (own_block b)) s h = own-Bounded b s h
  input-Bounded (network (other_block b)) s h = othor-Bounded b s h
  input-Bounded (network (request_block ds author)) s h =
      ground (arith, request_bounded ds author s)
  input-Bounded (batch_made b) s h = ground arith

  run-Bounded :
      (is : List MempoolInput) (s : Mempool W) → Bounded s → Bounded (run_mempool dk cr n is s).1
  unfolding run_mempool
  run-Bounded [] s h = h
  run-Bounded (i ∷ is) s h =
      go (λ t g. run-Bounded is t g) (handle_input dk cr n i s) (input-Bounded i s h)
    where
      go :
          ((t : Mempool W) → Bounded t → Bounded (run_mempool dk cr n is t).1)
          → (r : Outcome (Unit {0}) × Mempool W) → Bounded r.1
          → Bounded (after_input dk cr n r (run_mempool dk cr n is)).1
      go rest (ok _, t) g = rest t g
      go rest (err _, t) g = rest t g
      go rest (panic, t) g = g

  -- Whatever inputs a new mempool meets, its queue never holds more than `MaxQueenSize` digests.
  pub queue_bounded :
      (w : W) (is : List MempoolInput)
      → length (run_mempool dk cr n is (new_mempool w)).1.queue ≤ n.parameters.max_queen_size
  unfolding new_mempool
  queue_bounded w is = run-Bounded is (new_mempool w) (omega arith)
