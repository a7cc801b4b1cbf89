-- ===== src/Mempool/Kept.antt =====
-- No handler of mempool/mempool.go makes a value of the store unreadable.
use s_mvba.Base.{ℤ, Option, none, some, List, [], ◌∷◌, false, ◌≡◌, arith}
use s_mvba.Error.{Outcome, ok, err, panic, bind_outcome, ◌>>=◌, ◌>>◌, modify}
use s_mvba.Crypto.{Bytes, Digest, Primitives}
use s_mvba.Mempool.{
  Block, own_block, other_block, request_block, Disk, MempoolSite, Mempool, payload_hash, new_block,
}
use s_mvba.Mempool.Handlers.{
  store_encoded, store_block, get_block, payload_process, handle_own_block, handle_othor_block,
  is_error, handle_request_block, handle_make_block_msg, handle_clean_block, handle_verify_msg,
  missing, verified, generate_block, handle_message, handle_input, MempoolInput, make_block, verify,
  clean, network, batch_made,
}

module _ {W : Type 0} (dk : Disk W) (cr : Primitives) (n : MempoolSite) where
  abbrev pub Readable : W → Digest → Type 0
  Readable w d = is_error dk cr n (dk.read d w) ≡ false

  -- A write, and taking a batch, leave what can be read readable.
  pub record DiskKeeps : Type 0 where
    pub write_keeps :
        (k : Digest) (v : Bytes) (w : W) (d : Digest) → Readable w d → Readable (dk.write k v w).1 d
    pub batch_keeps : (w : W) (d : Digest) → Readable w d → Readable (dk.get_batch w).1 d

  module _ (disk : DiskKeeps) (d : Digest) where
    abbrev Reads : Mempool W → Type 0
    Reads s = Readable s.world d

    store_block-Reads : (b : Block) (s : Mempool W) → Reads s → Reads (store_block dk cr n b s).1
    unfolding store_block
    store_block-Reads b s h = go (dk.encode b)
      where
        go :
            (v : Option Bytes)
            → Reads (store_encoded dk cr n (payload_hash cr b.proposer b.batch) v s).1
        go none = h
        go (some v) = disk.write_keeps (payload_hash cr b.proposer b.batch) v s.world d h

    payload_process-Reads :
        (b : Block) (s : Mempool W) → Reads s → Reads (payload_process dk cr n b s).1
    unfolding payload_process ◌>>=◌
    payload_process-Reads b s h = ground (arith, store_block-Reads b s)

    own-Reads : (b : Block) (s : Mempool W) → Reads s → Reads (handle_own_block dk cr n b s).1
    unfolding handle_own_block ◌>>=◌
    own-Reads b s h = ground (arith, payload_process-Reads b s)

    othor-Reads :
        (b : Option Block) (s : Mempool W) → Reads s → Reads (handle_othor_block dk cr n b s).1
    unfolding handle_othor_block get_block ◌>>=◌
    othor-Reads none s h = h
    othor-Reads (some b) s h = ground (arith, store_block-Reads b s)

    request-Reads :
        (ds : List Digest) (author : ℤ) (s : Mempool W)
        → Reads s
        → Reads (handle_request_block dk cr n ds author s).1
    unfolding handle_request_block get_block ◌>>=◌
    request-Reads [] author s h = h
    request-Reads (e ∷ ds) author s h =
        go (λ t. request-Reads ds author t) (get_block dk cr n e s).0
      where
        go :
            ((t : Mempool W) → Reads t → Reads (handle_request_block dk cr n ds author t).1)
            → (o : Outcome (Option Block))
            → Reads
                (bind_outcome o
                  (λ b.
                    modify (λ s'. record s' { sent = (author, other_block b) ∷ s'.sent })
                    >> handle_request_block dk cr n ds author)
                  s).1
        go rest (ok b) = rest (record s { sent = (author, other_block b) ∷ s.sent }) h
        go rest (err e) = h
        go rest panic = h

    pub make-Reads :
        (nums : ℤ) (s : Mempool W) → Reads s → Reads (handle_make_block_msg dk cr n nums s).1
    unfolding handle_make_block_msg ◌>>=◌
    make-Reads nums s h = ground (
      arith,
      payload_process-Reads (new_block cr n.sig_service n.name (dk.get_batch s.world).0)
          (record s { world = (dk.get_batch s.world).1 }),
      disk.batch_keeps s.world d h,
    )

    pub verify-Reads :
        (p e : ℤ) (ds : List Digest) (hash : Digest) (s : Mempool W)
        → Reads s
        → Reads (handle_verify_msg dk cr n p e ds hash s).1
    unfolding handle_verify_msg
    verify-Reads p e ds hash s h = go (missing dk cr n ds s.world)
      where
        go : (ds : List Digest) → Reads (verified dk cr n p e hash ds s).1
        go [] = h
        go (x ∷ xs) = h

    pub input-Reads :
        (i : MempoolInput) (s : Mempool W) → Reads s → Reads (handle_input dk cr n i s).1
    unfolding handle_input handle_clean_block handle_verify_msg generate_block handle_message ◌>>=◌
    input-Reads (make_block nums) s h = ground (arith, make-Reads nums s)
    input-Reads (verify p e ds hash) s h = ground (arith, verify-Reads p e ds hash s)
    input-Reads (clean ds epoch) s h = h
    input-Reads (network (own_block b)) s h = own-Reads b s h
    input-Reads (network (other_block b)) s h = othor-Reads b s h
    input-Reads (network (request_block ds author)) s h = request-Reads ds author s h
    input-Reads (batch_made b) s h = ground arith
