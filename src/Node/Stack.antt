-- ===== src/Node/Stack.antt =====
-- A node of node/node.go down to the database: consensus and mempool over the store of store/store.go, over
-- store/nutsdb.go.
use s_mvba.Base.{Option, none, some, List, false, All, All-imp, lookup, int_eq, ◌∙◌, ◌≡◌, ◌≢◌, refl}
use s_mvba.Error.{Error, err, not_found_key}
use s_mvba.Crypto.{Bytes, Digest, Primitives}
use s_mvba.Pool.{Batch}
use s_mvba.Store.{Store, new_store}
use s_mvba.Store.Nuts.{Nuts, nuts_db, default_bucket}
use s_mvba.Store.Calls.{store_read, store_write, store_read_lem, store_write_lem, returned}
use s_mvba.Mempool.{Block, Disk, Mempool, new_mempool}
use s_mvba.Mempool.Handlers.{is_error}
use s_mvba.Mempool.Kept.{Readable, DiskKeeps}
use s_mvba.Message.{ConsensusBlock, Halt}
use s_mvba.Spb.{Site}
use s_mvba.Core.{Core, new_core, messgae_filter, handle_halt}
use s_mvba.Elector.{set_leader}
use s_mvba.Protocol.Commits.{committed}
use s_mvba.Protocol.Halting.{halt_lost}
use s_mvba.Node.{mempool_site, BlockGob, services_of, NodeInput, run_node}
use s_mvba.Node.Payloads.{committed-Stored}
use s_mvba.Store.Kept.{NutsLaws, InNuts, get-tx_get, put-InNuts}

-- gob for the blocks of the mempool, the pool's `GetBatch`, and the order of `range`, over a state `Q`.
pub record Around (D Q : Type 0) : Type 0 where
  pub encode : Block → Option Bytes
  pub decode : Bytes → Option Block
  pub get_batch : Q → Batch × Q
  pub range : List Digest → Store D × Q → List Digest

module _ {D Q : Type 0} (nuts : Nuts D) (around : Around D Q) where
  unfoldable pub stack_disk : Disk (Store D × Q)
  stack_disk = record {
    encode = around.encode;
    decode = around.decode;
    write = λ k v w. let (e, s) = store_write (nuts_db nuts) 0 k v w.0 in (e, (s, w.1));
    read = λ k w. (store_read (nuts_db nuts) 0 k w.0).0;
    get_batch = λ w. let (b, q) = around.get_batch w.1 in (b, (w.0, q));
    range = around.range;
  }

read-tx_get :
    {D Q : Type 0} (nuts : Nuts D) (around : Around D Q) (laws : NutsLaws nuts) (k : Bytes)
    (w : Store D × Q)
    → (stack_disk nuts around).read k w
      ≡ returned (nuts.tx_get default_bucket k w.0.db).0 (nuts.tx_get default_bucket k w.0.db).1
unfolding stack_disk nuts_db
read-tx_get nuts around laws k w =
    rw (store_read_lem (nuts_db nuts) 0 k w.0, get-tx_get nuts laws k w.0.db) refl

module _ {D Q : Type 0} (nuts : Nuts D) (around : Around D Q) (laws : NutsLaws nuts)
    (gob : BlockGob) (cr : Primitives) (n : Site) where
  abbrev Reads : Store D × Q → Digest → Type 0
  Reads = Readable (stack_disk nuts around) cr (mempool_site n)

  Reads-InNuts : (w : Store D × Q) (k : Digest) → Reads w k → InNuts nuts w.0.db k
  Reads-InNuts w k h =
      go (nuts.tx_get default_bucket k w.0.db).1 (rw (read-tx_get nuts around laws k w) at h)
    where
      go :
          (e : Option Error)
          → is_error
              (stack_disk nuts around)
              cr
              (mempool_site n)
              (returned (nuts.tx_get default_bucket k w.0.db).0 e)
            ≡ false
          → e ≡ none
      go none q = refl
      go (some e) q = absurd cc

  InNuts-Reads : (w : Store D × Q) (k : Digest) → InNuts nuts w.0.db k → Reads w k
  InNuts-Reads w k h = rw (read-tx_get nuts around laws k w, h) refl

  write-InNuts :
      (k v : Bytes) (w : Store D × Q) (d : Digest)
      → InNuts nuts w.0.db d
      → InNuts nuts ((stack_disk nuts around).write k v w).1.0.db d
  unfolding stack_disk nuts_db
  write-InNuts k v w d h =
      rw ((store_write_lem (nuts_db nuts) 0 k v w.0).1) (put-InNuts nuts laws k d v w.0.db h)

  batch-Reads :
      (w : Store D × Q) (d : Digest) → Reads w d → Reads ((stack_disk nuts around).get_batch w).1 d
  unfolding stack_disk
  batch-Reads w d h = h

  stack-DiskKeeps : DiskKeeps (stack_disk nuts around) cr (mempool_site n)
  stack-DiskKeeps = record {
    write_keeps = λ k v w d h.
        InNuts-Reads (((stack_disk nuts around).write k v w).1) d
          (write-InNuts k v w d (Reads-InNuts w d h));
    batch_keeps = batch-Reads;
  }

  -- Whatever a new node over the store and NutsDB meets, as messages of its consensus and its mempool in
  -- any order, the database has a value for each payload of each block that it has committed, when
  -- nutsdb keeps what it documents, whether its transactions commit or fail.
  pub committed-InNuts :
      (d : D) (q : Q) (is : List NodeInput)
      → let c =
          run_node (stack_disk nuts around) gob cr n is (new_core (new_mempool (new_store d, q))) in
        All
          (λ (b : ConsensusBlock). All (InNuts nuts c.world.world.0.db) b.pay_loads)
          (committed c.trace)
  committed-InNuts d q is =
      let c =
        run_node (stack_disk nuts around) gob cr n is (new_core (new_mempool (new_store d, q))) in
      let P : ConsensusBlock → Type 0 = λ b. All (Reads c.world.world) b.pay_loads in
      let R : ConsensusBlock → Type 0 = λ b. All (InNuts nuts c.world.world.0.db) b.pay_loads in
      All-imp P R (committed c.trace)
        (λ b full.
          All-imp (Reads c.world.world) (InNuts nuts c.world.world.0.db) b.pay_loads
            (Reads-InNuts c.world.world) full)
        (committed-Stored (stack_disk nuts around) gob cr n stack-DiskKeeps (new_store d, q) is)

  -- A Halt whose block NutsDB does not have, and says so by an error of its own, is lost: the node stays in
  -- the epoch and sends nothing, and only the leader that the Halt names is recorded.
  pub halt_lost_nuts :
      (h : Halt) (c : Core (Mempool (Store D × Q))) (e : Error)
      → messgae_filter h.epoch c ≡ false
      → lookup h.epoch c.halt_flags ≡ none
      → (nuts.tx_get default_bucket h.block_hash c.world.world.0.db).1 ≡ some e
      → e ≢ not_found_key
      → handle_halt (services_of (stack_disk nuts around) gob cr n) cr n h c
        ≡ (err e, record c { elector = set_leader h.epoch h.round h.leader c.elector })
  unfolding services_of
  halt_lost_nuts h c e fresh first gone own =
      halt_lost (services_of (stack_disk nuts around) gob cr n) cr n h c e fresh first
        (read-tx_get nuts around laws h.block_hash c.world.world ∙ rw (gone) refl) own
