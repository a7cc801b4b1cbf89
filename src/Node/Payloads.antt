-- ===== src/Node/Payloads.antt =====
-- What a node of node/node.go commits can be read from its store.
use s_mvba.Base.{ℤ, true, List, [], ◌∷◌, All, All-imp, lookup, int_eq, ◌≡◌, arith}
use s_mvba.Error.{Outcome, ok, err, panic}
use s_mvba.Crypto.{Digest, Primitives}
use s_mvba.Message.{ConsensusBlock}
use s_mvba.Commitor.{new_committor}
use s_mvba.Spb.{Site}
use s_mvba.Core.{Core, step, new_core}
use s_mvba.Mempool.{VerifyStatus, status_ok, Disk, Mempool, new_mempool}
use s_mvba.Mempool.Handlers.{handle_verify_msg, handle_input}
use s_mvba.Mempool.Payloads.{verify_complete}
use s_mvba.Mempool.Kept.{Readable, DiskKeeps, make-Reads, verify-Reads, input-Reads}
use s_mvba.Protocol.Frame.{Holds, each}
use s_mvba.Protocol.Steps.{step-Holds}
use s_mvba.Protocol.Commits.{committed}
use s_mvba.Protocol.Availability.{
  Serves, AllComplete, Keeps, on_new_world, AllComplete-ServiceFrame,
}
use s_mvba.Node.{
  mempool_site, is_ok, BlockGob, services_of, NodeInput, to_core, to_mempool, node_step,
  unless_panic, run_node,
}

is_ok-true : (o : Outcome VerifyStatus) → is_ok o ≡ true → o ≡ ok status_ok
is_ok-true o h = ground arith

module _ {W : Type 0} (dk : Disk W) (gob : BlockGob) (cr : Primitives) (n : Site) where
  abbrev pub Stored : Mempool W → Digest → Type 0
  Stored s d = Readable dk cr (mempool_site n) s.world d

  module _ (disk : DiskKeeps dk cr (mempool_site n)) where
    verify-Stored :
        (p e : ℤ) (ds : List Digest) (h : Digest) (s : Mempool W)
        → is_ok (handle_verify_msg dk cr (mempool_site n) p e ds h s).0 ≡ true
        → All (Stored (handle_verify_msg dk cr (mempool_site n) p e ds h s).1) ds
    verify-Stored p e ds h s full =
        let m = mempool_site n in
        let found =
          (verify_complete dk cr m p e ds h s).0
            (is_ok-true (handle_verify_msg dk cr m p e ds h s).0 full) in
        All-imp (Readable dk cr m s.world) (Stored (handle_verify_msg dk cr m p e ds h s).1) ds
          (λ d r. verify-Reads dk cr m disk d p e ds h s r) found

    services-Serves : Serves (services_of dk gob cr n) Stored
    unfolding services_of
    services-Serves = record {
      write_keeps = λ k v s d h. disk.write_keeps k v s.world d h;
      make_keeps = λ size s d h. make-Reads dk cr (mempool_site n) disk d size s h;
      verify_keeps =
          λ p e ds hash s d h. verify-Reads dk cr (mempool_site n) disk d p e ds hash s h;
      verify_sound = verify-Stored;
    }

    abbrev NodeKeeps : Core (Mempool W) → Core (Mempool W) → Type 0
    NodeKeeps = Keeps (services_of dk gob cr n) Stored

    node_step-Keeps :
        (i : NodeInput) (c : Core (Mempool W)) → NodeKeeps c (node_step dk gob cr n i c).1
    unfolding node_step
    node_step-Keeps (to_core i) c = go (
        step-Holds NodeKeeps
          (AllComplete-ServiceFrame (services_of dk gob cr n) Stored cr n services-Serves) i)
      where
        go :
            Holds NodeKeeps (step (services_of dk gob cr n) cr n i)
            → NodeKeeps c (step (services_of dk gob cr n) cr n i c).1
        go (each h) = h c
    node_step-Keeps (to_mempool i) c =
        on_new_world (services_of dk gob cr n) Stored c
          (handle_input dk cr (mempool_site n) i c.world).1
          (λ d h. input-Reads dk cr (mempool_site n) disk d i c.world h)

    run_node-Keeps :
        (is : List NodeInput) (c : Core (Mempool W)) → NodeKeeps c (run_node dk gob cr n is c)
    unfolding run_node
    run_node-Keeps [] c g = g
    run_node-Keeps (i ∷ is) c g =
        go (node_step dk gob cr n i c) (node_step-Keeps i c g) (λ t. run_node-Keeps is t)
      where
        go :
            (r : Outcome (Unit {0}) × Core (Mempool W))
            → AllComplete (services_of dk gob cr n) Stored r.1
            → ((t : Core (Mempool W)) → NodeKeeps t (run_node dk gob cr n is t))
            → AllComplete
                (services_of dk gob cr n)
                Stored
                (unless_panic dk gob cr n r (run_node dk gob cr n is))
        go (ok _, t) h later = later t h
        go (err _, t) h later = later t h
        go (panic, t) h later = h

    -- Whatever a new node meets, as messages of the consensus and of the mempool in any order, the
    -- payloads of all blocks that it has committed can be read from its store, when the store and the
    -- pool make nothing unreadable that could be read.
    pub committed-Stored :
        (w : W) (is : List NodeInput)
        → let c = run_node dk gob cr n is (new_core (new_mempool w)) in
          All (λ (b : ConsensusBlock). All (Stored c.world) b.pay_loads) (committed c.trace)
    unfolding new_core new_committor lookup
    committed-Stored w is =
        (run_node-Keeps is (new_core (new_mempool w)) (tt, λ e b h. absurd cc)).0
