-- ===== src/Node.antt =====
-- node/node.go: the consensus and the mempool of one node over one store. The requests of
-- core/smvba/consensus/core.go over `connectChannel` are answered by the handlers of mempool/mempool.go.
pub mod Payloads
pub mod Start
pub mod Boot
pub mod Stack
use s_mvba.Base.{ℤ, Bool, true, false, Option, List, [], ◌∷◌}
use s_mvba.Error.{Outcome, ok, err, panic}
use s_mvba.Crypto.{Bytes, Digest, Primitives}
use s_mvba.Message.{ConsensusBlock}
use s_mvba.Spb.{Site}
use s_mvba.Core.{Services, Core, Input, step}
use s_mvba.Mempool.{VerifyStatus, status_ok, Disk, MempoolSite, Mempool}
use s_mvba.Mempool.Handlers.{handle_make_block_msg, handle_verify_msg, MempoolInput, handle_input}

-- The fields of `Core` that the mempool has too.
abbrev pub mempool_site : Site → MempoolSite
mempool_site n = record {
  name = n.name;
  committee = n.committee;
  parameters = n.parameters;
  sig_service = n.sig_service;
}

-- What is written to `req.Blocks`: nil beside an error.
abbrev pub replied : Outcome (List Digest) → List Digest
replied (ok ds) = ds
replied _ = []

abbrev pub is_ok : Outcome VerifyStatus → Bool
is_ok (ok status_ok) = true
is_ok _ = false

-- `ConsensusBlock.Encode` and `Decode`, which are gob.
pub record BlockGob : Type 0 where
  pub encode : ConsensusBlock → Option Bytes
  pub decode : Bytes → Option ConsensusBlock

-- What a node meets: an input of its consensus or of its mempool, in any order.
pub data NodeInput : Type 0 where
  to_core : Input → NodeInput
  to_mempool : MempoolInput → NodeInput

module _ {W : Type 0} (dk : Disk W) (gob : BlockGob) (cr : Primitives) (n : Site) where
  unfoldable pub services_of : Services (Mempool W)
  services_of = record {
    encode = gob.encode;
    decode = gob.decode;
    write = λ k v s. let (e, w) = dk.write k v s.world in (e, record s { world = w });
    read = λ k s. dk.read k s.world;
    make_block = λ size s.
        let (o, t) = handle_make_block_msg dk cr (mempool_site n) size s in (replied o, t);
    verify_block = λ proposer epoch payloads hash s.
        let (o, t) = handle_verify_msg dk cr (mempool_site n) proposer epoch payloads hash s in
        (is_ok o, t);
  }

  abbrev mempool_step : MempoolInput → Core (Mempool W) → Outcome (Unit {0}) × Core (Mempool W)
  mempool_step i c =
      let (o, s) = handle_input dk cr (mempool_site n) i c.world in (o, record c { world = s })

  unfoldable pub node_step : NodeInput → Core (Mempool W) → Outcome (Unit {0}) × Core (Mempool W)
  unfolding services_of
  node_step (to_core i) c = step services_of cr n i c
  node_step (to_mempool i) c = mempool_step i c

  abbrev pub unless_panic :
      Outcome (Unit {0}) × Core (Mempool W)
      → (Core (Mempool W) → Core (Mempool W))
      → Core (Mempool W)
  unless_panic (ok _, c) k = k c
  unless_panic (err _, c) k = k c
  unless_panic (panic, c) k = c

  -- An error is logged and the loops go on; a panic ends the process.
  unfoldable pub run_node : List NodeInput → Core (Mempool W) → Core (Mempool W)
  unfolding node_step
  run_node [] c = c
  run_node (i ∷ is) c = let rest = run_node is in unless_panic (node_step i c) rest
