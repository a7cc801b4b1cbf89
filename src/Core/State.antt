-- ===== src/Core/State.antt =====
-- The struct `Core` of core/smvba/consensus/core.go, what it uses of the store, of gob and of the
-- mempool, and the accessors of its maps.
use s_mvba.Base.{
  ℤ, Bool, true, false, Option, none, some, List, [], ◌∷◌, Map, Map2, lookup, insert, int_eq, get2,
  put2, touch, or_empty, ltz, pos,
}
use s_mvba.Error.{Error, Outcome, ok, M, modify, ◌>>◌}
use s_mvba.Committee.{none_id}
use s_mvba.Crypto.{Bytes, Digest}
use s_mvba.Message.{ConsensusBlock, Message}
use s_mvba.Aggreator.{Aggreator, new_aggreator}
use s_mvba.Elector.{Elector, new_elector, leader}
use s_mvba.Commitor.{Committor, new_committor}
use s_mvba.Commitor
use s_mvba.Spb.{Spb, new_spb, Effect, send, receive, commits}

-- The calls that leave the component, over the state `W` of what lies behind them. A call of the
-- mempool is a request over `connectChannel` and the wait for its reply.
pub record Services (W : Type 0) : Type 0 where
  -- `ConsensusBlock.Encode` and `Decode`, which are gob; `none` is an error.
  pub encode : ConsensusBlock → Option Bytes
  pub decode : Bytes → Option ConsensusBlock
  -- `Store.Write`, with its error, and `Store.Read`.
  pub write : Digest → Bytes → W → Option Error × W
  pub read : Digest → W → Outcome Bytes
  -- `MakeConsensusBlockMsg`.
  pub make_block : ℤ → W → List Digest × W
  -- `VerifyBlockMsg` of proposer, epoch, payloads and hash: whether the status is `OK`.
  pub verify_block : ℤ → ℤ → List Digest → Digest → W → Bool × W

pub record Core (W : Type 0) : Type 0 where
  pub aggreator : Aggreator
  pub elector : Elector
  pub commitor : Committor
  pub finish_flags : Map2 (Map ℤ Digest)
  pub spb_instances : Map2 (Map ℤ Spb)
  pub done_flags : Map2 (Unit {0})
  pub ready_flags : Map2 (Unit {0})
  pub halt_flags : Map ℤ (Unit {0})
  pub epoch : ℤ
  -- The state behind `Services`.
  pub world : W
  -- What the node has done outside, the newest first.
  pub trace : List Effect

unfoldable pub new_core : {W : Type 0} → W → Core W
new_core w = record {
  aggreator = new_aggreator;
  elector = new_elector;
  commitor = new_committor;
  finish_flags = [];
  spb_instances = [];
  done_flags = [];
  ready_flags = [];
  halt_flags = [];
  epoch = pos 0;
  world = w;
  trace = [];
}

abbrev pub has : {A : Type 0} → Option A → Bool
has none = false
has (some a) = true

abbrev pub instance_in : ℤ → ℤ → ℤ → Option Spb → Spb
instance_in epoch round node none = new_spb epoch round node
instance_in epoch round node (some s) = s

-- The blocks that are sent to `commitCh`, put on the trace.
unfoldable pub commits_onto : List ConsensusBlock → List Effect → List Effect
commits_onto [] trace = trace
commits_onto (b ∷ bs) trace = commits_onto bs (commits b ∷ trace)

module _ {W : Type 0} where
  abbrev pub emit : Effect → M (Core W) (Unit {0})
  emit e = modify (λ c. record c { trace = e ∷ c.trace })

  -- `Transimtor.Send` to all others, then the write to the own channel.
  abbrev pub broad_cast : Message → M (Core W) (Unit {0})
  broad_cast m = do emit (send none_id m); emit (receive m)

  unfoldable pub messgae_filter : ℤ → Core W → Bool
  messgae_filter epoch c = ltz epoch c.epoch

  -- The instance, or a new one.
  unfoldable pub spb_of : ℤ → ℤ → ℤ → Core W → Spb
  spb_of epoch round node c =
      instance_in epoch round node (lookup node (or_empty (get2 epoch round c.spb_instances)))

  unfoldable pub set_spb : ℤ → ℤ → ℤ → Spb → Core W → Core W
  set_spb epoch round node s c = record c {
    spb_instances =
        put2 epoch round (insert node s (or_empty (get2 epoch round c.spb_instances)))
          c.spb_instances;
  }

  -- A missing instance is made and kept.
  unfoldable pub get_spb_instance : ℤ → ℤ → ℤ → M (Core W) Spb
  get_spb_instance epoch round node c =
      let s = spb_of epoch round node c in (ok s, set_spb epoch round node s c)

  unfoldable pub has_finish : ℤ → ℤ → ℤ → Core W → Option Digest
  has_finish epoch round node c = lookup node (or_empty (get2 epoch round c.finish_flags))

  unfoldable pub set_finish : ℤ → ℤ → ℤ → Digest → Core W → Core W
  set_finish epoch round node d c = record c {
    finish_flags =
        put2 epoch round (insert node d (or_empty (get2 epoch round c.finish_flags)))
          c.finish_flags;
  }

  -- Both tests make the row of the epoch when it is missing.
  unfoldable pub has_ready : ℤ → ℤ → M (Core W) Bool
  has_ready epoch round c = (
    ok (has (get2 epoch round c.ready_flags)),
    record c { ready_flags = touch epoch c.ready_flags },
  )

  unfoldable pub has_done : ℤ → ℤ → M (Core W) Bool
  has_done epoch round c =
      (ok (has (get2 epoch round c.done_flags)), record c { done_flags = touch epoch c.done_flags })

  unfoldable pub elector_leader : ℤ → ℤ → M (Core W) ℤ
  elector_leader epoch round c =
      let (node, e) = leader epoch round c.elector in (ok node, record c { elector = e })

  unfoldable pub on_aggreator : {A : Type 0} → M Aggreator A → M (Core W) A
  on_aggreator m c = let (o, a) = m c.aggreator in (o, record c { aggreator = a })

  unfoldable pub on_elector : {A : Type 0} → M Elector A → M (Core W) A
  on_elector m c = let (o, e) = m c.elector in (o, record c { elector = e })

  unfoldable pub commit_block : ConsensusBlock → M (Core W) (Unit {0})
  unfolding commits_onto
  commit_block b c =
      let (out, k) = Commitor.commit b c.commitor in
      (ok tt, record c { commitor = k; trace = commits_onto out c.trace })
