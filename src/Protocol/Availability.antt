-- ===== src/Protocol/Availability.antt =====
-- The payloads of what a node commits, over core/smvba/consensus/core.go and commitor.go.
use s_mvba.Base.{ℤ, List, ◌∷◌, All, All-append, All-imp, int_eq, Bool, true, false, ◌≡◌, refl}
use s_mvba.Error.{when, ◌>>=◌}
use s_mvba.Crypto.{Bytes, Digest, Primitives}
use s_mvba.Message.{ConsensusBlock, block_hash}
use s_mvba.Spb.{Site, Effect}
use s_mvba.Commitor
use s_mvba.Commitor.{Committor, new_committor}
use s_mvba.Commitor.Kept.{Waiting, commit-Waiting}
use s_mvba.Core.{Services, Core, set_spb, commit_block, verify_consensus_block, commit_verified}
use s_mvba.Protocol.Frame.{IsPlain, ServiceFrame}
use s_mvba.Protocol.Commits.{committed, committed-plain, committed-commits_onto}

module _ {W : Type 0} (sv : Services W) (Available : W → Digest → Type 0) where
  -- What is available stays so, and the mempool answers `OK` only when all payloads are available.
  pub record Serves : Type 0 where
    pub write_keeps :
        (k : Digest) (v : Bytes) (w : W) (d : Digest)
        → Available w d
        → Available (sv.write k v w).1 d
    pub make_keeps :
        (size : ℤ) (w : W) (d : Digest) → Available w d → Available (sv.make_block size w).1 d
    pub verify_keeps :
        (p e : ℤ) (ds : List Digest) (h : Digest) (w : W) (d : Digest)
        → Available w d
        → Available (sv.verify_block p e ds h w).1 d
    pub verify_sound :
        (p e : ℤ) (ds : List Digest) (h : Digest) (w : W)
        → (sv.verify_block p e ds h w).0 ≡ true
        → All (Available (sv.verify_block p e ds h w).1) ds

  abbrev pub IsComplete : W → ConsensusBlock → Type 0
  IsComplete w b = All (Available w) b.pay_loads

  -- The blocks that were committed, and those that wait to be, are complete.
  abbrev pub AllComplete : Core W → Type 0
  AllComplete c =
      All (IsComplete c.world) (committed c.trace) × Waiting (IsComplete c.world) c.commitor

  abbrev pub Keeps : Core W → Core W → Type 0
  Keeps c d = AllComplete c → AllComplete d

  pub on_new_world :
      (c : Core W) (w : W)
      → ((d : Digest) → Available c.world d → Available w d)
      → Keeps c (record c { world = w })
  on_new_world c w stays (done, waiting) =
      let still : (b : ConsensusBlock) → IsComplete c.world b → IsComplete w b =
        λ b. All-imp (Available c.world) (Available w) b.pay_loads stays in
      (
        All-imp (IsComplete c.world) (IsComplete w) (committed c.trace) still done,
        λ e b h. still b (waiting e b h),
      )

  emitted : (c : Core W) (e : Effect) → IsPlain e → Keeps c (record c { trace = e ∷ c.trace })
  emitted c e p g = rw (committed-plain e c.trace p) g

  committed_complete :
      (c : Core W) (b : ConsensusBlock) → IsComplete c.world b → Keeps c (commit_block b c).1
  unfolding commit_block
  committed_complete c b full (done, waiting) =
      let P = IsComplete c.world in
      let (sent, left) = commit-Waiting P b c.commitor full waiting in
      (
        rw (committed-commits_onto (Commitor.commit b c.commitor).0 c.trace)
            (All-append P (committed c.trace) (Commitor.commit b c.commitor).0 done sent),
        left,
      )

  module _ (cr : Primitives) (n : Site) (serves : Serves) where
    verified-Keeps :
        (c : Core W) (b : ConsensusBlock) → Keeps c (verify_consensus_block sv cr n b c).1
    unfolding verify_consensus_block
    verified-Keeps c b =
        on_new_world c (sv.verify_block b.proposer b.epoch b.pay_loads (block_hash cr b) c.world).1
          (serves.verify_keeps b.proposer b.epoch b.pay_loads (block_hash cr b) c.world)

    complete-Keeps : (c : Core W) (b : ConsensusBlock) → Keeps c (commit_verified sv cr n b c).1
    unfolding commit_verified verify_consensus_block ◌>>=◌
    complete-Keeps c b g =
        go (sv.verify_block b.proposer b.epoch b.pay_loads (block_hash cr b) c.world)
          (serves.verify_sound b.proposer b.epoch b.pay_loads (block_hash cr b) c.world)
          (serves.verify_keeps b.proposer b.epoch b.pay_loads (block_hash cr b) c.world)
      where
        go :
            (r : Bool × W)
            → (r.0 ≡ true → All (Available r.1) b.pay_loads)
            → ((d : Digest) → Available c.world d → Available r.1 d)
            → AllComplete (when r.0 (commit_block b) (record c { world = r.1 })).1
        go (true, w) sound stays =
            committed_complete (record c { world = w }) b (sound refl) (on_new_world c w stays g)
        go (false, w) sound stays = on_new_world c w stays g

    pub AllComplete-ServiceFrame : ServiceFrame Keeps cr n sv
    unfolding set_spb
    AllComplete-ServiceFrame = record {
      here = λ c g. g;
      then = λ a b c p q g. q (p g);
      on_write = λ c d v. on_new_world c (sv.write d v c.world).1 (serves.write_keeps d v c.world);
      on_make =
          λ c size. on_new_world c (sv.make_block size c.world).1 (serves.make_keeps size c.world);
      on_verify = verified-Keeps;
      on_complete = complete-Keeps;
      on_emit = λ c e p. emitted c e p.0;
      on_aggreator = λ c a g. g;
      on_elector = λ c e g. g;
      on_finish = λ c m g. g;
      on_spb = λ c e r x s m g. g;
      on_ready = λ c m g. g;
      on_done_row = λ c e g. g;
      on_announce = λ c e r h g. g;
      on_halt_only = λ c e h g. g;
      on_halt = λ c e h g. g;
    }
