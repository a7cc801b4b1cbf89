-- ===== src/Core/Blocks.antt =====
-- Blocks in core/smvba/consensus/core.go: the store, the requests to the mempool, and a block that
-- comes after its epoch was halted.
use s_mvba.Base.{ℤ, Bool, Option, none, some, lookup, int_eq, eqz}
use s_mvba.Error.{
  Error, Outcome, ok, err, panic, not_found_key, external, M, pure, crash, gets, when, ◌>>=◌,
}
use s_mvba.Crypto.{Bytes, Digest, Primitives}
use s_mvba.Message.{ConsensusBlock, SpbProposal, block_hash}
use s_mvba.Spb.{Site}
use s_mvba.Core.State.{Services, Core, has, elector_leader, commit_block}

module _ {W : Type 0} (sv : Services W) (cr : Primitives) (n : Site) where
  abbrev pub written : Option Error → Outcome (Unit {0})
  written none = ok tt
  written (some x) = err x

  abbrev pub store_encoded : ConsensusBlock → Option Bytes → M (Core W) (Unit {0})
  store_encoded b none c = (err (external 1), c)
  store_encoded b (some v) c =
      let (e, w) = sv.write (block_hash cr b) v c.world in (written e, record c { world = w })

  unfoldable pub store_consensus_block : ConsensusBlock → M (Core W) (Unit {0})
  store_consensus_block b = store_encoded b (sv.encode b)

  abbrev pub decoded : Option ConsensusBlock → Outcome (Option ConsensusBlock)
  decoded none = err (external 2)
  decoded (some b) = ok (some b)

  -- `ErrNotFoundKey` alone is read as "no block"; any other error is returned.
  abbrev pub found : Outcome Bytes → Outcome (Option ConsensusBlock)
  found (ok v) = decoded (sv.decode v)
  found (err not_found_key) = ok none
  found (err e) = err e
  found panic = panic

  unfoldable pub get_consensus_block : Digest → M (Core W) (Option ConsensusBlock)
  get_consensus_block d c = (found (sv.read d c.world), c)

  unfoldable pub generator_block : ℤ → M (Core W) ConsensusBlock
  generator_block epoch c =
      let (payloads, w) = sv.make_block n.parameters.max_payload_size c.world in
      (
        ok (record { proposer = n.name; pay_loads = payloads; epoch = epoch }),
        record c { world = w },
      )

  unfoldable pub verify_consensus_block : ConsensusBlock → M (Core W) Bool
  verify_consensus_block b c =
      let (status, w) = sv.verify_block b.proposer b.epoch b.pay_loads (block_hash cr b) c.world in
      (ok status, record c { world = w })

  -- Commit when all payloads have come.
  unfoldable pub commit_verified : ConsensusBlock → M (Core W) (Unit {0})
  commit_verified b = do complete ← verify_consensus_block b; when complete (commit_block b)

  -- A nil block is dereferenced.
  abbrev pub commit_late_block : Option ConsensusBlock → M (Core W) (Unit {0})
  commit_late_block none = crash
  commit_late_block (some b) = commit_verified b

  -- The first lines of `handleSpbProposal`: the leader's block of an epoch that was halted.
  unfoldable pub commit_late : SpbProposal → M (Core W) (Unit {0})
  commit_late p = do
    halted ← gets (λ c. has (lookup p.epoch c.halt_flags))
    when halted
        do node ← elector_leader p.epoch p.round; when (eqz node p.author) (commit_late_block p.b)

  abbrev pub output : Option ConsensusBlock → M (Core W) (Unit {0})
  output none = pure tt
  output (some b) = commit_verified b

  unfoldable pub handle_output : Digest → M (Core W) (Unit {0})
  handle_output d = do b ← get_consensus_block d; output b
