-- ===== src/Protocol/Progress.antt =====
-- A block on its way through core/smvba/consensus/core.go: the proposal that brings it, and the Halt that
-- decides it.
use s_mvba.Base.{
  true, false, some, none, [], ◌∷◌, ◌++◌, ◌≡◌, refl, ◌∙◌, ap, Bool, ltz, inc64, eqz, lookup, int_eq,
  arith,
}
use s_mvba.Error.{ok, ◌>>=◌}
use s_mvba.Crypto.{Bytes, Digest, Primitives}
use s_mvba.Message.{
  Halt, SpbProposal, spb_proposal, halt, ConsensusBlock, block_hash, verify, spb_one_phase,
}
use s_mvba.Spb.{Site, go_proposal}
use s_mvba.Commitor
use s_mvba.Core.{
  Services, Core, messgae_filter, handle, handle_halt, handle_spb_proposal, handle_output,
  get_consensus_block, store_consensus_block, commit_late, get_spb_instance, spb_of, set_spb,
  verify_consensus_block, commit_verified, commit_block, advance_next_epoch, generator_block,
  message, step, receive_message, run_loop,
}
use s_mvba.Protocol.Commits.{committed, committed-commits_onto}

module _ {W : Type 0} (sv : Services W) (cr : Primitives) (n : Site) where
  -- The world when the block is written, and when its payloads have been looked for.
  abbrev pub stored : ConsensusBlock → Bytes → W → W
  stored b v w = (sv.write (block_hash cr b) v w).1

  abbrev pub complete : ConsensusBlock → W → Bool × W
  complete b w = sv.verify_block b.proposer b.epoch b.pay_loads (block_hash cr b) w

  proposal_stores :
      (p : SpbProposal) (b : ConsensusBlock) (v : Bytes) (c : Core W)
      → p.b ≡ some b
      → p.phase ≡ spb_one_phase
      → verify cr n.committee (spb_proposal p) ≡ ok true
      → messgae_filter p.epoch c ≡ false
      → lookup p.epoch c.halt_flags ≡ none
      → sv.encode b ≡ some v
      → (sv.write (block_hash cr b) v c.world).0 ≡ none
      → (complete b (stored b v c.world)).0 ≡ true
      → step sv cr n (message (spb_proposal p)) c ≡ (
        ok tt,
        record (set_spb p.epoch p.round p.author (spb_of p.epoch p.round p.author c) c) {
          world = (complete b (stored b v c.world)).1;
          trace = go_proposal p ∷ c.trace;
        },
      )
  unfolding step receive_message handle handle_spb_proposal commit_late store_consensus_block
      verify_consensus_block get_spb_instance spb_of set_spb eqz ◌>>=◌
  proposal_stores p b v c pb ph pass live un en wr all = ground arith

  halt_commits :
      (h : Halt) (c : Core W) (v : Bytes) (b : ConsensusBlock)
      → verify cr n.committee (halt h) ≡ ok true
      → messgae_filter h.epoch c ≡ false
      → lookup h.epoch c.halt_flags ≡ none
      → sv.read h.block_hash c.world ≡ ok v
      → sv.decode v ≡ some b
      → (complete b c.world).0 ≡ true
      → ltz c.epoch (inc64 h.epoch) ≡ true
      → let c' = (step sv cr n (message (halt h)) c).1 in
        ((step sv cr n (message (halt h)) c).0 ≡ ok tt)
        × (committed c'.trace ≡ committed c.trace ++ (Commitor.commit b c.commitor).0)
        × (c'.commitor ≡ (Commitor.commit b c.commitor).1)
        × (c'.epoch ≡ inc64 h.epoch)
  unfolding step receive_message handle handle_halt handle_output get_consensus_block
      advance_next_epoch generator_block verify_consensus_block commit_verified commit_block ◌>>=◌
  halt_commits h c v b pass s l r d o a = (
    ground arith,
    ground (arith, committed-commits_onto (Commitor.commit b c.commitor).0 c.trace),
    ground arith,
    ground arith,
  )

  -- In any state of a node, of an epoch that is not below the node's and was not halted: when a proposal of
  -- the first phase brings a block and a Halt then decides its hash, both with valid signatures, the node
  -- returns no error, hands exactly this block to the committor, which sends what it then has to, and enters
  -- the next epoch. The store and gob give back what they were given, a look for payloads leaves the store
  -- as it is, and the payloads of the block are there and stay there.
  pub proposal_then_halt :
      (p : SpbProposal) (h : Halt) (b : ConsensusBlock) (v : Bytes) (c : Core W)
      → p.b ≡ some b
      → p.phase ≡ spb_one_phase
      → h.epoch ≡ p.epoch
      → h.block_hash ≡ block_hash cr b
      → verify cr n.committee (spb_proposal p) ≡ ok true
      → verify cr n.committee (halt h) ≡ ok true
      → messgae_filter p.epoch c ≡ false
      → lookup p.epoch c.halt_flags ≡ none
      → ltz c.epoch (inc64 p.epoch) ≡ true
      → sv.encode b ≡ some v
      → sv.decode v ≡ some b
      → (sv.write (block_hash cr b) v c.world).0 ≡ none
      → sv.read (block_hash cr b) (stored b v c.world) ≡ ok v
      → ((d : Digest) (w : W) → sv.read d (complete b w).1 ≡ sv.read d w)
      → (complete b (stored b v c.world)).0 ≡ true
      → ((w : W) → (complete b w).0 ≡ true → (complete b (complete b w).1).0 ≡ true)
      → let (o, c') = run_loop sv cr n (message (spb_proposal p) ∷ message (halt h) ∷ []) c in
        (o ≡ ok tt)
        × (committed c'.trace ≡ committed c.trace ++ (Commitor.commit b c.commitor).0)
        × (c'.commitor ≡ (Commitor.commit b c.commitor).1)
        × (c'.epoch ≡ inc64 p.epoch)
  unfolding run_loop set_spb messgae_filter
  proposal_then_halt p h b v c pb ph he hh pass pass' live un later en dec wr back same all again =
      let one = proposal_stores p b v c pb ph pass live un en wr all in
      let w = (complete b (stored b v c.world)).1 in
      let c1 : Core W =
        record (set_spb p.epoch p.round p.author (spb_of p.epoch p.round p.author c) c) {
          world = w;
          trace = go_proposal p ∷ c.trace;
        } in
      let two =
        halt_commits h c1 v b pass' (rw he live) (rw he un)
          (rw hh (same (block_hash cr b) (stored b v c.world) ∙ back)) dec
          (again (stored b v c.world) all) (rw he later) in
      rw (one, two.0) (refl, two.1, two.2, two.3 ∙ ap inc64 he)
