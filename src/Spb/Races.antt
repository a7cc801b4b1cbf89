-- ===== src/Spb/Races.antt =====
-- Schedules of the goroutines of core/smvba/consensus/spb.go that differ from any order of its calls.
use s_mvba.Base.{ℤ, some, [], ◌∷◌, ◌≡◌, refl, eqz, eqz_iff, Bool-cases, inl, inr}
use s_mvba.Crypto.{Primitives, Signature}
use s_mvba.Message.{ConsensusBlock, SpbProposal, SpbVote, spb_one_phase, block_hash}
use s_mvba.Spb.{Site, new_spb, reply, vote_of}
use s_mvba.Spb.Phases.{proposal, vote}
use s_mvba.Spb.Threads.{finished, thread_step, system_step, run_schedule, starting}

abbrev pub first_proposal : ℤ → ConsensusBlock → ℤ → ℤ → Signature → SpbProposal
first_proposal author b epoch round sig = record {
  author = author;
  b = some b;
  epoch = epoch;
  round = round;
  phase = spb_one_phase;
  signature = sig;
}

module _ (cr : Primitives) (n : Site) where
  -- Both goroutines load `BlockHash` before one stores it: each sends a vote for its own block.
  pub double_vote :
      (epoch round : ℤ) (b c : ConsensusBlock) (sig sig' : Signature)
      → b.proposer ≡ c.proposer
      → let p = first_proposal b.proposer b epoch round sig in
        let q = first_proposal c.proposer c epoch round sig' in
        let s = new_spb epoch round b.proposer in
        (run_schedule cr n
          (0 ∷ 1 ∷ 0 ∷ 1 ∷ 0 ∷ 1 ∷ [])
          (starting epoch round b.proposer (proposal p ∷ proposal q ∷ []))).done
        ≡ reply n s (vote_of cr n p (block_hash cr b) s)
          ∷ reply n s (vote_of cr n q (block_hash cr c) s)
          ∷ []
  unfolding run_schedule system_step thread_step new_spb eqz
  double_vote epoch round b c sig sig' same =
      rw ((eqz_iff b.proposer b.proposer).1 refl, (eqz_iff b.proposer c.proposer).1 same) refl

  -- The vote is queued after the goroutine of the proposal has drained the queues: it is not counted.
  pub lost_vote :
      (epoch round : ℤ) (b : ConsensusBlock) (sig : Signature) (v : SpbVote)
      → let p = first_proposal b.proposer b epoch round sig in
        let s =
          run_schedule cr n
            (1 ∷ 0 ∷ 0 ∷ 0 ∷ 0 ∷ 1 ∷ [])
            (starting epoch round b.proposer (proposal p ∷ vote v ∷ [])) in
        (s.threads ≡ finished ∷ finished ∷ [])
        × (s.spb.votes ≡ [])
        × (s.spb.un_handle_vote ≡ v ∷ [])
  unfolding run_schedule system_step thread_step new_spb eqz
  lost_vote epoch round b sig v = elim (Bool-cases (eqz n.name b.proposer)) [
    | inl own ↦ rw ((eqz_iff b.proposer b.proposer).1 refl, own) (refl, refl, refl)
    | inr other ↦ rw ((eqz_iff b.proposer b.proposer).1 refl, other) (refl, refl, refl)
  ]
