-- ===== src/Tests/Node.antt =====
-- A node of four that meets proposals, votes, Finish, Done and Halt messages.
use s_mvba.Base.{
  ℤ, pos, List, [], ◌∷◌, ◌≡◌, refl, true, false, none, some, lookup, insert, int_eq, digest_eq,
  get2, inc64, ltz, put2, touch, delete, eqz, bytes_eq,
}
use s_mvba.Error.{ok, ◌>>=◌}
use s_mvba.Committee.{none_id, size, name, hight_threshold, low_threshold}
use s_mvba.Crypto.{
  new_hasher, add, sum256, verify_signature, verify_share, request_signature, request_ts_sugnature,
}
use s_mvba.Crypto.Binary.{append_int2}
use s_mvba.Message.{
  SpbProposal, spb_proposal, finish, done, fin_vote, halt, block_hash, new_spb_proposal,
  new_spb_vote, new_finish, new_done, new_halt, new_fin_vote, new_elect_share, proposal_hash,
  vote_hash, finish_hash, done_hash, elect_hash, halt_hash, ballot_hash, Halt, FinVote,
  spb_one_phase, vote_flag_yes, verify,
}
use s_mvba.Aggreator.{
  add_fin_vote, fin_vote_append, new_fin_vote_aggreator, action_commit, add_done_vote, done_append,
  add_finish_vote, finish_append, new_aggreator, new_done_aggreator, new_finish_aggreator, seen,
}
use s_mvba.Elector.{set_leader, new_elector, leader, leader_of}
use s_mvba.Commitor.{new_committor, commit, drain, advance}
use s_mvba.Commitor.Order.{Consecutive}
use s_mvba.Spb.{process_proposal, send, receive, new_spb}
use s_mvba.Core.{
  Core, new_core, Input, message, run_proposal, run, run_loop, step, receive_message, handle,
  handle_spb_proposal, handle_finish, handle_done, handle_halt, handle_finvote, handle_output,
  get_consensus_block, store_consensus_block, verify_consensus_block, commit_verified, commit_late,
  advance_next_epoch, generator_block, propose_first, invoke_done_and_share, announce,
  process_leader, elector_leader, has_done, has_ready, vote_on_leader, commit_block, commits_onto,
  on_aggreator, on_elector, on_spb, get_spb_instance, spb_of, set_spb, set_finish, has_finish,
  messgae_filter, my_halt,
}
use s_mvba.Protocol.Commits.{committed, committed_in_order}
use s_mvba.Protocol.Epochs.{IsHalted, halted_stale}
use s_mvba.Protocol.Announce.{dones, flag_count, done_once}
use s_mvba.Protocol.Instances.{process_leader_total, commit_names_zero}
use s_mvba.Protocol.Discard.{handle_stale}
use s_mvba.Tests.Toy.{toy, four, sigs, site, Disk, good, block}

-- The store has the block of node 1 for epoch 0.
abbrev disk : Disk
disk = (block_hash toy (block (pos 1) (pos 0)), 1 ∷ 0 ∷ []) ∷ []

abbrev proposal : SpbProposal
proposal =
    new_spb_proposal toy sigs (pos 1) (some (block (pos 1) (pos 0))) (pos 0) (pos 0) spb_one_phase

abbrev done_by : ℤ → Input
done_by author = message (done (new_done toy sigs author (pos 0) (pos 0)))

abbrev finish_by : ℤ → Input
finish_by author =
    message
      (finish (new_finish toy sigs author (block_hash toy (block (pos 1) (pos 0))) (pos 0) (pos 0)))

abbrev halt_of : ℤ → Input
halt_of epoch =
    message (
      halt (new_halt toy sigs (pos 1) (pos 1) (block_hash toy (block (pos 1) epoch)) epoch (pos 0)))

-- A block, three certificates, three Done messages, and the Halt of epoch 0.
abbrev inputs : List Input
inputs =
    message (spb_proposal proposal)
    ∷ run_proposal proposal
    ∷ finish_by (pos 1)
    ∷ finish_by (pos 2)
    ∷ finish_by (pos 3)
    ∷ done_by (pos 1)
    ∷ done_by (pos 2)
    ∷ done_by (pos 3)
    ∷ halt_of (pos 0)
    ∷ []

abbrev end : Core Disk
end = (run_loop good toy site inputs (new_core disk)).1

committed_in_order_example : Consecutive (pos 0) (committed end.trace) end.commitor.index
committed_in_order_example = committed_in_order good toy site disk inputs

done_once_example :
    dones (pos 0) (pos 0) end.trace ≡ flag_count (get2 (pos 0) (pos 0) end.done_flags)
done_once_example = done_once good toy site disk inputs (pos 0) (pos 0)

process_leader_total_example : (process_leader good toy site (pos 0) (pos 0) end).0 ≡ ok tt
process_leader_total_example = process_leader_total good toy site disk inputs (pos 0) (pos 0)

-- The node has voted for the block of node 1.
abbrev holding : Core Disk
holding =
    (run_loop good toy site (message (spb_proposal proposal) ∷ run_proposal proposal ∷ [])
      (new_core disk)).1

abbrev fin_vote_by : ℤ → FinVote
fin_vote_by author =
    new_fin_vote toy sigs author (pos 3) (pos 0) (pos 0) vote_flag_yes
      (block_hash toy (block (pos 1) (pos 0)))

-- Two YES votes for leader 3 are there.
abbrev voting : Core Disk
voting =
    (run_loop good toy site
      (message (fin_vote (fin_vote_by (pos 1))) ∷ message (fin_vote (fin_vote_by (pos 2))) ∷ [])
      (new_core disk)).1

abbrev empty_proposal : SpbProposal
empty_proposal = new_spb_proposal toy sigs (pos 2) none (pos 0) (pos 0) spb_one_phase

abbrev first_halt : Halt
first_halt =
    new_halt toy sigs (pos 1) (pos 1) (block_hash toy (block (pos 1) (pos 0))) (pos 0) (pos 0)

-- What the runs lead to: in the first, epoch 0 was halted, one Done was sent in it and its block was
-- committed; the others reach the states that they are meant to.
runs_lem :
    (IsHalted (pos 0) end
      × (dones (pos 0) (pos 0) end.trace ≡ 1)
      × (committed end.trace ≡ block (pos 1) (pos 0) ∷ []))
    × ((spb_of (pos 0) (pos 0) (pos 1) holding).block_hash
        ≡ some (block_hash toy (block (pos 1) (pos 0))))
    × ((messgae_filter (pos 0) voting ≡ false)
        × ((add_fin_vote four (fin_vote_by (pos 3)) voting.aggreator).0 ≡ ok action_commit))
    × ((messgae_filter (pos 0) (new_core {W = Disk} []) ≡ false)
        × (verify toy four (spb_proposal empty_proposal) ≡ ok true))
unfolding run_loop step receive_message handle handle_spb_proposal handle_finish handle_done
    handle_halt handle_output get_consensus_block store_consensus_block verify_consensus_block
    commit_verified commit_late advance_next_epoch generator_block propose_first
    invoke_done_and_share announce process_leader elector_leader has_done has_ready vote_on_leader
    commit_block commits_onto on_aggreator on_elector on_spb get_spb_instance spb_of set_spb
    set_finish has_finish messgae_filter process_proposal new_core new_aggreator new_elector
    new_committor new_spb leader leader_of set_leader lookup insert delete get2 put2 touch
    add_finish_vote finish_append new_finish_aggreator add_done_vote done_append new_done_aggreator
    seen size hight_threshold low_threshold name verify verify_signature request_signature
    verify_share new_spb_proposal new_spb_vote new_finish new_done new_halt new_elect_share
    request_ts_sugnature proposal_hash vote_hash finish_hash done_hash elect_hash halt_hash
    block_hash new_hasher add sum256 append_int2 bytes_eq commit drain advance ◌>>=◌ eqz ltz inc64
    new_fin_vote ballot_hash add_fin_vote fin_vote_append new_fin_vote_aggreator handle_finvote
runs_lem = ((refl, refl, refl), refl, (refl, refl), (refl, refl))

halted_stale_example : messgae_filter (pos 0) end ≡ true
halted_stale_example = halted_stale good toy site disk inputs (pos 0) runs_lem.0.0 (λ h. cc)

commit_names_zero_example :
    let v = fin_vote_by (pos 3) in
    let a = (add_fin_vote four v voting.aggreator).1 in
    let m = my_halt toy site (pos 0) (block_hash toy (block (pos 1) (pos 0))) (pos 0) (pos 0) in
    handle_finvote good toy site v voting
    ≡ (ok tt, record voting { aggreator = a; trace = receive m ∷ send none_id m ∷ voting.trace })
commit_names_zero_example =
    commit_names_zero good toy site (pos 3) (pos 3) (pos 0) (pos 0) vote_flag_yes
      (block_hash toy (block (pos 1) (pos 0))) voting runs_lem.2.0 runs_lem.2.1

handle_stale_example :
    handle good toy site (done (new_done toy sigs (pos 1) (pos 0) (pos 0))) end ≡ (ok tt, end)
unfolding new_done
handle_stale_example =
    handle_stale good toy site (done (new_done toy sigs (pos 1) (pos 0) (pos 0))) end
      (halted_stale good toy site disk inputs (pos 0) runs_lem.0.0 (λ h. cc)) (λ h. h)

-- A node that counts as faulty does not start.
faulty :
    run good toy
      (record site {
        parameters = record { faults = pos 1; max_payload_size = pos 10; max_queen_size = 4 };
      })
      inputs
      (new_core disk)
    ≡ (ok tt, new_core disk)
unfolding run ltz
faulty = refl
