-- ===== src/Tests/Composed.antt =====
-- A node whose mempool and consensus share a store that is a map.
use s_mvba.Base.{pos, some, List, [], ◌∷◌, lookup, insert, digest_eq, bytes_eq, ◌≡◌, refl}
use s_mvba.Crypto.{Digest}
use s_mvba.Message.{
  ConsensusBlock, new_spb_proposal, new_halt, spb_proposal, halt, block_hash, spb_one_phase,
}
use s_mvba.Core.{message, new_core}
use s_mvba.Mempool.{own_block, new_block, new_mempool, payload_hash}
use s_mvba.Mempool.Handlers.{network}
use s_mvba.Protocol.Commits.{committed}
use s_mvba.Node.{BlockGob, NodeInput, to_core, to_mempool, run_node}
use s_mvba.Tests.Toy.{sigs, site}
use s_mvba.Tests.Payloads.{plain, disk, payload}
use s_mvba.Base.{get2, inc64, ltz, put2, touch, delete, eqz}
use s_mvba.Error.{◌>>=◌}
use s_mvba.Committee.{size, name, hight_threshold, low_threshold}
use s_mvba.Crypto.{
  new_hasher, add, sum256, verify_signature, verify_share, request_signature, request_ts_sugnature,
}
use s_mvba.Crypto.Binary.{append_int2}
use s_mvba.Message.{
  new_spb_vote, new_finish, new_done, new_fin_vote, new_elect_share, proposal_hash, vote_hash,
  finish_hash, done_hash, elect_hash, halt_hash, ballot_hash, verify,
}
use s_mvba.Aggreator.{
  add_fin_vote, fin_vote_append, new_fin_vote_aggreator, add_done_vote, done_append,
  add_finish_vote, finish_append, new_aggreator, new_done_aggreator, new_finish_aggreator, seen,
}
use s_mvba.Elector.{set_leader, new_elector, leader, leader_of}
use s_mvba.Commitor.{new_committor, commit, drain, advance}
use s_mvba.Spb.{process_proposal, new_spb}
use s_mvba.Core.{
  step, receive_message, handle, handle_spb_proposal, handle_finish, handle_done, handle_halt,
  handle_finvote, handle_output, get_consensus_block, store_consensus_block, verify_consensus_block,
  commit_verified, commit_late, advance_next_epoch, generator_block, propose_first,
  invoke_done_and_share, announce, process_leader, elector_leader, has_done, has_ready,
  vote_on_leader, commit_block, commits_onto, on_aggreator, on_elector, on_spb, get_spb_instance,
  spb_of, set_spb, set_finish, has_finish, messgae_filter,
}
use s_mvba.Node.{services_of, node_step}
use s_mvba.Mempool.Handlers.{
  handle_input, handle_message, handle_own_block, payload_process, store_block,
  handle_make_block_msg, handle_verify_msg, missing, get_block,
}

abbrev pub digest : Digest
digest = payload_hash plain (pos 0) (payload 1)

abbrev pub first_block : ConsensusBlock
first_block = record { proposer = pos 1; pay_loads = digest ∷ []; epoch = pos 0 }

-- A gob of one block.
abbrev pub one_block : BlockGob
one_block = record { encode = λ b. some (1 ∷ []); decode = λ v. some first_block }

-- The mempool stores a payload; the block that names it is proposed by node 1, and its epoch is halted.
abbrev pub day : List NodeInput
day =
    to_mempool (network (own_block (new_block plain sigs (pos 0) (payload 1))))
    ∷ to_core (
        message (
          spb_proposal
            (new_spb_proposal plain sigs (pos 1) (some first_block) (pos 0) (pos 0) spb_one_phase)))
    ∷ to_core (
        message (
          halt
            (new_halt plain sigs (pos 1) (pos 1) (block_hash plain first_block) (pos 0) (pos 0))))
    ∷ []

one_committed :
    committed (run_node disk one_block plain site day (new_core (new_mempool []))).trace
    ≡ first_block ∷ []
unfolding step receive_message handle handle_spb_proposal handle_finish handle_done handle_halt
    handle_output get_consensus_block store_consensus_block verify_consensus_block commit_verified
    commit_late advance_next_epoch generator_block propose_first invoke_done_and_share announce
    process_leader elector_leader has_done has_ready vote_on_leader commit_block commits_onto
    on_aggreator on_elector on_spb get_spb_instance spb_of set_spb set_finish has_finish
    messgae_filter process_proposal new_core new_aggreator new_elector new_committor new_spb leader
    leader_of set_leader lookup insert delete get2 put2 touch add_finish_vote finish_append
    new_finish_aggreator add_done_vote done_append new_done_aggreator seen size hight_threshold
    low_threshold name verify verify_signature request_signature verify_share new_spb_proposal
    new_spb_vote new_finish new_done new_halt new_elect_share request_ts_sugnature proposal_hash
    vote_hash finish_hash done_hash elect_hash halt_hash block_hash new_hasher add sum256
    append_int2 bytes_eq commit drain advance ◌>>=◌ eqz ltz inc64 new_fin_vote ballot_hash
    add_fin_vote fin_vote_append new_fin_vote_aggreator handle_finvote services_of node_step
    run_node handle_input handle_message handle_own_block payload_process store_block
    handle_make_block_msg handle_verify_msg missing get_block new_mempool payload_hash new_block
one_committed = refl
