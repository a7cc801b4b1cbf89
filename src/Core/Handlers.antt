-- ===== src/Core/Handlers.antt =====
-- The handlers of core/smvba/consensus/core.go, one for each message, and `handleLoopBack`.
use s_mvba.Base.{
  ℤ, pos, Bool, true, false, not, Option, none, some, lookup, insert, int_eq, eqz, inc64, put2,
}
use s_mvba.Error.{M, pure, crash, gets, modify, when, ◌>>=◌, ◌>>◌}
use s_mvba.Committee.{none_id}
use s_mvba.Crypto.{Digest, zero_digest, Primitives}
use s_mvba.Message.{
  ConsensusBlock, SpbProposal, SpbVote, Finish, Done, ElectShare, Prevote, FinVote, Halt, Message,
  fin_vote, spb_one_phase, vote_flag_yes, vote_flag_no, new_spb_proposal, new_fin_vote,
}
use s_mvba.Aggreator.{
  Action, action_yes, action_no, action_commit, action_none, DoneFlag, low_flag, high_flag,
  none_flag, add_finish_vote, add_done_vote, add_pre_vote, add_fin_vote,
}
use s_mvba.Elector.{add_share_vote, set_leader}
use s_mvba.Spb.{Site, go_proposal, go_vote}
use s_mvba.Core.State.{
  Services, Core, has, emit, broad_cast, messgae_filter, get_spb_instance, set_finish, on_aggreator,
  on_elector,
}
use s_mvba.Core.Blocks.{
  store_consensus_block, get_consensus_block, verify_consensus_block, commit_late, handle_output,
}
use s_mvba.Core.Rounds.{
  invoke_done_and_share, process_leader, advance_next_round, advance_next_epoch, my_halt,
}

module _ {W : Type 0} (sv : Services W) (cr : Primitives) (n : Site) where
  abbrev pub unless_stale : ℤ → M (Core W) (Unit {0}) → M (Core W) (Unit {0})
  unless_stale epoch m = do stale ← gets (messgae_filter epoch); when (not stale) m

  -- A block that comes for the first time is stored, and its payloads are looked for; a nil block
  -- is dereferenced.
  abbrev pub receive_block : Option ConsensusBlock → M (Core W) Bool
  receive_block none = crash
  receive_block (some b) = do store_consensus_block sv cr n b; verify_consensus_block sv cr n b

  abbrev pub first_phase_block : Bool → Option ConsensusBlock → M (Core W) Bool
  first_phase_block true b = receive_block b
  first_phase_block false b = pure true

  abbrev pub start_proposal : SpbProposal → M (Core W) (Unit {0})
  start_proposal p = do _ ← get_spb_instance p.epoch p.round p.author; emit (go_proposal p)

  unfoldable pub handle_spb_proposal : SpbProposal → M (Core W) (Unit {0})
  handle_spb_proposal p = do
    when (eqz p.phase spb_one_phase) (commit_late sv cr n p)
    unless_stale p.epoch do
      complete ← first_phase_block (eqz p.phase spb_one_phase) p.b
      when complete (start_proposal p)

  unfoldable pub handle_spb_vote : SpbVote → M (Core W) (Unit {0})
  handle_spb_vote v =
      unless_stale v.epoch do _ ← get_spb_instance v.epoch v.round v.proposer; emit (go_vote v)

  unfoldable pub handle_finish : Finish → M (Core W) (Unit {0})
  handle_finish f = unless_stale f.epoch do
    flag ← on_aggreator (add_finish_vote n.committee f)
    modify (set_finish f.epoch f.round f.author f.block_hash)
    when flag (invoke_done_and_share sv cr n f.epoch f.round)

  abbrev pub set_ready : ℤ → ℤ → Core W → Core W
  set_ready epoch round c = record c { ready_flags = put2 epoch round tt c.ready_flags }

  abbrev pub on_done : ℤ → ℤ → DoneFlag → M (Core W) (Unit {0})
  on_done epoch round low_flag = invoke_done_and_share sv cr n epoch round
  on_done epoch round high_flag = do
    modify (set_ready epoch round)
    process_leader sv cr n epoch round
  on_done epoch round none_flag = pure tt

  unfoldable pub handle_done : Done → M (Core W) (Unit {0})
  handle_done d =
      unless_stale d.epoch
        do flag ← on_aggreator (add_done_vote n.committee d); on_done d.epoch d.round flag

  unfoldable pub handle_elect_share : ElectShare → M (Core W) (Unit {0})
  handle_elect_share s = unless_stale s.epoch do
    leader ← on_elector (add_share_vote cr n.committee n.sig_service s)
    when (not (eqz leader none_id)) (process_leader sv cr n s.epoch s.round)

  abbrev pub my_fin_vote : Prevote → ℤ → Message
  my_fin_vote pv flag =
      fin_vote (new_fin_vote cr n.sig_service n.name pv.leader pv.epoch pv.round flag pv.block_hash)

  abbrev pub on_prevote : Prevote → Action → M (Core W) (Unit {0})
  on_prevote pv action_no = broad_cast (my_fin_vote pv vote_flag_no)
  on_prevote pv action_yes = broad_cast (my_fin_vote pv vote_flag_yes)
  on_prevote pv _ = pure tt

  unfoldable pub handle_prevote : Prevote → M (Core W) (Unit {0})
  handle_prevote pv =
      unless_stale pv.epoch do flag ← on_aggreator (add_pre_vote n.committee pv); on_prevote pv flag

  abbrev pub on_finvote : FinVote → Action → M (Core W) (Unit {0})
  on_finvote fv action_yes = advance_next_round sv cr n fv.epoch fv.round action_yes fv.block_hash
  on_finvote fv action_no = advance_next_round sv cr n fv.epoch fv.round action_no zero_digest
  on_finvote fv action_commit = broad_cast (my_halt cr n fv.leader fv.block_hash fv.epoch fv.round)
  on_finvote fv action_none = pure tt

  unfoldable pub handle_finvote : FinVote → M (Core W) (Unit {0})
  handle_finvote fv =
      unless_stale fv.epoch do flag ← on_aggreator (add_fin_vote n.committee fv); on_finvote fv flag

  abbrev pub set_halt : ℤ → Core W → Core W
  set_halt epoch c = record c { halt_flags = insert epoch tt c.halt_flags }

  unfoldable pub handle_halt : Halt → M (Core W) (Unit {0})
  handle_halt h = unless_stale h.epoch do
    halted ← gets (λ c. has (lookup h.epoch c.halt_flags))
    when (not halted) do
      modify (λ c. record c { elector = set_leader h.epoch h.round h.leader c.elector })
      handle_output sv cr n h.block_hash
      modify (set_halt h.epoch)
      advance_next_epoch sv cr n (inc64 h.epoch)

  abbrev pub loop_back_proposal : ConsensusBlock → SpbProposal
  loop_back_proposal b =
      new_spb_proposal cr n.sig_service b.proposer (some b) b.epoch (pos 0) spb_one_phase

  -- A block that is not in the store is a nil pointer, and is dereferenced.
  abbrev pub on_loop_back : Option ConsensusBlock → M (Core W) (Unit {0})
  on_loop_back none = crash
  on_loop_back (some b) = do
    commit_late sv cr n (loop_back_proposal b)
    unless_stale b.epoch (start_proposal (loop_back_proposal b))

  unfoldable pub handle_loop_back : Digest → M (Core W) (Unit {0})
  handle_loop_back d = do b ← get_consensus_block sv cr n d; on_loop_back b
