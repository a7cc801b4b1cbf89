-- ===== src/Protocol/Handlers.antt =====
-- The rule of Protocol/Frame for the handlers of core/smvba/consensus/core.go.
use s_mvba.Base.{
  ℤ, Bool, true, false, not, Option, none, some, ◌≡◌, refl, inc64, ltz, insert, int_eq,
}
use s_mvba.Error.{modify, when, ◌>>=◌, ◌>>◌}
use s_mvba.Crypto.{Digest, zero_digest, Primitives}
use s_mvba.Message.{
  ConsensusBlock, SpbProposal, Finish, Done, ElectShare, Prevote, FinVote, Halt, Message, done,
  spb_proposal, spb_vote, finish, elect_share, prevote, fin_vote, halt,
}
use s_mvba.Message.Signing.{new_fin_vote-IsSigned, new_halt-IsSigned}
use s_mvba.Aggreator.{
  Action, action_yes, action_no, action_commit, action_none, DoneFlag, low_flag, high_flag,
  none_flag,
}
use s_mvba.Spb.{Site}
use s_mvba.Core.{
  Services, Core, set_finish, propose_first, advance_next_epoch, set_halt, first_phase_block,
  handle_spb_proposal, handle_finish, on_done, handle_done, handle_elect_share, on_prevote,
  handle_prevote, on_finvote, handle_finvote, output, handle_output, handle_halt, on_loop_back,
  handle_loop_back, handle,
}
use s_mvba.Protocol.Frame.{
  Holds, each, ServiceFrame, bind-Holds, gets-Holds, when-Holds, emit-Holds, get_spb-Holds,
  on_aggreator-Holds, on_elector-Holds, get_block-Holds, verify-Holds, store-Holds,
  commit_verified-Holds, commit_late-Holds, handle_spb_vote-Holds,
}
use s_mvba.Protocol.Moves.{
  broad_cast-Holds, invoke-Holds, process_leader-Holds, propose_first-Holds,
  advance_next_round-Holds,
}

module _ {W : Type 0} (R : Core W → Core W → Type 0) {cr : Primitives} {n : Site} {sv : Services W}
    (f : ServiceFrame R cr n sv) where
  pub handle_spb_proposal-Holds : (p : SpbProposal) → Holds R (handle_spb_proposal sv cr n p)
  unfolding handle_spb_proposal
  handle_spb_proposal-Holds p = bind-Holds R f (when-Holds R f _ (commit_late-Holds R f p)) λ _.
      bind-Holds R f (gets-Holds R f) λ stale. when-Holds R f (not stale) (
        bind-Holds R f (go _ p.b) λ complete.
          when-Holds R f complete
            (bind-Holds R f (get_spb-Holds R f _ _ _) λ _. emit-Holds R f _ (tt, tt)))
    where
      go : (b : Bool) (o : Option ConsensusBlock) → Holds R (first_phase_block sv cr n b o)
      go false o = each f.here
      go true none = each f.here
      go true (some b) = bind-Holds R f (store-Holds R f b) (λ _. verify-Holds R f b)

  pub handle_finish-Holds : (v : Finish) → Holds R (handle_finish sv cr n v)
  unfolding handle_finish set_finish
  handle_finish-Holds v = bind-Holds R f (gets-Holds R f) λ stale. when-Holds R f (not stale) (
      bind-Holds R f (on_aggreator-Holds R f _) λ flag.
        bind-Holds R f (each (λ c. f.on_finish c _))
          λ _. when-Holds R f flag (invoke-Holds R f v.epoch v.round))

  pub handle_done-Holds : (d : Done) → Holds R (handle_done sv cr n d)
  unfolding handle_done
  handle_done-Holds d =
      bind-Holds R f (gets-Holds R f)
        λ stale. when-Holds R f (not stale) (bind-Holds R f (on_aggreator-Holds R f _) go)
    where
      go : (flag : DoneFlag) → Holds R (on_done sv cr n d.epoch d.round flag)
      go low_flag = invoke-Holds R f d.epoch d.round
      go high_flag =
          bind-Holds R f (each (λ c. f.on_ready c _))
            (λ _. process_leader-Holds R f d.epoch d.round)
      go none_flag = each f.here

  pub handle_elect_share-Holds : (s : ElectShare) → Holds R (handle_elect_share sv cr n s)
  unfolding handle_elect_share
  handle_elect_share-Holds s = bind-Holds R f (gets-Holds R f) λ stale. when-Holds R f (not stale) (
      bind-Holds R f (on_elector-Holds R f _)
        λ l. when-Holds R f _ (process_leader-Holds R f s.epoch s.round))

  pub handle_prevote-Holds : (v : Prevote) → Holds R (handle_prevote sv cr n v)
  unfolding handle_prevote
  handle_prevote-Holds v =
      bind-Holds R f (gets-Holds R f)
        λ stale. when-Holds R f (not stale) (bind-Holds R f (on_aggreator-Holds R f _) go)
    where
      go : (a : Action) → Holds R (on_prevote sv cr n v a)
      go action_no =
          broad_cast-Holds R f _ tt (new_fin_vote-IsSigned cr n.sig_service n.name _ _ _ _ _)
      go action_yes =
          broad_cast-Holds R f _ tt (new_fin_vote-IsSigned cr n.sig_service n.name _ _ _ _ _)
      go action_commit = each f.here
      go action_none = each f.here

  pub handle_finvote-Holds : (v : FinVote) → Holds R (handle_finvote sv cr n v)
  unfolding handle_finvote
  handle_finvote-Holds v =
      bind-Holds R f (gets-Holds R f)
        λ stale. when-Holds R f (not stale) (bind-Holds R f (on_aggreator-Holds R f _) go)
    where
      go : (a : Action) → Holds R (on_finvote sv cr n v a)
      go action_yes = advance_next_round-Holds R f v.epoch v.round action_yes v.block_hash
      go action_no = advance_next_round-Holds R f v.epoch v.round action_no zero_digest
      go action_commit =
          broad_cast-Holds R f _ tt (new_halt-IsSigned cr n.sig_service n.name _ _ _ _)
      go action_none = each f.here

  -- The flag of the halt and the move to the next epoch.
  pub halted-Holds :
      (e : ℤ) → Holds R (modify (set_halt sv cr n e) >> advance_next_epoch sv cr n (inc64 e))
  unfolding advance_next_epoch ◌>>=◌
  halted-Holds e = each λ c. go c (ltz c.epoch (inc64 e)) refl
    where
      first :
          (c : Core W)
          → Holds R (propose_first sv cr n (inc64 e))
          → R c (propose_first sv cr n (inc64 e) c).1
      first c (each h) = h c

      go :
          (c : Core W) (b : Bool)
          → ltz c.epoch (inc64 e) ≡ b
          → R c ((modify (set_halt sv cr n e) >> advance_next_epoch sv cr n (inc64 e)) c).1
      go c true h =
          let c1 : Core W = record c { halt_flags = insert e tt c.halt_flags; epoch = inc64 e } in
          rw (h, when)
            (f.then c c1 _ (f.on_halt c e h) (first c1 (propose_first-Holds R f (inc64 e))))
      go c false h = rw (h, when) (f.on_halt_only c e h)

  pub handle_halt-Holds : (h : Halt) → Holds R (handle_halt sv cr n h)
  unfolding handle_halt handle_output
  handle_halt-Holds h = bind-Holds R f (gets-Holds R f) λ stale. when-Holds R f (not stale) (
      bind-Holds R f (gets-Holds R f) λ halted. when-Holds R f (not halted) (
        bind-Holds R f (each (λ c. f.on_elector c _)) λ _.
          bind-Holds R f (bind-Holds R f (get_block-Holds R f h.block_hash) go)
            λ _. halted-Holds h.epoch))
    where
      go : (b : Option ConsensusBlock) → Holds R (output sv cr n b)
      go none = each f.here
      go (some b) = commit_verified-Holds R f b

  pub handle_loop_back-Holds : (d : Digest) → Holds R (handle_loop_back sv cr n d)
  unfolding handle_loop_back
  handle_loop_back-Holds d = bind-Holds R f (get_block-Holds R f d) go
    where
      go : (b : Option ConsensusBlock) → Holds R (on_loop_back sv cr n b)
      go none = each f.here
      go (some b) = bind-Holds R f (commit_late-Holds R f _) λ _.
          bind-Holds R f (gets-Holds R f) λ stale.
            when-Holds R f (not stale)
              (bind-Holds R f (get_spb-Holds R f _ _ _) λ _. emit-Holds R f _ (tt, tt))

  pub handle-Holds : (m : Message) → Holds R (handle sv cr n m)
  unfolding handle
  handle-Holds (spb_proposal p) = handle_spb_proposal-Holds p
  handle-Holds (spb_vote v) = handle_spb_vote-Holds R f v
  handle-Holds (finish v) = handle_finish-Holds v
  handle-Holds (done d) = handle_done-Holds d
  handle-Holds (elect_share s) = handle_elect_share-Holds s
  handle-Holds (prevote v) = handle_prevote-Holds v
  handle-Holds (fin_vote v) = handle_finvote-Holds v
  handle-Holds (halt h) = handle_halt-Holds h
