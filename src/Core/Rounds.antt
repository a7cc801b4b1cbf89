-- ===== src/Core/Rounds.antt =====
-- How core/smvba/consensus/core.go moves: from certificates to the coin, from the leader to the
-- votes, to the next round and to the next epoch.
use s_mvba.Base.{ℤ, pos, Bool, true, false, not, Option, none, some, int_eq, eqz, ltz, inc64, put2}
use s_mvba.Error.{M, pure, crash, gets, modify, when, ◌>>=◌, ◌>>◌}
use s_mvba.Committee.{none_id}
use s_mvba.Crypto.{Digest, zero_digest, Primitives}
use s_mvba.Message.{
  ConsensusBlock, Message, spb_proposal, done, elect_share, prevote, halt, spb_one_phase,
  vote_flag_yes, vote_flag_no, new_spb_proposal, new_done, new_elect_share, new_prevote, new_halt,
}
use s_mvba.Aggreator.{Action, action_no}
use s_mvba.Spb.{Site, send, receive}
use s_mvba.Core.State.{
  Services, Core, emit, broad_cast, messgae_filter, has_done, has_ready, has_finish, elector_leader,
  get_spb_instance,
}
use s_mvba.Core.Blocks.{get_consensus_block, generator_block}

abbrev pub or_digest : Option Digest → Digest → Digest
or_digest none d = d
or_digest (some own) d = own

abbrev pub set_done : {W : Type 0} → ℤ → ℤ → Core W → Core W
set_done epoch round c = record c { done_flags = put2 epoch round tt c.done_flags }

module _ (cr : Primitives) (n : Site) where
  abbrev pub my_done : ℤ → ℤ → Message
  my_done epoch round = done (new_done cr n.sig_service n.name epoch round)

  abbrev pub my_share : ℤ → ℤ → Message
  my_share epoch round = elect_share (new_elect_share cr n.sig_service n.name epoch round)

  abbrev pub my_halt : ℤ → Digest → ℤ → ℤ → Message
  my_halt leader d epoch round = halt (new_halt cr n.sig_service n.name leader d epoch round)

  abbrev pub my_prevote : ℤ → ℤ → ℤ → ℤ → Digest → Message
  my_prevote leader epoch round flag d =
      prevote (new_prevote cr n.sig_service n.name leader epoch round flag d)

  abbrev pub my_proposal : ConsensusBlock → ℤ → ℤ → Message
  my_proposal b epoch round =
      spb_proposal (new_spb_proposal cr n.sig_service n.name (some b) epoch round spb_one_phase)

module _ {W : Type 0} (sv : Services W) (cr : Primitives) (n : Site) where
  -- Done and the share go out, both are then put on the own channel, and the flag is set.
  unfoldable pub announce : ℤ → ℤ → M (Core W) (Unit {0})
  announce epoch round = do
    emit (send none_id (my_done cr n epoch round))
    emit (send none_id (my_share cr n epoch round))
    emit (receive (my_done cr n epoch round))
    emit (receive (my_share cr n epoch round))
    modify (set_done epoch round)

  unfoldable pub invoke_done_and_share : ℤ → ℤ → M (Core W) (Unit {0})
  invoke_done_and_share epoch round = do
    before ← has_done epoch round
    when (not before) (announce epoch round)

  abbrev pub yes_prevote : ℤ → ℤ → ℤ → Option Digest → M (Core W) (Unit {0})
  yes_prevote leader epoch round none = crash
  yes_prevote leader epoch round (some d) =
      broad_cast (my_prevote cr n leader epoch round vote_flag_yes d)

  abbrev pub vote_by_lock : ℤ → ℤ → ℤ → Bool → Option Digest → M (Core W) (Unit {0})
  vote_by_lock epoch round leader true d = yes_prevote leader epoch round d
  vote_by_lock epoch round leader false d =
      broad_cast (my_prevote cr n leader epoch round vote_flag_no zero_digest)

  -- With no certificate of the leader's block: a PreVote, by the lock of the leader's instance.
  unfoldable pub vote_on_leader : ℤ → ℤ → ℤ → M (Core W) (Unit {0})
  vote_on_leader epoch round leader = do
    spb ← get_spb_instance epoch round leader
    vote_by_lock epoch round leader spb.lock_flag spb.block_hash

  abbrev pub on_leader : ℤ → ℤ → ℤ → Option Digest → M (Core W) (Unit {0})
  on_leader epoch round leader (some d) = broad_cast (my_halt cr n leader d epoch round)
  on_leader epoch round leader none = vote_on_leader epoch round leader

  -- The leader is read once for the log and once for the test.
  unfoldable pub process_leader : ℤ → ℤ → M (Core W) (Unit {0})
  process_leader epoch round = do
    _ ← elector_leader epoch round
    ready ← has_ready epoch round
    when ready do
      leader ← elector_leader epoch round
      when (not (eqz leader none_id)) do
        certificate ← gets (has_finish epoch round leader)
        on_leader epoch round leader certificate

  abbrev pub propose : ℤ → ℤ → Option ConsensusBlock → M (Core W) (Unit {0})
  propose epoch round (some b) = broad_cast (my_proposal cr n b epoch round)
  propose epoch round none = do
    b ← generator_block sv cr n epoch
    broad_cast (my_proposal cr n b epoch round)

  -- After NO the node's own block of the round is taken, when it has one.
  abbrev pub carried : Action → ℤ → ℤ → Digest → M (Core W) Digest
  carried action_no epoch round d = do
    spb ← get_spb_instance epoch round n.name
    pure (or_digest spb.block_hash d)
  carried _ epoch round d = pure d

  unfoldable pub advance_next_round : ℤ → ℤ → Action → Digest → M (Core W) (Unit {0})
  advance_next_round epoch round flag d = do
    stale ← gets (messgae_filter epoch)
    when (not stale) do
      d' ← carried flag epoch round d
      b ← get_consensus_block sv cr n d'
      propose epoch (inc64 round) b

  -- The first proposal of an epoch.
  unfoldable pub propose_first : ℤ → M (Core W) (Unit {0})
  propose_first epoch = do
    b ← generator_block sv cr n epoch
    broad_cast (my_proposal cr n b epoch (pos 0))

  unfoldable pub advance_next_epoch : ℤ → M (Core W) (Unit {0})
  unfolding propose_first
  advance_next_epoch epoch = do
    later ← gets (λ c. ltz c.epoch epoch)
    when later do modify (λ c. record c { epoch = epoch }); propose_first epoch
