-- ===== src/Protocol/Discard.antt =====
-- What core/smvba/consensus/core.go discards.
use s_mvba.Base.{keys, ℤ, true, false, none, ◌≡◌, lookup, int_eq, arith}
use s_mvba.Error.{ok, panic, ◌>>=◌}
use s_mvba.Crypto.{Primitives}
use s_mvba.Message.{
  Message, SpbProposal, spb_proposal, spb_vote, finish, done, elect_share, prevote, fin_vote, halt,
  spb_one_phase, verify,
}
use s_mvba.Spb.{Site}
use s_mvba.Core.{
  Services, Core, messgae_filter, handle, receive_message, handle_spb_proposal, handle_spb_vote,
  handle_finish, handle_done, handle_elect_share, handle_prevote, handle_finvote, handle_halt,
  commit_late, step, message,
}

abbrev pub epoch_of : Message → ℤ
epoch_of (spb_proposal m) = m.epoch
epoch_of (spb_vote m) = m.epoch
epoch_of (finish m) = m.epoch
epoch_of (done m) = m.epoch
epoch_of (elect_share m) = m.epoch
epoch_of (prevote m) = m.epoch
epoch_of (fin_vote m) = m.epoch
epoch_of (halt m) = m.epoch

-- A proposal of the first phase: the one message that is looked at before its epoch is.
abbrev pub IsFirstPhase : Message → Type 0
IsFirstPhase (spb_proposal p) = p.phase ≡ spb_one_phase
IsFirstPhase _ = ⊥

module _ {W : Type 0} (sv : Services W) (cr : Primitives) (n : Site) where
  -- A message of an epoch below the node's is dropped: it changes nothing and is no error, unless
  -- it is a proposal of the first phase.
  pub handle_stale :
      (m : Message) (c : Core W)
      → messgae_filter (epoch_of m) c ≡ true
      → ¬ IsFirstPhase m
      → handle sv cr n m c ≡ (ok tt, c)
  unfolding handle handle_spb_proposal handle_spb_vote handle_finish handle_done handle_elect_share
      handle_prevote handle_finvote handle_halt ◌>>=◌
  handle_stale (spb_proposal p) c s h = grind keys
  handle_stale (spb_vote m) c s h = ground arith
  handle_stale (finish m) c s h = ground arith
  handle_stale (done m) c s h = ground arith
  handle_stale (elect_share m) c s h = ground arith
  handle_stale (prevote m) c s h = ground arith
  handle_stale (fin_vote m) c s h = ground arith
  handle_stale (halt m) c s h = ground arith

  -- A proposal of the first phase with no block, of an epoch that is not below the node's and was
  -- not halted, ends the process.
  pub nil_block_panics :
      (p : SpbProposal) (c : Core W)
      → p.phase ≡ spb_one_phase
      → p.b ≡ none
      → messgae_filter p.epoch c ≡ false
      → lookup p.epoch c.halt_flags ≡ none
      → (verify cr n.committee (spb_proposal p) ≡ ok true)
      → (step sv cr n (message (spb_proposal p)) c).0 ≡ panic
  unfolding step receive_message handle handle_spb_proposal commit_late ◌>>=◌
  nil_block_panics p c ph b s h v = grind keys
