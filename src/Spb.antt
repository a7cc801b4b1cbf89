-- ===== src/Spb.antt =====
-- core/smvba/consensus/spb.go: one instance of strong provable broadcast. A goroutine's body is one
-- step, which returns the new instance and what it does outside, in order.
pub mod Phases
pub mod Voting
pub mod Threads
pub mod Races
pub mod Interleaved
pub mod Certified
use s_mvba.Base.{
  ℕ, suc, ◌+◌, ℤ, pos, negsuc, Map, lookup, insert, int_eq, List, [], ◌∷◌, ◌++◌, map, Option, none,
  some, Bool, true, false, eqz, not, ◌==◌, if◌then◌else◌,
}
use s_mvba.Error.{Outcome, ok, err, panic, M}
use s_mvba.Committee.{Committee, Parameters, hight_threshold, none_id}
use s_mvba.Crypto.{Digest, zero_digest, Primitives, SigService}
use s_mvba.Message.{
  ConsensusBlock, SpbProposal, SpbVote, Message, spb_proposal, spb_vote, finish, spb_one_phase,
  spb_two_phase, block_hash, new_spb_proposal, new_spb_vote, new_finish,
}

-- What does not change in a node: the fields of `Core` that its handlers only read.
pub record Site : Type 0 where
  pub name : ℤ
  pub committee : Committee
  pub parameters : Parameters
  pub sig_service : SigService

pub record Spb : Type 0 where
  pub proposer : ℤ
  pub epoch : ℤ
  pub round : ℤ
  pub block_hash : Option Digest
  pub votes : Map ℤ ℕ
  pub un_handle_vote : List SpbVote
  pub un_handle_proposal : List SpbProposal
  pub lock_flag : Bool

-- What code does outside its own state: `Transimtor.Send` to a node (`NONE_ID` for all others), a
-- write to the node's own `RecvChannel`, a goroutine on an instance, a block sent to `commitCh`.
pub data Effect : Type 0 where
  send : ℤ → Message → Effect
  receive : Message → Effect
  go_proposal : SpbProposal → Effect
  go_vote : SpbVote → Effect
  commits : ConsensusBlock → Effect

unfoldable pub new_spb : ℤ → ℤ → ℤ → Spb
new_spb epoch round proposer = record {
  proposer = proposer;
  epoch = epoch;
  round = round;
  block_hash = none;
  votes = [];
  un_handle_vote = [];
  un_handle_proposal = [];
  lock_flag = false;
}

abbrev pub Step : Type 0
Step = Outcome (List Effect) × Spb

-- A vote goes to the proposer, over the own channel when that is this node.
abbrev pub reply : Site → Spb → SpbVote → Effect
reply n s v =
    if not (eqz n.name s.proposer) then send s.proposer (spb_vote v) else receive (spb_vote v)

abbrev pub count_of : Option ℕ → ℕ
count_of none = 0
count_of (some k) = k

module _ (cr : Primitives) (n : Site) where
  abbrev pub vote_of : SpbProposal → Digest → Spb → SpbVote
  vote_of p hash s = new_spb_vote cr n.sig_service n.name p.author hash s.epoch s.round p.phase

  -- The first proposal of the first phase.
  unfoldable pub accept_block : SpbProposal → ConsensusBlock → Spb → Step
  accept_block p b s =
      let hash = block_hash cr b in
      (
        ok (
            reply n s (vote_of p hash s)
            ∷ (map go_proposal s.un_handle_proposal ++ map go_vote s.un_handle_vote)),
        record s { block_hash = some hash; un_handle_proposal = []; un_handle_vote = [] },
      )

  abbrev pub one_phase : SpbProposal → Spb → Option Digest → Option ConsensusBlock → Step
  one_phase p s (some _) b = (ok [], s)
  one_phase p s none none = (panic, s)
  one_phase p s none (some b) =
      if not (eqz s.proposer b.proposer) then (ok [], s) else accept_block p b s

  abbrev pub two_phase : SpbProposal → Spb → Option Digest → Step
  two_phase p s none = (ok [], record s { un_handle_proposal = s.un_handle_proposal ++ p ∷ [] })
  two_phase p s (some _) =
      (ok (reply n s (vote_of p zero_digest s) ∷ []), record s { lock_flag = true })

  unfoldable pub process_proposal : SpbProposal → Spb → Step
  unfolding accept_block
  process_proposal p s =
      if eqz p.phase spb_one_phase
      then one_phase p s s.block_hash p.b
      else if eqz p.phase spb_two_phase
      then two_phase p s s.block_hash
      else (ok [], s)

  -- The second phase carries an empty block of epoch -1.
  abbrev pub lock_proposal : Spb → Message
  lock_proposal s = spb_proposal (
      new_spb_proposal cr n.sig_service n.name
        (some (record { proposer = s.proposer; pay_loads = []; epoch = negsuc 0 })) s.epoch s.round
        spb_two_phase)

  -- What follows when the votes of a phase reach the threshold.
  unfoldable pub quorum : ℤ → Digest → Spb → List Effect
  quorum phase hash s =
      let certified = finish (new_finish cr n.sig_service n.name hash s.epoch s.round) in
      if eqz phase spb_one_phase
      then send none_id (lock_proposal s) ∷ receive (lock_proposal s) ∷ []
      else if eqz phase spb_two_phase
      then send none_id certified ∷ receive certified ∷ []
      else []

  abbrev pub count_vote : SpbVote → Spb → Option Digest → Step
  count_vote v s none = (ok [], record s { un_handle_vote = s.un_handle_vote ++ v ∷ [] })
  count_vote v s (some hash) =
      let num = count_of (lookup v.phase s.votes) + 1 in
      (
        ok (if num == hight_threshold n.committee then quorum v.phase hash s else []),
        record s { votes = insert v.phase num s.votes },
      )

  unfoldable pub process_vote : SpbVote → Spb → Step
  unfolding quorum
  process_vote v s = count_vote v s s.block_hash
