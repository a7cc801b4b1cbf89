-- ===== src/Message.antt =====
-- core/smvba/consensus/message.go: the consensus block, the eight messages, what each signs
-- (`Hash`), how each is made (`New…`) and checked (`Verify`).
pub mod Wire
pub mod Replay
pub mod Signing
use s_mvba.Base.{ℕ, ℤ, pos, List, [], ◌∷◌, Option, none, some, Bool, true, false}
use s_mvba.Error.{Outcome, ok}
use s_mvba.Committee.{Committee, name}
use s_mvba.Crypto.{
  Bytes, Digest, Primitives, Hasher, new_hasher, add, sum256, Signature, SignatureShare, SigService,
  verify_signature, verify_share, request_signature, request_ts_sugnature,
}
use s_mvba.Crypto.Binary.{append_int2}

abbrev pub spb_one_phase : ℤ
spb_one_phase = pos 0

abbrev pub spb_two_phase : ℤ
spb_two_phase = pos 1

abbrev pub vote_flag_yes : ℤ
vote_flag_yes = pos 0

abbrev pub vote_flag_no : ℤ
vote_flag_no = pos 1

pub record ConsensusBlock : Type 0 where
  pub proposer : ℤ
  pub pay_loads : List Digest
  pub epoch : ℤ

pub record SpbProposal : Type 0 where
  pub author : ℤ
  -- A pointer: `none` is nil.
  pub b : Option ConsensusBlock
  pub epoch : ℤ
  pub round : ℤ
  pub phase : ℤ
  pub signature : Signature

pub record SpbVote : Type 0 where
  pub author : ℤ
  pub proposer : ℤ
  pub block_hash : Digest
  pub epoch : ℤ
  pub round : ℤ
  pub phase : ℤ
  pub signature : Signature

pub record Finish : Type 0 where
  pub author : ℤ
  pub block_hash : Digest
  pub epoch : ℤ
  pub round : ℤ
  pub signature : Signature

pub record Done : Type 0 where
  pub author : ℤ
  pub epoch : ℤ
  pub round : ℤ
  pub signature : Signature

pub record ElectShare : Type 0 where
  pub author : ℤ
  pub epoch : ℤ
  pub round : ℤ
  pub sig_share : SignatureShare

pub record Prevote : Type 0 where
  pub author : ℤ
  pub leader : ℤ
  pub epoch : ℤ
  pub round : ℤ
  pub flag : ℤ
  pub block_hash : Digest
  pub signature : Signature

pub record FinVote : Type 0 where
  pub author : ℤ
  pub leader : ℤ
  pub epoch : ℤ
  pub round : ℤ
  pub flag : ℤ
  pub block_hash : Digest
  pub signature : Signature

pub record Halt : Type 0 where
  pub author : ℤ
  pub epoch : ℤ
  pub round : ℤ
  pub leader : ℤ
  pub block_hash : Digest
  pub signature : Signature

-- The messages that the consensus channel carries.
pub data Message : Type 0 where
  spb_proposal : SpbProposal → Message
  spb_vote : SpbVote → Message
  finish : Finish → Message
  done : Done → Message
  elect_share : ElectShare → Message
  prevote : Prevote → Message
  fin_vote : FinVote → Message
  halt : Halt → Message

-- The constants `SPBProposalType` to `HaltType`.
unfoldable pub msg_type : Message → ℕ
msg_type (spb_proposal _) = 0
msg_type (spb_vote _) = 1
msg_type (finish _) = 2
msg_type (done _) = 3
msg_type (elect_share _) = 4
msg_type (prevote _) = 5
msg_type (fin_vote _) = 6
msg_type (halt _) = 7

abbrev int : Hasher → ℤ → Hasher
int h x = add h (append_int2 x)

add_all : Hasher → List Digest → Hasher
add_all h [] = h
add_all h (d ∷ ds) = add_all (add h d) ds

-- What is hashed.
abbrev digest : Primitives → Hasher → Digest
digest cr h = (sum256 cr h []).0

module _ (cr : Primitives) where
  unfoldable pub block_hash : ConsensusBlock → Digest
  unfolding new_hasher add sum256 add_all
  block_hash b = digest cr (int (add_all (int new_hasher b.proposer) b.pay_loads) b.epoch)

  abbrev add_block : Hasher → Option ConsensusBlock → Hasher
  add_block h none = h
  add_block h (some b) = add h (block_hash b)

  unfoldable pub proposal_hash : ℤ → Option ConsensusBlock → ℤ → ℤ → ℤ → Digest
  unfolding new_hasher add sum256
  proposal_hash author b epoch round phase =
      digest cr (add_block (int (int (int (int new_hasher author) epoch) round) phase) b)

  unfoldable pub vote_hash : ℤ → Digest → ℤ → ℤ → ℤ → Digest
  unfolding new_hasher add sum256
  vote_hash author hash epoch round phase =
      digest cr (add (int (int (int (int new_hasher author) epoch) round) phase) hash)

  unfoldable pub finish_hash : ℤ → Digest → ℤ → ℤ → Digest
  unfolding new_hasher add sum256
  finish_hash author hash epoch round =
      digest cr (int (int (int (add new_hasher hash) author) epoch) round)

  unfoldable pub done_hash : ℤ → ℤ → ℤ → Digest
  unfolding new_hasher add sum256
  done_hash author epoch round = digest cr (int (int (int new_hasher author) epoch) round)

  -- The author is not part of what is hashed.
  unfoldable pub elect_hash : ℤ → ℤ → Digest
  unfolding new_hasher add sum256
  elect_hash epoch round = digest cr (int (int new_hasher epoch) round)

  -- `Prevote.Hash` and `FinVote.Hash` read the same fields in the same order.
  unfoldable pub ballot_hash : ℤ → ℤ → ℤ → ℤ → ℤ → Digest → Digest
  unfolding new_hasher add sum256
  ballot_hash author leader epoch round flag hash =
      digest cr (add (int (int (int (int (int new_hasher author) leader) epoch) round) flag) hash)

  -- The round is not part of what is hashed.
  unfoldable pub halt_hash : ℤ → ℤ → ℤ → Digest → Digest
  unfolding new_hasher add sum256
  halt_hash author epoch leader hash =
      digest cr (add (int (int (int new_hasher author) epoch) leader) hash)

  unfoldable pub new_spb_proposal : SigService → ℤ → Option ConsensusBlock → ℤ → ℤ → ℤ → SpbProposal
  new_spb_proposal sigs author b epoch round phase = record {
    author = author;
    b = b;
    epoch = epoch;
    round = round;
    phase = phase;
    signature = request_signature cr sigs (proposal_hash author b epoch round phase);
  }

  unfoldable pub new_spb_vote : SigService → ℤ → ℤ → Digest → ℤ → ℤ → ℤ → SpbVote
  new_spb_vote sigs author proposer hash epoch round phase = record {
    author = author;
    proposer = proposer;
    block_hash = hash;
    epoch = epoch;
    round = round;
    phase = phase;
    signature = request_signature cr sigs (vote_hash author hash epoch round phase);
  }

  unfoldable pub new_finish : SigService → ℤ → Digest → ℤ → ℤ → Finish
  new_finish sigs author hash epoch round = record {
    author = author;
    block_hash = hash;
    epoch = epoch;
    round = round;
    signature = request_signature cr sigs (finish_hash author hash epoch round);
  }

  unfoldable pub new_done : SigService → ℤ → ℤ → ℤ → Done
  new_done sigs author epoch round = record {
    author = author;
    epoch = epoch;
    round = round;
    signature = request_signature cr sigs (done_hash author epoch round);
  }

  unfoldable pub new_elect_share : SigService → ℤ → ℤ → ℤ → ElectShare
  new_elect_share sigs author epoch round = record {
    author = author;
    epoch = epoch;
    round = round;
    sig_share = request_ts_sugnature cr sigs (elect_hash epoch round);
  }

  unfoldable pub new_prevote : SigService → ℤ → ℤ → ℤ → ℤ → ℤ → Digest → Prevote
  new_prevote sigs author leader epoch round flag hash = record {
    author = author;
    leader = leader;
    epoch = epoch;
    round = round;
    flag = flag;
    block_hash = hash;
    signature = request_signature cr sigs (ballot_hash author leader epoch round flag hash);
  }

  -- The constructor takes a leader and does not store it: the field keeps Go's zero.
  unfoldable pub new_fin_vote : SigService → ℤ → ℤ → ℤ → ℤ → ℤ → Digest → FinVote
  new_fin_vote sigs author leader epoch round flag hash = record {
    author = author;
    leader = pos 0;
    epoch = epoch;
    round = round;
    flag = flag;
    block_hash = hash;
    signature = request_signature cr sigs (ballot_hash author (pos 0) epoch round flag hash);
  }

  unfoldable pub new_halt : SigService → ℤ → ℤ → Digest → ℤ → ℤ → Halt
  new_halt sigs author leader hash epoch round = record {
    author = author;
    epoch = epoch;
    round = round;
    leader = leader;
    block_hash = hash;
    signature = request_signature cr sigs (halt_hash author epoch leader hash);
  }

  -- `Verify` of each message; Ed25519 panics on the key of an author outside the committee.
  unfoldable pub verify : Committee → Message → Outcome Bool
  verify c (spb_proposal p) =
      verify_signature cr p.signature (name c p.author)
        (proposal_hash p.author p.b p.epoch p.round p.phase)
  verify c (spb_vote v) =
      verify_signature cr v.signature (name c v.author)
        (vote_hash v.author v.block_hash v.epoch v.round v.phase)
  verify c (finish f) =
      verify_signature cr f.signature (name c f.author)
        (finish_hash f.author f.block_hash f.epoch f.round)
  verify c (done d) =
      verify_signature cr d.signature (name c d.author) (done_hash d.author d.epoch d.round)
  verify c (elect_share e) = ok (verify_share e.sig_share (elect_hash e.epoch e.round))
  verify c (prevote p) =
      verify_signature cr p.signature (name c p.author)
        (ballot_hash p.author p.leader p.epoch p.round p.flag p.block_hash)
  verify c (fin_vote p) =
      verify_signature cr p.signature (name c p.author)
        (ballot_hash p.author p.leader p.epoch p.round p.flag p.block_hash)
  verify c (halt h) =
      verify_signature cr h.signature (name c h.author)
        (halt_hash h.author h.epoch h.leader h.block_hash)
