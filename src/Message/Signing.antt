-- ===== src/Message/Signing.antt =====
-- `Verify` against the constructors of core/smvba/consensus/message.go.
use s_mvba.Base.{ℤ, true, Option, some, none, some-injective, [], ◌≡◌, refl, arith, length}
use s_mvba.Error.{ok, panic}
use s_mvba.Committee.{Committee, name}
use s_mvba.Crypto.{
  Digest, Bytes, Primitives, Signature, SigService, verify_signature, request_signature,
  verify_share,
}
use s_mvba.Message.{
  Message, ConsensusBlock, spb_proposal, spb_vote, finish, done, elect_share, prevote, fin_vote,
  halt, verify, new_spb_proposal, new_spb_vote, new_finish, new_done, new_elect_share, new_prevote,
  new_fin_vote, new_halt, proposal_hash, vote_hash, finish_hash, done_hash, elect_hash, ballot_hash,
  halt_hash,
}

pub signed_lem :
    (cr : Primitives) (sigs : SigService) (key : Bytes) (d : Digest)
    → length key ≡ 32
    → cr.ed_verify key d (cr.ed_sign sigs.pri_key d) ≡ true
    → verify_signature cr (request_signature cr sigs d) key d ≡ ok true
unfolding verify_signature request_signature
signed_lem cr sigs key d len good = ground arith

refused_lem :
    (cr : Primitives) (s : Signature) (key : Bytes) (d : Digest)
    → key ≡ []
    → verify_signature cr s key d ≡ panic
unfolding verify_signature
refused_lem cr s key d e = rw e

abbrev IsElectShare : Message → Type 0
IsElectShare (elect_share e) = Unit
IsElectShare _ = ⊥

abbrev pub author_of : Message → ℤ
author_of (spb_proposal m) = m.author
author_of (spb_vote m) = m.author
author_of (finish m) = m.author
author_of (done m) = m.author
author_of (elect_share m) = m.author
author_of (prevote m) = m.author
author_of (fin_vote m) = m.author
author_of (halt m) = m.author

-- `Verify` panics on a message whose author has no key in the committee, unless the message is
-- an ElectShare.
pub verify_unknown_author :
    (cr : Primitives) (c : Committee) (m : Message)
    → ¬ IsElectShare m
    → name c (author_of m) ≡ []
    → verify cr c m ≡ panic
unfolding verify
verify_unknown_author cr c (elect_share m) h e = absurd (h tt)
verify_unknown_author cr c (spb_proposal m) h e = refused_lem cr m.signature _ _ e
verify_unknown_author cr c (spb_vote m) h e = refused_lem cr m.signature _ _ e
verify_unknown_author cr c (finish m) h e = refused_lem cr m.signature _ _ e
verify_unknown_author cr c (done m) h e = refused_lem cr m.signature _ _ e
verify_unknown_author cr c (prevote m) h e = refused_lem cr m.signature _ _ e
verify_unknown_author cr c (fin_vote m) h e = refused_lem cr m.signature _ _ e
verify_unknown_author cr c (halt m) h e = refused_lem cr m.signature _ _ e

-- What `Hash` reads of a message.
unfoldable pub hash_of : Primitives → Message → Digest
hash_of cr (spb_proposal p) = proposal_hash cr p.author p.b p.epoch p.round p.phase
hash_of cr (spb_vote v) = vote_hash cr v.author v.block_hash v.epoch v.round v.phase
hash_of cr (finish f) = finish_hash cr f.author f.block_hash f.epoch f.round
hash_of cr (done d) = done_hash cr d.author d.epoch d.round
hash_of cr (elect_share e) = elect_hash cr e.epoch e.round
hash_of cr (prevote p) = ballot_hash cr p.author p.leader p.epoch p.round p.flag p.block_hash
hash_of cr (fin_vote p) = ballot_hash cr p.author p.leader p.epoch p.round p.flag p.block_hash
hash_of cr (halt h) = halt_hash cr h.author h.epoch h.leader h.block_hash

abbrev signature_of : Message → Option Signature
signature_of (spb_proposal m) = some m.signature
signature_of (spb_vote m) = some m.signature
signature_of (finish m) = some m.signature
signature_of (done m) = some m.signature
signature_of (elect_share m) = none
signature_of (prevote m) = some m.signature
signature_of (fin_vote m) = some m.signature
signature_of (halt m) = some m.signature

-- Signed by an author with the author's key; a share of the coin is accepted from all.
pub data IsSigned (cr : Primitives) (sigs : SigService) (author : ℤ) (m : Message) : Type 0 where
  by_key :
      author_of m ≡ author
      → signature_of m ≡ some (request_signature cr sigs (hash_of cr m))
      → IsSigned cr sigs author m
  by_share : IsElectShare m → IsSigned cr sigs author m

module _ (cr : Primitives) (sigs : SigService) (author : ℤ) where
  pub new_spb_proposal-IsSigned :
      (b : Option ConsensusBlock) (epoch round phase : ℤ)
      → IsSigned cr sigs author (spb_proposal (new_spb_proposal cr sigs author b epoch round phase))
  unfolding new_spb_proposal hash_of
  new_spb_proposal-IsSigned b epoch round phase = by_key refl refl

  pub new_spb_vote-IsSigned :
      (proposer : ℤ) (hash : Digest) (epoch round phase : ℤ)
      → IsSigned cr sigs author
          (spb_vote (new_spb_vote cr sigs author proposer hash epoch round phase))
  unfolding new_spb_vote hash_of
  new_spb_vote-IsSigned proposer hash epoch round phase = by_key refl refl

  pub new_finish-IsSigned :
      (hash : Digest) (epoch round : ℤ)
      → IsSigned cr sigs author (finish (new_finish cr sigs author hash epoch round))
  unfolding new_finish hash_of
  new_finish-IsSigned hash epoch round = by_key refl refl

  pub new_done-IsSigned :
      (epoch round : ℤ) → IsSigned cr sigs author (done (new_done cr sigs author epoch round))
  unfolding new_done hash_of
  new_done-IsSigned epoch round = by_key refl refl

  pub new_prevote-IsSigned :
      (leader epoch round flag : ℤ) (hash : Digest)
      → IsSigned cr sigs author (prevote (new_prevote cr sigs author leader epoch round flag hash))
  unfolding new_prevote hash_of
  new_prevote-IsSigned leader epoch round flag hash = by_key refl refl

  pub new_fin_vote-IsSigned :
      (leader epoch round flag : ℤ) (hash : Digest)
      → IsSigned cr sigs author
          (fin_vote (new_fin_vote cr sigs author leader epoch round flag hash))
  unfolding new_fin_vote hash_of
  new_fin_vote-IsSigned leader epoch round flag hash = by_key refl refl

  pub new_halt-IsSigned :
      (leader : ℤ) (hash : Digest) (epoch round : ℤ)
      → IsSigned cr sigs author (halt (new_halt cr sigs author leader hash epoch round))
  unfolding new_halt hash_of
  new_halt-IsSigned leader hash epoch round = by_key refl refl

  module _ (c : Committee) (len : length (name c author) ≡ 32)
      (good : (d : Digest)
        → cr.ed_verify (name c author) d (cr.ed_sign sigs.pri_key d) ≡ true) where
    key_verifies :
        (s : Signature) (a : ℤ) (d : Digest)
        → a ≡ author
        → some s ≡ some (request_signature cr sigs d)
        → verify_signature cr s (name c a) d ≡ ok true
    key_verifies s a d same e =
        rw (some-injective s (request_signature cr sigs d) e, same)
          (signed_lem cr sigs (name c author) d len (good d))

    -- What is signed passes `Verify`, when the committee has the author's public key, of 32 bytes, and that
    -- key verifies what the author's private key signs.
    pub signed-verify : (m : Message) → IsSigned cr sigs author m → verify cr c m ≡ ok true
    unfolding verify hash_of verify_share
    signed-verify (elect_share m) s = refl
    signed-verify (spb_proposal m) (by_key a e) = key_verifies m.signature m.author _ a e
    signed-verify (spb_proposal m) (by_share h) = absurd h
    signed-verify (spb_vote m) (by_key a e) = key_verifies m.signature m.author _ a e
    signed-verify (spb_vote m) (by_share h) = absurd h
    signed-verify (finish m) (by_key a e) = key_verifies m.signature m.author _ a e
    signed-verify (finish m) (by_share h) = absurd h
    signed-verify (done m) (by_key a e) = key_verifies m.signature m.author _ a e
    signed-verify (done m) (by_share h) = absurd h
    signed-verify (prevote m) (by_key a e) = key_verifies m.signature m.author _ a e
    signed-verify (prevote m) (by_share h) = absurd h
    signed-verify (fin_vote m) (by_key a e) = key_verifies m.signature m.author _ a e
    signed-verify (fin_vote m) (by_share h) = absurd h
    signed-verify (halt m) (by_key a e) = key_verifies m.signature m.author _ a e
    signed-verify (halt m) (by_share h) = absurd h

module _ (cr : Primitives) (c : Committee) (author : ℤ) where
  -- Every message that a constructor makes for an author passes `Verify`, when the committee has
  -- the author's public key, of 32 bytes, and that key verifies what the author's private key signs.
  pub new-verify :
      (sigs : SigService)
      → length (name c author) ≡ 32
      → ((d : Digest) → cr.ed_verify (name c author) d (cr.ed_sign sigs.pri_key d) ≡ true)
      → (b : Option ConsensusBlock) (x : ℤ) (hash : Digest) (epoch round flag : ℤ)
      → (verify cr c (spb_proposal (new_spb_proposal cr sigs author b epoch round flag)) ≡ ok true)
        × (verify cr c (spb_vote (new_spb_vote cr sigs author x hash epoch round flag)) ≡ ok true)
        × (verify cr c (finish (new_finish cr sigs author hash epoch round)) ≡ ok true)
        × (verify cr c (done (new_done cr sigs author epoch round)) ≡ ok true)
        × (verify cr c (elect_share (new_elect_share cr sigs author epoch round)) ≡ ok true)
        × (verify cr c (prevote (new_prevote cr sigs author x epoch round flag hash)) ≡ ok true)
        × (verify cr c (fin_vote (new_fin_vote cr sigs author x epoch round flag hash)) ≡ ok true)
        × (verify cr c (halt (new_halt cr sigs author x hash epoch round)) ≡ ok true)
  new-verify sigs len good b x hash epoch round flag =
      let passes = signed-verify cr sigs author c len good in
      (
        passes _ (new_spb_proposal-IsSigned cr sigs author b epoch round flag),
        passes _ (new_spb_vote-IsSigned cr sigs author x hash epoch round flag),
        passes _ (new_finish-IsSigned cr sigs author hash epoch round),
        passes _ (new_done-IsSigned cr sigs author epoch round),
        passes _ (by_share tt),
        passes _ (new_prevote-IsSigned cr sigs author x epoch round flag hash),
        passes _ (new_fin_vote-IsSigned cr sigs author x epoch round flag hash),
        passes _ (new_halt-IsSigned cr sigs author x hash epoch round),
      )
