-- ===== src/Message/Wire.antt =====
-- The message types of core/smvba/consensus/message.go, as network/codec.go uses them.
use s_mvba.Base.{ℤ, pos, List, [], ◌∷◌, some, true, Map, lookup, int_eq, eqz, ◌≡◌, refl}
use s_mvba.Error.{ok}
use s_mvba.Message.{
  msg_type, Message, spb_proposal, spb_vote, finish, done, elect_share, prevote, fin_vote, halt,
}
use s_mvba.Network.Codec.{Gob, Codec, write_all, serve_conn}
use s_mvba.Network.Arrivals.{each_received, arrives}
use s_mvba.Network.Transmitor.{Module, consensus, new_transmitor, receive}

-- The types of the map, by name.
pub data MessageType : Type 0 where
  spb_proposal_type : MessageType
  spb_vote_type : MessageType
  finish_type : MessageType
  done_type : MessageType
  elect_share_type : MessageType
  prevote_type : MessageType
  fin_vote_type : MessageType
  halt_type : MessageType

-- The type that a message has in Go.
unfoldable pub type_of : Message → MessageType
type_of (spb_proposal p) = spb_proposal_type
type_of (spb_vote v) = spb_vote_type
type_of (finish f) = finish_type
type_of (done d) = done_type
type_of (elect_share e) = elect_share_type
type_of (prevote p) = prevote_type
type_of (fin_vote f) = fin_vote_type
type_of (halt h) = halt_type

unfoldable pub default_message_type_map : Map ℤ MessageType
default_message_type_map =
    (pos 0, spb_proposal_type)
    ∷ (pos 1, spb_vote_type)
    ∷ (pos 2, finish_type)
    ∷ (pos 3, done_type)
    ∷ (pos 4, elect_share_type)
    ∷ (pos 5, prevote_type)
    ∷ (pos 6, fin_vote_type)
    ∷ (pos 7, halt_type)
    ∷ []

-- The `Module` methods.
unfoldable pub module_of : Message → Module
module_of m = consensus

abbrev pub consensus_codec : Gob MessageType Message → Codec MessageType Message
consensus_codec gob = record {
  types = default_message_type_map;
  gob = gob;
  msg_type = λ m. pos (msg_type m);
}

lookup-msg_type :
    (m : Message) → lookup (pos (msg_type m)) default_message_type_map ≡ some (type_of m)
unfolding lookup msg_type type_of default_message_type_map eqz
lookup-msg_type (spb_proposal p) = refl
lookup-msg_type (spb_vote v) = refl
lookup-msg_type (finish f) = refl
lookup-msg_type (done d) = refl
lookup-msg_type (elect_share e) = refl
lookup-msg_type (prevote p) = refl
lookup-msg_type (fin_vote f) = refl
lookup-msg_type (halt h) = refl

module _ (gob : Gob MessageType Message) where
  -- The consensus messages that are written to a new connection reach the channel of the consensus at
  -- its other end, all of them and in order, when gob encodes each message and reads it back in its type.
  pub consensus_arrives :
      (ms : List Message)
      → ((m : Message) → gob.encodes m ≡ true)
      → ((m : Message) → gob.decodes (type_of m) m ≡ ok m)
      → (each_received
          (receive module_of)
          (serve_conn (consensus_codec gob) (write_all (consensus_codec gob) ms [])).0
          new_transmitor).recv_ch
        ≡ ms
  unfolding receive module_of
  consensus_arrives ms on back =
      arrives (consensus_codec gob) type_of (receive module_of) (λ m tr. refl) lookup-msg_type ms on
        back
