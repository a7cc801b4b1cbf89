-- ===== src/Mempool/Wire.antt =====
-- The message types of mempool/message.go, as network/codec.go uses them.
use s_mvba.Base.{ℤ, pos, List, [], ◌∷◌, some, true, Map, lookup, int_eq, eqz, ◌≡◌, refl}
use s_mvba.Error.{ok}
use s_mvba.Mempool.{MempoolMessage, own_block, other_block, request_block}
use s_mvba.Network.Codec.{Gob, Codec, write_all, serve_conn}
use s_mvba.Network.Arrivals.{each_received, arrives}
use s_mvba.Network.Transmitor.{Module, mempool, new_transmitor, mempool_receive}

-- The types of the map, by name. Three of them are sent to other nodes.
pub data MempoolType : Type 0 where
  own_block_type : MempoolType
  other_block_type : MempoolType
  request_block_type : MempoolType
  make_block_type : MempoolType
  verify_block_type : MempoolType
  clean_block_type : MempoolType
  sync_block_type : MempoolType
  sync_clean_up_block_type : MempoolType
  loop_back_type : MempoolType

unfoldable pub mempool_msg_type : MempoolMessage → ℤ
mempool_msg_type (own_block b) = pos 12
mempool_msg_type (other_block b) = pos 13
mempool_msg_type (request_block ds author) = pos 14

unfoldable pub mempool_type_of : MempoolMessage → MempoolType
mempool_type_of (own_block b) = own_block_type
mempool_type_of (other_block b) = other_block_type
mempool_type_of (request_block ds author) = request_block_type

unfoldable pub mempool_type_map : Map ℤ MempoolType
mempool_type_map =
    (pos 12, own_block_type)
    ∷ (pos 13, other_block_type)
    ∷ (pos 14, request_block_type)
    ∷ (pos 15, make_block_type)
    ∷ (pos 16, verify_block_type)
    ∷ (pos 17, clean_block_type)
    ∷ (pos 18, sync_block_type)
    ∷ (pos 19, sync_clean_up_block_type)
    ∷ (pos 20, loop_back_type)
    ∷ []

unfoldable pub mempool_module_of : MempoolMessage → Module
mempool_module_of m = mempool

abbrev pub mempool_codec : Gob MempoolType MempoolMessage → Codec MempoolType MempoolMessage
mempool_codec gob = record { types = mempool_type_map; gob = gob; msg_type = mempool_msg_type }

lookup-mempool_msg_type :
    (m : MempoolMessage) → lookup (mempool_msg_type m) mempool_type_map ≡ some (mempool_type_of m)
unfolding lookup mempool_msg_type mempool_type_of mempool_type_map eqz
lookup-mempool_msg_type (own_block b) = refl
lookup-mempool_msg_type (other_block b) = refl
lookup-mempool_msg_type (request_block ds author) = refl

module _ (gob : Gob MempoolType MempoolMessage) where
  -- The mempool's messages reach the channel of the mempool in the same way.
  pub mempool_arrives :
      (ms : List MempoolMessage)
      → ((m : MempoolMessage) → gob.encodes m ≡ true)
      → ((m : MempoolMessage) → gob.decodes (mempool_type_of m) m ≡ ok m)
      → (each_received
          (mempool_receive mempool_module_of)
          (serve_conn (mempool_codec gob) (write_all (mempool_codec gob) ms [])).0
          new_transmitor).recv_ch
        ≡ ms
  unfolding mempool_receive mempool_module_of
  mempool_arrives ms on back =
      arrives (mempool_codec gob) mempool_type_of (mempool_receive mempool_module_of) (λ m tr. refl)
        lookup-mempool_msg_type ms on back
