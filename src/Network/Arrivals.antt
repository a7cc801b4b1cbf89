-- ===== src/Network/Arrivals.antt =====
-- From the writer of a connection (network/codec.go) to the channel of a component (core/transmitor.go).
use s_mvba.Base.{
  List, [], ◌∷◌, ◌++◌, append-nil, append_assoc, some, true, lookup, int_eq, All, ◌≡◌, refl, sym,
}
use s_mvba.Error.{ok}
use s_mvba.Network.Codec.{Codec, write_all, serve_conn}
use s_mvba.Network.Streams.{Registered, encoded_prefix, serve-write}
use s_mvba.Network.Transmitor.{Transmitor, new_transmitor}

-- The goroutine of a transmitor, over what a receiver reads.
abbrev pub each_received :
    {Msg : Type 0}
    → (Msg → Transmitor Msg → Transmitor Msg)
    → List Msg
    → Transmitor Msg
    → Transmitor Msg
each_received take [] tr = tr
each_received take (m ∷ ms) tr = each_received take ms (take m tr)

module _ {Ty Msg : Type 0} (cc : Codec Ty Msg) (type_of : Msg → Ty)
    (take : Msg → Transmitor Msg → Transmitor Msg)
    (takes : (m : Msg) (tr : Transmitor Msg) → (take m tr).recv_ch ≡ tr.recv_ch ++ m ∷ [])
    (known : (m : Msg) → lookup (cc.msg_type m) cc.types ≡ some (type_of m)) where
  each_received-recv_ch :
      (ms : List Msg) (tr : Transmitor Msg) → (each_received take ms tr).recv_ch ≡ tr.recv_ch ++ ms
  each_received-recv_ch [] tr = sym (append-nil tr.recv_ch)
  each_received-recv_ch (m ∷ ms) tr =
      rw (each_received-recv_ch ms (take m tr), takes m tr) (append_assoc tr.recv_ch (m ∷ []) ms)

  All-Registered :
      (ms : List Msg) → ((m : Msg) → cc.gob.decodes (type_of m) m ≡ ok m) → All (Registered cc) ms
  All-Registered [] back = tt
  All-Registered (m ∷ ms) back = ((type_of m, known m, back m), All-Registered ms back)

  all_encoded : (ms : List Msg) → ((m : Msg) → cc.gob.encodes m ≡ true) → encoded_prefix cc ms ≡ ms
  all_encoded [] on = refl
  all_encoded (m ∷ ms) on = rw (on m, all_encoded ms on) refl

  -- Messages whose types are in the map, and that gob reads back, arrive all and in order.
  pub arrives :
      (ms : List Msg)
      → ((m : Msg) → cc.gob.encodes m ≡ true)
      → ((m : Msg) → cc.gob.decodes (type_of m) m ≡ ok m)
      → (each_received take (serve_conn cc (write_all cc ms [])).0 new_transmitor).recv_ch ≡ ms
  unfolding new_transmitor
  arrives ms on back =
      rw (serve-write cc ms (All-Registered ms back), all_encoded ms on)
        (each_received-recv_ch ms new_transmitor)
