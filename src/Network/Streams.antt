-- ===== src/Network/Streams.antt =====
-- What the receiver of network/network.go reads from a connection that network/codec.go writes.
use s_mvba.Base.{
  ℕ, zero, suc, ◌<◌, ℤ, List, [], ◌∷◌, ◌++◌, append-nil, append_assoc, none, some, true, lookup,
  int_eq, length, All, Bool-cases, inl, inr, ◌≡◌, refl, sym, arith, if◌then◌else◌,
}
use s_mvba.Error.{ok}
use s_mvba.Network.Codec.{
  Frame, type_id, body, Codec, closed, crashed, write, write_all, read, serve_from, serve_conn,
}

module _ {Ty Msg : Type 0} (cc : Codec Ty Msg) where
  -- The type of the message is in the map, and gob reads it back.
  abbrev pub Registered : Msg → Type 0
  Registered m =
      (ty : Ty) × (lookup (cc.msg_type m) cc.types ≡ some ty) × (cc.gob.decodes ty m ≡ ok m)

  -- The messages before the first that gob does not encode.
  abbrev pub encoded_prefix : List Msg → List Msg
  encoded_prefix [] = []
  encoded_prefix (m ∷ ms) = if cc.gob.encodes m then m ∷ encoded_prefix ms else []

  -- The values that one message, or a list of them, puts on a connection.
  abbrev frames_of : Msg → List (Frame Msg)
  frames_of m =
      if cc.gob.encodes m
      then type_id (cc.msg_type m) ∷ body m ∷ []
      else type_id (cc.msg_type m) ∷ []

  abbrev stream : List Msg → List (Frame Msg)
  stream [] = []
  stream (m ∷ ms) = frames_of m ++ stream ms

  write-frames : (m : Msg) (conn : List (Frame Msg)) → (write cc m conn).1 ≡ conn ++ frames_of m
  unfolding write
  write-frames m conn = elim (Bool-cases (cc.gob.encodes m)) [
    | inl on ↦ rw (on) refl
    | inr off ↦ rw (off) refl
  ]

  write_all-stream :
      (ms : List Msg) (conn : List (Frame Msg)) → write_all cc ms conn ≡ conn ++ stream ms
  unfolding write_all
  write_all-stream [] conn = sym (append-nil conn)
  write_all-stream (m ∷ ms) conn =
      rw (write_all-stream ms (write cc m conn).1, write-frames m conn)
        (append_assoc conn (frames_of m) (stream ms))

  -- A type id with no message after it ends the connection.
  orphan_closes :
      (k : ℕ) (m : Msg) (ms : List Msg)
      → Registered m
      → serve_from cc (suc k) (type_id (cc.msg_type m) ∷ stream ms) ≡ ([], closed)
  unfolding serve_from read
  orphan_closes k m [] (ty, known, back) = rw (known) refl
  orphan_closes k m (x ∷ ms) (ty, known, back) = elim (Bool-cases (cc.gob.encodes x)) [
    | inl on ↦ rw (known, on) refl
    | inr off ↦ rw (known, off) refl
  ]

  serve_from-stream :
      (ms : List Msg) (k : ℕ)
      → All Registered ms
      → length (stream ms) < k
      → serve_from cc k (stream ms) ≡ (encoded_prefix ms, closed)
  unfolding serve_from read
  serve_from-stream ms zero known fuel = absurd (omega arith)
  serve_from-stream [] (suc k) known fuel = refl
  serve_from-stream (m ∷ ms) (suc k) (reg, known) fuel = elim (Bool-cases (cc.gob.encodes m)) [
    | inl on ↦
        let (ty, found, back) = reg in
        let enough : suc (suc (length (stream ms))) < suc k = rw (on) at fuel in
        rw (on, found, back, serve_from-stream ms k known (omega (arith, enough))) refl
    | inr off ↦ rw (off) (orphan_closes k m ms reg)
  ]

  -- When gob reads back what it encodes and the types of the messages are in the map, the receiver of
  -- a new connection gets the messages in order up to the first that gob does not encode, whose type
  -- id stays alone on the connection; then the connection is closed, and what follows is lost.
  pub serve-write :
      (ms : List Msg)
      → All Registered ms
      → serve_conn cc (write_all cc ms []) ≡ (encoded_prefix ms, closed)
  unfolding serve_conn
  serve-write ms known =
      rw (write_all-stream ms [])
        (serve_from-stream ms (suc (length (stream ms))) known (omega arith))

  abbrev pub Sendable : Msg → Type 0
  Sendable m = Registered m × (cc.gob.encodes m ≡ true)

  serve_from-stranger :
      (ms : List Msg) (t : ℤ) (rest : List (Frame Msg)) (k : ℕ)
      → All Sendable ms
      → lookup t cc.types ≡ none
      → length (stream ms ++ type_id t ∷ rest) < k
      → serve_from cc k (stream ms ++ type_id t ∷ rest) ≡ (ms, crashed)
  unfolding serve_from read
  serve_from-stranger ms t rest zero good unknown fuel = absurd (omega arith)
  serve_from-stranger [] t rest (suc k) good unknown fuel = rw (unknown) refl
  serve_from-stranger (m ∷ ms) t rest (suc k) (((ty, found, back), on), good) unknown fuel =
      let enough : suc (suc (length (stream ms ++ type_id t ∷ rest))) < suc k = rw (on) at fuel in
      rw (on, found, back, serve_from-stranger ms t rest k good unknown (omega (arith, enough)))
        refl

  -- A type id that is not in the map, after any messages that are sent whole, crashes the receiver.
  pub stranger_crashes :
      (ms : List Msg) (t : ℤ) (rest : List (Frame Msg))
      → All Sendable ms
      → lookup t cc.types ≡ none
      → serve_conn cc (write_all cc ms [] ++ type_id t ∷ rest) ≡ (ms, crashed)
  unfolding serve_conn
  stranger_crashes ms t rest good unknown = rw (write_all-stream ms []) (
      serve_from-stranger ms t rest (suc (length (stream ms ++ type_id t ∷ rest))) good unknown
        (omega arith))
