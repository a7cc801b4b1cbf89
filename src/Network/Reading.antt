-- ===== src/Network/Reading.antt =====
-- The reads of a connection one by one, over `serveConn` of network/network.go.
use s_mvba.Base.{ℕ, zero, suc, ◌+◌, ◌<◌, ◌≤◌, List, [], ◌∷◌, int_eq, length, ◌≡◌, refl, arith}
use s_mvba.Error.{Outcome, ok, err, panic}
use s_mvba.Network.Codec.{Frame, type_id, body, Codec, Ending, served, read, serve_from, serve_conn}

module _ {Ty Msg : Type 0} (codec : Codec Ty Msg) where
  -- A message that is read is taken off the connection.
  pub read-length :
      (conn : List (Frame Msg)) (m : Msg)
      → (read codec conn).0 ≡ ok m
      → length (read codec conn).1 + 1 ≤ length conn
  unfolding read
  read-length [] m h = ground arith
  read-length (body x ∷ conn) m h = ground arith
  read-length (type_id t ∷ []) m h = ground arith
  read-length (type_id t ∷ type_id u ∷ conn) m h = ground arith
  read-length (type_id t ∷ body x ∷ conn) m h = ground arith

  served-agree :
      (o : Outcome Msg) (x y : List Msg × Ending)
      → ((m : Msg) → o ≡ ok m → x ≡ y)
      → served codec o x ≡ served codec o y
  served-agree (ok m) x y h = rw (h m refl) refl
  served-agree (err e) x y h = refl
  served-agree panic x y h = refl

  serve_from-fuel :
      (k j : ℕ) (conn : List (Frame Msg))
      → length conn < k
      → length conn < j
      → serve_from codec k conn ≡ serve_from codec j conn
  unfolding serve_from
  serve_from-fuel zero j conn h l = absurd (omega arith)
  serve_from-fuel (suc k) zero conn h l = absurd (omega arith)
  serve_from-fuel (suc k) (suc j) conn h l =
      served-agree (read codec conn).0 (serve_from codec k (read codec conn).1)
        (serve_from codec j (read codec conn).1)
        λ m e.
          serve_from-fuel k j (read codec conn).1 (omega (arith, read-length conn m e))
            (omega (arith, read-length conn m e))

  -- A read, then what the rest of the connection gives.
  pub serve_conn-read :
      (conn : List (Frame Msg))
      → serve_conn codec conn
        ≡ served codec (read codec conn).0 (serve_conn codec (read codec conn).1)
  unfolding serve_conn serve_from
  serve_conn-read conn =
      served-agree (read codec conn).0 (serve_from codec (length conn) (read codec conn).1)
        (serve_from codec (suc (length (read codec conn).1)) (read codec conn).1)
        λ m e.
          serve_from-fuel (length conn) (suc (length (read codec conn).1)) (read codec conn).1
            (omega (arith, read-length conn m e)) (omega arith)
