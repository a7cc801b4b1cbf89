-- ===== src/Network/Codec.antt =====
-- network/codec.go, and the goroutines of network/network.go at the two ends of a connection.
-- A connection is the list of the gob values on it; gob is the record `Gob`.
use s_mvba.Base.{
  ℕ, zero, suc, ℤ, List, [], ◌∷◌, ◌++◌, Option, none, some, Bool, Map, lookup, int_eq, length,
  if◌then◌else◌,
}
use s_mvba.Error.{Outcome, ok, err, panic, Error, external, M}

pub data Frame (Msg : Type 0) : Type 0 where
  type_id : ℤ → Frame Msg
  body : Msg → Frame Msg

-- `Ty` is `reflect.Type`. Numbers are always encoded.
pub record Gob (Ty Msg : Type 0) : Type 0 where
  pub encodes : Msg → Bool
  -- A value that was written as this message, read into a new variable of a type, as a `Messgae`.
  pub decodes : Ty → Msg → Outcome Msg

pub record Codec (Ty Msg : Type 0) : Type 0 where
  pub types : Map ℤ Ty
  pub gob : Gob Ty Msg
  pub msg_type : Msg → ℤ

-- How the goroutine of a connection ends; `running` when the fuel is out.
pub data Ending : Type 0 where
  closed : Ending
  crashed : Ending
  running : Ending

-- `io.EOF`, and gob's errors.
abbrev pub end_of_file : Error
end_of_file = external 3

abbrev pub gob_error : Error
gob_error = external 4

module _ {Ty Msg : Type 0} (cc : Codec Ty Msg) where
  -- The type id stays on the connection when the message is not encoded.
  unfoldable pub write : Msg → M (List (Frame Msg)) (Unit {0})
  write msg conn =
      if cc.gob.encodes msg
      then (ok tt, conn ++ type_id (cc.msg_type msg) ∷ body msg ∷ [])
      else (err gob_error, conn ++ type_id (cc.msg_type msg) ∷ [])

  -- The goroutine of `connect`: an error is logged, and the next message is written.
  unfoldable pub write_all : List Msg → List (Frame Msg) → List (Frame Msg)
  write_all [] conn = conn
  write_all (msg ∷ msgs) conn = write_all msgs (write msg conn).1

  -- `reflect.New` panics on the nil type of an id that is not in the map.
  abbrev pub read_body : Option Ty → List (Frame Msg) → Outcome Msg × List (Frame Msg)
  read_body none conn = (panic, conn)
  read_body (some ty) [] = (err end_of_file, [])
  read_body (some ty) (type_id t ∷ conn) = (err gob_error, conn)
  read_body (some ty) (body msg ∷ conn) = (cc.gob.decodes ty msg, conn)

  unfoldable pub read : List (Frame Msg) → Outcome Msg × List (Frame Msg)
  read [] = (err end_of_file, [])
  read (body msg ∷ conn) = (err gob_error, conn)
  read (type_id t ∷ conn) = read_body (lookup t cc.types) conn

  abbrev pub served : Outcome Msg → List Msg × Ending → List Msg × Ending
  served (ok msg) (msgs, ending) = (msg ∷ msgs, ending)
  served (err e) rest = ([], closed)
  served panic rest = ([], crashed)

  unfoldable pub serve_from : ℕ → List (Frame Msg) → List Msg × Ending
  serve_from zero conn = ([], running)
  serve_from (suc k) conn = let (o, rest) = read conn in served o (serve_from k rest)

  -- `serveConn`: what it writes to the channel `msg`. Each round reads a value or ends, so that fuel
  -- above the number of values is enough.
  unfoldable pub serve_conn : List (Frame Msg) → List Msg × Ending
  unfolding serve_from
  serve_conn conn = serve_from (suc (length conn)) conn
