-- ===== src/Network/Listening.antt =====
-- `Receiver` of network/network.go: the goroutine that listens, and those of the connections that it
-- accepts, which share the channel `msg`. What `Listen` and `Accept` answer, and which goroutine gets to
-- run, is a list of events.
use s_mvba.Base.{
  ℕ, ◌+◌, List, [], ◌∷◌, ◌++◌, Option, none, some, Bool, true, false, Map, lookup, insert, nat_eq,
  if◌then◌else◌,
}
use s_mvba.Error.{Outcome, ok, err, panic}
use s_mvba.Network.Codec.{Frame, Codec, read}

-- The goroutine of a connection. `sent` is what the other end puts on the connection, of which `left`
-- is not read yet.
pub record Serving (Msg : Type 0) : Type 0 where
  pub sent : List (Frame Msg)
  pub left : List (Frame Msg)
  pub returned : Bool

pub record Receiver (Msg : Type 0) : Type 0 where
  -- The connections by the order in which they were accepted.
  pub conns : Map ℕ (Serving Msg)
  pub accepted : ℕ
  -- What was written to the channel, the oldest first, with the connection that it came on, which the
  -- channel does not have.
  pub msg : List (ℕ × Msg)
  -- A panic in one goroutine ends the process.
  pub crashed : Bool

unfoldable pub new_receiver : {Msg : Type 0} → Receiver Msg
new_receiver = record { conns = []; accepted = 0; msg = []; crashed = false }

pub data Event (Msg : Type 0) : Type 0 where
  -- `Accept` gives a connection with what will be on it, or an error.
  accepting : Option (List (Frame Msg)) → Event Msg
  -- The goroutine of a connection reads once.
  serving : ℕ → Event Msg

module _ {Ty Msg : Type 0} (cc : Codec Ty Msg) where
  -- One round of the loop of `serveConn`.
  abbrev pub after_read :
      ℕ → Serving Msg → Outcome Msg → List (Frame Msg) → Receiver Msg → Receiver Msg
  after_read i g (ok m) left r = record r {
    conns = insert i (record g { left = left }) r.conns;
    msg = r.msg ++ (i, m) ∷ [];
  }
  after_read i g (err e) left r = record r {
    conns = insert i (record g { left = left; returned = true }) r.conns;
  }
  after_read i g panic left r = record r {
    conns = insert i (record g { left = left; returned = true }) r.conns;
    crashed = true;
  }

  abbrev pub serve_round : ℕ → Option (Serving Msg) → Receiver Msg → Receiver Msg
  serve_round i none r = r
  serve_round i (some g) r =
      let (o, left) = read cc g.left in if g.returned then r else after_read i g o left r

  -- One round of the loop of `Receiver.Run`: an error is logged.
  abbrev pub accept_round : Option (List (Frame Msg)) → Receiver Msg → Receiver Msg
  accept_round none r = r
  accept_round (some frames) r = record r {
    conns = insert r.accepted (record { sent = frames; left = frames; returned = false }) r.conns;
    accepted = r.accepted + 1;
  }

  unfoldable pub receiver_step : Event Msg → Receiver Msg → Receiver Msg
  receiver_step (accepting conn) r = if r.crashed then r else accept_round conn r
  receiver_step (serving i) r = if r.crashed then r else serve_round i (lookup i r.conns) r

  unfoldable pub receiver_loop : List (Event Msg) → Receiver Msg → Receiver Msg
  receiver_loop [] r = r
  receiver_loop (e ∷ es) r = receiver_loop es (receiver_step e r)

  -- `Receiver.Run`: an error of `Listen` is a panic.
  unfoldable pub run_receiver : Bool → List (Event Msg) → Receiver Msg
  unfolding new_receiver
  run_receiver bound es =
      if bound then receiver_loop es new_receiver else record new_receiver { crashed = true }
