-- ===== src/Network.antt =====
-- network/network.go: the sender with a queue for each address, and the receiver of a connection.
-- Dialing and gob are parameters; a channel is the list of what was written to it, oldest first.
pub mod Codec
pub mod Queues
pub mod Streams
pub mod Arrivals
pub mod Listening
pub mod Reading
pub mod Listened
pub mod Drained
pub mod Transmitor
pub mod Delivery
use s_mvba.Base.{
  ℕ, zero, suc, ◌+◌, List, [], ◌∷◌, ◌++◌, Option, none, some, Bool, true, false, Map, lookup,
  insert, digest_eq, if◌then◌else◌,
}
use s_mvba.Crypto.{Bytes}

pub record NetMessage (Msg : Type 0) : Type 0 where
  pub msg : Msg
  pub address : List Bytes

pub record Sender (Msg : Type 0) : Type 0 where
  -- For each address with a connection, what was written to the channel of its goroutine.
  pub conns : Map Bytes (List Msg)
  -- How often `net.Dial` was called: its answer may differ from call to call.
  pub dials : ℕ

unfoldable pub new_sender : {Msg : Type 0} → Sender Msg
new_sender = record { conns = []; dials = 0 }

module _ {Msg : Type 0} (dial : ℕ → Bytes → Bool) where
  -- `connect`: whether the n-th call of `net.Dial` gives a connection.
  connect : Bytes → Sender Msg → Bool × Sender Msg
  connect addr s = (dial s.dials addr, record s { dials = s.dials + 1 })

  abbrev write_conn : Msg → Bytes → Sender Msg → Option (List Msg) → Sender Msg
  write_conn m addr s (some queue) = record s { conns = insert addr (queue ++ m ∷ []) s.conns }
  write_conn m addr s none =
      let (up, s1) = connect addr s in
      if up then record s1 { conns = insert addr (m ∷ []) s1.conns } else s1

  unfoldable pub send_one : Msg → Bytes → Sender Msg → Sender Msg
  unfolding connect
  send_one m addr s = write_conn m addr s (lookup addr s.conns)

  -- The inner loop of `Sender.Run`.
  unfoldable pub send_each : Msg → List Bytes → Sender Msg → Sender Msg
  send_each m [] s = s
  send_each m (addr ∷ addrs) s = send_each m addrs (send_one m addr s)

  -- The loop of `Sender.Run`, over what is written to `msgCh`.
  unfoldable pub run_sender : List (NetMessage Msg) → Sender Msg → Sender Msg
  run_sender [] s = s
  run_sender (nm ∷ nms) s = run_sender nms (send_each nm.msg nm.address s)
