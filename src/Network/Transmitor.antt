-- ===== src/Network/Transmitor.antt =====
-- core/transmitor.go and mempool/transmit.go: what a component sends goes to the sender by addresses, and
-- what a receiver reads goes to the component by the module of the message.
use s_mvba.Base.{ℤ, List, [], ◌∷◌, ◌++◌, eqz, if◌then◌else◌}
use s_mvba.Committee.{Committee, none_id, address, mempool_address, broad_cast, mempool_broad_cast}
use s_mvba.Network.{NetMessage}

-- The answers of `Module`.
pub data Module : Type 0 where
  consensus : Module
  mempool : Module
  connect_module : Module

pub record Transmitor (Msg : Type 0) : Type 0 where
  -- The channel of the component, and the channel to the sender.
  pub recv_ch : List Msg
  pub msg_ch : List (NetMessage Msg)

unfoldable pub new_transmitor : {Msg : Type 0} → Transmitor Msg
new_transmitor = record { recv_ch = []; msg_ch = [] }

module _ {Msg : Type 0} where
  unfoldable pub send : Committee → ℤ → ℤ → Msg → Transmitor Msg → Transmitor Msg
  send c from to m tr =
      let addr = if eqz to none_id then broad_cast c from else address c to ∷ [] in
      record tr { msg_ch = tr.msg_ch ++ record { msg = m; address = addr } ∷ [] }

  unfoldable pub mempool_send : Committee → ℤ → ℤ → Msg → Transmitor Msg → Transmitor Msg
  mempool_send c from to m tr =
      let addr = if eqz to none_id then mempool_broad_cast c from else mempool_address c to ∷ [] in
      record tr { msg_ch = tr.msg_ch ++ record { msg = m; address = addr } ∷ [] }

module _ {Msg : Type 0} (module_of : Msg → Module) where
  abbrev by_module : Msg → Transmitor Msg → Module → Transmitor Msg
  by_module m tr consensus = record tr { recv_ch = tr.recv_ch ++ m ∷ [] }
  by_module m tr _ = tr

  -- The second goroutine of `NewTransmitor`, for one message; other modules are logged.
  unfoldable pub receive : Msg → Transmitor Msg → Transmitor Msg
  receive m tr = by_module m tr (module_of m)

  abbrev mempool_by_module : Msg → Transmitor Msg → Module → Transmitor Msg
  mempool_by_module m tr mempool = record tr { recv_ch = tr.recv_ch ++ m ∷ [] }
  mempool_by_module m tr _ = tr

  unfoldable pub mempool_receive : Msg → Transmitor Msg → Transmitor Msg
  mempool_receive m tr = mempool_by_module m tr (module_of m)
