-- ===== src/Tests/Wire.antt =====
-- Messages on a connection between two nodes, for network and the transmitors, and the call-backs of
-- core/smvba/consensus/commitor.go.
use s_mvba.Base.{
  ◌≤◌, ℕ, pos, none, length, replicate, nat_eq, arith, List, [], ◌∷◌, ◌++◌, some, Bool, true, false,
  lookup, insert, int_eq, digest_eq, bytes_eq, eqz, ltb, All, ◌≡◌, ◌↔◌, refl,
}
use s_mvba.Error.{ok, panic}
use s_mvba.Committee.{Committee}
use s_mvba.Crypto.{Bytes}
use s_mvba.Message.{ConsensusBlock, Message, done, new_done}
use s_mvba.Message.Wire.{MessageType, consensus_codec, module_of, consensus_arrives}
use s_mvba.Network.{NetMessage, new_sender, run_sender, send_each, send_one}
use s_mvba.Network.Codec.{Gob, Codec, read, write, write_all, serve_conn}
use s_mvba.Network.Queues.{failures, channel_of, sent_to, sender_order}
use s_mvba.Network.Streams.{Registered, encoded_prefix}
use s_mvba.Network.Listening.{
  Event, accepting, serving, Serving, run_receiver, receiver_loop, receiver_step, new_receiver,
}
use s_mvba.Network.Listened.{came_on, connection_kept}
use s_mvba.Network.Drained.{connection_served}
use s_mvba.Network.Transmitor.{new_transmitor, receive}
use s_mvba.Network.Arrivals.{each_received}
use s_mvba.Config.{gen_default_committee, default_authorities, default_authority}
use s_mvba.Commitor.Run.{AllAnswered, run_committor, run_committor_lem}
use s_mvba.Mempool.{Mempool, new_mempool}
use s_mvba.Mempool.Handlers.{get_block}
use s_mvba.Tests.Toy.{toy, sigs}
use s_mvba.Tests.Payloads.{Table, disk, plain, node, busy}
use s_mvba.Tests.Files.{drawn, dealt}

-- A gob for the messages, and one that does not encode a Done.
abbrev gob : Gob MessageType Message
gob = record { encodes = λ m. true; decodes = λ ty m. ok m }

abbrev encodes_most : Message → Bool
encodes_most (done d) = false
encodes_most m = true

abbrev done_of : ℕ → Message
done_of k = done (new_done toy sigs (pos k) (pos 0) (pos 0))

consensus_arrives_example :
    (each_received
      (receive module_of)
      (serve_conn
        (consensus_codec gob)
        (write_all (consensus_codec gob) (done_of 1 ∷ done_of 2 ∷ []) [])).0
      new_transmitor).recv_ch
    ≡ done_of 1 ∷ done_of 2 ∷ []
consensus_arrives_example =
    consensus_arrives gob (done_of 1 ∷ done_of 2 ∷ []) (λ m. refl) (λ m. refl)

-- Numbers of one type; those below 5 are encoded.
abbrev small : Codec (Unit {0}) ℕ
small = record {
  types = (pos 0, tt) ∷ [];
  gob = record { encodes = λ k. ltb k 5; decodes = λ ty k. ok k };
  msg_type = λ k. pos 0;
}

registered : (k : ℕ) → Registered small k
unfolding lookup eqz
registered k = (tt, refl, refl)

-- A connection whose third message is not encoded, an error of `Accept`, and a second connection.
abbrev arriving : List (Event ℕ)
arriving =
    accepting (some (write_all small (3 ∷ 4 ∷ 7 ∷ 1 ∷ []) []))
    ∷ accepting none
    ∷ serving 0
    ∷ accepting (some (write_all small (1 ∷ 2 ∷ []) []))
    ∷ serving 1
    ∷ serving 0
    ∷ []

-- What is left on the second connection.
abbrev second : Serving ℕ
second = record {
  sent = write_all small (1 ∷ 2 ∷ []) [];
  left = write_all small (2 ∷ []) [];
  returned = false;
}

second_waits :
    (lookup 1 (run_receiver small true arriving).conns ≡ some second)
    × ((run_receiver small true arriving).crashed ≡ false)
    × (length second.left ≡ 2)
unfolding run_receiver receiver_loop receiver_step new_receiver read write write_all lookup insert
    eqz
second_waits = (refl, refl, refl)

connection_kept_example :
    (rest : List ℕ) × (came_on 1 (run_receiver small true arriving).msg ++ rest
      ≡ encoded_prefix small (1 ∷ 2 ∷ []))
    × (false ≡ true → rest ≡ [])
connection_kept_example =
    connection_kept small true arriving 1 second (1 ∷ 2 ∷ []) second_waits.0 refl
      (registered 1, (registered 2, tt))

connection_served_example :
    came_on 1 (run_receiver small true (arriving ++ replicate 3 (serving 1))).msg
    ≡ encoded_prefix small (1 ∷ 2 ∷ [])
connection_served_example =
    connection_served small 1 arriving second (1 ∷ 2 ∷ []) 3 second_waits.0 second_waits.1 refl
      (registered 1, (registered 2, tt)) (omega (arith, second_waits.2))

-- The first two calls of `net.Dial` fail.
abbrev late : ℕ → Bytes → Bool
late k addr = ltb 1 k

abbrev letters : List (NetMessage ℕ)
letters =
    record { msg = 1; address = (10 ∷ []) ∷ (11 ∷ []) ∷ [] }
    ∷ record { msg = 2; address = (11 ∷ []) ∷ [] }
    ∷ record { msg = 3; address = (10 ∷ []) ∷ (11 ∷ []) ∷ [] }
    ∷ []

sender_order_example :
    let s = run_sender late letters new_sender in
    (lost : List ℕ) × (sent_to (11 ∷ []) letters ≡ lost ++ channel_of (11 ∷ []) s)
    × (length lost ≤ failures late (11 ∷ []) s.dials)
sender_order_example = sender_order late (11 ∷ []) letters

first_lost : channel_of (11 ∷ []) (run_sender late letters new_sender) ≡ 2 ∷ 3 ∷ []
unfolding run_sender send_each send_one lookup insert new_sender bytes_eq
first_lost = refl

abbrev dials : ℕ → Bytes → Bool
dials k addr = true

abbrev local : Committee
local = (gen_default_committee drawn dealt 4).0

member : lookup (pos 2) local.authorities ≡ some (default_authority drawn dealt 4 2)
unfolding gen_default_committee default_authorities lookup insert eqz
member = refl

abbrev letter : ℕ
letter = 7

abbrev committed : List (ConsensusBlock × (ℕ → Mempool Table))
committed =
    (record { proposer = pos 1; pay_loads = (1 ∷ []) ∷ []; epoch = pos 0 }, λ j. busy)
    ∷ (record { proposer = pos 2; pay_loads = (8 ∷ []) ∷ []; epoch = pos 1 }, λ j. busy)
    ∷ []

run_committor_lem_example :
    (run_committor disk plain node committed ≡ (2, ok tt))
    ↔ All (λ b. AllAnswered disk plain node b.1 0 b.0.pay_loads) committed
run_committor_lem_example = run_committor_lem disk plain node committed

-- The second block has a payload that is not in the store.
one_signalled : run_committor disk plain node committed ≡ (1, panic)
unfolding run_committor get_block lookup new_mempool bytes_eq
one_signalled = refl
