-- ===== src/Lib.antt =====
-- The sMVBA node: a multi-valued Byzantine agreement in which every node broadcasts a block by two
-- phases of votes, the nodes elect a leader by a threshold coin, vote on the leader's block, and commit
-- the block of one leader in each epoch.
--
-- The parts of the program and the files that model them. Functions keep their names, in snake case.
-- * core/config.go is Committee: the committee is an association list from ids to authorities, the
--   thresholds are computed from its length. core/error.go is Error, with `Outcome` for the ways in which
--   a call ends (a value, an error, a panic) and `M` for code that changes a state.
-- * crypto/crypto.go is Crypto: digests and signatures are bytes. SHA-256, Ed25519 and the threshold
--   signatures are the record `Primitives`. The signing service answers one request at a time, so that
--   a request is a function. Crypto/Binary is `strconv.AppendInt` in base 2, Crypto/Hex the texts of keys
--   and Crypto/Shares the texts of threshold keys, over the record `Kyber`.
-- * network/network.go and network/codec.go are Network: the sender keeps a channel for each address, and
--   Network/Codec is a connection as the list of the gob values on it. core/transmitor.go and
--   mempool/transmit.go are Network/Transmitor. Network/Queues has what the sender writes,
--   Network/Streams what the other end reads, Network/Listening the receiver with the goroutines of all
--   its connections, Network/Delivery a broadcast, and Network/Arrivals the way
--   to the channel of a component. Dialing and gob are parameters. The message types are in
--   Message/Wire and Mempool/Wire.
-- * config/config.go is Config, over the JSON values and files of Config/JsonFile and the decimal texts of
--   Config/Decimal. Config/Keys reads key files back, Config/Members has the default committee,
--   and Config/Sample the file of the parameters.
-- * core/smvba/consensus/message.go is Message: the block, the eight messages, `Hash` (as `block_hash`,
--   `proposal_hash` and so on), the constructors, and `Verify` of all messages as `verify`.
-- * core/smvba/consensus/aggreator.go is Aggreator: the five `Append` methods and the maps of
--   aggregators. Quorums holds what they answer over sequences of votes.
-- * core/smvba/consensus/elector.go is Elector, and core/smvba/consensus/commitor.go is Commitor,
--   with its goroutine in Commitor/Run.
-- * core/smvba/consensus/spb.go is Spb: a goroutine of an instance is one step, from an instance to an
--   instance and a list of effects. A goroutine that it starts is an effect, and runs when the list of
--   inputs says so. In Spb/Threads a goroutine moves by one access to the shared fields, and a schedule
--   says which goroutine moves.
-- * core/smvba/consensus/core.go is Core: Core/State has the struct and the accessors of its maps,
--   Core/Blocks the store and the mempool's answers, Core/Rounds the moves between rounds and epochs,
--   Core/Handlers one handler for each message, and Core/Loop the main loop. What a node meets is a list
--   of `Input`s: messages on the receive channel, digests on the loop-back channel, and goroutines that
--   get to run, in any order. What it does outside is a list of `Effect`s, the newest first. The calls
--   that leave the component are the record `Services` over a state of any type.
-- * store/store.go is Store: one round of its goroutine is a function of a request, over a database that is
--   the record `Db`. Store/Waiting counts who waits and who is answered. store/nutsdb.go is Store/Nuts, over
--   the record `Nuts` for nutsdb, and Store/Calls has the methods of the store as whole calls.
-- * mempool/mempool.go, mempool/message.go and mempool/synchronizer.go are Mempool: a
--   handler is a change of the state with what it sends. The store, gob, the batches and the order in which
--   `range` reads a map are the record `Disk`. Core reaches the mempool by `Services`.
--   Mempool/Sync is the loop of the synchronizer, whose inputs carry their time, and Mempool/Waiter its
--   waiter over the store.
-- * pool/pool.go is Pool: the ring of transactions, with Pool/Ring for the ring as a list, and Pool/Maker
--   for the maker of transactions and the pool around both.
-- Node is a node of node/node.go: consensus and mempool over one store, where the handlers of Mempool are
-- the `Services` of Core, and inputs of both come in any order. Node/Start is `NewNode` up to the wait for
-- the other nodes (core/smvba/consensus/consensus.go, mempool/mempool.go), and Node/Boot its theorems.
-- logger/logger.go and logger/writer.go are Logger, and the commands of main.go are
-- Command, with what they write in Command/Written. Node/Stack is a node down to the database, where Store
-- over NutsDB is the `Disk` of the mempool and the store of `Services`.
--
-- Protocol holds what is proved of a whole consensus. Protocol/Frame and Protocol/Steps carry a relation from
-- the primitive changes of the state to every input, and the other files of Protocol apply this. Protocol/Exchange
-- follows the messages of a node to the consensus of another member, and Protocol/Progress a block
-- from its proposal to its Halt. Base has the names that all share,
-- the integers, the maps and the lists. Tests has concrete inputs.
--
-- Bounds and fuel. An int64 counter is incremented by `inc64`, which wraps around at 2^63 - 1. The loop of
-- `Commit` runs on as many rounds as blocks wait, and each round takes one away. The text of a number in
-- base 2 is made with as many rounds as the number, which halves in each.
--
-- The text in base 10 is made likewise. A goroutine that dials ends when its fuel covers a dial that is
-- answered. The goroutine of a connection reads a value or ends in each round, so that it has more rounds than there are values.
--
-- Not modelled: the library nutsdb, an error of a connection that is open, the
-- making of a node's goroutines and channels, the reading of flags, and the lines of the log. The
-- goroutines of one instance are interleaved in Spb/Threads only, and not within a whole node, where each of them is one input. The
-- capacities of channels are left out, and so are the error of a threshold signature and the generators
-- of keys, whose keys are parameters.
pub mod Base
pub mod Error
pub mod Committee
pub mod Crypto
pub mod Logger
pub mod Network
pub mod Config
pub mod Message
pub mod Pool
pub mod Store
pub mod Mempool
pub mod Aggreator
pub mod Quorums
pub mod Elector
pub mod Commitor
pub mod Spb
pub mod Core
pub mod Protocol
pub mod Node
pub mod Command
mod Tests
