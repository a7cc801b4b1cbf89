-- ===== src/Protocol.antt =====
-- What holds of a node's consensus, over core/smvba/consensus/core.go as a whole.
pub mod Frame
pub mod Moves
pub mod Handlers
pub mod Steps
pub mod Instances
pub mod Discard
pub mod Halting
pub mod Commits
pub mod Progress
pub mod Availability
pub mod Authored
pub mod Exchange
pub mod Announce
pub mod Epochs
