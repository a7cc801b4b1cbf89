-- ===== src/Core.antt =====
-- core/smvba/consensus/core.go: the state of a node's consensus, its handlers and its main loop.
mod State
mod Blocks
mod Rounds
mod Handlers
mod Loop
unfoldable pub use State.*
unfoldable pub use Blocks.*
unfoldable pub use Rounds.*
unfoldable pub use Handlers.*
unfoldable pub use Loop.*
