-- ===== src/Tests.antt =====
-- Concrete inputs for the theorems of the modules of core/smvba/consensus, core and crypto.
mod Toy
mod Parts
mod Text
mod Node
mod Facts
mod Queue
mod Disk
mod Payloads
mod Sync
mod Threads
mod Wire
mod Files
mod Startup
mod Nuts
mod Composed
mod Stack
mod Progress
