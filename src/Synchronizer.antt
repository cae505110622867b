-- ===== src/Synchronizer.antt =====
-- services/synchronizer: derivation of the network's state from the payloads of each slot.
pub mod State
pub mod Containers
pub mod Apply
pub mod Derivation
pub mod Log
pub mod Beacon
pub mod World
pub mod Blobs
pub mod Node
pub mod Sync
mod Examples
