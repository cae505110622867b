-- ===== src/Relayer.antt =====
-- services/relayer: durable submission of proof payloads to Ethereum.
pub mod Job
pub mod Store
pub mod Outside
pub mod Fees
pub mod Updates
pub mod Sending
pub mod Polling
pub mod Worker
pub mod Api
pub mod System
mod Examples
