-- ===== src/Payload.antt =====
-- libs/payload: the blob coding and the payload's binary format.
pub mod Blob
pub mod Format
mod Examples
