-- ===== src/Contracts.antt =====
-- packages/contracts: the message contract between the field and the core.
pub mod Types
pub mod Replay
pub mod Topics
pub mod Platform
pub mod Validate
pub mod Crypto
pub mod Canonical
pub mod Payloads
