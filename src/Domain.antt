-- ===== src/Domain.antt =====
-- src/domain: blocks, their envelopes, and the blockchain.
pub mod Types
pub mod Envelope
pub mod Collection
pub mod Merkle
pub mod Block
pub mod Blockchain
