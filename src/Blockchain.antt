-- ===== src/Blockchain.antt =====
-- cli/internal/blockchain: words of 32 bytes, the transaction that submits a fact, and the reader
-- of the registry.
pub mod Bytes32
pub mod Ethereum
pub mod Submitter
pub mod Reader
