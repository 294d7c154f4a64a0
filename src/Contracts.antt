-- ===== src/Contracts.antt =====
-- blockchain/contracts: the two contracts that the Go programs talk to, as state machines.
pub mod Abi
pub mod FactRegistry
pub mod IssuerRegistry
