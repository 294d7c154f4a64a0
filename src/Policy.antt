-- ===== src/Policy.antt =====
-- cli/internal/policy: the issuer policy and its Merkle tree.
pub mod Tree
use zk_fact_verification.Common.{ℕ, ℤ, Bytes, List}

pub record IssuerEntry : Type 0 where
  pub issuer_id : Bytes
  pub pubkey_hash : Bytes
  pub leaf : Bytes

pub record IssuerPolicy : Type 0 where
  pub version : Bytes
  pub policy_id : Bytes
  pub hash_alg : Bytes
  pub depth : ℤ
  pub root : Bytes
  pub issuers : List IssuerEntry
