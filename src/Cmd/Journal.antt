-- ===== src/Cmd/Journal.antt =====
-- cli/internal/result/model.go.
use zk_fact_verification.Common.{ℤ, Bytes, Bool}

pub record ProofContext : Type 0 where
  pub subject_tag : Bytes
  pub fact_type_hash : Bytes
  pub nullifier : Bytes
  pub policy_root : Bytes

pub record Decision : Type 0 where
  pub type_name : Bytes
  pub granted : Bool
  pub reason_code : Bytes

pub record OnchainRef : Type 0 where
  pub chain_id : ℤ
  pub contract_address : Bytes
  pub tx_hash : Bytes
  pub fact_key : Bytes

pub record VerificationResult : Type 0 where
  pub version : Bytes
  pub request_id : Bytes
  pub service_id : Bytes
  pub verified : Bool
  pub verification_mode : Bytes
  pub verified_at : Bytes
  pub proof_context : ProofContext
  pub decision : Decision
  pub onchain : OnchainRef
