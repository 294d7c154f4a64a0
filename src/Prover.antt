-- ===== src/Prover.antt =====
-- cli/internal/prover: the proof package and the steps that make it.
pub mod Field
pub mod Prepare
pub mod Toml
pub mod Generator
use zk_fact_verification.Common.{ℕ, ℤ, Bytes, List}

pub record ProofPackage : Type 0 where
  pub version : Bytes
  pub request_id : Bytes
  pub circuit_id : Bytes
  pub backend : Bytes
  pub proof : Bytes
  pub public_inputs : List Bytes
  pub public_input_labels : List Bytes
  pub subject_tag : Bytes
  pub nullifier : Bytes
  pub generated_at : Bytes

pub record ProverConfig : Type 0 where
  pub circuit_dir : Bytes
  pub nargo_bin : Bytes
  pub bb_bin : Bytes
  pub holder_secret : Bytes

-- The inputs of the circuit and a transport of a submission, as the model names them. No code uses
-- these two.
pub record ProverInput : Type 0 where
  pub birth_date_days : ℕ
  pub holder_secret : Bytes
  pub issuer_pubkey_x : Bytes
  pub issuer_pubkey_y : Bytes
  pub sig_r8x : Bytes
  pub sig_r8y : Bytes
  pub sig_s : Bytes
  pub merkle_path : List Bytes
  pub merkle_index_bits : List ℤ
  pub verifier_id_hash : Bytes
  pub fact_type_hash : Bytes
  pub request_id_hash : Bytes
  pub schema_hash : Bytes
  pub issuer_policy_root : Bytes
  pub cutoff_date_days : ℕ
  pub idempotency_key_hash : Bytes
  pub valid_until : ℕ

pub record OnchainSubmit : Type 0 where
  pub version : Bytes
  pub contract_address : Bytes
  pub chain_id : ℤ
  pub method : Bytes
  pub proof : Bytes
  pub public_inputs : List Bytes
  pub verifier_id_hash : Bytes
  pub subject_tag : Bytes
  pub fact_type_hash : Bytes
  pub issuer_policy_root : Bytes
  pub schema_hash : Bytes
  pub nullifier : Bytes
  pub valid_until : ℕ
