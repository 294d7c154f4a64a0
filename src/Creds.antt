-- ===== src/Creds.antt =====
-- cli/internal/creds/model.go. A Go `int` is an integer and a `uint64` a natural number.
use zk_fact_verification.Common.{ℕ, ℤ, Bytes, List}

pub record IssuerRef : Type 0 where
  pub did : Bytes
  pub kid : Bytes
  pub pubkey_x : Bytes
  pub pubkey_y : Bytes

pub record SubjectRef : Type 0 where
  pub did : Bytes
  pub binding_commitment : Bytes

pub record Claims : Type 0 where
  pub birth_date_days : ℕ

pub record RevocationInfo : Type 0 where
  pub status_list_id : Bytes
  pub status_index : ℤ

pub record EddsaSignature : Type 0 where
  pub alg : Bytes
  pub r8x : Bytes
  pub r8y : Bytes
  pub s : Bytes

pub record Credential : Type 0 where
  pub version : Bytes
  pub credential_id : Bytes
  pub type_names : List Bytes
  pub issuer : IssuerRef
  pub subject : SubjectRef
  pub issuance_date : Bytes
  pub expiration_date : Bytes
  pub schema_id : Bytes
  pub schema_hash : Bytes
  pub claims : Claims
  pub revocation : RevocationInfo
  pub signature : EddsaSignature
