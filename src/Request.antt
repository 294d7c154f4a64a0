-- ===== src/Request.antt =====
-- cli/internal/request: the request of a verifier and its validation. `parse_time` is
-- `time.Parse(time.RFC3339, ·)`, and `now` the clock when `Validate` reads it, on one scale.
pub mod Validity
use zk_fact_verification.Common.{
  ℕ, ℤ, Bytes, Bool, ◌||◌, not, List, [], Result, ok, err, text, Error, codes, is_empty, ltb,
  wrapped, if◌then◌else◌, ◌>>=◌, ◌>>◌,
}
use zk_fact_verification.Std.Slices.{has_prefix}

pub record Predicate : Type 0 where
  pub type_name : Bytes
  pub cutoff_date_days : ℕ

pub record IssuerEntry : Type 0 where
  pub issuer_id : Bytes
  pub pubkey_hash : Bytes
  pub leaf : Bytes

pub record IssuerPolicyRef : Type 0 where
  pub root : Bytes
  pub snapshot_block : ℕ
  pub issuers : List IssuerEntry

pub record ChainConfig : Type 0 where
  pub chain_id : ℤ
  pub fact_registry_address : Bytes
  pub issuer_registry_address : Bytes

pub record ResponseConfig : Type 0 where
  pub mode : Bytes
  pub callback_url : Bytes

pub record VerificationRequest : Type 0 where
  pub version : Bytes
  pub request_id : Bytes
  pub verifier_id : Bytes
  pub verifier_id_hash : Bytes
  pub fact_type : Bytes
  pub fact_type_hash : Bytes
  pub purpose : Bytes
  pub idempotency_key : Bytes
  pub issued_at : Bytes
  pub expires_at : Bytes
  pub schema_id : Bytes
  pub schema_hash : Bytes
  pub circuit_id : Bytes
  pub predicate : Predicate
  pub issuer_policy : IssuerPolicyRef
  pub chain : ChainConfig
  pub response : ResponseConfig

-- `if bad { return e }`
abbrev pub refuse_if : Bool → Error → Result (Unit {0})
refuse_if bad e = if bad then err e else ok tt

module _ (parse_time : Bytes → Result ℕ) (now : ℕ) where
  unfoldable pub check_expiry : Bytes → Result (Unit {0})
  check_expiry expires_at = if is_empty expires_at then ok tt else do
    expiry ← wrapped "invalid expires_at format: %w" (parse_time expires_at)
    refuse_if (ltb expiry now) (text "request has expired")

  unfoldable pub validate : VerificationRequest → Result (Unit {0})
  validate r = do
    refuse_if (is_empty r.request_id) (text "request_id is required")
    refuse_if (is_empty r.verifier_id_hash || not (has_prefix r.verifier_id_hash (codes "0x")))
        (text "verifier_id_hash must be hex (0x...)")
    refuse_if (is_empty r.fact_type_hash || not (has_prefix r.fact_type_hash (codes "0x")))
        (text "fact_type_hash must be hex (0x...)")
    refuse_if (is_empty r.schema_hash || not (has_prefix r.schema_hash (codes "0x")))
        (text "schema_hash must be hex (0x...)")
    check_expiry r.expires_at
    refuse_if (is_empty r.issuer_policy.root) (text "issuer_policy.root is required")
    refuse_if (is_empty r.chain.fact_registry_address)
        (text "chain.fact_registry_address is required")
