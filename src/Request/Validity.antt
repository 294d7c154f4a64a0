-- ===== src/Request/Validity.antt =====
-- Which requests `Validate` lets through.
use zk_fact_verification.Common.{
  ℕ, ◌≤◌, ◌≡◌, ◌≢◌, ◌↔◌, refl, Bytes, true, false, [], ◌∷◌, Result, ok, codes, is_empty, wrapped,
  wrapped-eq-ok, >>=-eq-ok, arith, ◌⊎◌, inl, inr,
}
use zk_fact_verification.Std.Slices.{has_prefix}
use mathlib.Core.List.{cons-ne-nil}
use zk_fact_verification.Request.{VerificationRequest, check_expiry, validate}

-- A text that starts with "0x".
abbrev pub IsHexText : Bytes → Type 0
IsHexText s = has_prefix s (codes "0x") ≡ true

-- No expiry is given, or one that parses and has not passed.
abbrev pub IsFresh : (Bytes → Result ℕ) → ℕ → Bytes → Type 0
IsFresh parse_time now s = (s ≡ []) ⊎ ((t : ℕ) × (parse_time s ≡ ok t) × (now ≤ t))

pub record IsAcceptable (parse_time : Bytes → Result ℕ) (now : ℕ) (r : VerificationRequest)
    : Type 0 where
  pub has_id : r.request_id ≢ []
  pub verifier : IsHexText r.verifier_id_hash
  pub fact_type : IsHexText r.fact_type_hash
  pub schema : IsHexText r.schema_hash
  pub fresh : IsFresh parse_time now r.expires_at
  pub has_root : r.issuer_policy.root ≢ []
  pub has_registry : r.chain.fact_registry_address ≢ []

not_empty : (s : Bytes) → is_empty s ≡ false → s ≢ []
not_empty [] h = absurd (cc h)
not_empty (c ∷ s) h = cons-ne-nil c s

is_empty-false : (s : Bytes) → s ≢ [] → is_empty s ≡ false
is_empty-false [] h = absurd (h refl)
is_empty-false (c ∷ s) h = refl

hex_not_empty : (s : Bytes) → IsHexText s → is_empty s ≡ false
unfolding has_prefix
hex_not_empty [] h = absurd (cc h)
hex_not_empty (c ∷ s) h = refl

module _ (parse_time : Bytes → Result ℕ) (now : ℕ) where
  check_expiry_sound :
      (s : Bytes) → check_expiry parse_time now s ≡ ok tt → IsFresh parse_time now s
  unfolding check_expiry
  check_expiry_sound [] h = inl refl
  check_expiry_sound (c ∷ s) h =
      let (t, e, h') = >>=-eq-ok (wrapped _ (parse_time (c ∷ s))) _ h in
      inr (t, wrapped-eq-ok _ _ e, ground arith)

  check_expiry_complete :
      (s : Bytes) → IsFresh parse_time now s → check_expiry parse_time now s ≡ ok tt
  unfolding check_expiry
  check_expiry_complete [] h = refl
  check_expiry_complete (c ∷ s) (inl e) = absurd (cons-ne-nil c s e)
  check_expiry_complete (c ∷ s) (inr (t, e, h)) = rw e (ground arith)

  validate_sound :
      (r : VerificationRequest) → validate parse_time now r ≡ ok tt → IsAcceptable parse_time now r
  unfolding validate
  validate_sound r h = record {
    has_id = not_empty r.request_id (ground arith);
    verifier = ground arith;
    fact_type = ground arith;
    schema = ground arith;
    fresh = check_expiry_sound r.expires_at (ground arith);
    has_root = not_empty r.issuer_policy.root (ground arith);
    has_registry = not_empty r.chain.fact_registry_address (ground arith);
  }

  validate_complete :
      (r : VerificationRequest) → IsAcceptable parse_time now r → validate parse_time now r ≡ ok tt
  unfolding validate
  validate_complete r a = rw (
    is_empty-false r.request_id a.has_id,
    hex_not_empty r.verifier_id_hash a.verifier,
    a.verifier,
    hex_not_empty r.fact_type_hash a.fact_type,
    a.fact_type,
    hex_not_empty r.schema_hash a.schema,
    a.schema,
    check_expiry_complete r.expires_at a.fresh,
    is_empty-false r.issuer_policy.root a.has_root,
    is_empty-false r.chain.fact_registry_address a.has_registry,
  )

  -- `Validate` returns no error exactly for the acceptable requests.
  pub validate_iff :
      (r : VerificationRequest)
      → (validate parse_time now r ≡ ok tt) ↔ IsAcceptable parse_time now r
  validate_iff r = (validate_sound r, validate_complete r)
