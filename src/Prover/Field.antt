-- ===== src/Prover/Field.antt =====
-- cli/internal/prover/witness.go, the helpers of generator.go, and cli/internal/functions/hex.go.
-- `hash` is `poseidon.Hash`.
pub mod Laws
use zk_fact_verification.Common.{
  ℕ, ℤ, pos, String, List, [], ◌∷◌, ◌++◌, Bytes, Option, none, some, Result, ok, err, panic,
  text_of, codes, wrapped,
}
use zk_fact_verification.Std.Slices.{trim_prefix, be_value}
use zk_fact_verification.Std.Digits.{set_string, to_string, format_064x}

-- `if len(hex) >= 2 && hex[:2] == "0x" { hex = hex[2:] }`
abbrev pub strip_0x : Bytes → Bytes
strip_0x hex = trim_prefix hex (codes "0x")

unfoldable pub hex_to_field : Bytes → Result ℤ
hex_to_field hex = elim (set_string 16 (strip_0x hex)) [
  | none ↦ err (text_of "invalid hex: %s" (strip_0x hex))
  | some val ↦ ok val
]

unfoldable pub field_to_hex : ℤ → Bytes
field_to_hex val = codes "0x" ++ format_064x val

-- `fieldFromHex` of generator.go
unfoldable pub field_from_hex : Bytes → Bytes
field_from_hex h = elim (hex_to_field h) [
  | ok v ↦ to_string v
  | err e ↦ codes "0"
  | panic ↦ codes "0"
]

-- `HexToFieldElement` of functions/hex.go ignores a failure of `SetString`, after which the value
-- is undefined: `undefined` is what it then is.
unfoldable pub hex_to_field_element : (Bytes → ℤ) → Bytes → Bytes
unfolding to_string
hex_to_field_element undefined hex_str = elim (set_string 16 (strip_0x hex_str)) [
  | none ↦ to_string (undefined (strip_0x hex_str))
  | some val ↦ to_string val
]

-- `FieldToHex` of functions/hex.go
unfoldable pub functions_field_to_hex : ℤ → Bytes
functions_field_to_hex val = codes "0x" ++ format_064x val

module _ (hash : List ℤ → Result ℤ) where
  unfoldable pub compute_subject_tag : ℤ → ℤ → Result ℤ
  compute_subject_tag holder_secret verifier_id_hash =
      wrapped "compute subject_tag: %w" (hash (holder_secret ∷ verifier_id_hash ∷ []))

  unfoldable pub compute_nullifier : ℤ → ℤ → ℤ → ℤ → Result ℤ
  compute_nullifier holder_secret verifier_id_hash fact_type_hash idempotency_key_hash =
      wrapped "compute nullifier: %w"
        (hash (holder_secret ∷ verifier_id_hash ∷ fact_type_hash ∷ idempotency_key_hash ∷ []))

unfoldable pub compute_idempotency_key_hash : Bytes → Result ℤ
compute_idempotency_key_hash [] = ok (pos 0)
compute_idempotency_key_hash (c ∷ key) = ok (pos (be_value 0 (c ∷ key)))
