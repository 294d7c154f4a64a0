-- ===== src/Prover/Toml.antt =====
-- `buildProverToml` of cli/internal/prover/generator.go: the text of Prover.toml.
pub mod Reader
pub mod Lines
pub mod Entries
use zk_fact_verification.Common.{
  ℕ, zero, suc, ℤ, pos, String, List, [], ◌∷◌, ◌++◌, Bytes, codes, map, flatten,
}
use zk_fact_verification.Creds.{EddsaSignature}
use zk_fact_verification.Std.Digits.{to_string}
use zk_fact_verification.Policy.Tree.{tree_depth}
use zk_fact_verification.Prover.Field.{field_from_hex}

-- One line of the format, `key = "value"`.
unfoldable pub toml_line : String → Bytes → Bytes
toml_line key value = codes key ++ (codes " = \"" ++ (value ++ codes "\"\n"))

abbrev pub separator : ℕ → Bytes
separator zero = []
separator (suc n) = codes ", "

-- The rounds of an array's loop that are left, and the texts that are left: "0" stands in for what
-- is missing, and a comma follows every entry but the last one.
unfoldable pub array_items : ℕ → List Bytes → Bytes
array_items zero texts = []
array_items (suc n) [] = codes "\"0\"" ++ (separator n ++ array_items n [])
array_items (suc n) (t ∷ texts) =
    (codes "\"" ++ (t ++ codes "\"")) ++ (separator n ++ array_items n texts)

unfoldable pub toml_array : String → List Bytes → Bytes
unfolding array_items
toml_array key texts = codes key ++ (codes " = [" ++ (array_items tree_depth texts ++ codes "]\n"))

unfoldable pub build_prover_toml :
    ℕ → ℤ → ℤ → ℤ → EddsaSignature → List ℤ → List ℕ → ℤ → ℤ → ℤ → ℤ → ℤ → ℤ → ℤ → ℕ → ℕ → Bytes
unfolding flatten toml_line toml_array
build_prover_toml birth_date_days holder_secret issuer_pub_x issuer_pub_y sig merkle_path
      merkle_index_bits idempotency_key_hash verifier_id_hash fact_type_hash policy_root schema_hash
      subject_tag nullifier valid_until cutoff_date_days =
    flatten (
      toml_line "birth_date_days" (to_string (pos birth_date_days))
      ∷ toml_line "holder_secret" (to_string holder_secret)
      ∷ toml_line "issuer_pubkey_x" (to_string issuer_pub_x)
      ∷ toml_line "issuer_pubkey_y" (to_string issuer_pub_y)
      ∷ toml_line "sig_r8x" (field_from_hex sig.r8x)
      ∷ toml_line "sig_r8y" (field_from_hex sig.r8y)
      ∷ toml_line "sig_s" (field_from_hex sig.s)
      ∷ toml_array "merkle_path" (map to_string merkle_path)
      ∷ toml_array "merkle_index_bits" (map (λ b. to_string (pos b)) merkle_index_bits)
      ∷ toml_line "idempotency_key_hash" (to_string idempotency_key_hash)
      ∷ toml_line "verifier_id_hash" (to_string verifier_id_hash)
      ∷ toml_line "fact_type_hash" (to_string fact_type_hash)
      ∷ toml_line "issuer_policy_root" (to_string policy_root)
      ∷ toml_line "schema_hash" (to_string schema_hash)
      ∷ toml_line "subject_tag" (to_string subject_tag)
      ∷ toml_line "nullifier" (to_string nullifier)
      ∷ toml_line "valid_until" (to_string (pos valid_until))
      ∷ toml_line "cutoff_date_days" (to_string (pos cutoff_date_days))
      ∷ [])
