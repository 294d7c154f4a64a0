-- ===== src/Tests/Texts.antt =====
-- Hex texts, words, requests and packages.
use zk_fact_verification.Common.{
  Error, ◌⊎◌, Bytes, ℕ, ◌^◌, ◌≤◌, ◌≡◌, ◌↔◌, refl, pos, negsuc, [], ◌∷◌, ◌++◌, Bytes, ok, err, panic,
  text_of, codes, arith, length, some,
}
use zk_fact_verification.Std.Slices.{trim_prefix, be_value}
use zk_fact_verification.Std.Hex.{decode_string, nibble, encode_to_string}
use zk_fact_verification.Std.Digits.{set_string}
use zk_fact_verification.Blockchain.Bytes32.{IsWord, hex_to_bytes32}
use zk_fact_verification.Blockchain.Bytes32.Laws.{
  fitted, hex_to_bytes32_total, hex_to_bytes32-encode_to_string,
}
use zk_fact_verification.Contracts.FactRegistry.{Submission}
use zk_fact_verification.Request.{validate}
use zk_fact_verification.Request.Validity.{IsAcceptable, validate_iff}
use zk_fact_verification.Prover.{ProofPackage}
use zk_fact_verification.Prover.Prepare.{Prepared}
use zk_fact_verification.Prover.Field.{hex_to_field, field_to_hex, compute_idempotency_key_hash}
use zk_fact_verification.Prover.Field.Laws.{
  hex_to_field-field_to_hex, hex_to_bytes32-field_to_hex, hex_to_bytes32-of_negative,
  compute_idempotency_key_hash-le,
}
use zk_fact_verification.Prover.Generator.{make_package}
use zk_fact_verification.Cmd.Package.{read_package, hex_decode}
use zk_fact_verification.Cmd.Package.Words.{Carries, read_package-make_package}
use zk_fact_verification.Cmd.Package.Short.{read_package-panics}
use zk_fact_verification.Tests.Inputs.{req}
use zk_fact_verification.Tests.Node.{word, word-IsWord}

hex_to_field-field_to_hex_example : hex_to_field (field_to_hex (negsuc 254)) ≡ ok (negsuc 254)
hex_to_field-field_to_hex_example = hex_to_field-field_to_hex (negsuc 254)

hex_to_bytes32-field_to_hex_example :
    (w : Bytes) × (hex_to_bytes32 (field_to_hex (pos 255)) ≡ ok w) × IsWord w × (be_value 0 w ≡ 255)
hex_to_bytes32-field_to_hex_example = hex_to_bytes32-field_to_hex 255 (omega arith)

hex_to_bytes32-of_negative_example :
    hex_to_bytes32 (field_to_hex (negsuc 254))
    ≡ err (text_of "encoding/hex: invalid byte: %#U" (45 ∷ []))
hex_to_bytes32-of_negative_example = hex_to_bytes32-of_negative 254

-- A key of 33 bytes gives a number of more than 256 bits.
compute_idempotency_key_hash-le_example :
    (h : ℕ) × (compute_idempotency_key_hash (1 ∷ word 0) ≡ ok (pos h)) × (256 ^ length (word 0) ≤ h)
compute_idempotency_key_hash-le_example = compute_idempotency_key_hash-le 1 (word 0) (omega arith)

hex_to_bytes32-encode_to_string_example :
    hex_to_bytes32 (codes "0x" ++ encode_to_string (word 7)) ≡ ok (word 7)
hex_to_bytes32-encode_to_string_example =
    hex_to_bytes32-encode_to_string (word 7) (word-IsWord 7 (omega arith))

hex_to_bytes32_total_example :
    ((e : Error) × (decode_string (trim_prefix (codes "0x7") (codes "0x")) ≡ err e)
      × (hex_to_bytes32 (codes "0x7") ≡ err e))
    ⊎ ((b : Bytes) × (decode_string (trim_prefix (codes "0x7") (codes "0x")) ≡ ok b)
        × (hex_to_bytes32 (codes "0x7") ≡ ok (fitted b))
        × IsWord (fitted b))
hex_to_bytes32_total_example = hex_to_bytes32_total (codes "0x7")

validate_iff_example : (validate (λ t. ok 0) 5 req ≡ ok tt) ↔ IsAcceptable (λ t. ok 0) 5 req
validate_iff_example = validate_iff (λ t. ok 0) 5 req

abbrev values : Prepared
values = record {
  issuer_pubkey_x = pos 1;
  issuer_pubkey_y = pos 2;
  merkle_path = [];
  merkle_index_bits = [];
  holder_secret = pos 4;
  verifier_id_hash = pos 5;
  fact_type_hash = pos 6;
  idempotency_key_hash = pos 107;
  subject_tag = pos 9;
  nullifier = pos 122;
  schema_hash = pos 7;
  policy_root = pos 3;
}

chain : set_string 10 (codes "31337") ≡ some (pos 31337)
unfolding set_string
chain = refl

read_package-make_package_example :
    (a : Submission) × (read_package
        (codes "31337")
        (make_package req values 1000 (1 ∷ 255 ∷ []) (codes "T"))
      ≡ ok (pos 31337, a))
    × Carries values (1 ∷ 255 ∷ []) 1000 req.predicate.cutoff_date_days a
read_package-make_package_example =
    read_package-make_package req values 1000 (1 ∷ 255 ∷ []) (codes "T") (codes "31337") (pos 31337)
      (record {
        verifier_id_hash = omega arith;
        fact_type_hash = omega arith;
        policy_root = omega arith;
        schema_hash = omega arith;
        subject_tag = omega arith;
        nullifier = omega arith;
      })
      (omega arith) (omega arith) (omega arith, (omega arith, tt)) chain

abbrev short_pkg : ProofPackage
short_pkg = record {
  version = codes "1.0";
  request_id = codes "r1";
  circuit_id = codes "age_over_18_v1";
  backend = codes "noir-barretenberg";
  proof = codes "0x01";
  public_inputs = codes "0x05" ∷ codes "0x06" ∷ [];
  public_input_labels = [];
  subject_tag = codes "0x08";
  nullifier = codes "0x09";
  generated_at = codes "T";
}

read_package-panics_example : read_package (codes "31337") short_pkg ≡ panic
unfolding hex_to_bytes32 hex_decode decode_string nibble trim_prefix
read_package-panics_example =
    read_package-panics (codes "31337") short_pkg (1 ∷ []) (_, refl) refl
      ((_, refl), ((_, refl), tt)) (omega arith)
