-- ===== src/Prover/Generator.antt =====
-- `GenerateProof` and `SaveProofPackage` of cli/internal/prover/generator.go. The file system, the
-- two programs nargo and bb and the clock are `sys`; `texts` are the functions of path/filepath and
-- package time that only make texts.
pub mod Effects
pub mod Witness
pub mod TomlRead
use zk_fact_verification.Common.{
  ℕ, ◌+◌, ◌%◌, ◌^◌, ℤ, pos, List, [], ◌∷◌, ◌++◌, Bytes, Result, ok, codes, String, map,
}
use zk_fact_verification.System.{
  System, Action, lift, wrap_action, effect, modify, ◌>>=◌, ◌>>◌, continue,
}
use zk_fact_verification.Std.Hex.{encode_to_string}
use zk_fact_verification.Creds.{Credential}
use zk_fact_verification.Request.{VerificationRequest}
use zk_fact_verification.Policy.{IssuerPolicy}
use zk_fact_verification.Prover.{ProofPackage, ProverConfig}
use zk_fact_verification.Prover.Field.{field_to_hex}
use zk_fact_verification.Prover.Prepare.{Prepared, prepare}
use zk_fact_verification.Prover.Toml.{build_prover_toml}

pub record Texts : Type 0 where
  -- `filepath.Join` and `filepath.Dir`
  pub join : List Bytes → Bytes
  pub dir : Bytes → Bytes
  -- `time.Unix(·, 0).UTC().Format(time.RFC3339)`
  pub format_time : ℕ → Bytes

-- `uint64(time.Now().Add(24 * time.Hour).Unix())`
abbrev pub valid_until_at : ℕ → ℕ
valid_until_at now = (now + 86400) % 2 ^ 64

abbrev pub public_input_labels : List Bytes
public_input_labels = map codes (
    "verifier_id_hash" ∷ "fact_type_hash" ∷ "issuer_policy_root" ∷ "schema_hash" ∷ "subject_tag"
    ∷ "nullifier" ∷ "valid_until" ∷ "cutoff_date_days" ∷ [])

-- Step 8.
unfoldable pub make_package : VerificationRequest → Prepared → ℕ → Bytes → Bytes → ProofPackage
make_package req p valid_until proof_bytes generated_at = record {
  version = codes "1.0";
  request_id = req.request_id;
  circuit_id = codes "age_over_18_v1";
  backend = codes "noir-barretenberg";
  proof = codes "0x" ++ encode_to_string proof_bytes;
  public_inputs =
      field_to_hex p.verifier_id_hash
      ∷ field_to_hex p.fact_type_hash
      ∷ field_to_hex p.policy_root
      ∷ field_to_hex p.schema_hash
      ∷ field_to_hex p.subject_tag
      ∷ field_to_hex p.nullifier
      ∷ field_to_hex (pos valid_until)
      ∷ field_to_hex (pos req.predicate.cutoff_date_days)
      ∷ [];
  public_input_labels = public_input_labels;
  subject_tag = field_to_hex p.subject_tag;
  nullifier = field_to_hex p.nullifier;
  generated_at = generated_at;
}

unfoldable pub toml_of : Credential → VerificationRequest → Prepared → ℕ → Bytes
toml_of cred req p valid_until =
    build_prover_toml cred.claims.birth_date_days p.holder_secret p.issuer_pubkey_x
      p.issuer_pubkey_y cred.signature p.merkle_path p.merkle_index_bits p.idempotency_key_hash
      p.verifier_id_hash p.fact_type_hash p.policy_root p.schema_hash p.subject_tag p.nullifier
      valid_until req.predicate.cutoff_date_days

module _ (hash : List ℤ → Result ℤ) (texts : Texts) (sys : System) where
  -- Steps 4 to 8, with the prepared values.
  unfoldable pub prove_prepared :
      ProverConfig → Credential → VerificationRequest → Prepared → Action sys.State ProofPackage
  prove_prepared cfg cred req p = do
    now ← effect sys.unix_now
    let valid_until = valid_until_at now
    let toml_path = texts.join (cfg.circuit_dir ∷ codes "Prover.toml" ∷ [])
    wrap_action "write Prover.toml: %w" (sys.write_file toml_path (toml_of cred req p valid_until))
    wrap_action "nargo execute: %w"
        (sys.run_command cfg.circuit_dir cfg.nargo_bin (codes "execute" ∷ []))
    let acir_path = texts.join (cfg.circuit_dir ∷ codes "target" ∷ codes "age_over_18_v1.json" ∷ [])
    let witness_path =
        texts.join (cfg.circuit_dir ∷ codes "target" ∷ codes "age_over_18_v1.gz" ∷ [])
    let proof_out_dir = texts.join (cfg.circuit_dir ∷ codes "out" ∷ codes "proof" ∷ [])
    modify (sys.mkdir_all (texts.dir proof_out_dir))
    wrap_action "bb prove: %w" (
        sys.run_command cfg.circuit_dir cfg.bb_bin (
          codes "prove"
          ∷ codes "-b"
          ∷ acir_path
          ∷ codes "-w"
          ∷ witness_path
          ∷ codes "-o"
          ∷ proof_out_dir
          ∷ []))
    proof_bytes ← wrap_action "read proof file: %w" (sys.read_file proof_out_dir)
    end ← effect sys.unix_now
    lift (ok (make_package req p valid_until proof_bytes (texts.format_time end)))

  unfoldable pub generate_proof :
      ProverConfig → Credential → VerificationRequest → IssuerPolicy → Action sys.State ProofPackage
  generate_proof cfg cred req pol = do
    p ← lift (prepare hash cfg cred req pol)
    prove_prepared cfg cred req p

-- `marshal` is `json.MarshalIndent` of a package.
unfoldable pub save_proof_package :
    (sys : System)
    → (ProofPackage → Result Bytes)
    → ProofPackage
    → Bytes
    → Action sys.State (Unit {0})
save_proof_package sys marshal pkg path = do
  content ← wrap_action "marshal proof package: %w" (lift (marshal pkg))
  sys.write_file path content
