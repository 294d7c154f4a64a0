-- ===== src/Prover/Generator/TomlRead.antt =====
-- The text of `toml_of`, read as the circuit's parameters.
use zk_fact_verification.Common.{
  bytes_eq, ℕ, ◌≡◌, refl, ap, ◌∙◌, ℤ, pos, List, [], ◌∷◌, some, Result, ok, map, All, length,
  length-map, flatten,
}
use zk_fact_verification.Creds.{Credential}
use zk_fact_verification.Request.{VerificationRequest}
use zk_fact_verification.Policy.{IssuerPolicy}
use zk_fact_verification.Policy.Tree.{tree_depth}
use zk_fact_verification.Policy.Tree.Shape.{IsBit, get_merkle_path-IsPath, to_field-bits}
use zk_fact_verification.Std.Digits.{to_string}
use zk_fact_verification.Circuit.{to_field}
use zk_fact_verification.Prover.{ProverConfig}
use zk_fact_verification.Prover.Prepare.{Prepared, prepare}
use zk_fact_verification.Prover.Prepare.Trace.{prepare-Trace}
use zk_fact_verification.Prover.Toml.{build_prover_toml}
use zk_fact_verification.Prover.Toml.Reader.{read_prover_toml, lookup, inputs_of}
use zk_fact_verification.Prover.Toml.Entries.{
  Entry, number, numbers, printed, read_back, IsPrintable, is_key, read_lines-flatten,
  read_number-to_string, read_numbers-to_string,
}
use zk_fact_verification.Prover.Generator.{toml_of}
use zk_fact_verification.Prover.Generator.Witness.{
  sig_field, field_from_hex-sig_field, circuit_inputs,
}

module _ (cred : Credential) (req : VerificationRequest) (p : Prepared) (valid_until : ℕ) where
  unfoldable entries : List Entry
  entries =
      number "birth_date_days" (pos cred.claims.birth_date_days)
      ∷ number "holder_secret" p.holder_secret
      ∷ number "issuer_pubkey_x" p.issuer_pubkey_x
      ∷ number "issuer_pubkey_y" p.issuer_pubkey_y
      ∷ number "sig_r8x" (sig_field cred.signature.r8x)
      ∷ number "sig_r8y" (sig_field cred.signature.r8y)
      ∷ number "sig_s" (sig_field cred.signature.s)
      ∷ numbers "merkle_path" p.merkle_path
      ∷ numbers "merkle_index_bits" (map pos p.merkle_index_bits)
      ∷ number "idempotency_key_hash" p.idempotency_key_hash
      ∷ number "verifier_id_hash" p.verifier_id_hash
      ∷ number "fact_type_hash" p.fact_type_hash
      ∷ number "issuer_policy_root" p.policy_root
      ∷ number "schema_hash" p.schema_hash
      ∷ number "subject_tag" p.subject_tag
      ∷ number "nullifier" p.nullifier
      ∷ number "valid_until" (pos valid_until)
      ∷ number "cutoff_date_days" (pos req.predicate.cutoff_date_days)
      ∷ []

  bit_texts : (bits : List ℕ) → map (λ b. to_string (pos b)) bits ≡ map to_string (map pos bits)
  bit_texts [] = refl
  bit_texts (b ∷ bits) = ap (λ t. to_string (pos b) ∷ t) (bit_texts bits)

  toml_of-entries : toml_of cred req p valid_until ≡ flatten (map printed entries)
  unfolding toml_of build_prover_toml entries printed flatten
  toml_of-entries =
      rw
        (
          field_from_hex-sig_field cred.signature.r8x,
          field_from_hex-sig_field cred.signature.r8y,
          field_from_hex-sig_field cred.signature.s,
          bit_texts p.merkle_index_bits,
        )
        refl

  entries-IsPrintable :
      length p.merkle_path ≡ tree_depth
      → length p.merkle_index_bits ≡ tree_depth
      → All IsPrintable entries
  unfolding entries is_key
  entries-IsPrintable nodes bits =
      let pad : length (map pos p.merkle_index_bits) ≡ tree_depth =
        length-map pos p.merkle_index_bits ∙ bits in
      (
        refl,
        (
          refl,
          (
            refl,
            (
              refl,
              (
                refl,
                (
                  refl,
                  (
                    refl,
                    (
                      (refl, nodes),
                      (
                        (refl, pad),
                        (refl, (refl, (refl, (refl, (refl, (refl, (refl, (refl, (refl, tt))))))))),
                      ),
                    ),
                  ),
                ),
              ),
            ),
          ),
        ),
      )

  inputs_of-entries :
      All IsBit p.merkle_index_bits
      → inputs_of (map read_back entries) ≡ some (circuit_inputs cred req p valid_until)
  unfolding entries inputs_of lookup read_back circuit_inputs bytes_eq to_field
  inputs_of-entries bits =
      simp (read_number-to_string, read_numbers-to_string, to_field-bits p.merkle_index_bits bits)

module _ (hash : List ℤ → Result ℤ) (cfg : ProverConfig) (cred : Credential)
    (req : VerificationRequest) (pol : IssuerPolicy) (p : Prepared) (valid_until : ℕ) where
  -- The Prover.toml that is written for the values of a successful preparation reads back as the
  -- circuit's 18 parameters, by a reader that wants `key = value` on each line, a number closed by its
  -- quotes or an array with a comma between two entries and a closing bracket, and nothing behind
  -- it: it finds under every name the residue of the prepared value, and in the two arrays all 16
  -- entries in their order.
  pub read_prover_toml-toml_of :
      prepare hash cfg cred req pol ≡ ok p
      → read_prover_toml (toml_of cred req p valid_until)
        ≡ some (circuit_inputs cred req p valid_until)
  unfolding read_prover_toml
  read_prover_toml-toml_of done =
      let t = prepare-Trace hash cfg cred req pol p done in
      let path = get_merkle_path-IsPath t.levels t.leaf_index _ t.path in
      rw
        (
          toml_of-entries cred req p valid_until,
          read_lines-flatten (entries cred req p valid_until)
              (entries-IsPrintable cred req p valid_until path.length-nodes path.length-bits),
        )
        (inputs_of-entries cred req p valid_until path.bits)
