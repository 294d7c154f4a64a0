-- ===== src/Prover/Prepare.antt =====
-- Steps 1 to 3 of `GenerateProof` (cli/internal/prover/generator.go): everything that is computed
-- before the clock is read and a file is written.
pub mod Trace
pub mod Total
use zk_fact_verification.Common.{
  ℕ, suc, ◌+◌, ℤ, List, [], ◌∷◌, Bytes, Option, none, some, Result, ok, err, text_of, bytes_eq,
  wrapped, wrapped_at, if◌then◌else◌, ◌>>=◌,
}
use zk_fact_verification.Creds.{Credential}
use zk_fact_verification.Request.{VerificationRequest}
use zk_fact_verification.Policy.{IssuerEntry, IssuerPolicy}
use zk_fact_verification.Policy.Tree.{build_tree, get_merkle_path}
use zk_fact_verification.Prover.{ProverConfig}
use zk_fact_verification.Prover.Field.{
  hex_to_field, compute_subject_tag, compute_nullifier, compute_idempotency_key_hash,
}

-- The index of the first issuer with this id, where `i` is the index of the list's head.
unfoldable pub find_issuer : Bytes → ℕ → List IssuerEntry → Option ℕ
find_issuer did i [] = none
find_issuer did i (iss ∷ issuers) =
    let later = find_issuer did (i + 1) issuers in
    if bytes_eq iss.issuer_id did then some i else later

unfoldable pub parse_leaves : ℕ → List IssuerEntry → Result (List ℤ)
parse_leaves i [] = ok []
parse_leaves i (iss ∷ issuers) = do
  leaf ← wrapped_at "parse leaf %d: %w" (i ∷ []) (hex_to_field iss.leaf)
  leaves ← parse_leaves (i + 1) issuers
  ok (leaf ∷ leaves)

-- The values that the later steps use.
pub record Prepared : Type 0 where
  pub issuer_pubkey_x : ℤ
  pub issuer_pubkey_y : ℤ
  pub merkle_path : List ℤ
  pub merkle_index_bits : List ℕ
  pub holder_secret : ℤ
  pub verifier_id_hash : ℤ
  pub fact_type_hash : ℤ
  pub idempotency_key_hash : ℤ
  pub subject_tag : ℤ
  pub nullifier : ℤ
  pub schema_hash : ℤ
  pub policy_root : ℤ

-- `leafIndex < 0` after the loop
unfoldable pub issuer_index : Bytes → List IssuerEntry → Result ℕ
issuer_index did issuers = elim (find_issuer did 0 issuers) [
  | none ↦ err (text_of "issuer %s not found in policy" did)
  | some i ↦ ok i
]

module _ (hash : List ℤ → Result ℤ) where
  unfoldable pub prepare :
      ProverConfig → Credential → VerificationRequest → IssuerPolicy → Result Prepared
  prepare cfg cred req pol = do
    issuer_pubkey_x ← wrapped "parse issuer.pubkey_x: %w" (hex_to_field cred.issuer.pubkey_x)
    issuer_pubkey_y ← wrapped "parse issuer.pubkey_y: %w" (hex_to_field cred.issuer.pubkey_y)
    leaf_index ← issuer_index cred.issuer.did pol.issuers
    leaves ← parse_leaves 0 pol.issuers
    levels ← wrapped "build merkle tree: %w" (build_tree hash leaves)
    path ← get_merkle_path levels leaf_index
    holder_secret ← wrapped "parse holder_secret: %w" (hex_to_field cfg.holder_secret)
    verifier_id_hash ← wrapped "parse verifier_id_hash: %w" (hex_to_field req.verifier_id_hash)
    fact_type_hash ← wrapped "parse fact_type_hash: %w" (hex_to_field req.fact_type_hash)
    idempotency_key_hash ←
        wrapped "compute idempotency_key_hash: %w"
          (compute_idempotency_key_hash req.idempotency_key)
    subject_tag ← compute_subject_tag hash holder_secret verifier_id_hash
    nullifier ←
        compute_nullifier hash holder_secret verifier_id_hash fact_type_hash idempotency_key_hash
    schema_hash ← wrapped "parse schema_hash: %w" (hex_to_field req.schema_hash)
    policy_root ← wrapped "parse policy root: %w" (hex_to_field pol.root)
    ok (record {
      issuer_pubkey_x = issuer_pubkey_x;
      issuer_pubkey_y = issuer_pubkey_y;
      merkle_path = path.0;
      merkle_index_bits = path.1;
      holder_secret = holder_secret;
      verifier_id_hash = verifier_id_hash;
      fact_type_hash = fact_type_hash;
      idempotency_key_hash = idempotency_key_hash;
      subject_tag = subject_tag;
      nullifier = nullifier;
      schema_hash = schema_hash;
      policy_root = policy_root;
    })
