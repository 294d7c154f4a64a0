-- ===== src/Prover/Prepare/Total.antt =====
-- When the preparation succeeds.
use zk_fact_verification.Common.{ℕ, ◌<◌, ◌≡◌, refl, ℤ, List, All, some, Result, ok, get_elem?}
use zk_fact_verification.Creds.{Credential}
use zk_fact_verification.Request.{VerificationRequest}
use zk_fact_verification.Poseidon.{InField, HashesField}
use zk_fact_verification.Circuit.{NoirLib, SameHash}
use zk_fact_verification.Policy.{IssuerPolicy}
use zk_fact_verification.Policy.Tree.{max_leaves}
use zk_fact_verification.Policy.Tree.Total.{build_tree-total}
use zk_fact_verification.Policy.Tree.Path.{get_merkle_path-compute_merkle_root}
use zk_fact_verification.Prover.{ProverConfig}
use zk_fact_verification.Prover.Field.{
  hex_to_field, compute_subject_tag, compute_nullifier, compute_idempotency_key_hash,
}
use zk_fact_verification.Prover.Prepare.{Prepared, issuer_index, parse_leaves, prepare}

-- Every text spells a number, those that are hashed a field element; and the credential's issuer
-- stands in the policy, at an index that the tree has.
pub record IsPreparable (cfg : ProverConfig) (cred : Credential) (req : VerificationRequest)
    (pol : IssuerPolicy) : Type 0 where
  pub x : ℤ
  pub y : ℤ
  pub secret : ℤ
  pub verifier : ℤ
  pub fact_type : ℤ
  pub key : ℤ
  pub schema : ℤ
  pub root : ℤ
  pub index : ℕ
  pub leaf : ℤ
  pub leaves : List ℤ
  pub x_text : hex_to_field cred.issuer.pubkey_x ≡ ok x
  pub y_text : hex_to_field cred.issuer.pubkey_y ≡ ok y
  pub secret_text : hex_to_field cfg.holder_secret ≡ ok secret
  pub verifier_text : hex_to_field req.verifier_id_hash ≡ ok verifier
  pub fact_type_text : hex_to_field req.fact_type_hash ≡ ok fact_type
  pub key_text : compute_idempotency_key_hash req.idempotency_key ≡ ok key
  pub schema_text : hex_to_field req.schema_hash ≡ ok schema
  pub root_text : hex_to_field pol.root ≡ ok root
  pub secret_small : InField secret
  pub verifier_small : InField verifier
  pub fact_type_small : InField fact_type
  pub key_small : InField key
  pub found : issuer_index cred.issuer.did pol.issuers ≡ ok index
  pub parsed : parse_leaves 0 pol.issuers ≡ ok leaves
  pub leaves_small : All InField leaves
  pub index_small : index < max_leaves
  pub at_index : get_elem? leaves index ≡ some leaf

module _ (hash : List ℤ → Result ℤ) (total : HashesField hash) (lib : NoirLib)
    (agree : SameHash hash lib) (cfg : ProverConfig) (cred : Credential) (req : VerificationRequest)
    (pol : IssuerPolicy) where
  -- If the hash is defined on field elements and agrees with the circuit's, the preparation succeeds
  -- on every preparable input.
  pub prepare-total :
      IsPreparable cfg cred req pol → (p : Prepared) × (prepare hash cfg cred req pol ≡ ok p)
  unfolding prepare compute_subject_tag compute_nullifier
  prepare-total h =
      let (levels, built, _, _) = build_tree-total hash total h.leaves h.leaves_small in
      let (path, bits, _, cut, _, _, _, _) =
        get_merkle_path-compute_merkle_root hash lib agree h.leaves levels h.index h.leaf built
          h.index_small h.at_index in
      let (tag, tagged, _) = total.two h.secret h.verifier h.secret_small h.verifier_small in
      let (nul, nullified, _) =
        total.four h.secret h.verifier h.fact_type h.key h.secret_small h.verifier_small
          h.fact_type_small h.key_small in
      (
        record {
          issuer_pubkey_x = h.x;
          issuer_pubkey_y = h.y;
          merkle_path = path;
          merkle_index_bits = bits;
          holder_secret = h.secret;
          verifier_id_hash = h.verifier;
          fact_type_hash = h.fact_type;
          idempotency_key_hash = h.key;
          subject_tag = tag;
          nullifier = nul;
          schema_hash = h.schema;
          policy_root = h.root;
        },
        rw
            (
              h.x_text, h.y_text, h.found, h.parsed, built, cut, h.secret_text, h.verifier_text,
              h.fact_type_text, h.key_text, tagged, nullified, h.schema_text, h.root_text,
            )
            refl,
      )
