-- ===== src/Prover/Prepare/Trace.antt =====
-- What a successful preparation has computed, step by step.
use mathlib.Core.Path.{subst}
use zk_fact_verification.Common.{
  ℕ, ◌≡◌, ℤ, List, [], ◌∷◌, Result, ok, wrapped, ok_cases, wrapped-eq-ok,
}
use zk_fact_verification.Creds.{Credential}
use zk_fact_verification.Request.{VerificationRequest}
use zk_fact_verification.Policy.{IssuerPolicy}
use zk_fact_verification.Policy.Tree.{build_tree, get_merkle_path}
use zk_fact_verification.Prover.{ProverConfig}
use zk_fact_verification.Prover.Field.{
  hex_to_field, compute_subject_tag, compute_nullifier, compute_idempotency_key_hash,
}
use zk_fact_verification.Prover.Prepare.{Prepared, issuer_index, parse_leaves, prepare}

ok_inj : {a b : Prepared} → ◌≡◌ {A = Result Prepared} (ok a) (ok b) → a ≡ b
ok_inj h = cc

pub record Trace (hash : List ℤ → Result ℤ) (cfg : ProverConfig) (cred : Credential)
    (req : VerificationRequest) (pol : IssuerPolicy) (p : Prepared) : Type 0 where
  pub leaf_index : ℕ
  pub leaves : List ℤ
  pub levels : List (List ℤ)
  pub pubkey_x : hex_to_field cred.issuer.pubkey_x ≡ ok p.issuer_pubkey_x
  pub pubkey_y : hex_to_field cred.issuer.pubkey_y ≡ ok p.issuer_pubkey_y
  pub index : issuer_index cred.issuer.did pol.issuers ≡ ok leaf_index
  pub parsed : parse_leaves 0 pol.issuers ≡ ok leaves
  pub built : build_tree hash leaves ≡ ok levels
  pub path : get_merkle_path levels leaf_index ≡ ok (p.merkle_path, p.merkle_index_bits)
  pub secret : hex_to_field cfg.holder_secret ≡ ok p.holder_secret
  pub verifier : hex_to_field req.verifier_id_hash ≡ ok p.verifier_id_hash
  pub fact_type : hex_to_field req.fact_type_hash ≡ ok p.fact_type_hash
  pub key : compute_idempotency_key_hash req.idempotency_key ≡ ok p.idempotency_key_hash
  pub tag : hash (p.holder_secret ∷ p.verifier_id_hash ∷ []) ≡ ok p.subject_tag
  pub nullifies :
      hash (p.holder_secret ∷ p.verifier_id_hash ∷ p.fact_type_hash ∷ p.idempotency_key_hash ∷ [])
      ≡ ok p.nullifier
  pub schema : hex_to_field req.schema_hash ≡ ok p.schema_hash
  pub root : hex_to_field pol.root ≡ ok p.policy_root

module _ (hash : List ℤ → Result ℤ) (cfg : ProverConfig) (cred : Credential)
    (req : VerificationRequest) (pol : IssuerPolicy) (p : Prepared) where
  pub prepare-Trace : prepare hash cfg cred req pol ≡ ok p → Trace hash cfg cred req pol p
  unfolding prepare compute_subject_tag compute_nullifier
  prepare-Trace h0 = ok_cases (wrapped _ (hex_to_field cred.issuer.pubkey_x)) _ h0 λ x ex h1.
      ok_cases (wrapped _ (hex_to_field cred.issuer.pubkey_y)) _ h1 λ y ey h2.
        ok_cases (issuer_index cred.issuer.did pol.issuers) _ h2 λ i ei h3.
          ok_cases (parse_leaves 0 pol.issuers) _ h3 λ leaves el h4.
            ok_cases (wrapped _ (build_tree hash leaves)) _ h4 λ levels eb h5.
              ok_cases (get_merkle_path levels i) _ h5 λ path ep h6.
                ok_cases (wrapped _ (hex_to_field cfg.holder_secret)) _ h6 λ s es h7.
                  ok_cases (wrapped _ (hex_to_field req.verifier_id_hash)) _ h7 λ v ev h8.
                    ok_cases (wrapped _ (hex_to_field req.fact_type_hash)) _ h8 λ f ef h9.
                      ok_cases (wrapped _ (compute_idempotency_key_hash req.idempotency_key)) _ h9
                        λ k ek h10. ok_cases (wrapped _ (hash (s ∷ v ∷ []))) _ h10 λ t et h11.
                          ok_cases (wrapped _ (hash (s ∷ v ∷ f ∷ k ∷ []))) _ h11 λ n en h12.
                            ok_cases (wrapped _ (hex_to_field req.schema_hash)) _ h12 λ c ec h13.
                              ok_cases (wrapped _ (hex_to_field pol.root)) _ h13 λ r er h14.
                                subst (Trace hash cfg cred req pol) (ok_inj h14) (record {
                                  leaf_index = i;
                                  leaves = leaves;
                                  levels = levels;
                                  pubkey_x = wrapped-eq-ok _ _ ex;
                                  pubkey_y = wrapped-eq-ok _ _ ey;
                                  index = ei;
                                  parsed = el;
                                  built = wrapped-eq-ok _ _ eb;
                                  path = ep;
                                  secret = wrapped-eq-ok _ _ es;
                                  verifier = wrapped-eq-ok _ _ ev;
                                  fact_type = wrapped-eq-ok _ _ ef;
                                  key = wrapped-eq-ok _ _ ek;
                                  tag = wrapped-eq-ok _ _ et;
                                  nullifies = wrapped-eq-ok _ _ en;
                                  schema = wrapped-eq-ok _ _ ec;
                                  root = wrapped-eq-ok _ _ er;
                                })
