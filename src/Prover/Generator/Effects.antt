-- ===== src/Prover/Generator/Effects.antt =====
-- What `GenerateProof` has done when it returns.
use zk_fact_verification.Common.{◌≡◌, ap, ℤ, List, [], ◌∷◌, Bytes, codes, Result, ok}
use zk_fact_verification.System.{System}
use zk_fact_verification.System.Cases.{ok_inj, step_cases, lift_cases}
use zk_fact_verification.Creds.{Credential}
use zk_fact_verification.Request.{VerificationRequest}
use zk_fact_verification.Policy.{IssuerPolicy}
use zk_fact_verification.Prover.{ProofPackage, ProverConfig}
use zk_fact_verification.Prover.Prepare.{Prepared, prepare}
use zk_fact_verification.Prover.Generator.{
  Texts, valid_until_at, make_package, toml_of, prove_prepared, generate_proof,
}

abbrev proof_file : Texts → ProverConfig → Bytes
proof_file texts cfg = texts.join (cfg.circuit_dir ∷ codes "out" ∷ codes "proof" ∷ [])

-- A run that produced a package: the states between the steps, and what each step was given.
pub record IsProduct (hash : List ℤ → Result ℤ) (texts : Texts) (sys : System) (cfg : ProverConfig)
    (cred : Credential) (req : VerificationRequest) (pol : IssuerPolicy) (s : sys.State)
    (pkg : ProofPackage) : Type 0 where
  pub prepared : Prepared
  pub proof_bytes : Bytes
  pub written_state : sys.State
  pub executed_state : sys.State
  pub proved_state : sys.State
  pub read_state : sys.State
  pub prepares : prepare hash cfg cred req pol ≡ ok prepared
  pub written :
      sys.write_file
        (texts.join (cfg.circuit_dir ∷ codes "Prover.toml" ∷ []))
        (toml_of cred req prepared (valid_until_at (sys.unix_now s).0))
        (sys.unix_now s).1
      ≡ (ok tt, written_state)
  pub executed :
      sys.run_command cfg.circuit_dir cfg.nargo_bin (codes "execute" ∷ []) written_state
      ≡ (ok tt, executed_state)
  pub proved :
      sys.run_command cfg.circuit_dir cfg.bb_bin
        (codes "prove"
          ∷ codes "-b"
          ∷ texts.join (cfg.circuit_dir ∷ codes "target" ∷ codes "age_over_18_v1.json" ∷ [])
          ∷ codes "-w"
          ∷ texts.join (cfg.circuit_dir ∷ codes "target" ∷ codes "age_over_18_v1.gz" ∷ [])
          ∷ codes "-o"
          ∷ proof_file texts cfg
          ∷ [])
        (sys.mkdir_all (texts.dir (proof_file texts cfg)) executed_state)
      ≡ (ok tt, proved_state)
  pub read : sys.read_file (proof_file texts cfg) proved_state ≡ (ok proof_bytes, read_state)
  pub made :
      make_package req prepared
        (valid_until_at (sys.unix_now s).0)
        proof_bytes
        (texts.format_time (sys.unix_now read_state).0)
      ≡ pkg

module _ (hash : List ℤ → Result ℤ) (texts : Texts) (sys : System) (cfg : ProverConfig)
    (cred : Credential) (req : VerificationRequest) (pol : IssuerPolicy) (s : sys.State) where
  module _ (p : Prepared) where
    -- The run from the preparation on.
    prove_prepared-IsProduct :
        {pkg : ProofPackage} (s' : sys.State)
        → prepare hash cfg cred req pol ≡ ok p
        → prove_prepared hash texts sys cfg cred req p s ≡ (ok pkg, s')
        → IsProduct hash texts sys cfg cred req pol s pkg
    unfolding prove_prepared
    prove_prepared-IsProduct s' ep h =
        step_cases _ (sys.write_file _ _ (sys.unix_now s).1) _ h λ _ t1 e1 h1.
          step_cases _ (sys.run_command _ _ _ t1) _ h1 λ _ t2 e2 h2.
            step_cases _ (sys.run_command _ _ _ (sys.mkdir_all _ t2)) _ h2 λ _ t3 e3 h3.
              step_cases _ (sys.read_file _ t3) _ h3 λ bytes t4 e4 h4. record {
                prepared = p;
                proof_bytes = bytes;
                written_state = t1;
                executed_state = t2;
                proved_state = t3;
                read_state = t4;
                prepares = ep;
                written = e1;
                executed = e2;
                proved = e3;
                read = e4;
                made = ok_inj (ap (λ q. q.0) h4);
              }

  -- If `GenerateProof` returns a package, then the preparation succeeded; Prover.toml was written
  -- with the text of the prepared values and of the end of validity 24 hours after the time read;
  -- nargo and then bb succeeded, in this order, in the circuit's directory; and the package is
  -- made of the same values, of the same end of validity, and of the bytes then read from the proof
  -- file.
  pub generate_proof-IsProduct :
      {pkg : ProofPackage} (s' : sys.State)
      → generate_proof hash texts sys cfg cred req pol s ≡ (ok pkg, s')
      → IsProduct hash texts sys cfg cred req pol s pkg
  unfolding generate_proof prove_prepared
  generate_proof-IsProduct s' h =
      lift_cases (prepare hash cfg cred req pol) _ s h
        λ p ep h1. prove_prepared-IsProduct p s' ep h1
