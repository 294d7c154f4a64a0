-- ===== src/Cmd/Commands/Prove.antt =====
-- What `prove` has done when it ends without an error.
use zk_fact_verification.Common.{◌≡◌, refl, Bytes, ok, wrapped, wrapped-eq-ok, ◌↔◌}
use zk_fact_verification.System.Cases.{step_cases, lift_cases, last_case}
use zk_fact_verification.Config.{Config, load_config}
use zk_fact_verification.Creds.{Credential}
use zk_fact_verification.Request.{VerificationRequest, validate}
use zk_fact_verification.Policy.{IssuerPolicy}
use zk_fact_verification.Prover.{ProofPackage, ProverConfig}
use zk_fact_verification.Prover.Generator.{generate_proof, save_proof_package}
use zk_fact_verification.Cmd.Loaders.{load_credential, load_request, load_policy}
use zk_fact_verification.Cmd.Commands.{Platform, prove_cmd, package_path}

abbrev pub prover_config : Config → ProverConfig
prover_config cfg = record {
  circuit_dir = cfg.noir_circuit_dir;
  nargo_bin = cfg.nargo_bin;
  bb_bin = cfg.bb_bin;
  holder_secret = cfg.holder_secret;
}

-- A run that ended without an error, and left `content` in the package's file.
pub record IsProved (env : Platform) (s s' : env.sys.State) (pkg : ProofPackage) (content : Bytes)
    : Type 0 where
  pub cred : Credential
  pub req : VerificationRequest
  pub pol : IssuerPolicy
  pub credential_state : env.sys.State
  pub request_state : env.sys.State
  pub policy_state : env.sys.State
  pub proof_state : env.sys.State
  pub credential :
      load_credential env.json env.sys (load_config env.sys s).credentials_file s
      ≡ (ok cred, credential_state)
  pub request :
      load_request env.json env.sys (load_config env.sys s).request_file credential_state
      ≡ (ok req, request_state)
  pub valid : validate env.parse_time (env.sys.time_now request_state).0 req ≡ ok tt
  pub policy :
      load_policy env.json env.sys
        (load_config env.sys s).policy_file
        (env.sys.time_now request_state).1
      ≡ (ok pol, policy_state)
  pub generated :
      generate_proof env.hash env.texts env.sys
        (prover_config (load_config env.sys s))
        cred
        req
        pol
        policy_state
      ≡ (ok pkg, proof_state)
  pub printed : env.json.print_package pkg ≡ ok content
  pub saved : env.sys.write_file package_path content proof_state ≡ (ok tt, s')

module _ (env : Platform) (s s' : env.sys.State) where
  pub IsProved-prove_cmd :
      (pkg : ProofPackage) (content : Bytes)
      → IsProved env s s' pkg content
      → prove_cmd env s ≡ (ok tt, s')
  unfolding prove_cmd save_proof_package
  IsProved-prove_cmd pkg content h =
      rw (h.credential, h.request, h.valid, h.policy, h.generated, h.printed, h.saved) refl

  prove_cmd-IsProved :
      prove_cmd env s ≡ (ok tt, s')
      → (pkg : ProofPackage) × (content : Bytes) × IsProved env s s' pkg content
  unfolding prove_cmd save_proof_package
  prove_cmd-IsProved h = step_cases _ (load_credential env.json env.sys _ s) _ h λ cred t1 e1 h1.
      step_cases _ (load_request env.json env.sys _ t1) _ h1 λ req t2 e2 h2.
        lift_cases (wrapped _ (validate env.parse_time _ req)) _ (env.sys.time_now t2).1 h2
          λ _ e3 h3. step_cases _ (load_policy env.json env.sys _ _) _ h3 λ pol t4 e4 h4.
            step_cases _ (generate_proof env.hash env.texts env.sys _ cred req pol t4) _ h4
              λ pkg t5 e5 h5.
                lift_cases (wrapped _ (env.json.print_package pkg)) _ t5
                  (last_case _
                    (save_proof_package env.sys env.json.print_package pkg package_path t5) h5)
                  λ content e6 h6. (
                    pkg,
                    content,
                    record {
                      cred = cred;
                      req = req;
                      pol = pol;
                      credential_state = t1;
                      request_state = t2;
                      policy_state = t4;
                      proof_state = t5;
                      credential = e1;
                      request = e2;
                      valid = wrapped-eq-ok _ _ e3;
                      policy = e4;
                      generated = e5;
                      printed = wrapped-eq-ok _ _ e6;
                      saved = h6;
                    },
                  )

  -- `prove` ends without an error exactly if the three files load, the request is valid at the time
  -- read after it was loaded, `GenerateProof` returns a package, the package can be marshalled, and
  -- the text is written to proof_package.json, in this order.
  pub prove_cmd_iff :
      (prove_cmd env s ≡ (ok tt, s'))
      ↔ ((pkg : ProofPackage) × (content : Bytes) × IsProved env s s' pkg content)
  prove_cmd_iff = (prove_cmd-IsProved, λ (pkg, content, h). IsProved-prove_cmd pkg content h)
