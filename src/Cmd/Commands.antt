-- ===== src/Cmd/Commands.antt =====
-- The commands of cli/cmd/main.go, each the function that cobra runs, with the flags as arguments.
-- What a command prints is not modelled, except for the result that `lookup-fact` prints as JSON,
-- which is the command's value here (`none` where it prints "Fact NOT found").
pub mod Lookup
pub mod Submit
pub mod Prove
pub mod Flow
use zk_fact_verification.Common.{
  ℤ, pos, Bytes, Bool, true, false, List, [], ◌∷◌, Option, none, some, Result, ok, err, panic,
  codes, is_empty, wrapped, or_panic, get_elem?, if◌then◌else◌, String, ℕ,
}
use zk_fact_verification.System.{
  System, Action, continue, lift, wrap_action, effect, reading, ◌>>=◌, ◌>>◌,
}
use zk_fact_verification.Config.{Config, load_config}
use zk_fact_verification.Request.{validate}
use zk_fact_verification.Blockchain.Bytes32.{hex_to_bytes32}
use zk_fact_verification.Blockchain.Ethereum.{EthLib, EthNode}
use zk_fact_verification.Blockchain.Submitter.{SubmitConfig, submit_fact}
use zk_fact_verification.Blockchain.Reader.{VerifiedFact, lookup_fact}
use zk_fact_verification.Prover.{ProofPackage, ProverConfig}
use zk_fact_verification.Prover.Generator.{Texts, generate_proof, save_proof_package}
use zk_fact_verification.Cmd.Package.{read_package}
use zk_fact_verification.Cmd.Journal.{VerificationResult}
use zk_fact_verification.Cmd.Loaders.{Json, load_credential, load_request, load_policy}

abbrev pub package_path : Bytes
package_path = codes "proof_package.json"

-- The code that is not in the repository.
pub record Platform : Type 1 where
  pub hash : List ℤ → Result ℤ
  pub texts : Texts
  -- `time.Parse(time.RFC3339, ·)`, in nanoseconds since 1970
  pub parse_time : Bytes → Result ℕ
  pub json : Json
  pub lib : EthLib
  pub sys : System
  pub node : EthNode

abbrev pub World : Platform → Type 0
World env = env.sys.State × env.node.State

abbrev pub on_system : {S N A : Type 0} → Action S A → Action (S × N) A
on_system m (s, n) = let (r, s') = m s in (r, (s', n))

abbrev pub on_node : {S N A : Type 0} → Action N A → Action (S × N) A
on_node m (s, n) = let (r, n') = m n in (r, (s, n'))

-- What `lookup-fact` prints for a fact that was found.
unfoldable pub found_result : Bytes → Bytes → Bytes → Bytes → Bytes → VerificationResult
found_result contract verifier_id_hash_hex subject_tag_hex fact_type_hash_hex now = record {
  version = codes "1.0";
  request_id = [];
  service_id = verifier_id_hash_hex;
  verified = true;
  verification_mode = codes "onchain_lookup";
  verified_at = now;
  proof_context = record {
    subject_tag = subject_tag_hex;
    fact_type_hash = fact_type_hash_hex;
    nullifier = [];
    policy_root = [];
  };
  decision = record {
    type_name = codes "fact_verification";
    granted = true;
    reason_code = codes "FACT_FOUND_ONCHAIN";
  };
  onchain = record {
    chain_id = pos 31337;
    contract_address = contract;
    tx_hash = [];
    fact_key = [];
  };
}

module _ (env : Platform) where
  unfoldable pub import_credential_cmd : Bytes → Bytes → Action env.sys.State (Unit {0})
  import_credential_cmd cred_path out_path = do
    cred ← load_credential env.json env.sys cred_path
    if is_empty out_path
        then lift (ok tt)
        else env.sys.write_file out_path (env.json.print_credential cred)

  -- The clock is read before the validation, whether or not the request has an expiry date.
  unfoldable pub prove_cmd : Action env.sys.State (Unit {0})
  prove_cmd = do
    cfg ← reading (load_config env.sys)
    cred ← wrap_action "load credential: %w" (load_credential env.json env.sys cfg.credentials_file)
    req ← wrap_action "load request: %w" (load_request env.json env.sys cfg.request_file)
    now ← effect env.sys.time_now
    wrap_action "validate request: %w" (lift (validate env.parse_time now req))
    pol ← wrap_action "load policy: %w" (load_policy env.json env.sys cfg.policy_file)
    let prover_cfg : ProverConfig = record {
      circuit_dir = cfg.noir_circuit_dir;
      nargo_bin = cfg.nargo_bin;
      bb_bin = cfg.bb_bin;
      holder_secret = cfg.holder_secret;
    }
    pkg ←
        wrap_action "generate proof: %w"
          (generate_proof env.hash env.texts env.sys prover_cfg cred req pol)
    wrap_action "save proof: %w"
        (save_proof_package env.sys env.json.print_package pkg package_path)

  unfoldable pub submit_fact_cmd : Bytes → Action (World env) Bytes
  submit_fact_cmd proof_path = do
    cfg ← on_system (reading (load_config env.sys))
    content ← wrap_action "read proof package: %w" (on_system (env.sys.read_file proof_path))
    pkg ← wrap_action "parse proof package: %w" (lift (env.json.parse_package content))
    call ← lift (read_package cfg.chain_id pkg)
    let submit_cfg : SubmitConfig = record {
      rpc_url = cfg.ethereum_rpc_url;
      private_key = cfg.holder_private_key;
      fact_registry_address = cfg.fact_registry_address;
      chain_id = call.0;
    }
    wrap_action "submit fact: %w" (on_node (submit_fact env.lib env.node submit_cfg call.1))

  unfoldable pub lookup_fact_cmd :
      Bytes → Bytes → Bytes → Action (World env) (Option VerificationResult)
  unfolding found_result
  lookup_fact_cmd verifier_id_hash_hex subject_tag_hex fact_type_hash_hex = do
    cfg ← on_system (reading (load_config env.sys))
    verifier_id_hash ←
        wrap_action "parse verifier_id_hash: %w" (lift (hex_to_bytes32 verifier_id_hash_hex))
    subject_tag ← wrap_action "parse subject_tag: %w" (lift (hex_to_bytes32 subject_tag_hex))
    fact_type_hash ←
        wrap_action "parse fact_type_hash: %w" (lift (hex_to_bytes32 fact_type_hash_hex))
    fact ← wrap_action "lookup fact: %w" (
        on_node λ n. (
          lookup_fact env.lib env.node cfg.ethereum_rpc_url cfg.fact_registry_address
              verifier_id_hash subject_tag fact_type_hash n,
          n,
        ))
    if fact.exists then granted cfg.fact_registry_address else lift (ok none)
    where
      granted : Bytes → Action (World env) (Option VerificationResult)
      granted contract = do
        now ← on_system (effect env.sys.unix_now)
        lift (
            ok (
              some (
                found_result contract verifier_id_hash_hex subject_tag_hex fact_type_hash_hex
                  (env.texts.format_time now))))

  unfoldable pub verify_service_flow_cmd : Action (World env) (Option VerificationResult)
  unfolding prove_cmd submit_fact_cmd lookup_fact_cmd
  verify_service_flow_cmd = do
    wrap_action "prove failed: %w" (on_system prove_cmd)
    wrap_action "submit-fact failed: %w" (submit_fact_cmd package_path)
    content ← wrap_action "read proof_package.json: %w" (on_system (env.sys.read_file package_path))
    pkg ← wrap_action "parse proof_package.json: %w" (lift (env.json.parse_package content))
    fact_type_hash ← lift (or_panic (get_elem? pkg.public_inputs 1))
    verifier_id_hash ← lift (or_panic (get_elem? pkg.public_inputs 0))
    wrap_action "lookup-fact failed: %w"
        (lookup_fact_cmd verifier_id_hash pkg.subject_tag fact_type_hash)
