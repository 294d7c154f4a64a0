-- ===== src/Tests/Flow.antt =====
-- The whole of `verify-service-flow` on a machine and a node where every step succeeds.
use zk_fact_verification.Common.{
  ℕ, ℤ, ◌%◌, ◌^◌, ◌<◌, ◌≡◌, ◌↔◌, refl, ap, pos, [], ◌∷◌, Bytes, List, All, IsByte, some, Result, ok,
  panic, codes, arith, bytes_eq, if◌then◌else◌,
}
use mathlib.Core.Path.{subst}
use zk_fact_verification.Config.{load_config}
use zk_fact_verification.Std.Digits.{set_string}
use zk_fact_verification.Std.Slices.{trim_prefix, has_prefix}
use zk_fact_verification.Request.{validate, check_expiry}
use zk_fact_verification.Contracts.FactRegistry.{
  FactRegistry, Submission, empty_registry, store_fact, get_fact, is_fact_valid, fact_key,
}
use zk_fact_verification.Blockchain.Ethereum.{
  AbiValue, fact_value, bool_value, SignedTransaction, EthLib,
}
use zk_fact_verification.Prover.{ProofPackage}
use zk_fact_verification.Blockchain.Submitter.{signed_transaction}
use zk_fact_verification.Blockchain.Reader.Refines.{Serves}
use zk_fact_verification.Prover.Field.{hex_to_field}
use zk_fact_verification.Prover.Prepare.Trace.{prepare-Trace}
use zk_fact_verification.Prover.Generator.{valid_until_at}
use zk_fact_verification.Cmd.Package.{read_package}
use zk_fact_verification.Cmd.Package.Words.{FitWords, FitsWord, Carries, read_package-make_package}
use zk_fact_verification.Cmd.Loaders.{load_credential, load_request, load_policy}
use zk_fact_verification.Cmd.Commands.{Platform, prove_cmd, verify_service_flow_cmd}
use zk_fact_verification.Cmd.Commands.Prove.{IsProved, prove_cmd_iff}
use zk_fact_verification.Cmd.Commands.Flow.{Takes, product, verify_service_flow_cmd-panics}
use zk_fact_verification.Circuit.{field_mod}
use zk_fact_verification.Tests.Toy.{sum_hash}
use zk_fact_verification.Tests.Inputs.{cfg, cred, req, pol, prepared, prepare-prepared, same_ok}
use zk_fact_verification.Tests.Node.{no_keccak, context, lib, node}
use zk_fact_verification.Tests.Machine.{sys, package_made, proved, env}

-- The node's answers for a registry, under the hash that gives every triple one key.
abbrev outputs_of : FactRegistry → Bytes → List AbiValue
outputs_of r name =
    if bytes_eq name (codes "getFact")
    then fact_value (r.facts []) ∷ []
    else bool_value (is_fact_valid no_keccak r 2000 [] [] []) ∷ []

abbrev lib_showing : FactRegistry → EthLib
lib_showing r = record lib { unpack = λ abi name b. ok (outputs_of r name) }

shown-Serves :
    (r : FactRegistry) (s : ℕ) (url address : Bytes)
    → Serves (lib_showing r) node s url address r 2000
unfolding get_fact is_fact_valid fact_key bytes_eq
shown-Serves r s url address = record {
  dials = refl;
  gets = λ abi same v t f wv wt wf. record {
    payload = [];
    result = [];
    packed = refl;
    called = refl;
    unpacked = refl;
  };
  checks = λ abi same v t f wv wt wf. record {
    payload = [];
    result = [];
    packed = refl;
    called = refl;
    unpacked = refl;
  };
}

fits_at : {r : Result ℤ} {v : ℤ} (n : ℕ) → r ≡ ok v → r ≡ ok (pos n) → n < 2 ^ 256 → FitsWord v
fits_at n h k small = subst FitsWord (same_ok h k) small

sum_small : (n : ℕ) → n % field_mod < 2 ^ 256
sum_small n = omega arith

-- The values of the prepared run.
prepared_fits : FitWords prepared
unfolding hex_to_field trim_prefix set_string sum_hash
prepared_fits =
    let t = prepare-Trace sum_hash cfg cred req pol prepared prepare-prepared in
    record {
      verifier_id_hash = fits_at 5 t.verifier refl (omega arith);
      fact_type_hash = fits_at 6 t.fact_type refl (omega arith);
      policy_root = fits_at 3 t.root refl (omega arith);
      schema_hash = fits_at 7 t.schema refl (omega arith);
      subject_tag = fits_at _ t.tag refl (sum_small _);
      nullifier = fits_at _ t.nullifies refl (sum_small _);
    }

proof_are_bytes : All IsByte (1 ∷ 2 ∷ [])
proof_are_bytes = (omega arith, (omega arith, tt))

config_chain : set_string 10 (load_config sys 1000).chain_id ≡ some (pos 31337)
unfolding load_config set_string bytes_eq
config_chain = refl

made_arguments :
    (a : Submission) × (read_package (load_config sys 1000).chain_id package_made
      ≡ ok (pos 31337, a))
    × Carries prepared (1 ∷ 2 ∷ []) (valid_until_at 1000) 200 a
made_arguments =
    read_package-make_package req prepared (valid_until_at 1000) (1 ∷ 2 ∷ []) (codes "T") _
      (pos 31337) prepared_fits (omega arith) (omega arith) proof_are_bytes config_chain

abbrev sent : Submission
sent = made_arguments.0

abbrev filled : FactRegistry
filled = store_fact no_keccak context sent empty_registry

-- A machine whose node shows the registry.
abbrev env_showing : FactRegistry → Platform
env_showing r = record env {
  lib = lib_showing r;
  json = record env.json {
    parse_package = λ b. ok package_made;
    print_package = λ p. ok (1 ∷ 2 ∷ []);
  };
}

prove_done : (r : FactRegistry) → IsProved (env_showing r) 1000 1000 package_made (1 ∷ 2 ∷ [])
unfolding load_credential load_request load_policy validate check_expiry has_prefix load_config
    bytes_eq
prove_done r = record {
  cred = cred;
  req = req;
  pol = pol;
  credential_state = 1000;
  request_state = 1000;
  policy_state = 1000;
  proof_state = 1000;
  credential = refl;
  request = refl;
  valid = refl;
  policy = refl;
  generated = proved;
  printed = refl;
  saved = refl;
}

same_result {ℓ} : {A : Type ℓ} {r : Result A} {a b : A} → r ≡ ok a → r ≡ ok b → b ≡ a
same_result h k = cc

product_fits : (r : FactRegistry) → FitWords (product (prove_done r)).prepared
unfolding sum_hash prove_done
product_fits r =
    subst FitWords (same_result (product (prove_done r)).prepares prepare-prepared) prepared_fits

product_bytes : (r : FactRegistry) → All IsByte (product (prove_done r)).proof_bytes
product_bytes r =
    subst (All IsByte) (same_result (ap (λ q. q.0) (product (prove_done r)).read) refl)
      proof_are_bytes

takes :
    (r : FactRegistry) (a : Submission)
    → Takes (env_showing r) (load_config sys 1000) (pos 31337) 0 a r
unfolding signed_transaction load_config bytes_eq trim_prefix
takes r a = record {
  tx = record {
    tx = record {
      nonce = 0;
      to = [];
      value = 0;
      gas_limit = 3000000;
      gas_price = pos 1;
      payload = a.proof;
    };
    signature = [];
  };
  left = 1;
  now = 2000;
  signed = refl;
  taken = refl;
  serves = shown-Serves r 1 _ _;
}

verify_service_flow_cmd-panics_example :
    (tx : SignedTransaction) × (left : ℕ) × (node.send_transaction tx 0 ≡ (ok tt, left))
    × (verify_service_flow_cmd (env_showing filled) (1000, 0) ≡ (panic, (1000, left)))
unfolding prove_done
verify_service_flow_cmd-panics_example =
    verify_service_flow_cmd-panics (env_showing filled) 1000 1000 0 package_made (1 ∷ 2 ∷ [])
      (pos 31337) (prove_done filled) refl refl config_chain (product_fits filled) (omega arith)
      (product_bytes filled) filled
      (record { lone_tuple = λ abi name output m parts fields field fact result e o k u. refl })
      (λ a e. takes filled a)

prove_cmd_iff_example : (prove_cmd (env_showing filled) 1000 ≡ (ok tt, 1000)) ↔ (
    (pkg : ProofPackage) × (content : Bytes) × IsProved (env_showing filled) 1000 1000 pkg content)
prove_cmd_iff_example = prove_cmd_iff (env_showing filled) 1000 1000
