-- ===== src/Tests/Machine.antt =====
-- A system on which every program succeeds, and the commands run on it.
use zk_fact_verification.Common.{
  ℕ, ◌≡◌, refl, [], ◌∷◌, ◌++◌, Bytes, ok, panic, codes, arith, bytes_eq, if◌then◌else◌,
}
use zk_fact_verification.System.{System}
use zk_fact_verification.Config.{load_config}
use zk_fact_verification.Blockchain.Bytes32.{pad_word, hex_to_bytes32}
use zk_fact_verification.Cmd.Package.{
  read_package, hex_decode, parse_public_inputs, input_word, parse_chain_id,
}
use zk_fact_verification.Std.Slices.{trim_prefix}
use zk_fact_verification.Std.Digits.{set_string}
use zk_fact_verification.Blockchain.Submitter.{submit_fact, signed_transaction, send_signed}
use zk_fact_verification.Std.Hex.{decode_string, nibble, encode_to_string}
use zk_fact_verification.Blockchain.Bytes32.Laws.{hex_to_bytes32-encode_to_string}
use zk_fact_verification.Prover.{ProofPackage}
use zk_fact_verification.Prover.Generator.{
  Texts, generate_proof, prove_prepared, make_package, valid_until_at,
}
use zk_fact_verification.Prover.Generator.Effects.{IsProduct, generate_proof-IsProduct}
use zk_fact_verification.Cmd.Commands.{Platform, lookup_fact_cmd, submit_fact_cmd, package_path}
use zk_fact_verification.Cmd.Commands.Lookup.{lookup_fact_cmd-panics}
use zk_fact_verification.Cmd.Commands.Submit.{IsSubmitted, submit_fact_cmd-IsSubmitted}
use zk_fact_verification.Tests.Toy.{sum_hash}
use zk_fact_verification.Tests.Inputs.{cfg, cred, req, pol, prepared, prepare-prepared}
use zk_fact_verification.Tests.Node.{word, word-IsWord, registry, lib, node, served, sets_first}

-- The state is the clock.
abbrev pub sys : System
sys = record {
  State = ℕ;
  read_file = λ path s. (ok (1 ∷ 2 ∷ []), s);
  write_file = λ path content s. (ok tt, s);
  mkdir_all = λ path s. s;
  run_command = λ dir name args s. (ok tt, s);
  time_now = λ s. (s, s);
  unix_now = λ s. (s, s);
  getenv = λ key s. if bytes_eq key (codes "HOLDER_SECRET") then codes "0x04" else [];
}

abbrev pub texts : Texts
texts = record { join = λ parts. []; dir = λ path. path; format_time = λ t. codes "T" }

abbrev pub package_made : ProofPackage
package_made = make_package req prepared (valid_until_at 1000) (1 ∷ 2 ∷ []) (codes "T")

pub proved : generate_proof sum_hash texts sys cfg cred req pol 1000 ≡ (ok package_made, 1000)
unfolding generate_proof prove_prepared
proved = rw prepare-prepared refl

generate_proof-IsProduct_example : IsProduct sum_hash texts sys cfg cred req pol 1000 package_made
generate_proof-IsProduct_example =
    generate_proof-IsProduct sum_hash texts sys cfg cred req pol 1000 1000 proved

-- A package whose texts are short words.
abbrev pkg : ProofPackage
pkg = record {
  version = codes "1.0";
  request_id = codes "r1";
  circuit_id = codes "age_over_18_v1";
  backend = codes "noir-barretenberg";
  proof = codes "0x01";
  public_inputs =
      codes "0x05"
      ∷ codes "0x06"
      ∷ codes "0x03"
      ∷ codes "0x07"
      ∷ codes "0x08"
      ∷ codes "0x09"
      ∷ codes "0x0a"
      ∷ codes "0x0b"
      ∷ [];
  public_input_labels = [];
  subject_tag = codes "0x08";
  nullifier = codes "0x09";
  generated_at = codes "T";
}

abbrev pub env : Platform
env = record {
  hash = sum_hash;
  texts = texts;
  parse_time = λ t. ok 0;
  json = record {
    parse_credential = λ b. ok cred;
    parse_request = λ b. ok req;
    parse_policy = λ b. ok pol;
    parse_package = λ b. ok pkg;
    print_package = λ p. ok [];
    print_credential = λ c. [];
  };
  lib = lib;
  sys = sys;
  node = node;
}

abbrev word_text : ℕ → Bytes
word_text n = codes "0x" ++ encode_to_string (word n)

lookup_fact_cmd-panics_example :
    lookup_fact_cmd env (word_text 5) (word_text 6) (word_text 7) (2000, 0) ≡ (panic, (2000, 0))
lookup_fact_cmd-panics_example =
    lookup_fact_cmd-panics env 2000 0 registry 2000 (word 5) (word 6) (word 7) (word_text 5)
      (word_text 6) (word_text 7) (served _ _) (word-IsWord 5 (omega arith))
      (word-IsWord 6 (omega arith)) (word-IsWord 7 (omega arith))
      (hex_to_bytes32-encode_to_string (word 5) (word-IsWord 5 (omega arith)))
      (hex_to_bytes32-encode_to_string (word 6) (word-IsWord 6 (omega arith)))
      (hex_to_bytes32-encode_to_string (word 7) (word-IsWord 7 (omega arith))) sets_first

submitted : submit_fact_cmd env package_path (2000, 0) ≡ (ok [], (2000, 1))
unfolding submit_fact_cmd read_package hex_decode decode_string trim_prefix nibble
    parse_public_inputs hex_to_bytes32 pad_word input_word parse_chain_id set_string load_config
    submit_fact signed_transaction send_signed bytes_eq
submitted = refl

submit_fact_cmd-IsSubmitted_example : IsSubmitted env package_path (2000, 0) (2000, 1) []
submit_fact_cmd-IsSubmitted_example =
    submit_fact_cmd-IsSubmitted env package_path (2000, 0) (2000, 1) [] submitted
