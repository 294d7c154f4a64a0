-- ===== src/Tests/Inputs.antt =====
-- A credential, a request and a policy with one issuer.
use zk_fact_verification.Common.{
  ◌≡◌, refl, ap, ◌∙◌, bytes_eq, Result, ℤ, pos, [], ◌∷◌, ok, codes, arith,
}
use zk_fact_verification.Creds.{Credential}
use zk_fact_verification.Request.{VerificationRequest}
use zk_fact_verification.Policy.{IssuerPolicy}
use zk_fact_verification.Prover.{ProverConfig}
use zk_fact_verification.Prover.Field.{hex_to_field, compute_idempotency_key_hash}
use zk_fact_verification.Prover.Prepare.{Prepared, issuer_index, find_issuer, parse_leaves, prepare}
use zk_fact_verification.Prover.Prepare.Total.{IsPreparable, prepare-total}
use zk_fact_verification.Prover.Prepare.Trace.{prepare-Trace}
use zk_fact_verification.Prover.Generator.Witness.{ListsKey}
use zk_fact_verification.Policy.Tree.{compute_leaf}
use zk_fact_verification.Circuit.{to_field}
use zk_fact_verification.Std.Slices.{trim_prefix, be_value}
use zk_fact_verification.Std.Digits.{set_string}
use zk_fact_verification.Tests.Toy.{sum_hash, sum_lib, field_sum, sum_SameHash, sum_HashesField}

abbrev pub cfg : ProverConfig
cfg = record {
  circuit_dir = codes "../circuits/age_over_18_v1";
  nargo_bin = codes "nargo";
  bb_bin = codes "bb";
  holder_secret = codes "0x04";
}

abbrev pub cred : Credential
cred = record {
  version = codes "1.0";
  credential_id = codes "urn:1";
  type_names = [];
  issuer = record {
    did = codes "did:a";
    kid = codes "k";
    pubkey_x = codes "0x01";
    pubkey_y = codes "0x02";
  };
  subject = record { did = []; binding_commitment = [] };
  issuance_date = [];
  expiration_date = [];
  schema_id = codes "age";
  schema_hash = codes "0x07";
  claims = record { birth_date_days = 100 };
  revocation = record { status_list_id = []; status_index = pos 0 };
  signature = record {
    alg = codes "EdDSA-BabyJubJub-Poseidon";
    r8x = codes "0x0a";
    r8y = codes "0x0b";
    s = codes "0x0c";
  };
}

abbrev pub req : VerificationRequest
req = record {
  version = codes "1.0";
  request_id = codes "r1";
  verifier_id = codes "did:v";
  verifier_id_hash = codes "0x05";
  fact_type = codes "age_over_18";
  fact_type_hash = codes "0x06";
  purpose = [];
  idempotency_key = codes "k";
  issued_at = [];
  expires_at = [];
  schema_id = codes "age";
  schema_hash = codes "0x07";
  circuit_id = codes "age_over_18_v1";
  predicate = record { type_name = codes "age"; cutoff_date_days = 200 };
  issuer_policy = record { root = codes "0x03"; snapshot_block = 0; issuers = [] };
  chain = record {
    chain_id = pos 31337;
    fact_registry_address = codes "0xfa";
    issuer_registry_address = [];
  };
  response = record { mode = []; callback_url = [] };
}

abbrev pub pol : IssuerPolicy
pol = record {
  version = codes "1.0";
  policy_id = codes "p";
  hash_alg = codes "poseidon";
  depth = pos 16;
  root = codes "0x03";
  issuers =
      record { issuer_id = codes "did:a"; pubkey_hash = codes "0x03"; leaf = codes "0x03" } ∷ [];
}

pub inputs-IsPreparable : IsPreparable cfg cred req pol
unfolding hex_to_field compute_idempotency_key_hash issuer_index find_issuer parse_leaves set_string
    trim_prefix be_value bytes_eq
inputs-IsPreparable = record {
  x = pos 1;
  y = pos 2;
  secret = pos 4;
  verifier = pos 5;
  fact_type = pos 6;
  key = pos 107;
  schema = pos 7;
  root = pos 3;
  index = 0;
  leaf = pos 3;
  leaves = pos 3 ∷ [];
  x_text = refl;
  y_text = refl;
  secret_text = refl;
  verifier_text = refl;
  fact_type_text = refl;
  key_text = refl;
  schema_text = refl;
  root_text = refl;
  secret_small = omega arith;
  verifier_small = omega arith;
  fact_type_small = omega arith;
  key_small = omega arith;
  found = refl;
  parsed = refl;
  leaves_small = (omega arith, tt);
  index_small = omega arith;
  at_index = refl;
}

pub preparation : (p : Prepared) × (prepare sum_hash cfg cred req pol ≡ ok p)
preparation =
    prepare-total sum_hash sum_HashesField sum_lib sum_SameHash cfg cred req pol inputs-IsPreparable

abbrev pub prepared : Prepared
prepared = preparation.0

pub prepare-prepared : prepare sum_hash cfg cred req pol ≡ ok prepared
prepare-prepared = preparation.1

pub same_ok : {r : Result ℤ} {a b : ℤ} → r ≡ ok a → r ≡ ok b → b ≡ a
same_ok h k = cc

x_text : hex_to_field (codes "0x01") ≡ ok (pos 1)
unfolding hex_to_field trim_prefix set_string
x_text = refl

y_text : hex_to_field (codes "0x02") ≡ ok (pos 2)
unfolding hex_to_field trim_prefix set_string
y_text = refl

found : issuer_index (codes "did:a") pol.issuers ≡ ok 0
unfolding issuer_index find_issuer bytes_eq
found = refl

leaf_text : hex_to_field (codes "0x03") ≡ ok (pos 3)
unfolding hex_to_field trim_prefix set_string
leaf_text = refl

pub inputs-ListsKey : ListsKey sum_hash cred pol prepared
unfolding compute_leaf sum_hash field_sum to_field
inputs-ListsKey =
    let t = prepare-Trace sum_hash cfg cred req pol prepared prepare-prepared in
    record {
      index = 0;
      issuer = record {
        issuer_id = codes "did:a";
        pubkey_hash = codes "0x03";
        leaf = codes "0x03";
      };
      leaf = pos 3;
      first = found;
      listed = refl;
      parsed = leaf_text;
      hashed =
          ap (compute_leaf sum_hash _) (same_ok y_text t.pubkey_y)
          ∙ ap (λ x. compute_leaf sum_hash x (pos 2)) (same_ok x_text t.pubkey_x);
    }
