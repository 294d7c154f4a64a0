-- ===== src/Testdata.antt =====
-- cli/testdata/generate.go: the program that makes the test credential, policy and request. The
-- maps that it writes as JSON are the records that the loaders read. `crypto` is go-iden3-crypto.
pub mod Tree
pub mod Hashes
pub mod Grown
pub mod Accepted
use zk_fact_verification.Common.{
  ℕ, zero, suc, ◌+◌, ◌-◌, ℤ, pos, List, [], ◌∷◌, ◌++◌, Bytes, Bool, Option, none, some, Result, ok,
  err, text, codes, map, flatten, or_panic, get_elem?, if◌then◌else◌, ◌>>=◌, String,
}
use zk_fact_verification.Std.Slices.{be_value}
use zk_fact_verification.Std.Digits.{set_string, to_string}
use zk_fact_verification.Circuit.{to_field}
use zk_fact_verification.Creds.{Credential}
use zk_fact_verification.Request
use zk_fact_verification.Request.{VerificationRequest}
use zk_fact_verification.Policy.{IssuerPolicy}
use zk_fact_verification.Policy.Tree.{tree_depth, max_leaves, merkle_path_from}
use zk_fact_verification.Prover.Field.{strip_0x, field_to_hex}
use zk_fact_verification.Prover.Toml.{toml_line, toml_array}

pub record Signature : Type 0 where
  pub r8x : ℤ
  pub r8y : ℤ
  pub s : ℤ

-- The packages babyjub and poseidon. The program drops the errors of `poseidon.Hash` and of
-- `SetString`: `poseidon` is the value returned, and `undefined` what a failed `SetString` leaves.
pub record Crypto : Type 1 where
  pub PrivKey : Type 0
  pub public_x : PrivKey → ℤ
  pub public_y : PrivKey → ℤ
  pub sign_poseidon : PrivKey → ℤ → Signature
  -- the two coordinates of the key, the message, the signature
  pub verify_poseidon : ℤ → ℤ → ℤ → Signature → Bool
  pub poseidon : List ℤ → ℤ
  pub undefined : Bytes → ℤ

-- `new(big.Int).Mod(v, bnPrime)`
abbrev pub mod_prime : ℤ → ℤ
mod_prime v = pos (to_field v)

-- What the program writes.
pub record TestData : Type 0 where
  pub credential : Credential
  pub issuer_policy : IssuerPolicy
  pub request : VerificationRequest
  pub prover_toml : Bytes

-- The zeros behind the first leaf.
unfoldable pub zero_leaves : ℕ → List ℤ
zero_leaves zero = []
zero_leaves (suc n) = pos 0 ∷ zero_leaves n

abbrev pub issuer_did : Bytes
issuer_did = codes "did:web:gov.example.ru"

abbrev pub session_key : Bytes
session_key = codes "session-2026-03-30-001"

abbrev pub test_valid_until : ℕ
test_valid_until = 1774867200

module _ (crypto : Crypto) where
  unfoldable pub hex_to_big : Bytes → ℤ
  hex_to_big h = elim (set_string 16 (strip_0x h)) [
    | none ↦ crypto.undefined (strip_0x h)
    | some v ↦ v
  ]

  unfoldable pub parent_level : List ℤ → List ℤ
  parent_level (l ∷ r ∷ prev) = crypto.poseidon (l ∷ r ∷ []) ∷ parent_level prev
  parent_level _ = []

  -- The level and the `n` levels above it.
  unfoldable pub levels_above : ℕ → List ℤ → List (List ℤ)
  unfolding parent_level
  levels_above zero level = level ∷ []
  levels_above (suc n) level = level ∷ levels_above n (parent_level level)

  unfoldable pub test_schema_hash : ℤ
  unfolding hex_to_big
  test_schema_hash =
      mod_prime
        (hex_to_big (codes "0x1111111111111111111111111111111111111111111111111111111111111111"))

  unfoldable pub test_holder_secret : ℤ
  unfolding hex_to_big
  test_holder_secret =
      hex_to_big (codes "0x00deadbeef00000000000000000000000000000000000000000000000000001")

  unfoldable pub test_verifier_id_hash : ℤ
  unfolding hex_to_big
  test_verifier_id_hash =
      mod_prime
        (hex_to_big (codes "0x2222222222222222222222222222222222222222222222222222222222222222"))

  unfoldable pub test_fact_type_hash : ℤ
  unfolding hex_to_big
  test_fact_type_hash =
      mod_prime
        (hex_to_big (codes "0x3333333333333333333333333333333333333333333333333333333333333333"))

  -- `new(big.Int).SetBytes([]byte("session-2026-03-30-001"))`
  abbrev pub test_key_hash : ℤ
  test_key_hash = pos (be_value 0 session_key)

  unfoldable pub test_subject_tag : ℤ
  test_subject_tag = crypto.poseidon (test_holder_secret ∷ test_verifier_id_hash ∷ [])

  unfoldable pub test_nullifier : ℤ
  test_nullifier =
      crypto.poseidon
        (test_holder_secret ∷ test_verifier_id_hash ∷ test_fact_type_hash ∷ test_key_hash ∷ [])

  module _ (k : crypto.PrivKey) where
    -- The hash that is signed, the signature and the leaf of the key.
    unfoldable pub cred_hash : ℤ
    cred_hash =
        crypto.poseidon (crypto.public_x k ∷ crypto.public_y k ∷ pos 11323 ∷ test_schema_hash ∷ [])

    unfoldable pub test_signature : Signature
    test_signature = crypto.sign_poseidon k cred_hash

    unfoldable pub test_leaf : ℤ
    test_leaf = crypto.poseidon (crypto.public_x k ∷ crypto.public_y k ∷ [])

    unfoldable pub test_levels : List (List ℤ)
    test_levels = levels_above tree_depth (test_leaf ∷ zero_leaves (max_leaves - 1))

    unfoldable pub test_credential : Credential
    test_credential = record {
      version = codes "1.0";
      credential_id = codes "urn:uuid:test-cred-001";
      type_names = codes "VerifiableCredential" ∷ codes "AgeCredential" ∷ [];
      issuer = record {
        did = issuer_did;
        kid = codes "zk-key-1";
        pubkey_x = field_to_hex (crypto.public_x k);
        pubkey_y = field_to_hex (crypto.public_y k);
      };
      subject = record {
        did = codes "did:key:holder-test-001";
        binding_commitment = field_to_hex test_holder_secret;
      };
      issuance_date = codes "2026-03-01T09:00:00Z";
      expiration_date = codes "2031-03-01T09:00:00Z";
      schema_id = codes "vc.age.v1";
      schema_hash = field_to_hex test_schema_hash;
      claims = record { birth_date_days = 11323 };
      revocation = record {
        status_list_id = codes "revocation-list-2026-03";
        status_index = pos 481;
      };
      signature = record {
        alg = codes "eddsa-bn254-poseidon";
        r8x = field_to_hex test_signature.r8x;
        r8y = field_to_hex test_signature.r8y;
        s = field_to_hex test_signature.s;
      };
    }

    unfoldable pub test_policy : ℤ → IssuerPolicy
    test_policy root = record {
      version = codes "1.0";
      policy_id = codes "age-ru-2026-03";
      hash_alg = codes "poseidon";
      depth = pos 16;
      root = field_to_hex root;
      issuers =
          record {
            issuer_id = issuer_did;
            pubkey_hash = field_to_hex test_leaf;
            leaf = field_to_hex test_leaf;
          }
          ∷ [];
    }

    unfoldable pub test_request : ℤ → VerificationRequest
    test_request root = record {
      version = codes "1.0";
      request_id = codes "urn:uuid:req-test-001";
      verifier_id = codes "did:web:shop.example.com";
      verifier_id_hash = field_to_hex test_verifier_id_hash;
      fact_type = codes "age_over_18";
      fact_type_hash = field_to_hex test_fact_type_hash;
      purpose = codes "age_check";
      idempotency_key = session_key;
      issued_at = codes "2026-03-30T10:00:00Z";
      expires_at = codes "2027-03-30T10:05:00Z";
      schema_id = codes "vc.age.v1";
      schema_hash = field_to_hex test_schema_hash;
      circuit_id = codes "age_over_18_v1";
      predicate = record { type_name = codes "birth_date_lte_cutoff"; cutoff_date_days = 13879 };
      issuer_policy = record {
        root = field_to_hex root;
        snapshot_block = 0;
        issuers =
            record {
              issuer_id = issuer_did;
              pubkey_hash = field_to_hex test_leaf;
              leaf = field_to_hex test_leaf;
            }
            ∷ [];
      };
      chain = record {
        chain_id = pos 31337;
        fact_registry_address = codes "0x0000000000000000000000000000000000000000";
        issuer_registry_address = codes "0x0000000000000000000000000000000000000000";
      };
      response = record {
        mode = codes "https_post";
        callback_url = codes "https://shop.example.com/api/zk/notify";
      };
    }

    -- The Prover.toml for `nargo test`; the two arrays have `tree_depth` entries.
    unfoldable pub test_prover_toml : List ℤ → List ℕ → ℤ → Bytes
    unfolding flatten toml_line toml_array
    test_prover_toml merkle_path merkle_index_bits root = flatten (
        toml_line "birth_date_days" (to_string (pos 11323))
        ∷ toml_line "holder_secret" (to_string test_holder_secret)
        ∷ toml_line "issuer_pubkey_x" (to_string (crypto.public_x k))
        ∷ toml_line "issuer_pubkey_y" (to_string (crypto.public_y k))
        ∷ toml_line "sig_r8x" (to_string test_signature.r8x)
        ∷ toml_line "sig_r8y" (to_string test_signature.r8y)
        ∷ toml_line "sig_s" (to_string test_signature.s)
        ∷ toml_array "merkle_path" (map to_string merkle_path)
        ∷ toml_array "merkle_index_bits" (map (λ b. to_string (pos b)) merkle_index_bits)
        ∷ toml_line "idempotency_key_hash" (to_string test_key_hash)
        ∷ toml_line "verifier_id_hash" (to_string test_verifier_id_hash)
        ∷ toml_line "fact_type_hash" (to_string test_fact_type_hash)
        ∷ toml_line "issuer_policy_root" (to_string root)
        ∷ toml_line "schema_hash" (to_string test_schema_hash)
        ∷ toml_line "subject_tag" (to_string test_subject_tag)
        ∷ toml_line "nullifier" (to_string test_nullifier)
        ∷ toml_line "valid_until" (to_string (pos test_valid_until))
        ∷ toml_line "cutoff_date_days" (to_string (pos 13879))
        ∷ [])

    -- `levels[depth][0]`
    abbrev pub first_of : Option (List ℤ) → Option ℤ
    first_of none = none
    first_of (some level) = get_elem? level 0

    -- `main`, with the random key: the loop of the path is the one of `GetMerklePath`, from index 0.
    unfoldable pub generate : Result TestData
    generate =
        if crypto.verify_poseidon (crypto.public_x k) (crypto.public_y k) cred_hash test_signature
        then write_all
        else err (text "ERROR: signature verification failed!")
      where
        write_all : Result TestData
        write_all = do
          root ← or_panic (first_of (get_elem? test_levels tree_depth))
          path ← merkle_path_from tree_depth test_levels 0
          ok (record {
            credential = test_credential;
            issuer_policy = test_policy root;
            request = test_request root;
            prover_toml = test_prover_toml path.0 path.1 root;
          })
