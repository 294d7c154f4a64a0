-- ===== src/Contracts/FactRegistry.antt =====
-- blockchain/contracts/FactRegistry.sol. A mapping is a function, a `bytes32` a byte string, and a
-- revert leaves the state as it was. `verify` is the Noir verifier, `keccak` is keccak256.
pub mod Invariant
pub mod Replay
pub mod History
pub mod Recorded
use zk_fact_verification.Common.{
  ℕ, ◌%◌, ◌^◌, List, [], ◌∷◌, ◌++◌, Bytes, Bool, true, false, ◌&&◌, ◌||◌, not, Result, ok, err,
  text, codes, bytes_eq, leb, ◌==◌, replicate, if◌then◌else◌, Error, ◌>>=◌, ◌>>◌,
}
use zk_fact_verification.Contracts.Abi.{
  AbiMethod, Argument, argument, component, tuple, bytes_type, bytes32_type, bytes32_list,
  uint64_type, address_type, bool_type,
}

pub record VerifiedFact : Type 0 where
  pub verifier_id_hash : Bytes
  pub subject_tag : Bytes
  pub fact_type_hash : Bytes
  pub issuer_policy_root : Bytes
  pub schema_hash : Bytes
  pub nullifier : Bytes
  pub verified_at : ℕ
  pub valid_until : ℕ
  pub submitter : Bytes
  pub exists : Bool

-- What an unset entry of `facts` reads.
abbrev pub no_fact : VerifiedFact
no_fact = record {
  verifier_id_hash = replicate 32 0;
  subject_tag = replicate 32 0;
  fact_type_hash = replicate 32 0;
  issuer_policy_root = replicate 32 0;
  schema_hash = replicate 32 0;
  nullifier = replicate 32 0;
  verified_at = 0;
  valid_until = 0;
  submitter = replicate 20 0;
  exists = false;
}

-- The three hashes that the views take.
abbrev hash_arguments : List Argument
hash_arguments =
    argument (codes "verifierIdHash") bytes32_type
    ∷ argument (codes "subjectTag") bytes32_type
    ∷ argument (codes "factTypeHash") bytes32_type
    ∷ []

-- The signatures of the functions.
abbrev pub submit_method : AbiMethod
submit_method = record {
  inputs =
      argument (codes "proof") bytes_type
      ∷ argument (codes "publicInputs") bytes32_list
      ∷ argument (codes "verifierIdHash") bytes32_type
      ∷ argument (codes "subjectTag") bytes32_type
      ∷ argument (codes "factTypeHash") bytes32_type
      ∷ argument (codes "issuerPolicyRoot") bytes32_type
      ∷ argument (codes "schemaHash") bytes32_type
      ∷ argument (codes "nullifier") bytes32_type
      ∷ argument (codes "validUntil") uint64_type
      ∷ [];
  name = codes "submitVerifiedFact";
  outputs = [];
  state_mutability = codes "nonpayable";
}

abbrev pub get_fact_method : AbiMethod
get_fact_method = record {
  inputs = hash_arguments;
  name = codes "getFact";
  outputs =
      record {
        name = [];
        abi_type = tuple (
            component (codes "verifierIdHash") bytes32_type
            ∷ component (codes "subjectTag") bytes32_type
            ∷ component (codes "factTypeHash") bytes32_type
            ∷ component (codes "issuerPolicyRoot") bytes32_type
            ∷ component (codes "schemaHash") bytes32_type
            ∷ component (codes "nullifier") bytes32_type
            ∷ component (codes "verifiedAt") uint64_type
            ∷ component (codes "validUntil") uint64_type
            ∷ component (codes "submitter") address_type
            ∷ component (codes "exists") bool_type
            ∷ []);
      }
      ∷ [];
  state_mutability = codes "view";
}

abbrev pub is_fact_valid_method : AbiMethod
is_fact_valid_method = record {
  inputs = hash_arguments;
  name = codes "isFactValid";
  outputs = argument [] bool_type ∷ [];
  state_mutability = codes "view";
}

pub record FactVerified : Type 0 where
  pub fact_key : Bytes
  pub subject_tag : Bytes
  pub verifier_id_hash : Bytes
  pub fact_type_hash : Bytes
  pub submitter : Bytes

pub record FactRegistry : Type 0 where
  pub facts : Bytes → VerifiedFact
  pub used_nullifiers : Bytes → Bool
  pub events : List FactVerified

abbrev pub empty_registry : FactRegistry
empty_registry = record { facts = λ k. no_fact; used_nullifiers = λ n. false; events = [] }

-- The arguments of `submitVerifiedFact`.
pub record Submission : Type 0 where
  pub proof : Bytes
  pub public_inputs : List Bytes
  pub verifier_id_hash : Bytes
  pub subject_tag : Bytes
  pub fact_type_hash : Bytes
  pub issuer_policy_root : Bytes
  pub schema_hash : Bytes
  pub nullifier : Bytes
  pub valid_until : ℕ

-- The sender and the time of a transaction.
pub record Context : Type 0 where
  pub sender : Bytes
  pub timestamp : ℕ

-- `m[k] = v`
abbrev pub set_at {ℓ} : {V : Type ℓ} → (Bytes → V) → Bytes → V → Bytes → V
set_at m k v j = if bytes_eq k j then v else m j

-- `require(b, message)`
abbrev pub require : Bool → Error → Result (Unit {0})
require b e = if b then ok tt else err e

module _ (keccak : Bytes → Bytes) where
  -- `keccak256(abi.encodePacked(verifierIdHash, subjectTag, factTypeHash))`
  unfoldable pub fact_key : Bytes → Bytes → Bytes → Bytes
  fact_key verifier_id_hash subject_tag fact_type_hash =
      keccak (verifier_id_hash ++ (subject_tag ++ fact_type_hash))

  unfoldable pub stored_fact : Context → Submission → VerifiedFact
  stored_fact ctx a = record {
    verifier_id_hash = a.verifier_id_hash;
    subject_tag = a.subject_tag;
    fact_type_hash = a.fact_type_hash;
    issuer_policy_root = a.issuer_policy_root;
    schema_hash = a.schema_hash;
    nullifier = a.nullifier;
    verified_at = ctx.timestamp % 2 ^ 64;
    valid_until = a.valid_until;
    submitter = ctx.sender;
    exists = true;
  }

  -- Steps 3 to 6.
  unfoldable pub store_fact : Context → Submission → FactRegistry → FactRegistry
  store_fact ctx a r =
      let key = fact_key a.verifier_id_hash a.subject_tag a.fact_type_hash in
      record {
        facts = set_at r.facts key (stored_fact ctx a);
        used_nullifiers = set_at r.used_nullifiers a.nullifier true;
        events =
            r.events
            ++ (record {
              fact_key = key;
              subject_tag = a.subject_tag;
              verifier_id_hash = a.verifier_id_hash;
              fact_type_hash = a.fact_type_hash;
              submitter = ctx.sender;
            }
                ∷ []);
      }

  unfoldable pub submit_verified_fact :
      (Bytes → List Bytes → Bool) → Context → Submission → FactRegistry → Result FactRegistry
  submit_verified_fact verify ctx a r = do
    require (verify a.proof a.public_inputs) (text "Proof verification failed")
    require (not (r.used_nullifiers a.nullifier)) (text "Nullifier already used")
    ok (store_fact ctx a r)

  unfoldable pub get_fact : FactRegistry → Bytes → Bytes → Bytes → VerifiedFact
  get_fact r verifier_id_hash subject_tag fact_type_hash =
      r.facts (fact_key verifier_id_hash subject_tag fact_type_hash)

  unfoldable pub is_fact_valid : FactRegistry → ℕ → Bytes → Bytes → Bytes → Bool
  is_fact_valid r timestamp verifier_id_hash subject_tag fact_type_hash =
      let fact = r.facts (fact_key verifier_id_hash subject_tag fact_type_hash) in
      fact.exists && (fact.valid_until == 0 || leb timestamp fact.valid_until)
