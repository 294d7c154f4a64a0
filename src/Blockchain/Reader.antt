-- ===== src/Blockchain/Reader.antt =====
-- cli/internal/blockchain/reader.go.
pub mod Refines
use zk_fact_verification.Common.{
  ℕ, Bytes, Bool, true, false, List, [], ◌∷◌, ◌++◌, Result, ok, err, text, codes, wrapped,
  replicate, ◌>>=◌, ◌>>◌,
}
use zk_fact_verification.Std.Slices.{copy_range}
use zk_fact_verification.Contracts.FactRegistry
use zk_fact_verification.Contracts.Abi.{
  AbiMethod, Component, argument, component, tuple, bytes32_type, uint64_type, address_type,
  bool_type,
}
use zk_fact_verification.Blockchain.Ethereum.{
  AbiValue, fact_value, bool_value, other_value, EthLib, EthNode,
}

pub record VerifiedFact : Type 0 where
  pub verifier_id_hash : Bytes
  pub subject_tag : Bytes
  pub fact_type_hash : Bytes
  pub issuer_policy_root : Bytes
  pub schema_hash : Bytes
  pub nullifier : Bytes
  pub verified_at : ℕ
  pub valid_until : ℕ
  pub submitter : Bytes
  pub exists : Bool

-- `getFactReaderABI`: the ABI that the reader parses.
abbrev pub fact_reader_abi : List AbiMethod
fact_reader_abi =
    record {
      inputs =
          argument (codes "verifierIdHash") bytes32_type
          ∷ argument (codes "subjectTag") bytes32_type
          ∷ argument (codes "factTypeHash") bytes32_type
          ∷ [];
      name = codes "getFact";
      outputs =
          record {
            name = [];
            abi_type = tuple (
                component (codes "verifierIdHash") bytes32_type
                ∷ component (codes "subjectTag") bytes32_type
                ∷ component (codes "factTypeHash") bytes32_type
                ∷ component (codes "issuerPolicyRoot") bytes32_type
                ∷ component (codes "schemaHash") bytes32_type
                ∷ component (codes "nullifier") bytes32_type
                ∷ component (codes "verifiedAt") uint64_type
                ∷ component (codes "validUntil") uint64_type
                ∷ component (codes "submitter") address_type
                ∷ component (codes "exists") bool_type
                ∷ []);
          }
          ∷ [];
      state_mutability = codes "view";
    }
    ∷ record {
      inputs =
          argument (codes "verifierIdHash") bytes32_type
          ∷ argument (codes "subjectTag") bytes32_type
          ∷ argument (codes "factTypeHash") bytes32_type
          ∷ [];
      name = codes "isFactValid";
      outputs = argument [] bool_type ∷ [];
      state_mutability = codes "view";
    }
    ∷ []

-- The struct `factTuple` into which `LookupFact` decodes.
abbrev pub fact_tuple : List Component
fact_tuple =
    component (codes "VerifierIdHash") bytes32_type
    ∷ component (codes "SubjectTag") bytes32_type
    ∷ component (codes "FactTypeHash") bytes32_type
    ∷ component (codes "IssuerPolicyRoot") bytes32_type
    ∷ component (codes "SchemaHash") bytes32_type
    ∷ component (codes "Nullifier") bytes32_type
    ∷ component (codes "VerifiedAt") uint64_type
    ∷ component (codes "ValidUntil") uint64_type
    ∷ component (codes "Submitter") address_type
    ∷ component (codes "Exists") bool_type
    ∷ []

-- The struct that `LookupFact` builds from the decoded tuple.
unfoldable pub of_tuple : FactRegistry.VerifiedFact → VerifiedFact
of_tuple decoded = record {
  verifier_id_hash = decoded.verifier_id_hash;
  subject_tag = decoded.subject_tag;
  fact_type_hash = decoded.fact_type_hash;
  issuer_policy_root = decoded.issuer_policy_root;
  schema_hash = decoded.schema_hash;
  nullifier = decoded.nullifier;
  verified_at = decoded.verified_at;
  valid_until = decoded.valid_until;
  submitter = decoded.submitter;
  exists = decoded.exists;
}

-- `if len(outputs) == 0`
abbrev pub refuse_empty : List AbiValue → Result (Unit {0})
refuse_empty [] = err (text "empty response from getFact")
refuse_empty (o ∷ outputs) = ok tt

-- `outputs[0].(bool)`, and false where there is none.
unfoldable pub first_bool : List AbiValue → Bool
first_bool (bool_value b ∷ outputs) = b
first_bool _ = false

module _ (lib : EthLib) (node : EthNode) where
  unfoldable pub lookup_fact :
      Bytes → Bytes → Bytes → Bytes → Bytes → node.State → Result VerifiedFact
  lookup_fact rpc_url fact_registry_addr verifier_id_hash subject_tag fact_type_hash s = do
    wrapped "connect to node: %w" (node.dial rpc_url s)
    let contract_addr = lib.hex_to_address fact_registry_addr
    payload ← wrapped "ABI pack getFact: %w" (
        lib.pack_view fact_reader_abi (codes "getFact") verifier_id_hash subject_tag fact_type_hash)
    result ← wrapped "call getFact: %w" (node.call_contract contract_addr payload s)
    outputs ← wrapped "unpack getFact: %w" (lib.unpack fact_reader_abi (codes "getFact") result)
    refuse_empty outputs
    decoded ←
        wrapped "decode fact tuple: %w"
          (lib.unpack_into fact_reader_abi (codes "getFact") fact_tuple result)
    ok (of_tuple decoded)

  unfoldable pub is_fact_valid : Bytes → Bytes → Bytes → Bytes → Bytes → node.State → Result Bool
  is_fact_valid rpc_url fact_registry_addr verifier_id_hash subject_tag fact_type_hash s = do
    wrapped "connect to node: %w" (node.dial rpc_url s)
    let contract_addr = lib.hex_to_address fact_registry_addr
    payload ← wrapped "ABI pack isFactValid: %w" (
        lib.pack_view fact_reader_abi (codes "isFactValid") verifier_id_hash subject_tag
          fact_type_hash)
    result ← wrapped "call isFactValid: %w" (node.call_contract contract_addr payload s)
    outputs ←
        wrapped "unpack isFactValid: %w" (lib.unpack fact_reader_abi (codes "isFactValid") result)
    ok (first_bool outputs)

-- The three copies into a zero array of 96 bytes.
unfoldable pub packed_words : Bytes → Bytes → Bytes → Bytes
packed_words verifier_id_hash subject_tag fact_type_hash =
    copy_range (copy_range (copy_range (replicate 96 0) 0 32 verifier_id_hash) 32 64 subject_tag) 64
      96 fact_type_hash

unfoldable pub compute_fact_key : EthLib → Bytes → Bytes → Bytes → Bytes
compute_fact_key lib verifier_id_hash subject_tag fact_type_hash =
    lib.keccak256 (packed_words verifier_id_hash subject_tag fact_type_hash)
