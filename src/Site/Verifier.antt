-- ===== src/Site/Verifier.antt =====
-- site/backend/verifier.go. `format_time` is `time.Unix(·, 0).UTC().Format(time.RFC3339)` of the
-- signed reading of its argument.
pub mod Agrees
use zk_fact_verification.Common.{
  ℕ, suc, ◌-◌, Bytes, Bool, true, false, ◌&&◌, ◌||◌, List, [], ◌∷◌, ◌++◌, Result, ok, err, panic,
  text, codes, wrapped, ltb, leb, ◌==◌, length, take, replicate, if◌then◌else◌, ◌>>=◌, ◌>>◌,
}
use zk_fact_verification.Std.Slices.{trim_prefix, copy_range}
use zk_fact_verification.Std.Hex.{decode_string, encode_to_string}
use zk_fact_verification.Contracts.FactRegistry.{VerifiedFact}
use zk_fact_verification.Contracts.Abi.{
  AbiMethod, argument, component, tuple, bytes32_type, uint64_type, address_type, bool_type,
}
use zk_fact_verification.Blockchain.Ethereum.{
  AbiValue, fact_value, bool_value, other_value, EthLib, EthNode,
}

pub record FactResult : Type 0 where
  pub exists : Bool
  pub verifier_id_hash : Bytes
  pub subject_tag : Bytes
  pub fact_type_hash : Bytes
  pub issuer_policy_root : Bytes
  pub schema_hash : Bytes
  pub nullifier : Bytes
  pub verified_at : Bytes
  pub valid_until : Bytes
  pub submitter : Bytes
  pub is_valid : Bool
  pub fact_key : Bytes

-- `getFactABI`: the site's own copy of the reader's ABI.
abbrev pub fact_abi : List AbiMethod
fact_abi =
    record {
      inputs =
          argument (codes "verifierIdHash") bytes32_type
          ∷ argument (codes "subjectTag") bytes32_type
          ∷ argument (codes "factTypeHash") bytes32_type
          ∷ [];
      name = codes "getFact";
      outputs =
          record {
            name = [];
            abi_type = tuple (
                component (codes "verifierIdHash") bytes32_type
                ∷ component (codes "subjectTag") bytes32_type
                ∷ component (codes "factTypeHash") bytes32_type
                ∷ component (codes "issuerPolicyRoot") bytes32_type
                ∷ component (codes "schemaHash") bytes32_type
                ∷ component (codes "nullifier") bytes32_type
                ∷ component (codes "verifiedAt") uint64_type
                ∷ component (codes "validUntil") uint64_type
                ∷ component (codes "submitter") address_type
                ∷ component (codes "exists") bool_type
                ∷ []);
          }
          ∷ [];
      state_mutability = codes "view";
    }
    ∷ record {
      inputs =
          argument (codes "verifierIdHash") bytes32_type
          ∷ argument (codes "subjectTag") bytes32_type
          ∷ argument (codes "factTypeHash") bytes32_type
          ∷ [];
      name = codes "isFactValid";
      outputs = argument [] bool_type ∷ [];
      state_mutability = codes "view";
    }
    ∷ []

-- The site's own copy of the conversion.
unfoldable pub hex_to_bytes32 : Bytes → Result Bytes
hex_to_bytes32 h = do
  b ← decode_string (trim_prefix h (codes "0x"))
  let b' = if ltb 32 (length b) then take 32 b else b
  if ltb 32 (length b') then panic else ok (copy_range (replicate 32 0) (32 - length b') 32 b')

-- `out[0]`, and its conversion to the struct.
unfoldable pub first_fact : List AbiValue → Result VerifiedFact
first_fact [] = panic
first_fact (fact_value s ∷ out) = ok s
first_fact (bool_value b ∷ out) = err (text "unexpected response type: %T")
first_fact (other_value ∷ out) = err (text "unexpected response type: %T")

unfoldable pub is_valid_at : ℕ → VerifiedFact → Bool
is_valid_at now s = s.exists && (s.valid_until == 0 || leb now s.valid_until)

-- The concatenation of three words by `copy`.
unfoldable pub packed_key : VerifiedFact → Bytes
packed_key s =
    copy_range
      (copy_range (copy_range (replicate 96 0) 0 32 s.verifier_id_hash) 32 64 s.subject_tag) 64 96
      s.fact_type_hash

unfoldable pub print_word : Bytes → Bytes
print_word w = codes "0x" ++ encode_to_string w

module _ (lib : EthLib) (format_time : ℕ → Bytes) where
  unfoldable pub fact_result : ℕ → VerifiedFact → FactResult
  unfolding is_valid_at print_word packed_key
  fact_result now s = record {
    exists = s.exists;
    verifier_id_hash = print_word s.verifier_id_hash;
    subject_tag = print_word s.subject_tag;
    fact_type_hash = print_word s.fact_type_hash;
    issuer_policy_root = print_word s.issuer_policy_root;
    schema_hash = print_word s.schema_hash;
    nullifier = print_word s.nullifier;
    verified_at = if s.exists then format_time s.verified_at else [];
    valid_until = if s.exists then format_time s.valid_until else [];
    submitter = lib.address_hex s.submitter;
    is_valid = is_valid_at now s;
    fact_key = print_word (lib.bytes_to_hash (packed_key s));
  }

  unfoldable pub lookup_fact_on_chain :
      (node : EthNode) → ℕ → Bytes → Bytes → Bytes → Bytes → Bytes → node.State → Result FactResult
  lookup_fact_on_chain node now rpc_url fact_registry_addr verifier_id_hash_hex subject_tag_hex
        fact_type_hash_hex s =
      do
        wrapped "connect to node: %w" (node.dial rpc_url s)
        let contract_addr = lib.hex_to_address fact_registry_addr
        vid ← wrapped "parse verifier_id_hash: %w" (hex_to_bytes32 verifier_id_hash_hex)
        st ← wrapped "parse subject_tag: %w" (hex_to_bytes32 subject_tag_hex)
        fth ← wrapped "parse fact_type_hash: %w" (hex_to_bytes32 fact_type_hash_hex)
        payload ← wrapped "ABI pack: %w" (lib.pack_view fact_abi (codes "getFact") vid st fth)
        result ← wrapped "call contract: %w" (node.call_contract contract_addr payload s)
        out ← wrapped "unpack: %w" (lib.unpack fact_abi (codes "getFact") result)
        fact ← first_fact out
        ok (fact_result now fact)
