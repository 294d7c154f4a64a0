-- ===== src/Site/Verifier/Agrees.antt =====
-- The site's lookup against the registry's state.
use zk_fact_verification.Common.{
  codes, bytes_eq, some, ℕ, ◌≡◌, refl, sym, ap, ◌∙◌, Bytes, ◌++◌, ok, length, append_assoc,
}
use zk_fact_verification.Contracts.Abi.{find_method}
use zk_fact_verification.Contracts.FactRegistry
use zk_fact_verification.Contracts.FactRegistry.{FactRegistry, VerifiedFact}
use zk_fact_verification.Blockchain.Bytes32
use zk_fact_verification.Blockchain.Bytes32.{IsWord}
use zk_fact_verification.Blockchain.Ethereum.{EthLib, EthNode}
use zk_fact_verification.Blockchain.Reader.Refines.{Serves, packed_words-append}
use zk_fact_verification.Blockchain.Reader.{packed_words}
use zk_fact_verification.Site.Verifier.{
  fact_abi, hex_to_bytes32, packed_key, print_word, first_fact, fact_result, is_valid_at,
  lookup_fact_on_chain,
}

-- The site's conversion is the one of the command line.
hex_to_bytes32-copies : (h : Bytes) → hex_to_bytes32 h ≡ Bytes32.hex_to_bytes32 h
unfolding hex_to_bytes32 Bytes32.hex_to_bytes32
hex_to_bytes32-copies h = refl

-- The site's ABI has the contract's signature.
site_abi_agrees : find_method fact_abi (codes "getFact") ≡ some FactRegistry.get_fact_method
unfolding find_method bytes_eq
site_abi_agrees = refl

module _ (lib : EthLib) (format_time : ℕ → Bytes) (node : EthNode) (s : node.State)
    (url registry : Bytes) (r : FactRegistry) (now : ℕ)
    (serves : Serves lib node s url (lib.hex_to_address registry) r now)
    (v t f v_hex t_hex f_hex : Bytes) (wv : IsWord v) (wt : IsWord t) (wf : IsWord f) where
  -- If the node serves the registry and the three texts spell words, the site's lookup returns the
  -- description of the fact that the registry holds for them, and its `is_valid` is what the contract's
  -- `isFactValid` answers at the same second.
  pub lookup_refines :
      Bytes32.hex_to_bytes32 v_hex ≡ ok v
      → Bytes32.hex_to_bytes32 t_hex ≡ ok t
      → Bytes32.hex_to_bytes32 f_hex ≡ ok f
      → (lookup_fact_on_chain lib format_time node now url registry v_hex t_hex f_hex s
          ≡ ok (fact_result lib format_time now (FactRegistry.get_fact lib.keccak256 r v t f)))
        × ((fact_result lib format_time now (FactRegistry.get_fact lib.keccak256 r v t f)).is_valid
            ≡ FactRegistry.is_fact_valid lib.keccak256 r now v t f)
  unfolding lookup_fact_on_chain first_fact is_valid_at fact_result FactRegistry.is_fact_valid
      FactRegistry.get_fact
  lookup_refines ev et ef =
      let g = serves.gets fact_abi site_abi_agrees v t f wv wt wf in
      (
        rw (
          serves.dials,
          hex_to_bytes32-copies v_hex,
          hex_to_bytes32-copies t_hex,
          hex_to_bytes32-copies f_hex,
          ev,
          et,
          ef,
          g.packed,
          g.called,
          g.unpacked,
        ),
        refl,
      )

-- go-ethereum's `BytesToHash`: of a longer text it keeps the last 32 bytes.
pub record Crops (bytes_to_hash : Bytes → Bytes) : Type 0 where
  pub keeps_last : (a b : Bytes) → length b ≡ 32 → bytes_to_hash (a ++ b) ≡ b

-- `BytesToHash` crops its argument, so the `fact_key` of the site's answer is the fact's own
-- `fact_type_hash` and not the hash under which the registry keeps the fact.
pub fact_result-fact_key :
    (lib : EthLib) (format_time : ℕ → Bytes) (now : ℕ) (s : VerifiedFact)
    → Crops lib.bytes_to_hash
    → length s.verifier_id_hash ≡ 32
    → length s.subject_tag ≡ 32
    → length s.fact_type_hash ≡ 32
    → (fact_result lib format_time now s).fact_key
      ≡ (fact_result lib format_time now s).fact_type_hash
unfolding fact_result packed_key packed_words
fact_result-fact_key lib format_time now s crops hv ht hf = ap print_word (
    ap lib.bytes_to_hash (
      packed_words-append s.verifier_id_hash s.subject_tag s.fact_type_hash hv ht hf
      ∙ sym (append_assoc s.verifier_id_hash s.subject_tag s.fact_type_hash))
    ∙ crops.keeps_last _ s.fact_type_hash hf)
