-- ===== src/Blockchain/Reader/Refines.antt =====
-- The reader (cli/internal/blockchain/reader.go) and the state of the registry.
use zk_fact_verification.Common.{
  ℕ, ◌≡◌, refl, sym, ap, ◌∙◌, Bytes, List, codes, bytes_eq, some, panic, [], ◌∷◌, ◌++◌, ok,
  replicate, length, arith, append-nil, append_assoc, length-append,
}
use zk_fact_verification.Std.Slices.{copy_range, copy_range-append}
use zk_fact_verification.Contracts.Abi.{AbiMethod, Component, tuple, bytes32_type, find_method}
use zk_fact_verification.Contracts.FactRegistry
use zk_fact_verification.Contracts.FactRegistry.{FactRegistry}
use zk_fact_verification.Blockchain.Bytes32.{IsWord}
use zk_fact_verification.Blockchain.Ethereum.{AbiValue, fact_value, bool_value, EthLib, EthNode}
use zk_fact_verification.Blockchain.Reader.{
  fact_reader_abi, fact_tuple, first_bool, lookup_fact, is_fact_valid, packed_words,
  compute_fact_key,
}

-- The answer of a node to a view of a contract: what `Pack` writes is accepted, and what comes back
-- unpacks to one value.
pub record Answers (lib : EthLib) (node : EthNode) (s : node.State) (address : Bytes)
    (abi : List AbiMethod) (name v t f : Bytes) (value : AbiValue) : Type 0 where
  pub payload : Bytes
  pub result : Bytes
  pub packed : lib.pack_view abi name v t f ≡ ok payload
  pub called : node.call_contract address payload s ≡ ok result
  pub unpacked : lib.unpack abi name result ≡ ok (value ∷ [])

-- The node answers at `url`, and the contract at `address` is a registry in the state `r`, asked in
-- a block of the time `now`; an ABI serves to ask it where it has the function's own signature.
pub record Serves (lib : EthLib) (node : EthNode) (s : node.State) (url address : Bytes)
    (r : FactRegistry) (now : ℕ) : Type 0 where
  pub dials : node.dial url s ≡ ok tt
  pub gets :
      (abi : List AbiMethod)
      → find_method abi (codes "getFact") ≡ some FactRegistry.get_fact_method
      → (v t f : Bytes) → IsWord v
      → IsWord t
      → IsWord f
      → Answers lib node s address abi
          (codes "getFact")
          v
          t
          f
          (fact_value (FactRegistry.get_fact lib.keccak256 r v t f))
  pub checks :
      (abi : List AbiMethod)
      → find_method abi (codes "isFactValid") ≡ some FactRegistry.is_fact_valid_method
      → (v t f : Bytes) → IsWord v
      → IsWord t
      → IsWord f
      → Answers lib node s address abi
          (codes "isFactValid")
          v
          t
          f
          (bool_value (FactRegistry.is_fact_valid lib.keccak256 r now v t f))

-- go-ethereum's `UnpackIntoInterface`, where the method has one output: it sets the first field of
-- the struct that it is given, and to set an array of bytes to a tuple panics.
pub record SetsFirstField (lib : EthLib) : Type 0 where
  pub lone_tuple :
      (abi : List AbiMethod) (name output : Bytes) (m : AbiMethod) (parts fields : List Component)
      (field : Component) (fact : FactRegistry.VerifiedFact) (result : Bytes)
      → find_method abi name ≡ some m
      → m.outputs ≡ record { name = output; abi_type = tuple parts } ∷ []
      → field.elementary ≡ bytes32_type
      → lib.unpack abi name result ≡ ok (fact_value fact ∷ [])
      → lib.unpack_into abi name (field ∷ fields) result ≡ panic

-- The reader's ABI has the contract's signatures.
reader_abi_agrees :
    (find_method fact_reader_abi (codes "getFact") ≡ some FactRegistry.get_fact_method)
    × (find_method fact_reader_abi (codes "isFactValid") ≡ some FactRegistry.is_fact_valid_method)
unfolding find_method bytes_eq
reader_abi_agrees = (refl, refl)

module _ (lib : EthLib) (node : EthNode) (s : node.State) (url registry : Bytes) (r : FactRegistry)
    (now : ℕ) (serves : Serves lib node s url (lib.hex_to_address registry) r now) (v t f : Bytes)
    (wv : IsWord v) (wt : IsWord t) (wf : IsWord f) where
  -- If the node serves the registry to every ABI with the signatures of the contract, then
  -- `IsFactValid`, with the ABI that it parses, returns the registry's own answer for the three words.
  pub is_fact_valid_refines :
      is_fact_valid lib node url registry v t f s
      ≡ ok (FactRegistry.is_fact_valid lib.keccak256 r now v t f)
  unfolding is_fact_valid first_bool
  is_fact_valid_refines =
      let c = serves.checks fact_reader_abi reader_abi_agrees.1 v t f wv wt wf in
      rw (serves.dials, c.packed, c.called, c.unpacked)

  -- If the node serves the registry to every ABI with the signatures of the contract, and
  -- `UnpackIntoInterface` sets the first field of a struct to a lone tuple, then `LookupFact` panics
  -- for every three words, whether or not the registry holds a fact for them.
  pub lookup_fact-panics : SetsFirstField lib → lookup_fact lib node url registry v t f s ≡ panic
  unfolding lookup_fact find_method bytes_eq
  lookup_fact-panics sets =
      let g = serves.gets fact_reader_abi reader_abi_agrees.0 v t f wv wt wf in
      let stops : lib.unpack_into fact_reader_abi (codes "getFact") fact_tuple g.result ≡ panic =
        sets.lone_tuple fact_reader_abi (codes "getFact") [] FactRegistry.get_fact_method _ _ _
          (FactRegistry.get_fact lib.keccak256 r v t f) g.result reader_abi_agrees.0 refl refl
          g.unpacked in
      rw (serves.dials, g.packed, g.called, g.unpacked, stops)

-- The three copies make the concatenation of the words.
pub packed_words-append :
    (v t f : Bytes)
    → length v ≡ 32
    → length t ≡ 32
    → length f ≡ 32
    → packed_words v t f ≡ v ++ (t ++ f)
unfolding packed_words
packed_words-append v t f hv ht hf =
    rw
      (
        copy_range-append [] (replicate 32 0) (replicate 64 0) v 0 32 refl (sym hv) (omega arith),
        copy_range-append v (replicate 32 0) (replicate 32 0) t 32 64 hv (sym ht) (omega arith),
      )
      (ap (λ z. copy_range z 64 96 f) (sym (append_assoc v t (replicate 32 0)))
        ∙ copy_range-append (v ++ t) (replicate 32 0) [] f 64 96 (omega (arith, length-append v t))
            (sym hf) (omega arith)
        ∙ (rw append-nil (append_assoc v t f)))

-- The key that the Go code computes is the key under which the contract stores.
pub compute_fact_key-fact_key :
    (lib : EthLib) (v t f : Bytes)
    → IsWord v
    → IsWord t
    → IsWord f
    → compute_fact_key lib v t f ≡ FactRegistry.fact_key lib.keccak256 v t f
unfolding compute_fact_key FactRegistry.fact_key
compute_fact_key-fact_key lib v t f wv wt wf =
    ap lib.keccak256 (packed_words-append v t f wv.0 wt.0 wf.0)
