-- ===== src/Tests/Node.antt =====
-- A node that serves a registry with one fact, whose validity has ended. The hash is constant, so
-- every key is the key of that fact.
use zk_fact_verification.Common.{
  ℕ, zero, suc, refl, pos, List, [], ◌∷◌, Bytes, false, ok, panic, replicate, codes, if◌then◌else◌,
  bytes_eq, All, IsByte,
}
use zk_fact_verification.Contracts.FactRegistry.{
  VerifiedFact, FactRegistry, Submission, Context, empty_registry, store_fact, stored_fact,
  get_fact, is_fact_valid, fact_key,
}
use zk_fact_verification.Blockchain.Bytes32.{IsWord}
use zk_fact_verification.Blockchain.Ethereum.{AbiValue, fact_value, bool_value, EthLib, EthNode}
use zk_fact_verification.Blockchain.Reader.Refines.{Serves, SetsFirstField}

abbrev pub no_keccak : Bytes → Bytes
no_keccak b = []

abbrev pub word : ℕ → Bytes
word n = replicate 32 n

abbrev pub submission : Submission
submission = record {
  proof = 1 ∷ [];
  public_inputs = [];
  verifier_id_hash = word 5;
  subject_tag = word 6;
  fact_type_hash = word 7;
  issuer_policy_root = word 8;
  schema_hash = word 9;
  nullifier = word 10;
  valid_until = 1000;
}

abbrev pub context : Context
context = record { sender = replicate 20 1; timestamp = 500 }

abbrev pub registry : FactRegistry
registry = store_fact no_keccak context submission empty_registry

abbrev pub held : VerifiedFact
held = stored_fact no_keccak context submission

abbrev pub outputs : Bytes → List AbiValue
outputs name =
    if bytes_eq name (codes "getFact") then fact_value held ∷ [] else bool_value false ∷ []

abbrev pub lib : EthLib
lib = record {
  hex_to_address = λ h. h;
  address_hex = λ a. a;
  keccak256 = no_keccak;
  bytes_to_hash = λ b. b;
  pack_view = λ abi name v t f. ok [];
  pack_submit = λ abi name a. ok a.proof;
  unpack = λ abi name b. ok (outputs name);
  unpack_into = λ abi name fields b. panic;
  hex_to_ecdsa = λ h. ok h;
  address_of_key = λ k. k;
  sign_tx = λ tx id key. ok (record { tx = tx; signature = key });
  tx_hash_hex = λ tx. tx.signature;
}

-- The state is the number of transactions taken.
abbrev pub node : EthNode
node = record {
  State = ℕ;
  dial = λ url s. ok tt;
  call_contract = λ a p s. ok [];
  pending_nonce_at = λ a s. ok s;
  suggest_gas_price = λ s. ok (pos 1);
  send_transaction = λ tx s. (ok tt, 1);
}

All-word : (k n : ℕ) → IsByte n → All IsByte (replicate k n)
All-word zero n h = tt
All-word (suc k) n h = (h, All-word k n h)

pub served : (url address : Bytes) → Serves lib node 0 url address registry 2000
unfolding store_fact stored_fact get_fact is_fact_valid fact_key bytes_eq
served url address = record {
  dials = refl;
  gets = λ abi same v t f wv wt wf. record {
    payload = [];
    result = [];
    packed = refl;
    called = refl;
    unpacked = refl;
  };
  checks = λ abi same v t f wv wt wf. record {
    payload = [];
    result = [];
    packed = refl;
    called = refl;
    unpacked = refl;
  };
}

pub word-IsWord : (n : ℕ) → IsByte n → IsWord (word n)
word-IsWord n h = (refl, All-word 32 n h)

pub sets_first : SetsFirstField lib
sets_first = record {
  lone_tuple = λ abi name output m parts fields field fact result e o k u. refl;
}
