-- ===== src/Tests/Web.antt =====
-- The site on the node that serves one expired fact.
use zk_fact_verification.Common.{
  ℕ, zero, suc, ◌-◌, ◌≡◌, refl, [], ◌∷◌, ◌++◌, Bytes, true, ok, codes, arith, length, length-append,
  false, drop, bytes_eq, if◌then◌else◌,
}
use zk_fact_verification.Std.Hex.{encode_to_string}
use zk_fact_verification.Contracts.FactRegistry.{stored_fact, get_fact, is_fact_valid}
use zk_fact_verification.Blockchain.Bytes32.Laws.{hex_to_bytes32-encode_to_string}
use zk_fact_verification.Blockchain.Ethereum.{EthLib}
use zk_fact_verification.Site.Verifier.{fact_result, lookup_fact_on_chain}
use zk_fact_verification.Site.Verifier.Agrees.{Crops, lookup_refines, fact_result-fact_key}
use zk_fact_verification.Site.Server.{
  AppConfig, HttpRequest, Response, plain, fact_body, serve_mux, cors_middleware,
}
use zk_fact_verification.Site.Server.Answers.{Asks, Served, cors_middleware-Served, lookup_served}
use zk_fact_verification.Tests.Node.{
  no_keccak, word, word-IsWord, registry, held, lib, node, served,
}

abbrev time_text : ℕ → Bytes
time_text t = codes "T"

abbrev word_text : ℕ → Bytes
word_text n = codes "0x" ++ encode_to_string (word n)

lookup_refines_example :
    (lookup_fact_on_chain lib time_text node 2000
        (codes "url")
        (codes "0xfa")
        (word_text 5)
        (word_text 6)
        (word_text 7)
        0
      ≡ ok
          (fact_result lib time_text 2000 (get_fact no_keccak registry (word 5) (word 6) (word 7))))
    × ((fact_result lib time_text 2000
          (get_fact no_keccak registry (word 5) (word 6) (word 7))).is_valid
        ≡ is_fact_valid no_keccak registry 2000 (word 5) (word 6) (word 7))
lookup_refines_example =
    lookup_refines lib time_text node 0 (codes "url") (codes "0xfa") registry 2000 (served _ _)
      (word 5) (word 6) (word 7) (word_text 5) (word_text 6) (word_text 7)
      (word-IsWord 5 (omega arith)) (word-IsWord 6 (omega arith)) (word-IsWord 7 (omega arith))
      (hex_to_bytes32-encode_to_string (word 5) (word-IsWord 5 (omega arith)))
      (hex_to_bytes32-encode_to_string (word 6) (word-IsWord 6 (omega arith)))
      (hex_to_bytes32-encode_to_string (word 7) (word-IsWord 7 (omega arith)))

unfoldable last_word : Bytes → Bytes
last_word b = drop (length b - 32) b

drop-append : (a b : Bytes) (n : ℕ) → n ≡ length a → drop n (a ++ b) ≡ b
drop-append [] b zero h = refl
drop-append [] b (suc n) h = absurd (omega arith)
drop-append (x ∷ a) b zero h = absurd (omega arith)
drop-append (x ∷ a) b (suc n) h = drop-append a b n (omega arith)

last_word-Crops : Crops last_word
unfolding last_word
last_word-Crops = record {
  keeps_last = λ a b h. drop-append a b (length (a ++ b) - 32) (omega (arith, length-append a b));
}

abbrev cropping : EthLib
cropping = record lib { bytes_to_hash = last_word }

fact_result-fact_key_example :
    (fact_result cropping time_text 2000 held).fact_key
    ≡ (fact_result cropping time_text 2000 held).fact_type_hash
unfolding stored_fact
fact_result-fact_key_example =
    fact_result-fact_key cropping time_text 2000 held last_word-Crops refl refl refl

abbrev cfg : AppConfig
cfg = record {
  port = codes "8080";
  ethereum_rpc = codes "url";
  fact_registry_address = codes "0xfa";
  issuer_registry_address = [];
  verifier_id = codes "did:v";
  verifier_id_hash = word_text 5;
}

-- A lookup that leaves the verifier to the configuration.
unfoldable query : Bytes → Bytes
query key =
    if bytes_eq key (codes "subject_tag")
    then word_text 6
    else if bytes_eq key (codes "fact_type_hash")
    then word_text 7
    else []

abbrev request : HttpRequest
request = record { method = codes "GET"; path = codes "/api/lookup"; query = query }

abbrev missing : HttpRequest → Response
missing q = record { status = 404; cors = false; body = plain (codes "404 page not found") }

cors_middleware-Served_example :
    Served 404 (cors_middleware (λ q. serve_mux lib time_text node missing cfg 2000 q 0) request)
cors_middleware-Served_example =
    cors_middleware-Served lib time_text node 0 cfg 2000 missing request

request-Asks : Asks cfg request (word 5) (word 6) (word 7)
unfolding query bytes_eq
request-Asks = record {
  lookup_path = refl;
  no_preflight = refl;
  has_registry = refl;
  tag_given = refl;
  type_given = refl;
  tag_word = hex_to_bytes32-encode_to_string (word 6) (word-IsWord 6 (omega arith));
  type_word = hex_to_bytes32-encode_to_string (word 7) (word-IsWord 7 (omega arith));
  verifier_word = hex_to_bytes32-encode_to_string (word 5) (word-IsWord 5 (omega arith));
}

lookup_served_example :
    cors_middleware (λ q. serve_mux lib time_text node missing cfg 2000 q 0) request
    ≡ ok (record {
      status = 200;
      cors = true;
      body =
          fact_body (
            fact_result lib time_text 2000
              (get_fact no_keccak registry (word 5) (word 6) (word 7)));
    })
lookup_served_example =
    lookup_served lib time_text node 0 cfg registry 2000 missing request (word 5) (word 6) (word 7)
      (served _ _) request-Asks (word-IsWord 5 (omega arith)) (word-IsWord 6 (omega arith))
      (word-IsWord 7 (omega arith))
