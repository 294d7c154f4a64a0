-- ===== src/Site/Server.antt =====
-- site/backend/main.go: the configuration, the routes and the handlers. A handler returns its
-- response: the status, the headers that this program sets, and the body before JSON encoding.
pub mod Answers
use zk_fact_verification.Common.{
  ℕ, Bytes, Bool, true, false, List, [], ◌∷◌, ◌++◌, Result, ok, err, panic, Error, text, codes,
  is_empty, ◌||◌, bytes_eq, if◌then◌else◌, String,
}
use zk_fact_verification.System.{System}
use zk_fact_verification.Blockchain.Ethereum.{EthLib, EthNode}
use zk_fact_verification.Site.Verifier.{FactResult, lookup_fact_on_chain}

pub record AppConfig : Type 0 where
  pub port : Bytes
  pub ethereum_rpc : Bytes
  pub fact_registry_address : Bytes
  pub issuer_registry_address : Bytes
  pub verifier_id : Bytes
  pub verifier_id_hash : Bytes

-- `trim_space` is `strings.TrimSpace`: it is applied to a value of the environment, after the test.
unfoldable pub get_env : (sys : System) → (Bytes → Bytes) → sys.State → Bytes → Bytes → Bytes
get_env sys trim_space s key fallback =
    let val = sys.getenv key s in if is_empty val then fallback else trim_space val

unfoldable pub app_config : (sys : System) → (Bytes → Bytes) → sys.State → AppConfig
unfolding get_env
app_config sys trim_space s =
    let env = get_env sys trim_space s in
    record {
      port = env (codes "PORT") (codes "8080");
      ethereum_rpc = env (codes "ETHEREUM_RPC_URL") (codes "http://127.0.0.1:8545");
      fact_registry_address = env (codes "FACT_REGISTRY_ADDRESS") [];
      issuer_registry_address = env (codes "ISSUER_REGISTRY_ADDRESS") [];
      verifier_id = env (codes "VERIFIER_ID") (codes "did:web:shop.example.com");
      verifier_id_hash = env (codes "VERIFIER_ID_HASH") [];
    }

-- A body: plain text of `http.Error`, a string map, a lookup's error, a fact, a text of net/http, or
-- nothing.
pub data Body : Type 0 where
  empty_body : Body
  plain : Bytes → Body
  strings : List (Bytes × Bytes) → Body
  lookup_error : Error → Body
  fact_body : FactResult → Body

pub record Response : Type 0 where
  pub status : ℕ
  pub cors : Bool
  pub body : Body

pub record HttpRequest : Type 0 where
  pub method : Bytes
  pub path : Bytes
  -- `r.URL.Query().Get`, which is "" for a missing key
  pub query : Bytes → Bytes

-- `writeJSON`
abbrev pub json : Body → Response
json b = record { status = 200; cors = false; body = b }

unfoldable pub handle_health : Response
handle_health = json (strings ((codes "status", codes "ok") ∷ []))

unfoldable pub handle_config : AppConfig → Response
handle_config cfg = json (
    strings (
      (codes "verifier_id", cfg.verifier_id)
      ∷ (codes "verifier_id_hash", cfg.verifier_id_hash)
      ∷ (codes "fact_registry_address", cfg.fact_registry_address)
      ∷ (codes "ethereum_rpc", cfg.ethereum_rpc)
      ∷ []))

-- The two answers to a lookup; a panic ends the request in the server.
unfoldable pub lookup_reply : Result FactResult → Result Response
lookup_reply (ok fact) = ok (json (fact_body fact))
lookup_reply (err e) = ok (json (lookup_error e))
lookup_reply panic = panic

module _ (lib : EthLib) (format_time : ℕ → Bytes) (node : EthNode) where
  unfoldable pub handle_lookup_fact : AppConfig → ℕ → HttpRequest → node.State → Result Response
  handle_lookup_fact cfg now r s =
      let subject_tag = r.query (codes "subject_tag") in
      let fact_type_hash = r.query (codes "fact_type_hash") in
      let asked = r.query (codes "verifier_id_hash") in
      let verifier_id_hash = if is_empty asked then cfg.verifier_id_hash else asked in
      if is_empty subject_tag || is_empty fact_type_hash
      then ok (record {
        status = 400;
        cors = false;
        body = plain (codes "{\"error\":\"subject_tag and fact_type_hash required\"}");
      })
      else if is_empty cfg.fact_registry_address
      then ok (json (strings ((codes "error", codes "FACT_REGISTRY_ADDRESS not configured") ∷ [])))
      else lookup_reply (
          lookup_fact_on_chain lib format_time node now cfg.ethereum_rpc cfg.fact_registry_address
            verifier_id_hash subject_tag fact_type_hash s)

  -- The routes of the mux. `serve_rest` is what net/http answers for every other path: a file of
  -- the frontend, a redirect or an error of its own.
  unfoldable pub serve_mux :
      (HttpRequest → Response) → AppConfig → ℕ → HttpRequest → node.State → Result Response
  serve_mux serve_rest cfg now r s =
      if bytes_eq r.path (codes "/api/health")
      then ok handle_health
      else if bytes_eq r.path (codes "/api/lookup")
      then handle_lookup_fact cfg now r s
      else if bytes_eq r.path (codes "/api/config")
      then ok (handle_config cfg)
      else ok (serve_rest r)

-- The headers are set before the next handler runs.
unfoldable pub with_cors : Result Response → Result Response
with_cors (ok response) = ok (record response { cors = true })
with_cors (err e) = err e
with_cors panic = panic

-- A preflight request is answered here and goes no further.
unfoldable pub cors_middleware : (HttpRequest → Result Response) → HttpRequest → Result Response
unfolding with_cors
cors_middleware next_handler r =
    if bytes_eq r.method (codes "OPTIONS")
    then ok (record { status = 204; cors = true; body = empty_body })
    else with_cors (next_handler r)
