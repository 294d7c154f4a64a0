-- ===== src/Site/Server/Answers.antt =====
-- The server's answers over all routes.
use zk_fact_verification.Common.{
  ℕ, ◌≡◌, ◌⊎◌, inl, inr, refl, Bytes, true, false, Result, ok, err, panic, codes, bytes_eq,
  is_empty, if◌then◌else◌, ◌||◌, Bool-cases,
}
use zk_fact_verification.Contracts.FactRegistry
use zk_fact_verification.Contracts.FactRegistry.{FactRegistry}
use zk_fact_verification.Blockchain.Bytes32
use zk_fact_verification.Blockchain.Bytes32.{IsWord}
use zk_fact_verification.Blockchain.Ethereum.{EthLib, EthNode}
use zk_fact_verification.Blockchain.Reader.Refines.{Serves}
use zk_fact_verification.Site.Verifier.{FactResult, fact_result}
use zk_fact_verification.Site.Verifier.Agrees.{lookup_refines}
use zk_fact_verification.Site.Server.{
  AppConfig, HttpRequest, Response, fact_body, lookup_reply, handle_health, handle_config,
  handle_lookup_fact, serve_mux, with_cors, cors_middleware,
}

-- An answer that carries the headers, and one of the statuses 200, 204 and 400 or the status
-- `rest`.
pub record IsAnswer (rest : ℕ) (response : Response) : Type 0 where
  pub has_cors : response.cors ≡ true
  pub known_status :
      (response.status ≡ 200)
      ⊎ (response.status ≡ 204)
      ⊎ (response.status ≡ 400)
      ⊎ (response.status ≡ rest)

-- A request is answered, or its handler panics: no error escapes a handler.
pub data Served (rest : ℕ) : Result Response → Type 0 where
  answered : {response : Response} → IsAnswer rest response → Served rest (ok response)
  panicked : Served rest panic

module _ (lib : EthLib) (format_time : ℕ → Bytes) (node : EthNode) (s : node.State)
    (cfg : AppConfig) (now : ℕ) (serve_rest : HttpRequest → Response) where
  lookup_reply-Served :
      (rest : ℕ) (r : Result FactResult) → Served rest (with_cors (lookup_reply r))
  unfolding with_cors lookup_reply
  lookup_reply-Served rest (ok fact) =
      answered (record { has_cors = refl; known_status = inl refl })
  lookup_reply-Served rest (err e) = answered (record { has_cors = refl; known_status = inl refl })
  lookup_reply-Served rest panic = panicked

  handle_lookup_fact-Served :
      (rest : ℕ) (q : HttpRequest)
      → Served rest (with_cors (handle_lookup_fact lib format_time node cfg now q s))
  unfolding handle_lookup_fact with_cors
  handle_lookup_fact-Served rest q =
      elim (Bool-cases
        (is_empty (q.query (codes "subject_tag")) || is_empty (q.query (codes "fact_type_hash")))) [
          | inl e ↦
              rw e (answered (record { has_cors = refl; known_status = inr (inr (inl refl)) }))
          | inr e ↦ rw e (elim (Bool-cases (is_empty cfg.fact_registry_address)) [
            | inl e' ↦ rw e' (answered (record { has_cors = refl; known_status = inl refl }))
            | inr e' ↦ rw e' (lookup_reply-Served rest _)
          ])
        ]

  serve_mux-Served :
      (q : HttpRequest)
      → Served
          (serve_rest q).status
          (with_cors (serve_mux lib format_time node serve_rest cfg now q s))
  unfolding serve_mux with_cors handle_health handle_config
  serve_mux-Served q = elim (Bool-cases (bytes_eq q.path (codes "/api/health"))) [
    | inl e ↦ rw e (answered (record { has_cors = refl; known_status = inl refl }))
    | inr e ↦ rw e (elim (Bool-cases (bytes_eq q.path (codes "/api/lookup"))) [
      | inl e1 ↦ rw e1 (handle_lookup_fact-Served (serve_rest q).status q)
      | inr e1 ↦ rw e1 (elim (Bool-cases (bytes_eq q.path (codes "/api/config"))) [
        | inl e2 ↦ rw e2 (answered (record { has_cors = refl; known_status = inl refl }))
        | inr e2 ↦
            rw e2 (answered (record { has_cors = refl; known_status = inr (inr (inr refl)) }))
      ])
    ])
  ]

  -- For every request, on every route and for every behaviour of the node, the server behind the
  -- CORS middleware either answers with the CORS headers, and with one of the statuses 200, 204 and
  -- 400 or the status of the answer of net/http, or its handler panics; it never ends with an error.
  pub cors_middleware-Served :
      (q : HttpRequest)
      → Served
          (serve_rest q).status
          (cors_middleware (λ q'. serve_mux lib format_time node serve_rest cfg now q' s) q)
  unfolding cors_middleware
  cors_middleware-Served q = elim (Bool-cases (bytes_eq q.method (codes "OPTIONS"))) [
    | inl e ↦ rw e (answered (record { has_cors = refl; known_status = inr (inl refl) }))
    | inr e ↦ rw e (serve_mux-Served q)
  ]

-- What the configuration and the query must give for a lookup.
pub record Asks (cfg : AppConfig) (q : HttpRequest) (v t f : Bytes) : Type 0 where
  pub lookup_path : q.path ≡ codes "/api/lookup"
  pub no_preflight : bytes_eq q.method (codes "OPTIONS") ≡ false
  pub has_registry : is_empty cfg.fact_registry_address ≡ false
  pub tag_given : is_empty (q.query (codes "subject_tag")) ≡ false
  pub type_given : is_empty (q.query (codes "fact_type_hash")) ≡ false
  pub tag_word : Bytes32.hex_to_bytes32 (q.query (codes "subject_tag")) ≡ ok t
  pub type_word : Bytes32.hex_to_bytes32 (q.query (codes "fact_type_hash")) ≡ ok f
  pub verifier_word :
      Bytes32.hex_to_bytes32 (
        if is_empty (q.query (codes "verifier_id_hash"))
        then cfg.verifier_id_hash
        else q.query (codes "verifier_id_hash"))
      ≡ ok v

module _ (lib : EthLib) (format_time : ℕ → Bytes) (node : EthNode) (s : node.State)
    (cfg : AppConfig) (r : FactRegistry) (now : ℕ) (serve_rest : HttpRequest → Response)
    (q : HttpRequest) (v t f : Bytes) where
  -- If the configured node serves the registry at the configured address, and the query of a lookup
  -- request names three words, the verifier's hash by default the configured one, the server answers
  -- with the status 200, the CORS headers and the description of the fact that the registry holds for
  -- the words.
  pub lookup_served :
      Serves lib node s cfg.ethereum_rpc (lib.hex_to_address cfg.fact_registry_address) r now
      → Asks cfg q v t f
      → IsWord v
      → IsWord t
      → IsWord f
      → cors_middleware (λ q'. serve_mux lib format_time node serve_rest cfg now q' s) q
        ≡ ok (record {
          status = 200;
          cors = true;
          body =
              fact_body
                (fact_result lib format_time now (FactRegistry.get_fact lib.keccak256 r v t f));
        })
  unfolding cors_middleware serve_mux handle_lookup_fact lookup_reply with_cors bytes_eq
  lookup_served serves asks wv wt wf =
      let found =
        lookup_refines lib format_time node s cfg.ethereum_rpc cfg.fact_registry_address r now
          serves v t f _ _ _ wv wt wf asks.verifier_word asks.tag_word asks.type_word in
      rw
        (
          asks.no_preflight, asks.lookup_path, asks.tag_given, asks.type_given, asks.has_registry,
          found.0,
        )
        refl
