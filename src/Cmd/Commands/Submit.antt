-- ===== src/Cmd/Commands/Submit.antt =====
-- What `submit-fact` has sent when it succeeds.
use zk_fact_verification.Common.{
  ℤ, ◌≡◌, sym, ap, ◌∙◌, Bytes, String, Result, ok, err, panic, wrapped, ◌>>◌, inl, inr,
}
use zk_fact_verification.System.Cases.{step_cases, lift_cases, ok_inj, last_case}
use zk_fact_verification.Config.{Config, load_config}
use zk_fact_verification.Contracts.FactRegistry.{Submission}
use zk_fact_verification.Blockchain.Ethereum.{SignedTransaction, EthLib, EthNode}
use zk_fact_verification.Blockchain.Submitter.{SubmitConfig, submit_fact}
use zk_fact_verification.Blockchain.Submitter.Sent.{CallsRegistry, submit_fact_sends}
use zk_fact_verification.Prover.{ProofPackage}
use zk_fact_verification.Cmd.Package.{read_package}
use zk_fact_verification.Cmd.Commands.{Platform, World, submit_fact_cmd, on_system, on_node}

abbrev pub submit_config : Config → ℤ → SubmitConfig
submit_config cfg id = record {
  rpc_url = cfg.ethereum_rpc_url;
  private_key = cfg.holder_private_key;
  fact_registry_address = cfg.fact_registry_address;
  chain_id = id;
}

-- A successful `SubmitFact`, in one record.
pub record IsSent (lib : EthLib) (node : EthNode) (cfg : SubmitConfig) (params : Submission)
    (s s' : node.State) (hash : Bytes) : Type 0 where
  pub tx : SignedTransaction
  pub calls : CallsRegistry lib node cfg params s tx
  pub taken : node.send_transaction tx s ≡ (ok tt, s')
  pub named : lib.tx_hash_hex tx ≡ hash

sent_cases :
    {S : Type 0} (message : String) (w : Result (Unit {0}) × S) (x : Bytes) {hash : Bytes} {s' : S}
    → ◌≡◌ {A = Result Bytes × S} ((wrapped message w.0 >> ok x), w.1) (ok hash, s')
    → (w ≡ (ok tt, s')) × (x ≡ hash)
sent_cases message (ok u, t) x h = (ap (λ q. (ok tt, q.1)) h, ok_inj (ap (λ q. q.0) h))
sent_cases message (err e, t) x h = absurd (cc (ap (λ q. q.0) h))
sent_cases message (panic, t) x h = absurd (cc (ap (λ q. q.0) h))

submit_fact-IsSent :
    (lib : EthLib) (node : EthNode) (cfg : SubmitConfig) (params : Submission) (s s' : node.State)
    (hash : Bytes)
    → submit_fact lib node cfg params s ≡ (ok hash, s')
    → IsSent lib node cfg params s s' hash
submit_fact-IsSent lib node cfg params s s' hash h =
    elim (submit_fact_sends lib node cfg params s) [
      | inl (tx, calls, run) ↦
          (let (taken, named) = sent_cases _ (node.send_transaction tx s) _ (sym run ∙ h) in
            record { tx = tx; calls = calls; taken = taken; named = named })
      | inr (same, fails) ↦ absurd (fails hash (ap (λ q. q.0) h))
    ]

-- A run of `submit-fact` that returned a transaction's hash.
pub record IsSubmitted (env : Platform) (proof_path : Bytes) (w w' : World env) (hash : Bytes)
    : Type 0 where
  pub content : Bytes
  pub pkg : ProofPackage
  pub id : ℤ
  pub params : Submission
  pub read : (env.sys.read_file proof_path w.0).0 ≡ ok content
  pub parsed : env.json.parse_package content ≡ ok pkg
  pub arguments : read_package (load_config env.sys w.0).chain_id pkg ≡ ok (id, params)
  pub sent :
      IsSent env.lib env.node (submit_config (load_config env.sys w.0) id) params w.1 w'.1 hash

module _ (env : Platform) (proof_path : Bytes) (w w' : World env) (hash : Bytes) where
  -- If `submit-fact` returns a hash, the file held a package whose values it read into the
  -- arguments of one signed call of the configured registry; the node took that transaction, the node's
  -- state is what it left, and the hash is its hash.
  pub submit_fact_cmd-IsSubmitted :
      submit_fact_cmd env proof_path w ≡ (ok hash, w') → IsSubmitted env proof_path w w' hash
  unfolding submit_fact_cmd
  submit_fact_cmd-IsSubmitted h =
      step_cases _ (on_system (env.sys.read_file proof_path) w) _ h λ content w1 e1 h1.
        step_cases _ (env.json.parse_package content, w1) _ h1
          λ pkg w2 e2 h2. lift_cases (read_package _ pkg) _ w2 h2 λ call e3 h3.
            let done : submit_fact env.lib env.node (submit_config (load_config env.sys w.0) call.0)
                  call.1 w2.1
                ≡ (ok hash, w'.1) =
              ap (λ q. (q.0, q.1.1)) (last_case _ (on_node (submit_fact _ _ _ _) w2) h3) in
            let same : w.1 ≡ w2.1 = ap (λ q. q.1.1) e1 ∙ ap (λ q. q.1.1) e2 in
            record {
              content = content;
              pkg = pkg;
              id = call.0;
              params = call.1;
              read = ap (λ q. q.0) e1;
              parsed = ap (λ q. q.0) e2;
              arguments = e3;
              sent = submit_fact-IsSent _ _ _ _ _ _ hash (ap (submit_fact _ _ _ _) same ∙ done);
            }
