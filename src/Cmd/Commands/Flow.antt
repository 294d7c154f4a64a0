-- ===== src/Cmd/Commands/Flow.antt =====
-- `verify-service-flow` from end to end: the files, the node and the registry behind it.
use zk_fact_verification.Common.{
  ℕ, ℤ, panic, ◌%◌, ◌||◌, ◌==◌, leb, ◌^◌, ◌<◌, ◌≡◌, refl, sym, ap, ◌∙◌, Bytes, List, Bool, true,
  some, ok, All, IsByte, arith, get_elem?,
}
use zk_fact_verification.Config.{Config, load_config}
use zk_fact_verification.Std.Digits.{set_string}
use zk_fact_verification.Contracts.FactRegistry
use zk_fact_verification.Contracts.FactRegistry.{
  FactRegistry, Submission, Context, submit_verified_fact,
}
use zk_fact_verification.Blockchain.Ethereum.{SignedTransaction, EthLib}
use zk_fact_verification.Blockchain.Submitter.{signed_transaction, send_signed, submit_fact}
use zk_fact_verification.Blockchain.Reader.Refines.{Serves, SetsFirstField}
use zk_fact_verification.Prover.{ProofPackage}
use zk_fact_verification.Prover.Field.{field_to_hex}
use zk_fact_verification.Prover.Prepare.{Prepared}
use zk_fact_verification.Prover.Generator.{make_package, valid_until_at}
use zk_fact_verification.Prover.Generator.Effects.{IsProduct, generate_proof-IsProduct}
use zk_fact_verification.Cmd.Package.{read_package}
use zk_fact_verification.Cmd.Package.Words.{FitWords, Carries, read_package-make_package}
use zk_fact_verification.Cmd.Commands.{
  Platform, package_path, submit_fact_cmd, verify_service_flow_cmd,
}
use zk_fact_verification.Site.Verifier.{FactResult, print_word}
use zk_fact_verification.Cmd.Commands.Lookup.{lookup_fact_cmd-panics}
use zk_fact_verification.Cmd.Commands.Prove.{IsProved, IsProved-prove_cmd, prover_config}
use zk_fact_verification.Cmd.Commands.Submit.{submit_config}

-- The node takes the transaction that carries the arguments, and afterwards serves `r`.
pub record Takes (env : Platform) (cfg : Config) (id : ℤ) (n : env.node.State) (a : Submission)
    (r : FactRegistry) : Type 0 where
  pub tx : SignedTransaction
  pub left : env.node.State
  pub now : ℕ
  pub signed : signed_transaction env.lib env.node (submit_config cfg id) a n ≡ ok tx
  pub taken : env.node.send_transaction tx n ≡ (ok tt, left)
  pub serves :
      Serves env.lib env.node left cfg.ethereum_rpc_url
        (env.lib.hex_to_address cfg.fact_registry_address)
        r
        now

-- The node takes the transaction, the registry accepts its call, and the node's answers show that.
pub record Executes (env : Platform) (cfg : Config) (verify : Bytes → List Bytes → Bool) (id : ℤ)
    (n : env.node.State) (r : FactRegistry) (a : Submission) : Type 0 where
  pub ctx : Context
  pub next : FactRegistry
  pub executed : submit_verified_fact env.lib.keccak256 verify ctx a r ≡ ok next
  pub takes : Takes env cfg id n a next

module _ (env : Platform) (s : env.sys.State) (n : env.node.State) (pkg : ProofPackage)
    (content : Bytes) (a : Submission) (id : ℤ)
    (stored : env.sys.read_file package_path s ≡ (ok content, s))
    (decoded : env.json.parse_package content ≡ ok pkg)
    (arguments : read_package (load_config env.sys s).chain_id pkg ≡ ok (id, a)) where
  submit_fact_cmd-Takes :
      (r : FactRegistry) (t : Takes env (load_config env.sys s) id n a r)
      → submit_fact_cmd env package_path (s, n) ≡ (ok (env.lib.tx_hash_hex t.tx), (s, t.left))
  unfolding submit_fact_cmd submit_fact send_signed
  submit_fact_cmd-Takes r t = rw (stored, decoded, arguments, t.signed, t.taken) refl

module _ {env : Platform} {s s' : env.sys.State} {pkg : ProofPackage} {content : Bytes}
    (proved : IsProved env s s' pkg content) where
  -- The steps of `GenerateProof` in the run.
  pub product :
      IsProduct env.hash env.texts env.sys
        (prover_config (load_config env.sys s))
        proved.cred
        proved.req
        proved.pol
        proved.policy_state
        pkg
  product = generate_proof-IsProduct _ _ _ _ _ _ _ _ proved.proof_state proved.generated

-- How the site describes a fact that a transaction has stored, asked at the time `now`.
pub record IsShown (lib : EthLib) (format_time : ℕ → Bytes) (ctx : Context) (a : Submission)
    (now : ℕ) (result : FactResult) : Type 0 where
  pub exists : result.exists ≡ true
  pub verifier_id_hash : result.verifier_id_hash ≡ print_word a.verifier_id_hash
  pub subject_tag : result.subject_tag ≡ print_word a.subject_tag
  pub fact_type_hash : result.fact_type_hash ≡ print_word a.fact_type_hash
  pub issuer_policy_root : result.issuer_policy_root ≡ print_word a.issuer_policy_root
  pub schema_hash : result.schema_hash ≡ print_word a.schema_hash
  pub nullifier : result.nullifier ≡ print_word a.nullifier
  pub verified_at : result.verified_at ≡ format_time (ctx.timestamp % 2 ^ 64)
  pub valid_until : result.valid_until ≡ format_time a.valid_until
  pub submitter : result.submitter ≡ lib.address_hex ctx.sender
  pub is_valid : result.is_valid ≡ (a.valid_until == 0 || leb now a.valid_until)

module _ (env : Platform) (s0 s : env.sys.State) (n : env.node.State) (pkg : ProofPackage)
    (content : Bytes) (id : ℤ) (proved : IsProved env s0 s pkg content)
    (stored : env.sys.read_file package_path s ≡ (ok content, s))
    (decoded : env.json.parse_package content ≡ ok pkg)
    (chain : set_string 10 (load_config env.sys s).chain_id ≡ some id)
    (fits : FitWords (product proved).prepared)
    (small_cutoff : proved.req.predicate.cutoff_date_days < 2 ^ 64)
    (bytes : All IsByte (product proved).proof_bytes) where
  abbrev p : Prepared
  p = (product proved).prepared

  -- The arguments that the package is read into.
  arguments :
      (a : Submission) × (read_package (load_config env.sys s).chain_id pkg ≡ ok (id, a))
      × Carries p
          (product proved).proof_bytes
          (valid_until_at (env.sys.unix_now proved.policy_state).0)
          proved.req.predicate.cutoff_date_days
          a
  arguments =
      let (a, e, carries) =
        read_package-make_package proved.req p
          (valid_until_at (env.sys.unix_now proved.policy_state).0) (product proved).proof_bytes _ _
          id fits (omega arith) small_cutoff bytes chain in
      (a, ap (read_package _) (sym (product proved).made) ∙ e, carries)

  -- The texts that the command takes from the package.
  flags :
      (get_elem? pkg.public_inputs 0 ≡ some (field_to_hex p.verifier_id_hash))
      × (get_elem? pkg.public_inputs 1 ≡ some (field_to_hex p.fact_type_hash))
      × (pkg.subject_tag ≡ field_to_hex p.subject_tag)
  unfolding make_package
  flags =
      let made = sym (product proved).made in
      (
        ap (λ (q : ProofPackage). get_elem? q.public_inputs 0) made,
        ap (λ (q : ProofPackage). get_elem? q.public_inputs 1) made,
        ap (λ (q : ProofPackage). q.subject_tag) made,
      )

  -- Suppose that the steps of `prove` succeed and leave a package that reads back and parses as it
  -- was, that the prepared values fit 32 bytes, the cutoff date fits 64 bits and the proof file
  -- held bytes, that the configured chain id parses, and that `UnpackIntoInterface` sets the first
  -- field of a struct to a lone tuple. If the node takes the transaction for the package's arguments
  -- and then serves a registry, whether or not this has executed the call, then
  -- `verify-service-flow` sends that transaction and panics.
  pub verify_service_flow_cmd-panics :
      (r : FactRegistry)
      → SetsFirstField env.lib
      → ((a : Submission)
          → read_package (load_config env.sys s).chain_id pkg ≡ ok (id, a)
          → Takes env (load_config env.sys s) id n a r)
      → (tx : SignedTransaction) × (left : env.node.State) × (env.node.send_transaction tx n
          ≡ (ok tt, left))
        × (verify_service_flow_cmd env (s0, n) ≡ (panic, (s, left)))
  unfolding verify_service_flow_cmd
  verify_service_flow_cmd-panics r sets takes =
      let (a, e, carries) = arguments in
      let t = takes a e in
      let prove = IsProved-prove_cmd env s0 s pkg content proved in
      let submit = submit_fact_cmd-Takes env s n pkg content a id stored decoded e r t in
      let (flag0, flag1, tag) = flags in
      let stops =
        lookup_fact_cmd-panics env s t.left r t.now _ _ _ _ _ _ t.serves
          carries.verifier_id_hash.word carries.subject_tag.word carries.fact_type_hash.word
          carries.verifier_id_hash.read carries.subject_tag.read carries.fact_type_hash.read sets in
      (t.tx, t.left, t.taken, rw (prove, submit, stored, decoded, flag1, flag0, tag, stops) refl)
