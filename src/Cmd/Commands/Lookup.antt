-- ===== src/Cmd/Commands/Lookup.antt =====
-- `lookup-fact` on a node that serves the registry.
use zk_fact_verification.Common.{ℕ, ◌≡◌, refl, Bytes, ok, panic}
use zk_fact_verification.Config.{load_config}
use zk_fact_verification.Contracts.FactRegistry.{FactRegistry}
use zk_fact_verification.Blockchain.Bytes32.{IsWord, hex_to_bytes32}
use zk_fact_verification.Blockchain.Reader.Refines.{Serves, SetsFirstField, lookup_fact-panics}
use zk_fact_verification.Cmd.Commands.{Platform, lookup_fact_cmd}

module _ (env : Platform) (s : env.sys.State) (n : env.node.State) (r : FactRegistry) (now : ℕ)
    (v t f v_hex t_hex f_hex : Bytes)
    (serves : Serves env.lib env.node n
      (load_config env.sys s).ethereum_rpc_url
      (env.lib.hex_to_address (load_config env.sys s).fact_registry_address)
      r
      now)
    (wv : IsWord v) (wt : IsWord t) (wf : IsWord f) (ev : hex_to_bytes32 v_hex ≡ ok v)
    (et : hex_to_bytes32 t_hex ≡ ok t) (ef : hex_to_bytes32 f_hex ≡ ok f) where
  -- If the configured node serves the registry, the three flags spell words, and
  -- `UnpackIntoInterface` sets the first field of a struct to a lone tuple, then `lookup-fact` panics,
  -- whether or not the registry holds a fact for the words.
  pub lookup_fact_cmd-panics :
      SetsFirstField env.lib → lookup_fact_cmd env v_hex t_hex f_hex (s, n) ≡ (panic, (s, n))
  unfolding lookup_fact_cmd
  lookup_fact_cmd-panics sets =
      rw (ev, et, ef, lookup_fact-panics env.lib env.node n _ _ r now serves v t f wv wt wf sets)
        refl
