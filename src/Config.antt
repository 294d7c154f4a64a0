-- ===== src/Config.antt =====
-- cli/internal/config/config.go.
use zk_fact_verification.Common.{Bytes, [], codes, is_empty, if◌then◌else◌}
use zk_fact_verification.System.{System}

pub record Config : Type 0 where
  pub credentials_file : Bytes
  pub request_file : Bytes
  pub policy_file : Bytes
  pub holder_secret : Bytes
  pub noir_circuit_dir : Bytes
  pub nargo_bin : Bytes
  pub bb_bin : Bytes
  pub fact_registry_address : Bytes
  pub issuer_registry_address : Bytes
  pub ethereum_rpc_url : Bytes
  pub holder_private_key : Bytes
  pub chain_id : Bytes

module _ (sys : System) (s : sys.State) where
  unfoldable pub get_env : Bytes → Bytes → Bytes
  get_env key fallback = let val = sys.getenv key s in if is_empty val then fallback else val

  unfoldable pub load_config : Config
  unfolding get_env
  load_config = record {
    credentials_file = get_env (codes "CREDENTIALS_FILE") (codes "testdata/credential.json");
    request_file = get_env (codes "REQUEST_FILE") (codes "testdata/verification_request.json");
    policy_file = get_env (codes "POLICY_FILE") (codes "testdata/issuer_policy.json");
    holder_secret = get_env (codes "HOLDER_SECRET") [];
    noir_circuit_dir = get_env (codes "NOIR_CIRCUIT_DIR") (codes "../circuits/age_over_18_v1");
    nargo_bin = get_env (codes "NARGO_BIN") (codes "nargo");
    bb_bin = get_env (codes "BB_BIN") (codes "bb");
    fact_registry_address = get_env (codes "FACT_REGISTRY_ADDRESS") [];
    issuer_registry_address = get_env (codes "ISSUER_REGISTRY_ADDRESS") [];
    ethereum_rpc_url = get_env (codes "ETHEREUM_RPC_URL") (codes "http://127.0.0.1:8545");
    holder_private_key = get_env (codes "HOLDER_PRIVATE_KEY") [];
    chain_id = get_env (codes "CHAIN_ID") (codes "31337");
  }
