-- ===== src/Cmd/Loaders.antt =====
-- `LoadCredential`, `LoadRequest` and `LoadPolicy` (cli/internal/creds/loader.go,
-- cli/internal/request/loader.go, cli/internal/policy/loader.go).
use zk_fact_verification.Common.{Bytes, Result}
use zk_fact_verification.System.{System, Action, lift, wrap_action, ◌>>=◌}
use zk_fact_verification.Creds.{Credential}
use zk_fact_verification.Request.{VerificationRequest}
use zk_fact_verification.Policy.{IssuerPolicy}
use zk_fact_verification.Prover.{ProofPackage}

-- `json.Unmarshal` into the structs, and `json.MarshalIndent` of two of them.
pub record Json : Type 0 where
  pub parse_credential : Bytes → Result Credential
  pub parse_request : Bytes → Result VerificationRequest
  pub parse_policy : Bytes → Result IssuerPolicy
  pub parse_package : Bytes → Result ProofPackage
  pub print_package : ProofPackage → Result Bytes
  -- the program drops the error
  pub print_credential : Credential → Bytes

module _ (json : Json) (sys : System) (path : Bytes) where
  unfoldable pub load_credential : Action sys.State Credential
  load_credential = do
    content ← wrap_action "read credential file: %w" (sys.read_file path)
    wrap_action "parse credential JSON: %w" (lift (json.parse_credential content))

  unfoldable pub load_request : Action sys.State VerificationRequest
  load_request = do
    content ← wrap_action "read request file: %w" (sys.read_file path)
    wrap_action "parse request JSON: %w" (lift (json.parse_request content))

  unfoldable pub load_policy : Action sys.State IssuerPolicy
  load_policy = do
    content ← wrap_action "read policy file: %w" (sys.read_file path)
    wrap_action "parse policy JSON: %w" (lift (json.parse_policy content))
