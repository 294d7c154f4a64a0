-- ===== src/Blockchain/Ethereum.antt =====
-- What the Go programs use of go-ethereum: functions on values, and a connection to a node.
use zk_fact_verification.Common.{ℕ, ℤ, Bytes, Bool, List, Result}
use zk_fact_verification.Contracts.Abi.{AbiMethod, Component}
use zk_fact_verification.Contracts.FactRegistry.{VerifiedFact, Submission}

-- What `Unpack` finds in the outputs of a method.
pub data AbiValue : Type 0 where
  fact_value : VerifiedFact → AbiValue
  bool_value : Bool → AbiValue
  other_value : AbiValue

-- `types.NewTransaction`
pub record Transaction : Type 0 where
  pub nonce : ℕ
  pub to : Bytes
  pub value : ℕ
  pub gas_limit : ℕ
  pub gas_price : ℤ
  pub payload : Bytes

pub record SignedTransaction : Type 0 where
  pub tx : Transaction
  pub signature : Bytes

pub record EthLib : Type 0 where
  -- `common.HexToAddress` and `Address.Hex`
  pub hex_to_address : Bytes → Bytes
  pub address_hex : Bytes → Bytes
  -- `crypto.Keccak256Hash` and `common.BytesToHash`
  pub keccak256 : Bytes → Bytes
  pub bytes_to_hash : Bytes → Bytes
  -- `Pack` of a parsed ABI, a method's name and three words, and of the arguments of a submission
  pub pack_view : List AbiMethod → Bytes → Bytes → Bytes → Bytes → Result Bytes
  pub pack_submit : List AbiMethod → Bytes → Submission → Result Bytes
  -- `Unpack`, and `UnpackIntoInterface` into a struct with these fields, for the tuple of a fact
  pub unpack : List AbiMethod → Bytes → Bytes → Result (List AbiValue)
  pub unpack_into : List AbiMethod → Bytes → List Component → Bytes → Result VerifiedFact
  -- `crypto.HexToECDSA`, `crypto.PubkeyToAddress` of a private key's public key
  pub hex_to_ecdsa : Bytes → Result Bytes
  pub address_of_key : Bytes → Bytes
  -- `types.SignTx` with an EIP155 signer
  pub sign_tx : Transaction → ℤ → Bytes → Result SignedTransaction
  pub tx_hash_hex : SignedTransaction → Bytes

pub record EthNode : Type 1 where
  pub State : Type 0
  pub dial : Bytes → State → Result (Unit {0})
  pub call_contract : Bytes → Bytes → State → Result Bytes
  pub pending_nonce_at : Bytes → State → Result ℕ
  pub suggest_gas_price : State → Result ℤ
  pub send_transaction : SignedTransaction → State → Result (Unit {0}) × State
