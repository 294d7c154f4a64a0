-- ===== src/Blockchain/Submitter.antt =====
-- `SubmitFact` of cli/internal/blockchain/submitter.go. Its `SubmitParams` are the arguments of the
-- contract's `submitVerifiedFact`, in the same order.
pub mod Sent
use zk_fact_verification.Common.{
  ℕ, ℤ, Bytes, List, [], ◌∷◌, Result, ok, codes, wrapped, ◌>>=◌, ◌>>◌,
}
use zk_fact_verification.System.{Action, continue}
use zk_fact_verification.Std.Slices.{trim_prefix}
use zk_fact_verification.Contracts.FactRegistry.{Submission}
use zk_fact_verification.Contracts.Abi.{
  AbiMethod, argument, bytes_type, bytes32_type, bytes32_list, uint64_type,
}
use zk_fact_verification.Blockchain.Ethereum.{Transaction, SignedTransaction, EthLib, EthNode}

pub record SubmitConfig : Type 0 where
  pub rpc_url : Bytes
  pub private_key : Bytes
  pub fact_registry_address : Bytes
  pub chain_id : ℤ

-- `getFactRegistryABI`
abbrev pub fact_registry_abi : List AbiMethod
fact_registry_abi =
    record {
      inputs =
          argument (codes "proof") bytes_type
          ∷ argument (codes "publicInputs") bytes32_list
          ∷ argument (codes "verifierIdHash") bytes32_type
          ∷ argument (codes "subjectTag") bytes32_type
          ∷ argument (codes "factTypeHash") bytes32_type
          ∷ argument (codes "issuerPolicyRoot") bytes32_type
          ∷ argument (codes "schemaHash") bytes32_type
          ∷ argument (codes "nullifier") bytes32_type
          ∷ argument (codes "validUntil") uint64_type
          ∷ [];
      name = codes "submitVerifiedFact";
      outputs = [];
      state_mutability = codes "nonpayable";
    }
    ∷ []

-- The transaction, signed and not sent: the questions to the node do not change its state.
module _ (lib : EthLib) (node : EthNode) where
  unfoldable pub signed_transaction :
      SubmitConfig → Submission → node.State → Result SignedTransaction
  signed_transaction cfg params s = do
    wrapped "connect to node: %w" (node.dial cfg.rpc_url s)
    private_key ←
        wrapped "parse private key: %w"
          (lib.hex_to_ecdsa (trim_prefix cfg.private_key (codes "0x")))
    let from_address = lib.address_of_key private_key
    nonce ← wrapped "get nonce: %w" (node.pending_nonce_at from_address s)
    gas_price ← wrapped "suggest gas price: %w" (node.suggest_gas_price s)
    let contract_addr = lib.hex_to_address cfg.fact_registry_address
    input_data ←
        wrapped "ABI encode: %w"
          (lib.pack_submit fact_registry_abi (codes "submitVerifiedFact") params)
    let tx : Transaction = record {
      nonce = nonce;
      to = contract_addr;
      value = 0;
      gas_limit = 3000000;
      gas_price = gas_price;
      payload = input_data;
    }
    wrapped "sign tx: %w" (lib.sign_tx tx cfg.chain_id private_key)

  -- `SendTransaction` and what follows.
  unfoldable pub send_signed : SignedTransaction → node.State → Result Bytes × node.State
  send_signed signed_tx s =
      let (sent, s') = node.send_transaction signed_tx s in
      (wrapped "send tx: %w" sent >> ok (lib.tx_hash_hex signed_tx), s')

  unfoldable pub submit_fact : SubmitConfig → Submission → Action node.State Bytes
  submit_fact cfg params s = continue (signed_transaction cfg params s) send_signed s
