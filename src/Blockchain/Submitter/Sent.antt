-- ===== src/Blockchain/Submitter/Sent.antt =====
-- What `SubmitFact` does to the node.
use zk_fact_verification.Common.{
  ℕ, ℤ, ◌≡◌, refl, Bytes, codes, bytes_eq, some, Result, ok, err, panic, wrapped, wrapped-eq-ok,
  ok_cases, ◌⊎◌, inl, inr, ◌>>◌,
}
use zk_fact_verification.Std.Slices.{trim_prefix}
use zk_fact_verification.Contracts.FactRegistry.{Submission, submit_method}
use zk_fact_verification.Contracts.Abi.{find_method}
use zk_fact_verification.Blockchain.Ethereum.{SignedTransaction, EthLib, EthNode}
use zk_fact_verification.Blockchain.Submitter.{
  SubmitConfig, fact_registry_abi, signed_transaction, send_signed, submit_fact,
}

module _ (lib : EthLib) (node : EthNode) (cfg : SubmitConfig) (params : Submission)
    (s : node.State) where
  -- A transaction that carries the packed call to the configured registry, with the sender's nonce.
  pub record CallsRegistry (signed : SignedTransaction) : Type 0 where
    pub key : Bytes
    pub nonce : ℕ
    pub gas_price : ℤ
    pub payload : Bytes
    pub keyed : lib.hex_to_ecdsa (trim_prefix cfg.private_key (codes "0x")) ≡ ok key
    pub next_nonce : node.pending_nonce_at (lib.address_of_key key) s ≡ ok nonce
    pub priced : node.suggest_gas_price s ≡ ok gas_price
    pub packed : lib.pack_submit fact_registry_abi (codes "submitVerifiedFact") params ≡ ok payload
    -- the entry of that name has the signature of the contract's function
    pub described : find_method fact_registry_abi (codes "submitVerifiedFact") ≡ some submit_method
    pub signs :
        lib.sign_tx
          (record {
            nonce = nonce;
            to = lib.hex_to_address cfg.fact_registry_address;
            value = 0;
            gas_limit = 3000000;
            gas_price = gas_price;
            payload = payload;
          })
          cfg.chain_id
          key
        ≡ ok signed

  signed_transaction-CallsRegistry :
      (tx : SignedTransaction) → signed_transaction lib node cfg params s ≡ ok tx → CallsRegistry tx
  unfolding signed_transaction find_method bytes_eq
  signed_transaction-CallsRegistry tx h0 =
      ok_cases (wrapped _ (node.dial cfg.rpc_url s)) _ h0 λ u _ h1.
        ok_cases (wrapped _ (lib.hex_to_ecdsa (trim_prefix cfg.private_key (codes "0x")))) _ h1
          λ key ek h2.
            ok_cases (wrapped _ (node.pending_nonce_at (lib.address_of_key key) s)) _ h2
              λ nonce en h3. ok_cases (wrapped _ (node.suggest_gas_price s)) _ h3 λ price ep h4.
                ok_cases
                  (wrapped _
                    (lib.pack_submit fact_registry_abi (codes "submitVerifiedFact") params))
                  _ h4
                  λ payload el h5. record {
                    key = key;
                    nonce = nonce;
                    gas_price = price;
                    payload = payload;
                    keyed = wrapped-eq-ok _ _ ek;
                    next_nonce = wrapped-eq-ok _ _ en;
                    priced = wrapped-eq-ok _ _ ep;
                    packed = wrapped-eq-ok _ _ el;
                    described = refl;
                    signs = wrapped-eq-ok _ _ h5;
                  }

  abbrev pub SendsOrFails : Type 0
  SendsOrFails =
      ((tx : SignedTransaction) × CallsRegistry tx
        × (submit_fact lib node cfg params s ≡ (
          (wrapped "send tx: %w" (node.send_transaction tx s).0 >> ok (lib.tx_hash_hex tx)),
          (node.send_transaction tx s).1,
        )))
      ⊎ (((submit_fact lib node cfg params s).1 ≡ s)
          × ((hash : Bytes) → ¬ ((submit_fact lib node cfg params s).0 ≡ ok hash)))

  -- `SubmitFact` either leaves the node as it is and fails, or sends one transaction, which carries
  -- to the configured registry the call that is packed by the signature of the contract's
  -- `submitVerifiedFact`; then it returns the transaction's hash exactly if the node took it, and the
  -- error of the node otherwise.
  pub submit_fact_sends : SendsOrFails
  unfolding submit_fact send_signed
  submit_fact_sends = by_result (signed_transaction lib node cfg params s) refl
    where
      by_result :
          (r : Result SignedTransaction)
          → signed_transaction lib node cfg params s ≡ r
          → SendsOrFails
      by_result (ok tx) e = inl (tx, signed_transaction-CallsRegistry tx e, rw e)
      by_result (err x) e = inr (rw e (refl, λ hash h. cc h))
      by_result panic e = inr (rw e (refl, λ hash h. cc h))
