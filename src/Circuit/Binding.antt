-- ===== src/Circuit/Binding.antt =====
-- What an accepted proof of the circuit commits its prover to.
use zk_fact_verification.Common.{
  ℕ, ◌%◌, ◌^◌, ◌≤◌, ◌≡◌, ◌≢◌, ◌↔◌, ◌⊎◌, inl, inr, true, List, [], ◌∷◌, ok, arith, length, ◌==◌,
  if◌then◌else◌, Bool-cases, ==_iff,
}
use zk_fact_verification.Circuit.{NoirLib, CircuitInputs, compute_merkle_root, main}

-- Two different pairs with one hash.
pub record HasCollision (lib : NoirLib) : Type 0 where
  pub a : ℕ
  pub b : ℕ
  pub c : ℕ
  pub d : ℕ
  pub same_hash : lib.hash_2 a b ≡ lib.hash_2 c d
  pub differ : (a ≢ c) ⊎ (b ≢ d)

-- The statement that the circuit proves about its inputs: `as u64` reduces the two day numbers
-- modulo 2 ^ 64 before they are compared.
pub record Holds (lib : NoirLib) (c : CircuitInputs) : Type 0 where
  pub of_age : c.birth_date_days % 2 ^ 64 ≤ c.cutoff_date_days % 2 ^ 64
  pub signed :
      lib.eddsa_verify c.issuer_pubkey_x c.issuer_pubkey_y c.sig_s c.sig_r8x c.sig_r8y
        (lib.hash_4 c.issuer_pubkey_x c.issuer_pubkey_y c.birth_date_days c.schema_hash)
      ≡ true
  pub included :
      compute_merkle_root lib
        (lib.hash_2 c.issuer_pubkey_x c.issuer_pubkey_y)
        c.merkle_path
        c.merkle_index_bits
      ≡ c.issuer_policy_root
  pub tag : lib.hash_2 c.holder_secret c.verifier_id_hash ≡ c.subject_tag
  pub nullifies :
      lib.hash_4 c.holder_secret c.verifier_id_hash c.fact_type_hash c.idempotency_key_hash
      ≡ c.nullifier
  pub has_expiry : c.valid_until ≢ 0

module _ (lib : NoirLib) (c : CircuitInputs) where
  main_sound : main lib c ≡ ok tt → Holds lib c
  unfolding main
  main_sound h = ground arith

  main_complete : Holds lib c → main lib c ≡ ok tt
  unfolding main
  main_complete h = ground arith

  -- For all field elements, the circuit accepts its inputs exactly when six conditions hold: the
  -- birth day modulo 2 ^ 64 is at most the cutoff day modulo 2 ^ 64 (so a birth day of 2 ^ 64 passes
  -- with the cutoff day 0), the signature verifies on the hash of issuer, birth day and schema, the
  -- path leads from the issuer's leaf to the root, the subject's tag and the nullifier are the hashes
  -- of the secret with the verifier and with the key, and the expiry is not 0.
  pub main-iff-Holds : (main lib c ≡ ok tt) ↔ Holds lib c
  main-iff-Holds = (main_sound, main_complete)

sides_differ :
    (bit leaf leaf' s s' : ℕ)
    → leaf ≢ leaf'
    → ((if bit == 0 then leaf else s) ≢ (if bit == 0 then leaf' else s'))
      ⊎ ((if bit == 0 then s else leaf) ≢ (if bit == 0 then s' else leaf'))
sides_differ bit leaf leaf' s s' h = elim (Bool-cases (bit == 0)) [
  | inl zeros ↦ inl (rw zeros h)
  | inr ones ↦ inr (rw ones h)
]

module _ (lib : NoirLib) where
  -- Opening one root with the same bits and with paths of one length to two different leaves exhibits
  -- a collision of the hash.
  pub compute_merkle_root-binding :
      (leaf leaf' : ℕ) (path path' bits : List ℕ)
      → length path ≡ length path'
      → compute_merkle_root lib leaf path bits ≡ compute_merkle_root lib leaf' path' bits
      → leaf ≢ leaf'
      → HasCollision lib
  unfolding compute_merkle_root
  compute_merkle_root-binding leaf leaf' [] [] bits len same differ = absurd (differ same)
  compute_merkle_root-binding leaf leaf' [] (s' ∷ path') bits len same differ = absurd (omega arith)
  compute_merkle_root-binding leaf leaf' (s ∷ path) [] bits len same differ = absurd (omega arith)
  compute_merkle_root-binding leaf leaf' (s ∷ path) (s' ∷ path') [] len same differ =
      absurd (differ same)
  compute_merkle_root-binding leaf leaf' (s ∷ path) (s' ∷ path') (bit ∷ bits) len same differ =
      let l = if bit == 0 then leaf else s in
      let r = if bit == 0 then s else leaf in
      let l' = if bit == 0 then leaf' else s' in
      let r' = if bit == 0 then s' else leaf' in
      elim (Bool-cases (lib.hash_2 l r == lib.hash_2 l' r')) [
        | inl hit ↦ record {
          a = l;
          b = r;
          c = l';
          d = r';
          same_hash = (==_iff _ _).0 hit;
          differ = sides_differ bit leaf leaf' s s' differ;
        }
        | inr miss ↦
            compute_merkle_root-binding (lib.hash_2 l r) (lib.hash_2 l' r') path path' bits
              (omega arith) same (ground arith)
      ]
