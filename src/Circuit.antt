-- ===== src/Circuit.antt =====
-- circuits/age_over_18_v1/src/main.nr: the Noir circuit. A `Field` is its canonical residue below
-- the BN254 scalar modulus. Poseidon and EdDSA verification are the two packages that the circuit
-- imports, so they are the parameter `lib`.
pub mod Binding
use zk_fact_verification.Common.{
  ℕ, suc, ◌-◌, ◌%◌, ◌^◌, ℤ, pos, negsuc, Bool, not, List, [], ◌∷◌, Result, ok, err, text, Error,
  leb, ◌==◌, if◌then◌else◌, ◌>>=◌, ◌>>◌, ◌≡◌, map,
}

-- The BN254 scalar field prime.
abbrev pub field_mod : ℕ
field_mod = 21888242871839275222246405745257275088548364400416034343698204186575808495617

-- The field element that a decimal integer in Prover.toml denotes.
unfoldable pub to_field : ℤ → ℕ
to_field (pos n) = n % field_mod
to_field (negsuc n) = field_mod - 1 - n % field_mod

-- The functions of the packages `poseidon` and `eddsa`.
pub record NoirLib : Type 0 where
  pub hash_2 : ℕ → ℕ → ℕ
  pub hash_4 : ℕ → ℕ → ℕ → ℕ → ℕ
  -- pubkey_x, pubkey_y, s, r8x, r8y, message
  pub eddsa_verify : ℕ → ℕ → ℕ → ℕ → ℕ → ℕ → Bool

-- `go-iden3-crypto`'s Poseidon computes the hash of `noir-lang/poseidon`, where it gives no error.
pub record SameHash (hash : List ℤ → Result ℤ) (lib : NoirLib) : Type 0 where
  pub two :
      (a b h : ℤ) → hash (a ∷ b ∷ []) ≡ ok h → to_field h ≡ lib.hash_2 (to_field a) (to_field b)
  pub four :
      (a b c d h : ℤ)
      → hash (a ∷ b ∷ c ∷ d ∷ []) ≡ ok h
      → to_field h ≡ lib.hash_4 (to_field a) (to_field b) (to_field c) (to_field d)

pub record CircuitInputs : Type 0 where
  pub birth_date_days : ℕ
  pub holder_secret : ℕ
  pub issuer_pubkey_x : ℕ
  pub issuer_pubkey_y : ℕ
  pub sig_r8x : ℕ
  pub sig_r8y : ℕ
  pub sig_s : ℕ
  pub merkle_path : List ℕ
  pub merkle_index_bits : List ℕ
  pub idempotency_key_hash : ℕ
  pub verifier_id_hash : ℕ
  pub fact_type_hash : ℕ
  pub issuer_policy_root : ℕ
  pub schema_hash : ℕ
  pub subject_tag : ℕ
  pub nullifier : ℕ
  pub valid_until : ℕ
  pub cutoff_date_days : ℕ

-- `assert(b, message)`
abbrev pub assert : Bool → Error → Result (Unit {0})
assert b e = if b then ok tt else err e

module _ (lib : NoirLib) where
  -- Both arrays have TREE_DEPTH entries, and `i` runs over them together.
  unfoldable pub compute_merkle_root : ℕ → List ℕ → List ℕ → ℕ
  compute_merkle_root current (sibling ∷ path) (bit ∷ index_bits) =
      let left = if bit == 0 then current else sibling in
      let right = if bit == 0 then sibling else current in
      compute_merkle_root (lib.hash_2 left right) path index_bits
  compute_merkle_root current _ _ = current

  -- `as u64` keeps the low 64 bits.
  unfoldable pub main : CircuitInputs → Result (Unit {0})
  main c = do
    assert (leb (c.birth_date_days % 2 ^ 64) (c.cutoff_date_days % 2 ^ 64))
        (text "Age predicate failed: too young")
    let credential_hash =
        lib.hash_4 c.issuer_pubkey_x c.issuer_pubkey_y c.birth_date_days c.schema_hash
    assert
        (lib.eddsa_verify c.issuer_pubkey_x c.issuer_pubkey_y c.sig_s c.sig_r8x c.sig_r8y
          credential_hash)
        (text "EdDSA signature verification failed")
    let leaf = lib.hash_2 c.issuer_pubkey_x c.issuer_pubkey_y
    let computed_root = compute_merkle_root leaf c.merkle_path c.merkle_index_bits
    assert (computed_root == c.issuer_policy_root) (text "Issuer not in policy tree")
    let computed_subject_tag = lib.hash_2 c.holder_secret c.verifier_id_hash
    assert (computed_subject_tag == c.subject_tag) (text "subject_tag mismatch")
    let computed_nullifier =
        lib.hash_4 c.holder_secret c.verifier_id_hash c.fact_type_hash c.idempotency_key_hash
    assert (computed_nullifier == c.nullifier) (text "nullifier mismatch")
    assert (not (c.valid_until == 0)) (text "valid_until must be set")
