-- ===== src/Testdata/Hashes.antt =====
-- The hashes of cli/testdata/generate.go and what is relied on of the libraries.
use mathlib.Core.Path.{subst}
use zk_fact_verification.Common.{
  ◌≡◌, refl, sym, ap, ◌∙◌, true, ℤ, pos, negsuc, List, [], ◌∷◌, Result, ok, arith,
}
use zk_fact_verification.Std.Slices.{trim_prefix, be_value}
use zk_fact_verification.Std.Digits.{set_string}
use zk_fact_verification.Poseidon.{InField, HashesField}
use zk_fact_verification.Circuit.{to_field, NoirLib, SameHash}
use zk_fact_verification.Prover.Field.{compute_idempotency_key_hash}
use zk_fact_verification.Testdata.{
  Crypto, Signature, hex_to_big, test_schema_hash, test_holder_secret, test_verifier_id_hash,
  test_fact_type_hash, test_key_hash, test_subject_tag, test_nullifier, cred_hash, test_leaf,
  session_key,
}
use zk_fact_verification.Testdata.Tree.{Returns}

to_field-InField : (v : ℤ) → InField (pos (to_field v))
unfolding to_field
to_field-InField (pos n) = omega arith
to_field-InField (negsuc n) = omega arith

module _ (crypto : Crypto) where
  schema-InField : InField (test_schema_hash crypto)
  unfolding test_schema_hash
  schema-InField = to_field-InField _

  verifier-InField : InField (test_verifier_id_hash crypto)
  unfolding test_verifier_id_hash
  verifier-InField = to_field-InField _

  fact_type-InField : InField (test_fact_type_hash crypto)
  unfolding test_fact_type_hash
  fact_type-InField = to_field-InField _

  secret-InField : InField (test_holder_secret crypto)
  unfolding test_holder_secret hex_to_big set_string trim_prefix
  secret-InField = omega arith

  key-InField : InField (test_key_hash crypto)
  unfolding be_value
  key-InField = omega arith

  pub key_text : compute_idempotency_key_hash session_key ≡ ok (test_key_hash crypto)
  unfolding compute_idempotency_key_hash
  key_text = refl

-- What is relied on: the two Poseidon implementations agree, the hash of field elements is one,
-- `poseidon` is the value that it returns, the key's coordinates are field elements, a signature of a
-- field element verifies under its key, and the circuit's verification then accepts it too.
pub record IsSound (hash : List ℤ → Result ℤ) (lib : NoirLib) (crypto : Crypto) (k : crypto.PrivKey)
    : Type 0 where
  pub agree : SameHash hash lib
  pub total : HashesField hash
  pub returns : Returns hash crypto
  pub x_small : InField (crypto.public_x k)
  pub y_small : InField (crypto.public_y k)
  pub signs :
      (m : ℤ)
      → InField m
      → crypto.verify_poseidon (crypto.public_x k) (crypto.public_y k) m (crypto.sign_poseidon k m)
        ≡ true
  pub same_eddsa :
      (m : ℤ) (sig : Signature)
      → crypto.verify_poseidon (crypto.public_x k) (crypto.public_y k) m sig ≡ true
      → lib.eddsa_verify
          (to_field (crypto.public_x k))
          (to_field (crypto.public_y k))
          (to_field sig.s)
          (to_field sig.r8x)
          (to_field sig.r8y)
          (to_field m)
        ≡ true

module _ (hash : List ℤ → Result ℤ) (lib : NoirLib) (crypto : Crypto) (k : crypto.PrivKey)
    (sound : IsSound hash lib crypto k) where
  abbrev x : ℤ
  x = crypto.public_x k

  abbrev y : ℤ
  y = crypto.public_y k

  hashes_two :
      (a b : ℤ)
      → InField a
      → InField b
      → (hash (a ∷ b ∷ []) ≡ ok (crypto.poseidon (a ∷ b ∷ [])))
        × InField (crypto.poseidon (a ∷ b ∷ []))
  hashes_two a b ha hb =
      let (h, e, small) = sound.total.two a b ha hb in
      let same = sound.returns (a ∷ b ∷ []) h e in
      (e ∙ ap ok (sym same), subst InField (sym same) small)

  hashes_four :
      (a b c d : ℤ)
      → InField a
      → InField b
      → InField c
      → InField d
      → (hash (a ∷ b ∷ c ∷ d ∷ []) ≡ ok (crypto.poseidon (a ∷ b ∷ c ∷ d ∷ [])))
        × InField (crypto.poseidon (a ∷ b ∷ c ∷ d ∷ []))
  hashes_four a b c d ha hb hc hd =
      let (h, e, small) = sound.total.four a b c d ha hb hc hd in
      let same = sound.returns (a ∷ b ∷ c ∷ d ∷ []) h e in
      (e ∙ ap ok (sym same), subst InField (sym same) small)

  pub leaf_hashed : (hash (x ∷ y ∷ []) ≡ ok (test_leaf crypto k)) × InField (test_leaf crypto k)
  unfolding test_leaf
  leaf_hashed = hashes_two x y sound.x_small sound.y_small

  pub tag_hashed :
      hash (test_holder_secret crypto ∷ test_verifier_id_hash crypto ∷ [])
      ≡ ok (test_subject_tag crypto)
  unfolding test_subject_tag
  tag_hashed = (hashes_two _ _ (secret-InField crypto) (verifier-InField crypto)).0

  pub nullifier_hashed :
      hash (
        test_holder_secret crypto
        ∷ test_verifier_id_hash crypto
        ∷ test_fact_type_hash crypto
        ∷ test_key_hash crypto
        ∷ [])
      ≡ ok (test_nullifier crypto)
  unfolding test_nullifier
  nullifier_hashed =
      (hashes_four _ _ _ _ (secret-InField crypto) (verifier-InField crypto)
        (fact_type-InField crypto) (key-InField crypto)).0

  pub cred_hashed :
      (hash (x ∷ y ∷ pos 11323 ∷ test_schema_hash crypto ∷ []) ≡ ok (cred_hash crypto k))
      × InField (cred_hash crypto k)
  unfolding cred_hash
  cred_hashed =
      hashes_four x y (pos 11323) (test_schema_hash crypto) sound.x_small sound.y_small
        (omega arith) (schema-InField crypto)
