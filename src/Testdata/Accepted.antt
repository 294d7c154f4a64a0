-- ===== src/Testdata/Accepted.antt =====
-- The generated files as `GenerateProof` and the circuit take them.
use mathlib.Core.Path.{subst}
use zk_fact_verification.Common.{
  ◌≤◌, inr, codes, Bytes, ℕ, ◌≡◌, refl, sym, ap, ◌∙◌, true, ℤ, pos, List, [], ◌∷◌, some, Option,
  Result, ok, get_elem?, arith, bytes_eq,
}
use zk_fact_verification.Circuit.{to_field, NoirLib, main}
use zk_fact_verification.Policy.Tree.{
  tree_depth, build_tree, get_merkle_path, compute_leaf, merkle_path_from,
}
use zk_fact_verification.Prover.{ProverConfig}
use zk_fact_verification.Prover.Field.{
  field_to_hex, hex_to_field, compute_subject_tag, compute_nullifier,
}
use zk_fact_verification.Prover.Field.Laws.{hex_to_field-field_to_hex}
use zk_fact_verification.Prover.Toml.{build_prover_toml}
use zk_fact_verification.Prover.Prepare.{Prepared, issuer_index, find_issuer, parse_leaves, prepare}
use zk_fact_verification.Prover.Generator.{toml_of}
use zk_fact_verification.Prover.Generator.Witness.{
  ListsKey, IsProvable, circuit_inputs, prepare-main, sig_field, sig_field-field_to_hex,
  field_from_hex-field_to_hex,
}
use mathlib.Core.List.{cons-ne-nil}
use zk_fact_verification.Std.Slices.{has_prefix}
use zk_fact_verification.Request.{validate}
use zk_fact_verification.Request.Validity.{validate_iff}
use zk_fact_verification.Testdata.{
  Crypto, TestData, test_schema_hash, test_holder_secret, test_verifier_id_hash,
  test_fact_type_hash, test_key_hash, test_subject_tag, test_nullifier, cred_hash, test_signature,
  test_leaf, test_levels, test_credential, test_policy, test_request, test_prover_toml,
  test_valid_until, generate, issuer_did,
}
use zk_fact_verification.Testdata.Grown.{Grown, grown}
use zk_fact_verification.Testdata.Hashes.{
  IsSound, key_text, leaf_hashed, tag_hashed, nullifier_hashed, cred_hashed,
}

same_ok {ℓ} : {A : Type ℓ} {r : Result A} {a b : A} → r ≡ ok a → r ≡ ok b → a ≡ b
same_ok h e = cc

head_inj : {a b : ℤ} → ◌≡◌ {A = Option (List ℤ)} (some (a ∷ [])) (some (b ∷ [])) → a ≡ b
head_inj h = cc

module _ (hash : List ℤ → Result ℤ) (lib : NoirLib) (crypto : Crypto) (k : crypto.PrivKey)
    (sound : IsSound hash lib crypto k) where
  abbrev x : ℤ
  x = crypto.public_x k

  abbrev y : ℤ
  y = crypto.public_y k

  abbrev tree : Grown hash lib crypto k sound
  tree = grown hash lib crypto k sound

  abbrev the_root : ℤ
  the_root = tree.root

  test_prepared : Prepared
  test_prepared = record {
    issuer_pubkey_x = x;
    issuer_pubkey_y = y;
    merkle_path = tree.path;
    merkle_index_bits = tree.bits;
    holder_secret = test_holder_secret crypto;
    verifier_id_hash = test_verifier_id_hash crypto;
    fact_type_hash = test_fact_type_hash crypto;
    idempotency_key_hash = test_key_hash crypto;
    subject_tag = test_subject_tag crypto;
    nullifier = test_nullifier crypto;
    schema_hash = test_schema_hash crypto;
    policy_root = the_root;
  }

  issuer_found : issuer_index issuer_did (test_policy crypto k the_root).issuers ≡ ok 0
  unfolding issuer_index find_issuer test_policy bytes_eq
  issuer_found = refl

  leaf_parsed :
      parse_leaves 0 (test_policy crypto k the_root).issuers ≡ ok (test_leaf crypto k ∷ [])
  unfolding parse_leaves test_policy
  leaf_parsed = rw (hex_to_field-field_to_hex (test_leaf crypto k)) refl

  module _ (cfg : ProverConfig)
      (secret : hex_to_field cfg.holder_secret ≡ ok (test_holder_secret crypto)) where
    prepare-test_prepared :
        prepare hash cfg
          (test_credential crypto k)
          (test_request crypto k the_root)
          (test_policy crypto k the_root)
        ≡ ok test_prepared
    unfolding prepare compute_subject_tag compute_nullifier test_prepared test_credential
        test_request test_policy
    prepare-test_prepared =
        rw
          (
            hex_to_field-field_to_hex x,
            hex_to_field-field_to_hex y,
            issuer_found,
            leaf_parsed,
            tree.built,
            tree.found,
            secret,
            hex_to_field-field_to_hex (test_verifier_id_hash crypto),
            hex_to_field-field_to_hex (test_fact_type_hash crypto),
            key_text crypto,
            (tag_hashed hash lib crypto k sound),
            (nullifier_hashed hash lib crypto k sound),
            hex_to_field-field_to_hex (test_schema_hash crypto),
            hex_to_field-field_to_hex the_root,
          )
          refl

    toml_same :
        test_prover_toml crypto k tree.path tree.bits the_root
        ≡ toml_of
            (test_credential crypto k)
            (test_request crypto k the_root)
            test_prepared
            test_valid_until
    unfolding test_prover_toml toml_of build_prover_toml test_prepared test_credential test_request
    toml_same =
        let sig = test_signature crypto k in
        rw
          (
            field_from_hex-field_to_hex sig.r8x,
            field_from_hex-field_to_hex sig.r8y,
            field_from_hex-field_to_hex sig.s,
          )
          refl

    lists_key :
        ListsKey hash (test_credential crypto k) (test_policy crypto k the_root) test_prepared
    unfolding test_credential test_policy test_prepared compute_leaf
    lists_key = record {
      index = 0;
      issuer = _;
      leaf = test_leaf crypto k;
      first = issuer_found;
      listed = refl;
      parsed = hex_to_field-field_to_hex (test_leaf crypto k);
      hashed = (leaf_hashed hash lib crypto k sound).0;
    }

    verified : crypto.verify_poseidon x y (cred_hash crypto k) (test_signature crypto k) ≡ true
    unfolding test_signature
    verified = sound.signs (cred_hash crypto k) (cred_hashed hash lib crypto k sound).1

    signed :
        lib.eddsa_verify
          (to_field x)
          (to_field y)
          (to_field (sig_field (test_credential crypto k).signature.s))
          (to_field (sig_field (test_credential crypto k).signature.r8x))
          (to_field (sig_field (test_credential crypto k).signature.r8y))
          (lib.hash_4
            (to_field x)
            (to_field y)
            (to_field (pos 11323))
            (to_field (test_schema_hash crypto)))
        ≡ true
    unfolding test_credential
    signed =
        let sig = test_signature crypto k in
        rw
          (
            sig_field-field_to_hex sig.s,
            sig_field-field_to_hex sig.r8x,
            sig_field-field_to_hex sig.r8y,
            sym (
                sound.agree.four x y (pos 11323) (test_schema_hash crypto) (cred_hash crypto k)
                  (cred_hashed hash lib crypto k sound).0),
          )
          (sound.same_eddsa (cred_hash crypto k) sig verified)

    abbrev ProvableAt : ℤ → Type 0
    ProvableAt = IsProvable lib (
        circuit_inputs (test_credential crypto k) (test_request crypto k the_root) test_prepared
          test_valid_until)

    provable : ProvableAt the_root
    unfolding circuit_inputs test_prepared test_request test_credential to_field
    provable = record {
      of_age = omega arith;
      signed = signed;
      same_root = refl;
      has_expiry = omega arith;
    }

    generated :
        generate crypto k
        ≡ ok (record {
          credential = test_credential crypto k;
          issuer_policy = test_policy crypto k the_root;
          request = test_request crypto k the_root;
          prover_toml = test_prover_toml crypto k tree.path tree.bits the_root;
        })
    unfolding generate get_merkle_path
    generated =
        let at_top : get_elem? (test_levels crypto k) tree_depth ≡ some (the_root ∷ []) =
          ap (λ (t : List (List ℤ)). get_elem? t tree_depth) tree.same ∙ tree.top in
        let cut : merkle_path_from tree_depth (test_levels crypto k) 0 ≡ ok (tree.path, tree.bits) =
          ap (λ (t : List (List ℤ)). merkle_path_from tree_depth t 0) tree.same ∙ tree.found in
        rw (verified, at_top, cut) refl

    request_valid :
        (parse_time : Bytes → Result ℕ) (now expiry : ℕ)
        → parse_time (codes "2027-03-30T10:05:00Z") ≡ ok expiry
        → now ≤ expiry
        → validate parse_time now (test_request crypto k the_root) ≡ ok tt
    unfolding test_request field_to_hex has_prefix
    request_valid parse_time now expiry parses fresh =
        (validate_iff parse_time now (test_request crypto k the_root)).1 (record {
          has_id = cons-ne-nil _ _;
          verifier = refl;
          fact_type = refl;
          schema = refl;
          fresh = inr (expiry, parses, fresh);
          has_root = cons-ne-nil _ _;
          has_registry = cons-ne-nil _ _;
        })

    same_top :
        (levels : List (List ℤ)) (root : ℤ)
        → levels ≡ tree.levels
        → get_elem? levels tree_depth ≡ some (root ∷ [])
        → root ≡ the_root
    same_top levels root same top =
        head_inj (sym top ∙ ap (λ (t : List (List ℤ)). get_elem? t tree_depth) same ∙ tree.top)

    -- For libraries that are sound in the sense of `IsSound`, a holder configured with the
    -- generator's secret, and a clock that has not passed the request's date of expiry: the generator
    -- ends without an error; the request that it writes is valid; on the credential, the policy and
    -- the request that it writes, the preparation of `GenerateProof` succeeds; the Prover.toml that
    -- it writes is, byte for byte, the one for these prepared values and its own end of validity;
    -- and the circuit accepts them.
    pub generate_accepted :
        (parse_time : Bytes → Result ℕ) (now expiry : ℕ)
        → parse_time (codes "2027-03-30T10:05:00Z") ≡ ok expiry
        → now ≤ expiry
        → (made : TestData) × (p : Prepared) × (generate crypto k ≡ ok made)
          × (validate parse_time now made.request ≡ ok tt)
          × (prepare hash cfg made.credential made.request made.issuer_policy ≡ ok p)
          × (made.prover_toml ≡ toml_of made.credential made.request p test_valid_until)
          × (main lib (circuit_inputs made.credential made.request p test_valid_until) ≡ ok tt)
    generate_accepted parse_time now expiry parses fresh =
        let (leaves, levels, root, parsed, built, top, accepts) =
          prepare-main hash lib sound.agree cfg (test_credential crypto k)
            (test_request crypto k the_root) (test_policy crypto k the_root) test_prepared
            test_valid_until prepare-test_prepared lists_key in
        let same_root : root ≡ the_root =
          same_top levels root
            (same_ok (ap (build_tree hash) (same_ok leaf_parsed parsed) ∙ built) tree.built) top in
        (
          _,
          test_prepared,
          generated,
          request_valid parse_time now expiry parses fresh,
          prepare-test_prepared,
          toml_same,
          accepts.1 (subst ProvableAt (sym same_root) provable),
        )
