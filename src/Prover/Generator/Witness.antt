-- ===== src/Prover/Generator/Witness.antt =====
-- The values of Prover.toml as the circuit reads them, and when the circuit accepts them.
use zk_fact_verification.Common.{
  ℕ, zero, suc, ◌+◌, ◌%◌, ◌^◌, ◌≤◌, ◌≡◌, ◌≢◌, ◌↔◌, refl, sym, ap, ◌∙◌, true, ℤ, pos, List, [], ◌∷◌,
  Bytes, some, Result, ok, err, panic, map, codes, get_elem?, ok_cases, wrapped_at-eq-ok,
  wrapped_at,
}
use zk_fact_verification.Std.Digits.{to_string}
use zk_fact_verification.Creds.{Credential}
use zk_fact_verification.Request.{VerificationRequest}
use zk_fact_verification.Policy.{IssuerEntry, IssuerPolicy}
use zk_fact_verification.Policy.Tree.{tree_depth, build_tree, compute_leaf}
use zk_fact_verification.Policy.Tree.Path.{get_merkle_path-compute_merkle_root}
use zk_fact_verification.Policy.Tree.Panics.{get_merkle_path-lt}
use zk_fact_verification.Circuit.{
  NoirLib, SameHash, CircuitInputs, to_field, compute_merkle_root, main,
}
use zk_fact_verification.Circuit.Binding.{main-iff-Holds}
use zk_fact_verification.Prover.{ProverConfig}
use zk_fact_verification.Prover.Field.{hex_to_field, field_to_hex, field_from_hex}
use zk_fact_verification.Prover.Field.Laws.{hex_to_field-field_to_hex}
use zk_fact_verification.Prover.Prepare.{Prepared, issuer_index, parse_leaves, prepare}
use zk_fact_verification.Prover.Prepare.Trace.{Trace, prepare-Trace}

-- The number that `fieldFromHex` prints: 0 for a text that is no number.
abbrev ok_or_zero : Result ℤ → ℤ
ok_or_zero r = elim r [ ok v ↦ v | err e ↦ pos 0 | panic ↦ pos 0 ]

pub sig_field : Bytes → ℤ
sig_field h = ok_or_zero (hex_to_field h)

print-ok_or_zero :
    (r : Result ℤ)
    → elim r [ ok v ↦ to_string v | err e ↦ codes "0" | panic ↦ codes "0" ]
      ≡ to_string (ok_or_zero r)
unfolding to_string
print-ok_or_zero (ok v) = refl
print-ok_or_zero (err e) = refl
print-ok_or_zero panic = refl

pub field_from_hex-sig_field : (h : Bytes) → field_from_hex h ≡ to_string (sig_field h)
unfolding field_from_hex sig_field
field_from_hex-sig_field h = print-ok_or_zero (hex_to_field h)

pub field_from_hex-field_to_hex : (v : ℤ) → field_from_hex (field_to_hex v) ≡ to_string v
unfolding field_from_hex
field_from_hex-field_to_hex v = rw (field_from_hex, hex_to_field-field_to_hex v) refl

pub sig_field-field_to_hex : (v : ℤ) → sig_field (field_to_hex v) ≡ v
unfolding sig_field
sig_field-field_to_hex v = rw (hex_to_field-field_to_hex v) refl

-- What the circuit reads from the text of `toml_of`.
unfoldable pub circuit_inputs : Credential → VerificationRequest → Prepared → ℕ → CircuitInputs
circuit_inputs cred req p valid_until = record {
  birth_date_days = to_field (pos cred.claims.birth_date_days);
  holder_secret = to_field p.holder_secret;
  issuer_pubkey_x = to_field p.issuer_pubkey_x;
  issuer_pubkey_y = to_field p.issuer_pubkey_y;
  sig_r8x = to_field (sig_field cred.signature.r8x);
  sig_r8y = to_field (sig_field cred.signature.r8y);
  sig_s = to_field (sig_field cred.signature.s);
  merkle_path = map to_field p.merkle_path;
  merkle_index_bits = p.merkle_index_bits;
  idempotency_key_hash = to_field p.idempotency_key_hash;
  verifier_id_hash = to_field p.verifier_id_hash;
  fact_type_hash = to_field p.fact_type_hash;
  issuer_policy_root = to_field p.policy_root;
  schema_hash = to_field p.schema_hash;
  subject_tag = to_field p.subject_tag;
  nullifier = to_field p.nullifier;
  valid_until = to_field (pos valid_until);
  cutoff_date_days = to_field (pos req.predicate.cutoff_date_days);
}

-- The policy's leaf for the credential's issuer is the hash of the credential's key.
pub record ListsKey (hash : List ℤ → Result ℤ) (cred : Credential) (pol : IssuerPolicy)
    (p : Prepared) : Type 0 where
  pub index : ℕ
  pub issuer : IssuerEntry
  pub leaf : ℤ
  pub first : issuer_index cred.issuer.did pol.issuers ≡ ok index
  pub listed : get_elem? pol.issuers index ≡ some issuer
  pub parsed : hex_to_field issuer.leaf ≡ ok leaf
  pub hashed : compute_leaf hash p.issuer_pubkey_x p.issuer_pubkey_y ≡ ok leaf

-- The conditions on the credential and the policy that the preparation does not test.
pub record IsProvable (lib : NoirLib) (c : CircuitInputs) (root : ℤ) : Type 0 where
  pub of_age : c.birth_date_days % 2 ^ 64 ≤ c.cutoff_date_days % 2 ^ 64
  pub signed :
      lib.eddsa_verify c.issuer_pubkey_x c.issuer_pubkey_y c.sig_s c.sig_r8x c.sig_r8y
        (lib.hash_4 c.issuer_pubkey_x c.issuer_pubkey_y c.birth_date_days c.schema_hash)
      ≡ true
  pub same_root : to_field root ≡ c.issuer_policy_root
  pub has_expiry : c.valid_until ≢ 0

abbrev ok_or_nil : Result (List ℤ) → List ℤ
ok_or_nil r = elim r [ ok xs ↦ xs | err e ↦ [] | panic ↦ [] ]

some_inj : {a b : IssuerEntry} → some a ≡ some b → a ≡ b
some_inj h = cc

at_head :
    {l : ℤ} {rest leaves : List ℤ}
    → ◌≡◌ {A = Result (List ℤ)} (ok (l ∷ rest)) (ok leaves)
    → get_elem? leaves 0 ≡ some l
at_head h = ap (λ (r : Result (List ℤ)). get_elem? (ok_or_nil r) 0) (sym h)

at_tail :
    (k : ℕ) {l : ℤ} {rest leaves : List ℤ}
    → ◌≡◌ {A = Result (List ℤ)} (ok (l ∷ rest)) (ok leaves)
    → get_elem? leaves (suc k) ≡ get_elem? rest k
at_tail k h = ap (λ (r : Result (List ℤ)). get_elem? (ok_or_nil r) (suc k)) (sym h)

parse_leaves-at :
    (i k : ℕ) (issuers : List IssuerEntry) (leaves : List ℤ) {iss : IssuerEntry} {leaf : ℤ}
    → parse_leaves i issuers ≡ ok leaves
    → get_elem? issuers k ≡ some iss
    → hex_to_field iss.leaf ≡ ok leaf
    → get_elem? leaves k ≡ some leaf
unfolding parse_leaves
parse_leaves-at i k [] leaves h at e = absurd (cc at)
parse_leaves-at i zero (x ∷ issuers) leaves h at e =
    ok_cases (wrapped_at _ _ (hex_to_field x.leaf)) _ h λ l el h1.
      ok_cases (parse_leaves (i + 1) issuers) _ h1 λ rest er h2.
        let same : hex_to_field x.leaf ≡ hex_to_field _ =
          ap (λ (t : IssuerEntry). hex_to_field t.leaf) (some_inj at) in
        cc (wrapped_at-eq-ok _ _ (hex_to_field x.leaf) el, same, e, at_head h2)
parse_leaves-at i (suc k) (x ∷ issuers) leaves h at e =
    ok_cases (wrapped_at _ _ (hex_to_field x.leaf)) _ h λ l el h1.
      ok_cases (parse_leaves (i + 1) issuers) _ h1
        λ rest er h2. at_tail k h2 ∙ parse_leaves-at (i + 1) k issuers rest er at e

-- The root that the path in the prepared values leads to, from the key's hash.
record Included (lib : NoirLib) (levels : List (List ℤ)) (p : Prepared) : Type 0 where
  root : ℤ
  top : get_elem? levels tree_depth ≡ some (root ∷ [])
  leads :
      compute_merkle_root lib
        (lib.hash_2 (to_field p.issuer_pubkey_x) (to_field p.issuer_pubkey_y))
        (map to_field p.merkle_path)
        p.merkle_index_bits
      ≡ to_field root

same_ok {ℓ} : {A : Type ℓ} {r : Result A} {a b : A} → r ≡ ok a → r ≡ ok b → a ≡ b
same_ok p q = cc

module _ (hash : List ℤ → Result ℤ) (lib : NoirLib) (agree : SameHash hash lib) (cfg : ProverConfig)
    (cred : Credential) (req : VerificationRequest) (pol : IssuerPolicy) (p : Prepared)
    (t : Trace hash cfg cred req pol p) (lists : ListsKey hash cred pol p) where
  trace-Included : Included lib t.levels p
  unfolding compute_leaf
  trace-Included =
      let same : lists.index ≡ t.leaf_index = same_ok lists.first t.index in
      let at : get_elem? t.leaves t.leaf_index ≡ some lists.leaf =
        ap (λ (i : ℕ). get_elem? t.leaves i) (sym same)
        ∙ parse_leaves-at 0 lists.index pol.issuers t.leaves t.parsed lists.listed lists.parsed in
      let (path, bits, root, found, _, _, top, leads) =
        get_merkle_path-compute_merkle_root hash lib agree t.leaves t.levels t.leaf_index lists.leaf
          t.built (get_merkle_path-lt hash t.leaves t.levels t.leaf_index _ t.built t.path) at in
      let e : (path, bits) ≡ (p.merkle_path, p.merkle_index_bits) = same_ok found t.path in
      record {
        root = root;
        top = top;
        leads =
            ap (λ h. compute_merkle_root lib h (map to_field p.merkle_path) p.merkle_index_bits)
              (sym (agree.two _ _ _ lists.hashed))
            ∙ ap
                (λ (r : List ℤ × List ℕ).
                  compute_merkle_root lib (to_field lists.leaf) (map to_field r.0) r.1)
                (sym e)
            ∙ leads;
      }

module _ (hash : List ℤ → Result ℤ) (lib : NoirLib) (agree : SameHash hash lib) (cfg : ProverConfig)
    (cred : Credential) (req : VerificationRequest) (pol : IssuerPolicy) (p : Prepared)
    (valid_until : ℕ) where
  -- A preparation that succeeds has built the policy's tree. If the policy lists the issuer's key, and
  -- the hash agrees with the circuit's, the values written to Prover.toml satisfy the circuit exactly
  -- when the holder is of age, the signature is valid, the tree's root is the policy's root, and
  -- `valid_until` is not 0 in the field: the circuit's tests of the path, of `subject_tag` and of
  -- `nullifier` always pass.
  pub prepare-main :
      prepare hash cfg cred req pol ≡ ok p
      → ListsKey hash cred pol p
      → (leaves : List ℤ) × (levels : List (List ℤ)) × (root : ℤ) × (parse_leaves 0 pol.issuers
          ≡ ok leaves)
        × (build_tree hash leaves ≡ ok levels)
        × (get_elem? levels tree_depth ≡ some (root ∷ []))
        × ((main lib (circuit_inputs cred req p valid_until) ≡ ok tt)
            ↔ IsProvable lib (circuit_inputs cred req p valid_until) root)
  unfolding circuit_inputs
  prepare-main done lists =
      let t = prepare-Trace hash cfg cred req pol p done in
      let i = trace-Included hash lib agree cfg cred req pol p t lists in
      let holds = main-iff-Holds lib (circuit_inputs cred req p valid_until) in
      (
        t.leaves,
        t.levels,
        i.root,
        t.parsed,
        t.built,
        i.top,
        (
          (λ accepted.
              let h = holds.0 accepted in
              record {
                of_age = h.of_age;
                signed = h.signed;
                same_root = sym i.leads ∙ h.included;
                has_expiry = h.has_expiry;
              }),
          (λ c. holds.1 (record {
            of_age = c.of_age;
            signed = c.signed;
            included = i.leads ∙ c.same_root;
            tag = sym (agree.two _ _ _ t.tag);
            nullifies = sym (agree.four _ _ _ _ _ t.nullifies);
            has_expiry = c.has_expiry;
          })),
        ),
      )
