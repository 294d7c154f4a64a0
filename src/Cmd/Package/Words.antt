-- ===== src/Cmd/Package/Words.antt =====
-- The package of `GenerateProof` and its reader in `submitFactCmd` (cli/cmd/main.go).
use zk_fact_verification.Common.{
  ℕ, ◌%◌, ◌^◌, ◌<◌, ◌≡◌, refl, sym, ap, ℤ, pos, negsuc, [], ◌∷◌, Bytes, IsByte, All, some, ok,
  arith,
}
use zk_fact_verification.Std.Slices.{trim_prefix, be_value}
use zk_fact_verification.Std.Hex.Value.{decode_string-encode_to_string}
use zk_fact_verification.Std.Digits.{set_string}
use zk_fact_verification.Contracts.FactRegistry.{Submission}
use zk_fact_verification.Blockchain.Bytes32.{IsWord, hex_to_bytes32}
use zk_fact_verification.Request.{VerificationRequest}
use zk_fact_verification.Prover.Prepare.{Prepared}
use zk_fact_verification.Prover.Field.{field_to_hex}
use zk_fact_verification.Prover.Field.Laws.{hex_to_bytes32-field_to_hex}
use zk_fact_verification.Prover.Generator.{make_package}
use zk_fact_verification.Cmd.Package.{
  hex_decode, parse_public_inputs, input_word, valid_until_of, parse_chain_id, read_package,
}

-- The word that spells a value.
pub record Spells (v : ℤ) (w : Bytes) : Type 0 where
  pub read : hex_to_bytes32 (field_to_hex v) ≡ ok w
  pub word : IsWord w
  pub value : v ≡ pos (be_value 0 w)

-- A value that fits a word.
abbrev pub FitsWord : ℤ → Type 0
FitsWord (pos n) = n < 2 ^ 256
FitsWord (negsuc n) = ⊥

spell : (v : ℤ) → FitsWord v → (w : Bytes) × Spells v w
spell (pos n) h =
    let (w, e, word, value) = hex_to_bytes32-field_to_hex n h in
    (w, record { read = e; word = word; value = ap pos (sym value) })
spell (negsuc n) h = absurd h

pub record FitWords (p : Prepared) : Type 0 where
  pub verifier_id_hash : FitsWord p.verifier_id_hash
  pub fact_type_hash : FitsWord p.fact_type_hash
  pub policy_root : FitsWord p.policy_root
  pub schema_hash : FitsWord p.schema_hash
  pub subject_tag : FitsWord p.subject_tag
  pub nullifier : FitsWord p.nullifier

-- The arguments of a submission are its public inputs, and these are the prepared values.
pub record Carries (p : Prepared) (proof : Bytes) (expiry_time cutoff_days : ℕ) (a : Submission)
    : Type 0 where
  pub expiry_word : Bytes
  pub cutoff_word : Bytes
  pub proof_bytes : a.proof ≡ proof
  pub inputs :
      a.public_inputs
      ≡ a.verifier_id_hash ∷ a.fact_type_hash ∷ a.issuer_policy_root ∷ a.schema_hash ∷ a.subject_tag
        ∷ a.nullifier ∷ expiry_word ∷ cutoff_word ∷ []
  pub verifier_id_hash : Spells p.verifier_id_hash a.verifier_id_hash
  pub fact_type_hash : Spells p.fact_type_hash a.fact_type_hash
  pub policy_root : Spells p.policy_root a.issuer_policy_root
  pub schema_hash : Spells p.schema_hash a.schema_hash
  pub subject_tag : Spells p.subject_tag a.subject_tag
  pub nullifier : Spells p.nullifier a.nullifier
  pub expiry : Spells (pos expiry_time) expiry_word
  pub cutoff : Spells (pos cutoff_days) cutoff_word
  pub valid_until : a.valid_until ≡ expiry_time

parse_chain_id_ok :
    (chain_id : Bytes) (id : ℤ) → set_string 10 chain_id ≡ some id → parse_chain_id chain_id ≡ ok id
unfolding parse_chain_id
parse_chain_id_ok chain_id id h = rw (h, parse_chain_id)

pos_inj : (m n : ℕ) → pos m ≡ pos n → m ≡ n
pos_inj m n h = cc

small_value : (m n : ℕ) → m < 2 ^ 64 → pos m ≡ pos n → n % 2 ^ 64 ≡ m
small_value m n h e = omega (arith, pos_inj m n e)

module _ (req : VerificationRequest) (p : Prepared) (valid_until : ℕ)
    (proof generated_at chain_id : Bytes) (id : ℤ) (fits : FitWords p)
    (small : valid_until < 2 ^ 64) (small_cutoff : req.predicate.cutoff_date_days < 2 ^ 64)
    (bytes : All IsByte proof) (chain : set_string 10 chain_id ≡ some id) where
  -- The package that `GenerateProof` makes is read by `submit-fact` without error, into arguments
  -- that agree with the public inputs and spell the prepared values, if these fit 32 bytes, the end of
  -- validity and the cutoff date fit 64 bits, and the configured chain id parses.
  pub read_package-make_package :
      (a : Submission) × (read_package chain_id (make_package req p valid_until proof generated_at)
        ≡ ok (id, a))
      × Carries p proof valid_until req.predicate.cutoff_date_days a
  unfolding read_package make_package parse_public_inputs input_word valid_until_of hex_decode
      trim_prefix
  read_package-make_package =
      let (v, sv) = spell p.verifier_id_hash fits.verifier_id_hash in
      let (f, sf) = spell p.fact_type_hash fits.fact_type_hash in
      let (r, sr) = spell p.policy_root fits.policy_root in
      let (c, sc) = spell p.schema_hash fits.schema_hash in
      let (t, st) = spell p.subject_tag fits.subject_tag in
      let (n, sn) = spell p.nullifier fits.nullifier in
      let (e, se) = spell (pos valid_until) (omega arith) in
      let (d, sd) = spell (pos req.predicate.cutoff_date_days) (omega arith) in
      let a : Submission = record {
        proof = proof;
        public_inputs = v ∷ f ∷ r ∷ c ∷ t ∷ n ∷ e ∷ d ∷ [];
        verifier_id_hash = v;
        subject_tag = t;
        fact_type_hash = f;
        issuer_policy_root = r;
        schema_hash = c;
        nullifier = n;
        valid_until = be_value 0 e % 2 ^ 64;
      } in
      (
        a,
        rw (
          decode_string-encode_to_string proof bytes,
          sv.read,
          sf.read,
          sr.read,
          sc.read,
          st.read,
          sn.read,
          se.read,
          sd.read,
          parse_chain_id_ok chain_id id chain,
        ),
        record {
          expiry_word = e;
          cutoff_word = d;
          proof_bytes = refl;
          inputs = refl;
          verifier_id_hash = sv;
          fact_type_hash = sf;
          policy_root = sr;
          schema_hash = sc;
          subject_tag = st;
          nullifier = sn;
          expiry = se;
          cutoff = sd;
          valid_until = small_value valid_until (be_value 0 e) small se.value;
        },
      )
