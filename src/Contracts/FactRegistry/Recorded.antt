-- ===== src/Contracts/FactRegistry/Recorded.antt =====
-- One accepted submission, field by field.
use mathlib.Core.Path.{subst}
use zk_fact_verification.Common.{
  ◌%◌, ◌^◌, ◌≡◌, ◌↔◌, refl, sym, ◌∙◌, List, [], ◌∷◌, ◌++◌, Bytes, Bool, true, false, ◌||◌, ok,
  bytes_eq, bytes_eq_refl, bytes_eq→eq, arith, Bool-cases, inl, inr,
}
use zk_fact_verification.Contracts.FactRegistry.{
  VerifiedFact, FactRegistry, Submission, Context, fact_key, stored_fact, store_fact,
  submit_verified_fact,
}
use zk_fact_verification.Contracts.FactRegistry.Invariant.{submit_iff}

-- The hash of the three hashes, one behind the other.
abbrev pub key_of : (Bytes → Bytes) → Submission → Bytes
key_of keccak a = keccak (a.verifier_id_hash ++ (a.subject_tag ++ a.fact_type_hash))

-- The fact has the arguments' values, and the sender and the time of the transaction.
pub record IsFactOf (ctx : Context) (a : Submission) (fact : VerifiedFact) : Type 0 where
  pub verifier_id_hash : fact.verifier_id_hash ≡ a.verifier_id_hash
  pub subject_tag : fact.subject_tag ≡ a.subject_tag
  pub fact_type_hash : fact.fact_type_hash ≡ a.fact_type_hash
  pub issuer_policy_root : fact.issuer_policy_root ≡ a.issuer_policy_root
  pub schema_hash : fact.schema_hash ≡ a.schema_hash
  pub nullifier : fact.nullifier ≡ a.nullifier
  pub verified_at : fact.verified_at ≡ ctx.timestamp % 2 ^ 64
  pub valid_until : fact.valid_until ≡ a.valid_until
  pub submitter : fact.submitter ≡ ctx.sender
  pub exists : fact.exists ≡ true

IsFactOf-unique :
    (ctx : Context) (a : Submission) (f g : VerifiedFact)
    → IsFactOf ctx a f
    → IsFactOf ctx a g
    → f ≡ g
IsFactOf-unique ctx a f g p q = λ i. record {
  verifier_id_hash = (p.verifier_id_hash ∙ sym (q.verifier_id_hash)) i;
  subject_tag = (p.subject_tag ∙ sym (q.subject_tag)) i;
  fact_type_hash = (p.fact_type_hash ∙ sym (q.fact_type_hash)) i;
  issuer_policy_root = (p.issuer_policy_root ∙ sym (q.issuer_policy_root)) i;
  schema_hash = (p.schema_hash ∙ sym (q.schema_hash)) i;
  nullifier = (p.nullifier ∙ sym (q.nullifier)) i;
  verified_at = (p.verified_at ∙ sym (q.verified_at)) i;
  valid_until = (p.valid_until ∙ sym (q.valid_until)) i;
  submitter = (p.submitter ∙ sym (q.submitter)) i;
  exists = (p.exists ∙ sym (q.exists)) i;
}

-- What a state is behind another one, when the submission was taken between them.
pub record IsRecorded (keccak : Bytes → Bytes) (ctx : Context) (a : Submission)
    (r r' : FactRegistry) : Type 0 where
  pub stored : IsFactOf ctx a (r'.facts (key_of keccak a))
  pub kept : (k : Bytes) → bytes_eq (key_of keccak a) k ≡ false → r'.facts k ≡ r.facts k
  pub used : (n : Bytes) → r'.used_nullifiers n ≡ (bytes_eq a.nullifier n || r.used_nullifiers n)
  pub emitted :
      r'.events
      ≡ r.events
        ++ (record {
          fact_key = key_of keccak a;
          subject_tag = a.subject_tag;
          verifier_id_hash = a.verifier_id_hash;
          fact_type_hash = a.fact_type_hash;
          submitter = ctx.sender;
        }
            ∷ [])

module _ (keccak : Bytes → Bytes) (ctx : Context) (a : Submission) (r : FactRegistry) where
  store_fact-IsRecorded : IsRecorded keccak ctx a r (store_fact keccak ctx a r)
  unfolding store_fact stored_fact fact_key
  store_fact-IsRecorded = record {
    stored = rw (bytes_eq_refl (key_of keccak a)) (record {
      verifier_id_hash = refl;
      subject_tag = refl;
      fact_type_hash = refl;
      issuer_policy_root = refl;
      schema_hash = refl;
      nullifier = refl;
      verified_at = refl;
      valid_until = refl;
      submitter = refl;
      exists = refl;
    });
    kept = λ k miss. rw miss refl;
    used = λ n. ground arith;
    emitted = refl;
  }

  IsRecorded-unique :
      (r' r'' : FactRegistry)
      → IsRecorded keccak ctx a r r'
      → IsRecorded keccak ctx a r r''
      → r' ≡ r''
  IsRecorded-unique r' r'' p q = λ i. record {
    facts = λ k. same_fact k i;
    used_nullifiers = λ n. (p.used n ∙ sym (q.used n)) i;
    events = (p.emitted ∙ sym (q.emitted)) i;
  }
    where
      same_fact : (k : Bytes) → r'.facts k ≡ r''.facts k
      same_fact k = elim (Bool-cases (bytes_eq (key_of keccak a) k)) [
        | inl hit ↦
            subst (λ t. r'.facts t ≡ r''.facts t) (bytes_eq→eq (key_of keccak a) k hit)
              (IsFactOf-unique ctx a _ _ p.stored q.stored)
        | inr miss ↦ p.kept k miss ∙ sym (q.kept k miss)
      ]

-- `submitVerifiedFact` succeeds with a state exactly if the proof verifies, the nullifier was not
-- used, and the state is the one before except that the key holds a fact with the arguments' values
-- and the transaction's sender and time, the nullifier is used, and one event is emitted.
pub submit_iff-IsRecorded :
    (keccak : Bytes → Bytes) (verify : Bytes → List Bytes → Bool) (ctx : Context) (a : Submission)
    (r r' : FactRegistry)
    → (submit_verified_fact keccak verify ctx a r ≡ ok r') ↔ (
        (verify a.proof a.public_inputs ≡ true)
        × (r.used_nullifiers a.nullifier ≡ false)
        × IsRecorded keccak ctx a r r')
submit_iff-IsRecorded keccak verify ctx a r r' =
    let both = submit_iff keccak verify ctx a r r' in
    let recorded = store_fact-IsRecorded keccak ctx a r in
    (
      (λ e.
          let (verified, fresh, stored) = both.0 e in
          (verified, fresh, subst (IsRecorded keccak ctx a r) stored recorded)),
      (λ (verified, fresh, h).
          both.1 (verified, fresh, IsRecorded-unique keccak ctx a r _ r' recorded h)),
    )
