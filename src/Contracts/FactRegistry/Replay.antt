-- ===== src/Contracts/FactRegistry/Replay.antt =====
-- Which submissions the registry refuses later, and what a lookup finds after a submission.
use zk_fact_verification.Common.{
  ℕ, ◌≡◌, refl, sym, ap, ◌∙◌, List, Bytes, Bool, true, false, ◌||◌, ok, err, text, bytes_eq,
  bytes_eq_refl, leb, ◌==◌, arith, if◌then◌else◌, Bool-cases, inl, inr,
}
use mathlib.Core.Path.{subst}
use zk_fact_verification.Contracts.FactRegistry.{
  FactRegistry, Submission, Context, fact_key, stored_fact, store_fact, submit_verified_fact,
  get_fact, is_fact_valid,
}
use zk_fact_verification.Contracts.FactRegistry.Invariant.{submit, Reach, here, next, submit_iff}

module _ (keccak : Bytes → Bytes) (verify : Bytes → List Bytes → Bool) where
  store_fact-used :
      (ctx : Context) (a : Submission) (r : FactRegistry) (n : Bytes)
      → r.used_nullifiers n ≡ true
      → (store_fact keccak ctx a r).used_nullifiers n ≡ true
  unfolding store_fact
  store_fact-used ctx a r n h = ground arith

  store_fact-exists :
      (ctx : Context) (a : Submission) (r : FactRegistry) (k : Bytes)
      → (r.facts k).exists ≡ true
      → ((store_fact keccak ctx a r).facts k).exists ≡ true
  unfolding store_fact stored_fact
  store_fact-exists ctx a r k h =
      elim (Bool-cases
        (bytes_eq (fact_key keccak a.verifier_id_hash a.subject_tag a.fact_type_hash) k)) [
          | inl hit ↦ rw hit
          | inr miss ↦ rw miss h
        ]

  Reach-used :
      {r r' : FactRegistry} (n : Bytes)
      → Reach keccak verify r r'
      → r.used_nullifiers n ≡ true
      → r'.used_nullifiers n ≡ true
  Reach-used n here h = h
  Reach-used n (next reach (submit ctx a r {r'} e)) h =
      subst (λ t. t.used_nullifiers n ≡ true) ((submit_iff keccak verify ctx a r r').0 e).2
        (store_fact-used ctx a r n (Reach-used n reach h))

  -- A fact is never removed: it stays under its key, or is replaced by a later one.
  pub Reach-exists :
      {r r' : FactRegistry} (k : Bytes)
      → Reach keccak verify r r'
      → (r.facts k).exists ≡ true
      → (r'.facts k).exists ≡ true
  Reach-exists k here h = h
  Reach-exists k (next reach (submit ctx a r {r'} e)) h =
      subst (λ t. (t.facts k).exists ≡ true) ((submit_iff keccak verify ctx a r r').0 e).2
        (store_fact-exists ctx a r k (Reach-exists k reach h))

  submit_uses :
      (ctx : Context) (a : Submission) (r : FactRegistry)
      → (store_fact keccak ctx a r).used_nullifiers a.nullifier ≡ true
  unfolding store_fact
  submit_uses ctx a r = rw (bytes_eq_refl a.nullifier)

  refused :
      (ctx : Context) (b : Submission) (r : FactRegistry)
      → verify b.proof b.public_inputs ≡ true
      → r.used_nullifiers b.nullifier ≡ true
      → submit_verified_fact keccak verify ctx b r ≡ err (text "Nullifier already used")
  unfolding submit_verified_fact
  refused ctx b r v h = rw (v, h)

  -- After an accepted submission, in every later state, a submission that names the same nullifier
  -- is refused with "Nullifier already used", even if its proof verifies.
  pub submit_once :
      (ctx ctx' : Context) (a b : Submission) (r r' r'' : FactRegistry)
      → submit_verified_fact keccak verify ctx a r ≡ ok r'
      → Reach keccak verify r' r''
      → b.nullifier ≡ a.nullifier
      → verify b.proof b.public_inputs ≡ true
      → submit_verified_fact keccak verify ctx' b r'' ≡ err (text "Nullifier already used")
  submit_once ctx ctx' a b r r' r'' e reach same v =
      let first : r'.used_nullifiers a.nullifier ≡ true =
        subst (λ t. t.used_nullifiers a.nullifier ≡ true)
          ((submit_iff keccak verify ctx a r r').0 e).2 (submit_uses ctx a r) in
      refused ctx' b r'' v
        (ap (λ n. r''.used_nullifiers n) same ∙ Reach-used a.nullifier reach first)

  -- The arguments are not compared with the public inputs of the proof: after an accepted
  -- submission, one with the same proof and public inputs, any other arguments and a nullifier not
  -- used yet is accepted too.
  pub resubmit :
      (ctx ctx' : Context) (a b : Submission) (r r' : FactRegistry)
      → submit_verified_fact keccak verify ctx a r ≡ ok r'
      → b.proof ≡ a.proof
      → b.public_inputs ≡ a.public_inputs
      → r'.used_nullifiers b.nullifier ≡ false
      → submit_verified_fact keccak verify ctx' b r' ≡ ok (store_fact keccak ctx' b r')
  resubmit ctx ctx' a b r r' e proof inputs fresh =
      let verified = ((submit_iff keccak verify ctx a r r').0 e).0 in
      (submit_iff keccak verify ctx' b r' _).1
        (cc (ap verify proof, ap (λ i. verify a.proof i) inputs, verified), fresh, refl)

  store_fact-get_fact :
      (ctx : Context) (a : Submission) (r : FactRegistry) (v s f : Bytes)
      → get_fact keccak (store_fact keccak ctx a r) v s f ≡ (
          if bytes_eq
            (fact_key keccak a.verifier_id_hash a.subject_tag a.fact_type_hash)
            (fact_key keccak v s f)
          then stored_fact keccak ctx a
          else get_fact keccak r v s f)
  unfolding get_fact store_fact
  store_fact-get_fact ctx a r v s f = refl

  store_fact-is_fact_valid :
      (ctx : Context) (a : Submission) (r : FactRegistry) (now : ℕ)
      → is_fact_valid keccak
          (store_fact keccak ctx a r)
          now
          a.verifier_id_hash
          a.subject_tag
          a.fact_type_hash
        ≡ (a.valid_until == 0 || leb now a.valid_until)
  unfolding is_fact_valid store_fact stored_fact
  store_fact-is_fact_valid ctx a r now =
      rw (bytes_eq_refl (fact_key keccak a.verifier_id_hash a.subject_tag a.fact_type_hash))

  -- After an accepted submission `getFact` returns the submitted fact for its three hashes and what
  -- it returned before for hashes with another key, and `isFactValid` says whether it has expired.
  pub get_fact-submit :
      (ctx : Context) (a : Submission) (r r' : FactRegistry) (v s f : Bytes) (now : ℕ)
      → submit_verified_fact keccak verify ctx a r ≡ ok r'
      → (get_fact keccak r' v s f ≡ (
          if bytes_eq
            (fact_key keccak a.verifier_id_hash a.subject_tag a.fact_type_hash)
            (fact_key keccak v s f)
          then stored_fact keccak ctx a
          else get_fact keccak r v s f))
        × (is_fact_valid keccak r' now a.verifier_id_hash a.subject_tag a.fact_type_hash
            ≡ (a.valid_until == 0 || leb now a.valid_until))
  get_fact-submit ctx a r r' v s f now e =
      let stored = ((submit_iff keccak verify ctx a r r').0 e).2 in
      (
        ap (λ t. get_fact keccak t v s f) (sym stored) ∙ store_fact-get_fact ctx a r v s f,
        ap (λ t. is_fact_valid keccak t now a.verifier_id_hash a.subject_tag a.fact_type_hash)
              (sym stored)
            ∙ store_fact-is_fact_valid ctx a r now,
      )
