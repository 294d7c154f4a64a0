-- ===== src/Contracts/FactRegistry/Invariant.antt =====
-- What holds of every state that the registry can reach.
use mathlib.Core.Path.{subst}
use zk_fact_verification.Common.{
  ◌≡◌, ◌↔◌, sym, List, Bytes, Bool, true, false, ok, bytes_eq, bytes_eq_refl, bytes_eq→eq, arith,
  if◌then◌else◌, Bool-cases, inl, inr,
}
use zk_fact_verification.Contracts.FactRegistry.{
  FactRegistry, empty_registry, Submission, Context, fact_key, stored_fact, store_fact,
  submit_verified_fact,
}

-- One accepted transaction.
pub data Step (keccak : Bytes → Bytes) (verify : Bytes → List Bytes → Bool)
    : FactRegistry → FactRegistry → Type 0 where
  submit :
      (ctx : Context) (a : Submission) (r : FactRegistry) {r' : FactRegistry}
      → submit_verified_fact keccak verify ctx a r ≡ ok r'
      → Step keccak verify r r'

pub data Reach (keccak : Bytes → Bytes) (verify : Bytes → List Bytes → Bool) (start : FactRegistry)
    : FactRegistry → Type 0 where
  here : Reach keccak verify start start
  next :
      {r r' : FactRegistry}
      → Reach keccak verify start r
      → Step keccak verify r r'
      → Reach keccak verify start r'

-- A stored fact stands under the key of its own fields, and its nullifier is used.
pub record IsConsistent (keccak : Bytes → Bytes) (r : FactRegistry) : Type 0 where
  pub keyed :
      (k : Bytes)
      → (r.facts k).exists ≡ true
      → k
        ≡ fact_key keccak
            (r.facts k).verifier_id_hash
            (r.facts k).subject_tag
            (r.facts k).fact_type_hash
  pub nullified :
      (k : Bytes) → (r.facts k).exists ≡ true → r.used_nullifiers (r.facts k).nullifier ≡ true

module _ (keccak : Bytes → Bytes) (ctx : Context) (a : Submission) (r : FactRegistry) where
  abbrev key : Bytes
  key = fact_key keccak a.verifier_id_hash a.subject_tag a.fact_type_hash

  store_fact-IsConsistent : IsConsistent keccak r → IsConsistent keccak (store_fact keccak ctx a r)
  unfolding store_fact stored_fact
  store_fact-IsConsistent c = record {
    keyed = λ k. elim (Bool-cases (bytes_eq key k)) [
      | inl hit ↦ rw hit (λ e. sym (bytes_eq→eq key k hit))
      | inr miss ↦ rw miss (c.keyed k)
    ];
    nullified = λ k. elim (Bool-cases (bytes_eq key k)) [
      | inl hit ↦ rw hit (λ e. rw (bytes_eq_refl a.nullifier))
      | inr miss ↦ rw miss (λ e. keeps_used a.nullifier (r.facts k).nullifier (c.nullified k e))
    ];
  }
    where
      keeps_used :
          (n m : Bytes)
          → r.used_nullifiers m ≡ true
          → (if bytes_eq n m then true else r.used_nullifiers m) ≡ true
      keeps_used n m h = ground arith

module _ (keccak : Bytes → Bytes) (verify : Bytes → List Bytes → Bool) where
  -- `submitVerifiedFact` succeeds exactly if the proof verifies and the nullifier is new, and the
  -- new state is the one with the fact stored and the nullifier used.
  pub submit_iff :
      (ctx : Context) (a : Submission) (r r' : FactRegistry)
      → (submit_verified_fact keccak verify ctx a r ≡ ok r') ↔ (
          (verify a.proof a.public_inputs ≡ true)
          × (r.used_nullifiers a.nullifier ≡ false)
          × (store_fact keccak ctx a r ≡ r'))
  unfolding submit_verified_fact
  submit_iff ctx a r r' = ((λ h. ground arith), (λ h. ground arith))

  Step-IsConsistent :
      {r r' : FactRegistry}
      → Step keccak verify r r'
      → IsConsistent keccak r
      → IsConsistent keccak r'
  Step-IsConsistent (submit ctx a r {r'} h) c =
      subst (IsConsistent keccak) ((submit_iff ctx a r r').0 h).2
        (store_fact-IsConsistent keccak ctx a r c)

  -- In every reachable state, each stored fact stands under the key of its own fields and its
  -- nullifier is marked as used.
  pub Reach-IsConsistent :
      {r : FactRegistry} → Reach keccak verify empty_registry r → IsConsistent keccak r
  Reach-IsConsistent here = record {
    keyed = λ k e. absurd (cc e);
    nullified = λ k e. absurd (cc e);
  }
  Reach-IsConsistent (next r s) = Step-IsConsistent s (Reach-IsConsistent r)
