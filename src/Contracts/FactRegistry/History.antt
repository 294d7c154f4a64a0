-- ===== src/Contracts/FactRegistry/History.antt =====
-- The registry as its history: the accepted submissions, the latest one first, and nothing else.
use mathlib.Core.Path.{subst}
use zk_fact_verification.Common.{
  ◌≡◌, ◌↔◌, refl, sym, ap, ◌∙◌, List, [], ◌∷◌, ◌++◌, Bytes, Bool, true, false, ◌||◌, bytes_eq,
  arith, if◌then◌else◌,
}
use zk_fact_verification.Contracts.FactRegistry.{
  VerifiedFact, no_fact, FactVerified, FactRegistry, empty_registry, Submission, Context, fact_key,
  stored_fact, store_fact,
}
use zk_fact_verification.Contracts.FactRegistry.Invariant.{submit, Reach, here, next, submit_iff}

abbrev pub History : Type 0
History = List (Context × Submission)

-- Some submission of the history had the nullifier.
unfoldable pub nullifier_used : History → Bytes → Bool
nullifier_used [] n = false
nullifier_used ((ctx, a) ∷ h) n = bytes_eq a.nullifier n || nullifier_used h n

-- Every proof verified, and no nullifier came twice.
abbrev pub IsAccepted : (Bytes → List Bytes → Bool) → History → Type 0
IsAccepted verify [] = Unit
IsAccepted verify ((ctx, a) ∷ h) =
    (verify a.proof a.public_inputs ≡ true)
    × (nullifier_used h a.nullifier ≡ false)
    × IsAccepted verify h

module _ (keccak : Bytes → Bytes) where
  -- The fact of the latest submission for the key.
  unfoldable pub latest_fact : History → Bytes → VerifiedFact
  latest_fact [] k = no_fact
  latest_fact ((ctx, a) ∷ h) k =
      let earlier = latest_fact h k in
      if bytes_eq (fact_key keccak a.verifier_id_hash a.subject_tag a.fact_type_hash) k
      then stored_fact keccak ctx a
      else earlier

  unfoldable pub event_of : Context → Submission → FactVerified
  event_of ctx a = record {
    fact_key = fact_key keccak a.verifier_id_hash a.subject_tag a.fact_type_hash;
    subject_tag = a.subject_tag;
    verifier_id_hash = a.verifier_id_hash;
    fact_type_hash = a.fact_type_hash;
    submitter = ctx.sender;
  }

  -- One event for each submission, in the order of time.
  unfoldable pub events_of : History → List FactVerified
  unfolding event_of
  events_of [] = []
  events_of ((ctx, a) ∷ h) = events_of h ++ (event_of ctx a ∷ [])

  -- What the registry may show of its history, and no more.
  pub record Represents (h : History) (r : FactRegistry) : Type 0 where
    pub facts : (k : Bytes) → r.facts k ≡ latest_fact h k
    pub used : (n : Bytes) → r.used_nullifiers n ≡ nullifier_used h n
    pub events : r.events ≡ events_of h

  store_fact-Represents :
      (ctx : Context) (a : Submission) (h : History) (r : FactRegistry)
      → Represents h r
      → Represents ((ctx, a) ∷ h) (store_fact keccak ctx a r)
  unfolding store_fact latest_fact nullifier_used events_of event_of
  store_fact-Represents ctx a h r rep = record {
    facts = λ k. rw (rep.facts k) refl;
    used = λ n. rw (rep.used n) (same n);
    events = ap (λ es. es ++ (event_of ctx a ∷ [])) rep.events;
  }
    where
      same :
          (n : Bytes)
          → (if bytes_eq a.nullifier n then true else nullifier_used h n)
            ≡ (bytes_eq a.nullifier n || nullifier_used h n)
      same n = ground arith

  -- The history determines the registry.
  Represents-unique :
      (h : History) (r r' : FactRegistry) → Represents h r → Represents h r' → r ≡ r'
  Represents-unique h r r' a b = λ i. record {
    facts = λ k. (a.facts k ∙ sym (b.facts k)) i;
    used_nullifiers = λ n. (a.used n ∙ sym (b.used n)) i;
    events = (a.events ∙ sym (b.events)) i;
  }

module _ (keccak : Bytes → Bytes) (verify : Bytes → List Bytes → Bool) where
  empty_Represents : Represents keccak [] empty_registry
  unfolding latest_fact nullifier_used events_of
  empty_Represents = record { facts = λ k. refl; used = λ n. refl; events = refl }

  history_of :
      {r : FactRegistry}
      → Reach keccak verify empty_registry r
      → (h : History) × IsAccepted verify h × Represents keccak h r
  history_of here = ([], tt, empty_Represents)
  history_of (next reach (submit ctx a r {r'} e)) =
      let (h, accepted, rep) = history_of reach in
      let (verified, fresh, stored) = (submit_iff keccak verify ctx a r r').0 e in
      (
        (ctx, a) ∷ h,
        (verified, sym (rep.used a.nullifier) ∙ fresh, accepted),
        subst (Represents keccak ((ctx, a) ∷ h)) stored
            (store_fact-Represents keccak ctx a h r rep),
      )

  -- The registry that an accepted history leads to.
  reached_by :
      (h : History)
      → IsAccepted verify h
      → (r : FactRegistry) × Reach keccak verify empty_registry r × Represents keccak h r
  reached_by [] accepted = (empty_registry, here, empty_Represents)
  reached_by ((ctx, a) ∷ h) (verified, fresh, accepted) =
      let (r, reach, rep) = reached_by h accepted in
      let e =
        (submit_iff keccak verify ctx a r _).1 (verified, rep.used a.nullifier ∙ fresh, refl) in
      (
        store_fact keccak ctx a r,
        next reach (submit ctx a r e),
        store_fact-Represents keccak ctx a h r rep,
      )

  -- The states that the registry can reach are exactly those that represent a history of
  -- submissions, each with a proof that verifies and a nullifier that was new: a key holds the fact
  -- of the latest submission for it, a nullifier is used if one of the submissions named it, and
  -- there is one event for each, in order.
  pub Reach-iff-Represents :
      (r : FactRegistry)
      → Reach keccak verify empty_registry r
        ↔ ((h : History) × IsAccepted verify h × Represents keccak h r)
  Reach-iff-Represents r = (
    history_of,
    λ (h, accepted, rep).
        let (r', reach, rep') = reached_by h accepted in
        subst (Reach keccak verify empty_registry) (Represents-unique keccak h r' r rep' rep) reach,
  )
