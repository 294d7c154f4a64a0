-- ===== src/Tests/Chain.antt =====
-- The node, the registry and the site.
use zk_fact_verification.Common.{
  ◌≡◌, ◌↔◌, refl, pos, List, [], ◌∷◌, ◌++◌, Bytes, Bool, true, false, ◌||◌, ◌==◌, leb, ok, err,
  text, arith, bytes_eq, codes, if◌then◌else◌,
}
use zk_fact_verification.Contracts.FactRegistry.{
  Submission, empty_registry, store_fact, stored_fact, submit_verified_fact, get_fact,
  is_fact_valid, fact_key,
}
use zk_fact_verification.Contracts.FactRegistry.Invariant.{
  Reach, here, next, submit, IsConsistent, Reach-IsConsistent,
}
use zk_fact_verification.Contracts.FactRegistry.Replay.{
  Reach-exists, submit_once, resubmit, get_fact-submit,
}
use zk_fact_verification.Contracts.IssuerRegistry.{
  IssuerRegistry, issuer_added, issuer_deactivated, deploy, add_issuer, deactivate_issuer,
  is_active, get_issuer,
}
use zk_fact_verification.Contracts.IssuerRegistry.Cycle.{add_issuer-deactivate_issuer}
use zk_fact_verification.Blockchain.Reader
use zk_fact_verification.Blockchain.Reader.{compute_fact_key, of_tuple}
use zk_fact_verification.Blockchain.Reader.Refines.{
  is_fact_valid_refines, compute_fact_key-fact_key,
}
use zk_fact_verification.Blockchain.Submitter.{SubmitConfig}
use zk_fact_verification.Blockchain.Submitter.Sent.{SendsOrFails, submit_fact_sends}
use zk_fact_verification.Contracts.FactRegistry.Recorded.{IsRecorded, submit_iff-IsRecorded}
use zk_fact_verification.Contracts.FactRegistry.History.{
  History, IsAccepted, Represents, Reach-iff-Represents,
}
use zk_fact_verification.Tests.Node.{
  no_keccak, word, word-IsWord, submission, context, registry, lib, node, served,
}

abbrev accept : Bytes → List Bytes → Bool
accept proof inputs = true

accepted : submit_verified_fact no_keccak accept context submission empty_registry ≡ ok registry
unfolding submit_verified_fact store_fact
accepted = refl

submit_once_example :
    submit_verified_fact no_keccak accept context submission registry
    ≡ err (text "Nullifier already used")
submit_once_example =
    submit_once no_keccak accept context context submission submission empty_registry registry
      registry accepted here refl refl

-- The same proof for another subject and with another nullifier.
abbrev other : Submission
other = record submission { subject_tag = word 66; nullifier = word 77 }

fresh : registry.used_nullifiers other.nullifier ≡ false
unfolding store_fact bytes_eq
fresh = refl

resubmit_example :
    submit_verified_fact no_keccak accept context other registry
    ≡ ok (store_fact no_keccak context other registry)
resubmit_example =
    resubmit no_keccak accept context context submission other empty_registry registry accepted refl
      refl fresh

held_exists : (registry.facts []).exists ≡ true
unfolding store_fact stored_fact fact_key bytes_eq
held_exists = refl

Reach-exists_example : ((store_fact no_keccak context other registry).facts []).exists ≡ true
Reach-exists_example =
    Reach-exists no_keccak accept [] (next here (submit context other registry resubmit_example))
      held_exists

get_fact-submit_example :
    (get_fact no_keccak registry [] [] [] ≡ (
      if bytes_eq
        (fact_key no_keccak submission.verifier_id_hash submission.subject_tag
          submission.fact_type_hash)
        (fact_key no_keccak [] [] [])
      then stored_fact no_keccak context submission
      else get_fact no_keccak empty_registry [] [] []))
    × (is_fact_valid no_keccak registry 2000 submission.verifier_id_hash submission.subject_tag
          submission.fact_type_hash
        ≡ (submission.valid_until == 0 || leb 2000 submission.valid_until))
get_fact-submit_example =
    get_fact-submit no_keccak accept context submission empty_registry registry [] [] [] 2000
      accepted

submit_iff-IsRecorded_example :
    (submit_verified_fact no_keccak accept context submission empty_registry ≡ ok registry) ↔ (
      (accept submission.proof submission.public_inputs ≡ true)
      × (empty_registry.used_nullifiers submission.nullifier ≡ false)
      × IsRecorded no_keccak context submission empty_registry registry)
submit_iff-IsRecorded_example =
    submit_iff-IsRecorded no_keccak accept context submission empty_registry registry

Reach-IsConsistent_example : IsConsistent no_keccak registry
Reach-IsConsistent_example =
    Reach-IsConsistent no_keccak accept
      (next here (submit context submission empty_registry accepted))

is_fact_valid_refines_example :
    Reader.is_fact_valid lib node (codes "url") (codes "0xfa") (word 5) (word 6) (word 7) 0
    ≡ ok (is_fact_valid no_keccak registry 2000 (word 5) (word 6) (word 7))
is_fact_valid_refines_example =
    is_fact_valid_refines lib node 0 (codes "url") (codes "0xfa") registry 2000 (served _ _)
      (word 5) (word 6) (word 7) (word-IsWord 5 (omega arith)) (word-IsWord 6 (omega arith))
      (word-IsWord 7 (omega arith))

compute_fact_key-fact_key_example :
    compute_fact_key lib (word 5) (word 6) (word 7) ≡ fact_key no_keccak (word 5) (word 6) (word 7)
compute_fact_key-fact_key_example =
    compute_fact_key-fact_key lib (word 5) (word 6) (word 7) (word-IsWord 5 (omega arith))
      (word-IsWord 6 (omega arith)) (word-IsWord 7 (omega arith))

abbrev submit_cfg : SubmitConfig
submit_cfg = record {
  rpc_url = codes "url";
  private_key = codes "0x01";
  fact_registry_address = codes "0xfa";
  chain_id = pos 31337;
}

submit_fact_sends_example : SendsOrFails lib node submit_cfg submission 0
submit_fact_sends_example = submit_fact_sends lib node submit_cfg submission 0

add_issuer-deactivate_issuer_example :
    (r1 : IssuerRegistry) × (r2 : IssuerRegistry) × (add_issuer context
        (word 1)
        (word 2)
        (deploy context.sender)
      ≡ ok r1)
    × (is_active r1 (word 1) ≡ true)
    × (get_issuer r1 (word 3) ≡ get_issuer (deploy context.sender) (word 3))
    × (add_issuer context (word 1) (word 2) r1 ≡ err (text "Issuer already active"))
    × (deactivate_issuer context (word 1) r1 ≡ ok r2)
    × (is_active r2 (word 1) ≡ false)
    × ((get_issuer r2 (word 1)).pubkey_hash ≡ word 2)
    × (r2.events
        ≡ ((deploy context.sender).events ++ (issuer_added (word 1) (word 2) ∷ []))
          ++ (issuer_deactivated (word 1) ∷ []))
unfolding deploy is_active bytes_eq
add_issuer-deactivate_issuer_example =
    add_issuer-deactivate_issuer context context (word 1) (word 2) (word 3) (deploy context.sender)
      refl refl refl refl

Reach-iff-Represents_example :
    Reach no_keccak accept empty_registry registry
    ↔ ((h : History) × IsAccepted accept h × Represents no_keccak h registry)
Reach-iff-Represents_example = Reach-iff-Represents no_keccak accept registry
