-- ===== src/System/Cases.antt =====
-- Inversion of a run that succeeded: its first step did, and the run went on from there.
use zk_fact_verification.Common.{◌≡◌, refl, ap, String, Result, ok, err, panic, wrapped}
use zk_fact_verification.System.{Action, continue}

pub ok_inj : {A : Type 0} {a b : A} → ok a ≡ ok b → a ≡ b
ok_inj h = cc

-- The same, for a step that does not touch the state.
pub lift_cases {ℓ} :
    {S A B : Type 0} {C : Type ℓ} (r : Result A) (f : A → Action S B) (s : S) {s' : S} {b : B}
    → continue r f s ≡ (ok b, s')
    → ((a : A) → r ≡ ok a → f a s ≡ (ok b, s') → C)
    → C
lift_cases (ok a) f s h k = k a refl h
lift_cases (err e) f s h k = absurd (cc (ap (λ q. q.0) h))
lift_cases panic f s h k = absurd (cc (ap (λ q. q.0) h))

-- Inversion of a run whose next step had the outcome `w`: the step succeeded, and the run went on
-- from the state that it left.
pub step_cases {ℓ} :
    {S A B : Type 0} {C : Type ℓ} (message : String) (w : Result A × S) (f : A → Action S B)
    {s' : S} {b : B}
    → continue (wrapped message w.0) f w.1 ≡ (ok b, s')
    → ((a : A) (t : S) → w ≡ (ok a, t) → f a t ≡ (ok b, s') → C)
    → C
step_cases message (ok a, t) f h k = k a t refl h
step_cases message (err e, t) f h k = absurd (cc (ap (λ q. q.0) h))
step_cases message (panic, t) f h k = absurd (cc (ap (λ q. q.0) h))

-- The last step of a run.
pub last_case :
    {S A : Type 0} (message : String) (w : Result A × S) {s' : S} {a : A}
    → ◌≡◌ {A = Result A × S} (wrapped message w.0, w.1) (ok a, s')
    → w ≡ (ok a, s')
last_case message (ok a, t) h = h
last_case message (err e, t) h = absurd (cc (ap (λ q. q.0) h))
last_case message (panic, t) h = absurd (cc (ap (λ q. q.0) h))
