-- ===== src/Common/Outcome.antt =====
-- Go's `(value, error)` pairs, error values, and panics.
use Prim.Native.Nat.{ℕ}
use Prim.Native.String.{String}
use mathlib.Core.Path.{◌≡◌, refl}
use mathlib.Core.List.{List}
use mathlib.Core.Option.{Option, none, some}
use zk_fact_verification.Common.Lists.{Bytes}

-- `text` is an error with a fixed text, `text_of` one whose format has a `%s`, `wrap` is
-- `fmt.Errorf("...: %w", err)`, `wrap_at` has `%d` too, and `foreign` is an error value that other
-- code returned and this repository only passes on.
pub data Error : Type 0 where
  text : String → Error
  text_of : String → Bytes → Error
  wrap : String → Error → Error
  wrap_at : String → List ℕ → Error → Error
  foreign : ℕ → Error

pub data Result {ℓ} (A : Type ℓ) : Type ℓ where
  panic : Result A
  err : Error → Result A
  ok : A → Result A

-- A panic and an error end the computation.
infixl 5 ◌>>=◌ ◌>>◌
abbrev pub ◌>>=◌ {ℓ κ} :
    {Value : Type ℓ} {Next : Type κ} → Result Value → (Value → Result Next) → Result Next
panic >>= then_do = panic
err message >>= then_do = err message
ok value >>= then_do = then_do value

abbrev pub ◌>>◌ {ℓ} : {Next : Type ℓ} → Result (Unit {0}) → Result Next → Result Next
check >> rest = check >>= λ done. rest

-- `if err != nil { return fmt.Errorf("...: %w", err) }`
abbrev pub wrapped {ℓ} : {A : Type ℓ} → String → Result A → Result A
wrapped s (ok a) = ok a
wrapped s (err e) = err (wrap s e)
wrapped s panic = panic

abbrev pub wrapped_at {ℓ} : {A : Type ℓ} → String → List ℕ → Result A → Result A
wrapped_at s ns (ok a) = ok a
wrapped_at s ns (err e) = err (wrap_at s ns e)
wrapped_at s ns panic = panic

-- `xs[i]`: a panic out of range.
abbrev pub or_panic {ℓ} : {A : Type ℓ} → Option A → Result A
or_panic none = panic
or_panic (some a) = ok a

-- Inversion of a bind that succeeded: its first part did, and the rest went on from its value.
pub ok_cases {ℓ κ μ} :
    {Value : Type ℓ} {Next : Type κ} {Goal : Type μ} (first : Result Value)
    (rest : Value → Result Next) {b : Next}
    → (first >>= rest) ≡ ok b
    → ((v : Value) → first ≡ ok v → rest v ≡ ok b → Goal)
    → Goal
ok_cases panic rest h go = absurd (cc h)
ok_cases (err e) rest h go = absurd (cc h)
ok_cases (ok v) rest h go = go v refl h

-- The same, as a product.
pub >>=-eq-ok {ℓ κ} :
    {Value : Type ℓ} {Next : Type κ} (first : Result Value) (rest : Value → Result Next) {b : Next}
    → (first >>= rest) ≡ ok b
    → (v : Value) × (first ≡ ok v) × (rest v ≡ ok b)
>>=-eq-ok first rest h = ok_cases first rest h λ v e e'. (v, e, e')

pub wrapped-eq-ok {ℓ} :
    {A : Type ℓ} (s : String) (m : Result A) {a : A} → wrapped s m ≡ ok a → m ≡ ok a
wrapped-eq-ok s (ok a) h = h
wrapped-eq-ok s (err e) h = cc
wrapped-eq-ok s panic h = cc

pub wrapped_at-eq-ok {ℓ} :
    {A : Type ℓ} (s : String) (ns : List ℕ) (m : Result A) {a : A}
    → wrapped_at s ns m ≡ ok a
    → m ≡ ok a
wrapped_at-eq-ok s ns (ok a) h = h
wrapped_at-eq-ok s ns (err e) h = cc
wrapped_at-eq-ok s ns panic h = cc
