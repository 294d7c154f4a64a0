-- ===== src/System.antt =====
-- What the commands use of the operating system, as an interface over an unknown state, and the
-- actions on that state. An action that fails keeps what it has done to the state.
pub mod Cases
use zk_fact_verification.Common.{
  ℕ, ℤ, String, Bytes, List, Result, ok, err, panic, Error, wrapped, ◌≡◌, refl,
}

pub record System : Type 1 where
  pub State : Type 0
  -- `os.ReadFile`
  pub read_file : Bytes → State → Result Bytes × State
  -- `os.WriteFile(path, content, 0644)`
  pub write_file : Bytes → Bytes → State → Result (Unit {0}) × State
  -- `os.MkdirAll`, whose error the program drops
  pub mkdir_all : Bytes → State → State
  -- `exec.Command(name, args...)` run in a directory
  pub run_command : Bytes → Bytes → List Bytes → State → Result (Unit {0}) × State
  -- `time.Now()`, in nanoseconds since 1970
  pub time_now : State → ℕ × State
  -- `time.Now().Unix()`
  pub unix_now : State → ℕ × State
  -- `os.Getenv`, after `godotenv.Load()`
  pub getenv : Bytes → State → Bytes

abbrev pub Action : Type 0 → Type 0 → Type 0
Action S A = S → Result A × S

abbrev pub continue : {S A B : Type 0} → Result A → (A → Action S B) → Action S B
continue (ok a) f s = f a s
continue (err e) f s = (err e, s)
continue panic f s = (panic, s)

-- The first action, and the second one on the state that it left.
infixl 5 ◌>>=◌ ◌>>◌
abbrev pub ◌>>=◌ : {S A B : Type 0} → Action S A → (A → Action S B) → Action S B
(first >>= rest) start = let (result, left) = first start in continue result rest left

abbrev pub ◌>>◌ : {S A B : Type 0} → Action S A → Action S B → Action S B
first >> second = first >>= λ done. second

-- A computation that does not touch the state.
abbrev pub lift : {S A : Type 0} → Result A → Action S A
lift r s = (r, s)

abbrev pub wrap_action : {S A : Type 0} → String → Action S A → Action S A
wrap_action message m s = let (r, s') = m s in (wrapped message r, s')

-- An action that cannot fail.
abbrev pub effect : {S A : Type 0} → (S → A × S) → Action S A
effect f s = let (a, s') = f s in (ok a, s')

abbrev pub modify : {S : Type 0} → (S → S) → Action S (Unit {0})
modify f s = (ok tt, f s)

-- A value that is read off the state.
abbrev pub reading : {S A : Type 0} → (S → A) → Action S A
reading f s = (ok (f s), s)
