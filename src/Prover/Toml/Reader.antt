-- ===== src/Prover/Toml/Reader.antt =====
-- What Prover.toml says, independently of how it is written, in the part of TOML that it needs: each
-- line is a key, a space, an equals sign and a value, which is a text in quotes without escapes or
-- an array of such texts. A parameter of the circuit takes the decimal number under its name.
use zk_fact_verification.Common.{
  ℕ, List, [], ◌∷◌, ◌++◌, Bytes, Option, none, some, bytes_eq, codes, ◌==◌, if◌then◌else◌,
}
use mathlib.Core.Option
use zk_fact_verification.Std.Digits.{set_string}
use zk_fact_verification.Circuit.{CircuitInputs, to_field}

-- A part that cannot be read makes the whole unreadable.
infixl 5 ◌>>=◌
abbrev pub ◌>>=◌ : {Part Whole : Type 0} → Option Part → (Part → Option Whole) → Option Whole
none >>= then_read = none
some part >>= then_read = then_read part

pub data Value : Type 0 where
  scalar : Bytes → Value
  array : List Bytes → Value

abbrev pub add_head : ℕ → List Bytes → List Bytes
add_head c [] = (c ∷ []) ∷ []
add_head c (l ∷ ls) = (c ∷ l) ∷ ls

-- The lines of a text, without the line feeds.
unfoldable pub lines : Bytes → List Bytes
lines [] = []
lines (c ∷ s) = let later = lines s in if c == b'\n' then [] ∷ later else add_head c later

-- How far a value has been read: a text in quotes, or an array of such texts, with the entries and
-- the part of a text that have been read.
pub data Place : Type 0 where
  at_value : Place
  in_text : Bytes → Place
  after_text : Bytes → Place
  expects_item : List Bytes → Place
  in_item : List Bytes → Bytes → Place
  after_item : List Bytes → Place
  closed : List Bytes → Place
  failed : Place

-- A value opens with a quote or a bracket; a text ends with a quote and has no escapes; a comma
-- stands between two entries of an array (TOML allows one behind the last) and a bracket ends it;
-- spaces are free outside texts.
unfoldable pub step : Place → ℕ → Place
step at_value c =
    if c == b'"'
    then in_text []
    else if c == b'['
    then expects_item []
    else if c == b' '
    then at_value
    else failed
step (in_text t) c =
    if c == b'"' then after_text t else if c == b'\\' then failed else in_text (t ++ c ∷ [])
step (after_text t) c = if c == b' ' then after_text t else failed
step (expects_item ts) c =
    if c == b'"'
    then in_item ts []
    else if c == b']'
    then closed ts
    else if c == b' '
    then expects_item ts
    else failed
step (in_item ts t) c =
    if c == b'"'
    then after_item (ts ++ t ∷ [])
    else if c == b'\\'
    then failed
    else in_item ts (t ++ c ∷ [])
step (after_item ts) c =
    if c == b','
    then expects_item ts
    else if c == b']'
    then closed ts
    else if c == b' '
    then after_item ts
    else failed
step (closed ts) c = if c == b' ' then closed ts else failed
step failed c = failed

unfoldable pub run : Place → Bytes → Place
unfolding step
run place [] = place
run place (c ∷ s) = run (step place c) s

-- Only a closed value is one.
abbrev pub value_at : Place → Option Value
value_at (after_text t) = some (scalar t)
value_at (closed ts) = some (array ts)
value_at _ = none

unfoldable pub read_value : Bytes → Option Value
unfolding run
read_value s = value_at (run at_value s)

-- What follows the equals sign.
unfoldable pub after_equals : Bytes → Option Bytes
after_equals [] = none
after_equals (c ∷ s) = if c == b'=' then some s else none

-- The key in front of the first space, and what follows the space.
unfoldable pub split_key : Bytes → Option (Bytes × Bytes)
split_key [] = none
split_key (c ∷ s) =
    let later = split_key s in
    if c == b' ' then some ([], s) else Option.map (λ (k, v). (c ∷ k, v)) later

unfoldable pub read_line : Bytes → Option (Bytes × Value)
unfolding split_key read_value after_equals
read_line l = do
  (key, rest) ← split_key l
  text ← after_equals rest
  v ← read_value text
  some (key, v)

-- All lines, if each is one of the two kinds.
unfoldable pub read_lines : List Bytes → Option (List (Bytes × Value))
unfolding read_line
read_lines [] = some []
read_lines (l ∷ ls) = do e ← read_line l; es ← read_lines ls; some (e ∷ es)

unfoldable pub lookup : Bytes → List (Bytes × Value) → Option Value
lookup key [] = none
lookup key ((k, v) ∷ es) = if bytes_eq k key then some v else lookup key es

-- A decimal number, as the residue that stands for it.
unfoldable pub read_number : Bytes → Option ℕ
read_number t = Option.map to_field (set_string 10 t)

unfoldable pub read_numbers : List Bytes → Option (List ℕ)
unfolding read_number
read_numbers [] = some []
read_numbers (t ∷ ts) = do n ← read_number t; ns ← read_numbers ts; some (n ∷ ns)

abbrev pub scalar_number : Option Value → Option ℕ
scalar_number (some (scalar t)) = read_number t
scalar_number _ = none

abbrev pub array_numbers : Option Value → Option (List ℕ)
array_numbers (some (array ts)) = read_numbers ts
array_numbers _ = none

-- The parameters of `main`, by their names.
unfoldable pub inputs_of : List (Bytes × Value) → Option CircuitInputs
unfolding lookup
inputs_of es = do
  birth_date_days ← scalar_number (lookup (codes "birth_date_days") es)
  holder_secret ← scalar_number (lookup (codes "holder_secret") es)
  issuer_pubkey_x ← scalar_number (lookup (codes "issuer_pubkey_x") es)
  issuer_pubkey_y ← scalar_number (lookup (codes "issuer_pubkey_y") es)
  sig_r8x ← scalar_number (lookup (codes "sig_r8x") es)
  sig_r8y ← scalar_number (lookup (codes "sig_r8y") es)
  sig_s ← scalar_number (lookup (codes "sig_s") es)
  merkle_path ← array_numbers (lookup (codes "merkle_path") es)
  merkle_index_bits ← array_numbers (lookup (codes "merkle_index_bits") es)
  idempotency_key_hash ← scalar_number (lookup (codes "idempotency_key_hash") es)
  verifier_id_hash ← scalar_number (lookup (codes "verifier_id_hash") es)
  fact_type_hash ← scalar_number (lookup (codes "fact_type_hash") es)
  issuer_policy_root ← scalar_number (lookup (codes "issuer_policy_root") es)
  schema_hash ← scalar_number (lookup (codes "schema_hash") es)
  subject_tag ← scalar_number (lookup (codes "subject_tag") es)
  nullifier ← scalar_number (lookup (codes "nullifier") es)
  valid_until ← scalar_number (lookup (codes "valid_until") es)
  cutoff_date_days ← scalar_number (lookup (codes "cutoff_date_days") es)
  some (record {
    birth_date_days = birth_date_days;
    holder_secret = holder_secret;
    issuer_pubkey_x = issuer_pubkey_x;
    issuer_pubkey_y = issuer_pubkey_y;
    sig_r8x = sig_r8x;
    sig_r8y = sig_r8y;
    sig_s = sig_s;
    merkle_path = merkle_path;
    merkle_index_bits = merkle_index_bits;
    idempotency_key_hash = idempotency_key_hash;
    verifier_id_hash = verifier_id_hash;
    fact_type_hash = fact_type_hash;
    issuer_policy_root = issuer_policy_root;
    schema_hash = schema_hash;
    subject_tag = subject_tag;
    nullifier = nullifier;
    valid_until = valid_until;
    cutoff_date_days = cutoff_date_days;
  })

-- The inputs that a Prover.toml gives the circuit.
unfoldable pub read_prover_toml : Bytes → Option CircuitInputs
unfolding lines read_lines inputs_of
read_prover_toml toml = do es ← read_lines (lines toml); inputs_of es
