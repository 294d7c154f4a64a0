-- ===== src/Prover/Toml/Entries.antt =====
-- The reader on a file of printed numbers: one line for each entry.
use zk_fact_verification.Common.{
  ℕ, ◌≡◌, refl, ap, ◌∙◌, ◌&&◌, ◌==◌, ℤ, String, List, [], ◌∷◌, ◌++◌, Bytes, some, codes, map, All,
  All-map, length, length-map, arith, flatten, true, Bool, not,
}
use mathlib.Core.Option
use zk_fact_verification.Std.Digits.{to_string}
use zk_fact_verification.Std.Digits.RoundTrip.{set_string-to_string}
use zk_fact_verification.Std.Digits.Plain.{IsNumeral, to_string-IsNumeral}
use zk_fact_verification.Circuit.{to_field}
use zk_fact_verification.Policy.Tree.{tree_depth}
use zk_fact_verification.Prover.Toml.{toml_line, toml_array}
use zk_fact_verification.Prover.Toml.Reader.{
  Value, scalar, array, lines, read_line, read_lines, read_number, read_numbers,
}
use zk_fact_verification.Prover.Toml.Lines.{
  IsPlain, IsKeyChar, text_line, array_line, lines-toml_line, read_line-text_line, lines-toml_array,
  read_line-array_line,
}

-- What a line of the file is to carry.
pub data Entry : Type 0 where
  number : String → ℤ → Entry
  numbers : String → List ℤ → Entry

unfoldable pub printed : Entry → Bytes
printed (number k v) = toml_line k (to_string v)
printed (numbers k vs) = toml_array k (map to_string vs)

unfoldable pub read_back : Entry → Bytes × Value
read_back (number k v) = (codes k, scalar (to_string v))
read_back (numbers k vs) = (codes k, array (map to_string vs))

unfoldable pub is_key : Bytes → Bool
is_key [] = true
is_key (c ∷ s) = not (c == b' ') && (not (c == b'\n') && is_key s)

is_key-IsKeyChar : (s : Bytes) → is_key s ≡ true → All IsKeyChar s
unfolding is_key
is_key-IsKeyChar [] h = tt
is_key-IsKeyChar (c ∷ s) h = ((ground arith, ground arith), is_key-IsKeyChar s (ground arith))

-- An array fills the tree's depth, and a key has no space.
abbrev pub IsPrintable : Entry → Type 0
IsPrintable (number k v) = is_key (codes k) ≡ true
IsPrintable (numbers k vs) = (is_key (codes k) ≡ true) × (length vs ≡ tree_depth)

IsNumeral-IsPlain : (c : ℕ) → IsNumeral c → IsPlain c
IsNumeral-IsPlain c h = (ground arith, ground arith, ground arith)

to_string-IsPlain : (v : ℤ) → All IsPlain (to_string v)
to_string-IsPlain v = All-map IsNumeral-IsPlain _ (to_string-IsNumeral v)

map-IsPlain : (vs : List ℤ) → All (All IsPlain) (map to_string vs)
map-IsPlain [] = tt
map-IsPlain (v ∷ vs) = (to_string-IsPlain v, map-IsPlain vs)

read_lines-cons :
    (l : Bytes) (ls : List Bytes) (e : Bytes × Value) (es : List (Bytes × Value))
    → read_line l ≡ some e
    → read_lines ls ≡ some es
    → read_lines (l ∷ ls) ≡ some (e ∷ es)
unfolding read_lines
read_lines-cons l ls e es hl hs = rw (read_lines, hl, hs) refl

read_lines-printed :
    (e : Entry) (rest : Bytes) (es : List (Bytes × Value))
    → IsPrintable e
    → read_lines (lines rest) ≡ some es
    → read_lines (lines (printed e ++ rest)) ≡ some (read_back e ∷ es)
unfolding printed read_back
read_lines-printed (number k v) rest es h hs =
    let key = is_key-IsKeyChar (codes k) h in
    ap read_lines (lines-toml_line k (to_string v) rest key (to_string-IsPlain v))
    ∙ read_lines-cons (text_line k (to_string v)) (lines rest) _ es
        (read_line-text_line k (to_string v) key (to_string-IsPlain v)) hs
read_lines-printed (numbers k vs) rest es (h, len) hs =
    let key = is_key-IsKeyChar (codes k) h in
    ap read_lines (lines-toml_array k (map to_string vs) rest key (map-IsPlain vs))
    ∙ read_lines-cons (array_line k (map to_string vs)) (lines rest) _ es
        (read_line-array_line k (map to_string vs) key (length-map to_string vs ∙ len)
          (map-IsPlain vs))
        hs

pub read_lines-flatten :
    (es : List Entry)
    → All IsPrintable es
    → read_lines (lines (flatten (map printed es))) ≡ some (map read_back es)
unfolding flatten read_lines lines
read_lines-flatten [] h = refl
read_lines-flatten (e ∷ es) (h, hs) =
    read_lines-printed e (flatten (map printed es)) (map read_back es) h (read_lines-flatten es hs)

pub read_number-to_string : (v : ℤ) → read_number (to_string v) ≡ some (to_field v)
unfolding read_number
read_number-to_string v = ap (Option.map to_field) (set_string-to_string v)

pub read_numbers-to_string :
    (vs : List ℤ) → read_numbers (map to_string vs) ≡ some (map to_field vs)
unfolding read_numbers
read_numbers-to_string [] = refl
read_numbers-to_string (v ∷ vs) = rw (read_number-to_string v, read_numbers-to_string vs) refl
