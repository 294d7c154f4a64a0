-- ===== src/Prover/Toml/Lines.antt =====
-- The reader on one printed line, whatever follows it.
use zk_fact_verification.Common.{
  All-map, All-append, ℕ, zero, suc, ◌≡◌, refl, sym, ap, ◌∙◌, String, List, [], ◌∷◌, ◌++◌, Bytes,
  false, some, codes, All, length, ◌==◌, arith, append_assoc, append-nil,
}
use zk_fact_verification.Policy.Tree.{tree_depth}
use zk_fact_verification.Prover.Toml.{toml_line, array_items, toml_array, separator}
use zk_fact_verification.Prover.Toml.Reader.{
  Value, scalar, array, add_head, lines, split_key, read_value, read_line, in_text, after_text,
  expects_item, in_item, after_item, closed, step, run, after_equals,
}

-- A character of a number, and one of a key.
abbrev pub IsPlain : ℕ → Type 0
IsPlain c = ((c == b'"') ≡ false) × ((c == b'\n') ≡ false) × ((c == b'\\') ≡ false)

abbrev pub IsKeyChar : ℕ → Type 0
IsKeyChar c = ((c == b' ') ≡ false) × ((c == b'\n') ≡ false)

abbrev IsInLine : ℕ → Type 0
IsInLine c = (c == b'\n') ≡ false

lines-append : (l rest : Bytes) → All IsInLine l → lines (l ++ (b'\n' ∷ rest)) ≡ l ∷ lines rest
unfolding lines
lines-append [] rest h = refl
lines-append (c ∷ l) rest (hc, h) = rw hc (ap (add_head c) (lines-append l rest h))

step-text : (t : Bytes) (c : ℕ) → IsPlain c → step (in_text t) c ≡ in_text (t ++ c ∷ [])
unfolding step
step-text t c (quote, feed, escape) = rw (quote, escape) refl

run-text :
    (t now rest : Bytes)
    → All IsPlain t
    → run (in_text now) (t ++ (b'"' ∷ rest)) ≡ run (after_text (now ++ t)) rest
unfolding run step
run-text [] now rest h = rw append-nil
run-text (c ∷ t) now rest (hc, h) =
    ap (λ p. run p (t ++ (b'"' ∷ rest))) (step-text now c hc)
    ∙ run-text t (now ++ c ∷ []) rest h
    ∙ ap (λ s. run (after_text s) rest) (append_assoc now (c ∷ []) t)

step-item :
    (ts : List Bytes) (t : Bytes) (c : ℕ)
    → IsPlain c
    → step (in_item ts t) c ≡ in_item ts (t ++ c ∷ [])
unfolding step
step-item ts t c (quote, feed, escape) = rw (quote, escape) refl

run-item :
    (ts : List Bytes) (t now rest : Bytes)
    → All IsPlain t
    → run (in_item ts now) (t ++ (b'"' ∷ rest)) ≡ run (after_item (ts ++ (now ++ t) ∷ [])) rest
unfolding run step
run-item ts [] now rest h = rw append-nil
run-item ts (c ∷ t) now rest (hc, h) =
    ap (λ p. run p (t ++ (b'"' ∷ rest))) (step-item ts now c hc)
    ∙ run-item ts t (now ++ c ∷ []) rest h
    ∙ ap (λ s. run (after_item (ts ++ s ∷ [])) rest) (append_assoc now (c ∷ []) t)

split_key-append :
    (k rest : Bytes) → All IsKeyChar k → split_key (k ++ (b' ' ∷ rest)) ≡ some (k, rest)
unfolding split_key
split_key-append [] rest h = refl
split_key-append (c ∷ k) rest (hc, h) = rw (hc.0, split_key-append k rest h) refl

IsPlain-IsInLine : (c : ℕ) → IsPlain c → IsInLine c
IsPlain-IsInLine c (quote, feed, escape) = feed

IsKeyChar-IsInLine : (c : ℕ) → IsKeyChar c → IsInLine c
IsKeyChar-IsInLine c h = h.1

-- A `key = value` line without its line feed.
unfoldable pub text_line : String → Bytes → Bytes
text_line key value = codes key ++ (codes " = \"" ++ (value ++ codes "\""))

unfoldable pub array_line : String → List Bytes → Bytes
array_line key texts = codes key ++ (codes " = [" ++ (array_items tree_depth texts ++ codes "]"))

-- A part in front of the end of a line.
before_end : (a b c rest : Bytes) → (a ++ (b ++ c)) ++ rest ≡ a ++ (b ++ (c ++ rest))
before_end a b c rest = rw (append_assoc, append_assoc)

line_end : (a b c d rest : Bytes) → (a ++ (b ++ (c ++ d))) ++ rest ≡ a ++ (b ++ (c ++ (d ++ rest)))
line_end a b c d rest = rw (append_assoc, append_assoc, append_assoc)

text_line-IsInLine :
    (k : String) (v : Bytes)
    → All IsKeyChar (codes k)
    → All IsPlain v
    → All IsInLine (text_line k v)
unfolding text_line
text_line-IsInLine k v hk hv =
    All-append IsInLine (codes k) (codes " = \"" ++ (v ++ codes "\""))
      (All-map IsKeyChar-IsInLine _ hk)
      (
        refl,
        (
          refl,
          (
            refl,
            (refl, All-append IsInLine v (codes "\"") (All-map IsPlain-IsInLine _ hv) (refl, tt)),
          ),
        ),
      )

pub lines-toml_line :
    (k : String) (v rest : Bytes)
    → All IsKeyChar (codes k)
    → All IsPlain v
    → lines (toml_line k v ++ rest) ≡ text_line k v ∷ lines rest
unfolding toml_line text_line
lines-toml_line k v rest hk hv =
    ap lines (
      line_end (codes k) (codes " = \"") v (codes "\"\n") rest
      ∙ sym (line_end (codes k) (codes " = \"") v (codes "\"") (b'\n' ∷ rest)))
    ∙ lines-append (text_line k v) rest (text_line-IsInLine k v hk hv)

read_line-split :
    (k : String) (rest : Bytes) (v : Value)
    → All IsKeyChar (codes k)
    → read_value rest ≡ some v
    → read_line (codes k ++ (b' ' ∷ (b'=' ∷ rest))) ≡ some (codes k, v)
unfolding read_line after_equals
read_line-split k rest v hk hv =
    rw (read_line, split_key-append (codes k) (b'=' ∷ rest) hk, hv) refl

read_value-scalar :
    (v : Bytes) → All IsPlain v → read_value (codes " \"" ++ (v ++ codes "\"")) ≡ some (scalar v)
unfolding read_value run step
read_value-scalar v hv = rw (run-text v [] [] hv) refl

pub read_line-text_line :
    (k : String) (v : Bytes)
    → All IsKeyChar (codes k)
    → All IsPlain v
    → read_line (text_line k v) ≡ some (codes k, scalar v)
unfolding text_line
read_line-text_line k v hk hv =
    read_line-split k (codes " \"" ++ (v ++ codes "\"")) (scalar v) hk (read_value-scalar v hv)

item_end :
    (t sep items rest : Bytes)
    → ((codes "\"" ++ (t ++ codes "\"")) ++ (sep ++ items)) ++ rest
      ≡ b'"' ∷ (t ++ (b'"' ∷ (sep ++ (items ++ rest))))
item_end t sep items rest = ap (λ s. b'"' ∷ s) (rw (append_assoc, append_assoc, append_assoc))

run-array_items :
    (n : ℕ) (ts texts : List Bytes)
    → length texts ≡ n
    → All (All IsPlain) texts
    → run (expects_item ts) (array_items n texts ++ codes "]") ≡ closed (ts ++ texts)
unfolding run step array_items
run-array_items zero ts [] len h = rw append-nil refl
run-array_items zero ts (t ∷ texts) len h = absurd (omega arith)
run-array_items (suc n) ts [] len h = absurd (omega arith)
run-array_items (suc zero) ts (t ∷ []) len (ht, h) =
    ap (run (expects_item ts)) (item_end t [] [] (codes "]")) ∙ run-item ts t [] (codes "]") ht
run-array_items (suc zero) ts (t ∷ t' ∷ texts) len h = absurd (omega arith)
run-array_items (suc (suc n)) ts (t ∷ texts) len (ht, h) =
    ap (run (expects_item ts)) (item_end t (codes ", ") (array_items (suc n) texts) (codes "]"))
    ∙ run-item ts t [] (codes ", " ++ (array_items (suc n) texts ++ codes "]")) ht
    ∙ run-array_items (suc n) (ts ++ t ∷ []) texts (omega arith) h
    ∙ ap closed (append_assoc ts (t ∷ []) texts)

separator-IsInLine : (n : ℕ) → All IsInLine (separator n)
separator-IsInLine zero = tt
separator-IsInLine (suc n) = (refl, (refl, tt))

array_items-IsInLine :
    (n : ℕ) (texts : List Bytes) → All (All IsPlain) texts → All IsInLine (array_items n texts)
unfolding array_items
array_items-IsInLine zero texts h = tt
array_items-IsInLine (suc n) [] h = (
  refl,
  (
    refl,
    (
      refl,
      All-append IsInLine (separator n) (array_items n []) (separator-IsInLine n)
          (array_items-IsInLine n [] h),
    ),
  ),
)
array_items-IsInLine (suc n) (t ∷ texts) (ht, h) =
    All-append IsInLine (codes "\"" ++ (t ++ codes "\"")) _
      (refl, All-append IsInLine t (codes "\"") (All-map IsPlain-IsInLine t ht) (refl, tt))
      (All-append IsInLine (separator n) (array_items n texts) (separator-IsInLine n)
        (array_items-IsInLine n texts h))

array_line-IsInLine :
    (k : String) (texts : List Bytes)
    → All IsKeyChar (codes k)
    → All (All IsPlain) texts
    → All IsInLine (array_line k texts)
unfolding array_line
array_line-IsInLine k texts hk ht =
    All-append IsInLine (codes k) (codes " = [" ++ (array_items tree_depth texts ++ codes "]"))
      (All-map IsKeyChar-IsInLine _ hk)
      (
        refl,
        (
          refl,
          (
            refl,
            (
              refl,
              All-append IsInLine (array_items tree_depth texts) (codes "]")
                  (array_items-IsInLine tree_depth texts ht) (refl, tt),
            ),
          ),
        ),
      )

pub lines-toml_array :
    (k : String) (texts : List Bytes) (rest : Bytes)
    → All IsKeyChar (codes k)
    → All (All IsPlain) texts
    → lines (toml_array k texts ++ rest) ≡ array_line k texts ∷ lines rest
unfolding toml_array array_line
lines-toml_array k texts rest hk ht =
    ap lines (
      line_end (codes k) (codes " = [") (array_items tree_depth texts) (codes "]\n") rest
      ∙ sym (
          line_end (codes k) (codes " = [") (array_items tree_depth texts) (codes "]")
            (b'\n' ∷ rest)))
    ∙ lines-append (array_line k texts) rest (array_line-IsInLine k texts hk ht)

read_value-array :
    (texts : List Bytes)
    → length texts ≡ tree_depth
    → All (All IsPlain) texts
    → read_value (codes " [" ++ (array_items tree_depth texts ++ codes "]")) ≡ some (array texts)
unfolding read_value run step
read_value-array texts len h = rw (run-array_items tree_depth [] texts len h) refl

pub read_line-array_line :
    (k : String) (texts : List Bytes)
    → All IsKeyChar (codes k)
    → length texts ≡ tree_depth
    → All (All IsPlain) texts
    → read_line (array_line k texts) ≡ some (codes k, array texts)
unfolding array_line
read_line-array_line k texts hk len ht =
    read_line-split k (codes " [" ++ (array_items tree_depth texts ++ codes "]")) (array texts) hk
      (read_value-array texts len ht)
