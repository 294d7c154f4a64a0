-- ===== src/Blockchain/Bytes32/Laws.antt =====
-- What `HexToBytes32` returns.
use mathlib.Core.Path.{subst}
use zk_fact_verification.Common.{
  ◌≢◌, ◌⊎◌, Error, Result, err, panic, ◌>>=◌, ℕ, zero, suc, ◌+◌, ◌-◌, ◌≤◌, ◌≡◌, refl, sym, ap, ◌∙◌,
  [], ◌∷◌, ◌++◌, Bytes, IsByte, All, ok, codes, ltb, length, take, replicate, length-append,
  length-replicate, arith, Bool-cases, inl, inr, if◌then◌else◌, false,
}
use zk_fact_verification.Std.Slices.{trim_prefix, copy_range, be_value, copy_range-zeros}
use zk_fact_verification.Std.Hex.{from_hex_char, nibble, decode_string, encode_to_string}
use zk_fact_verification.Std.Hex.Value.{decode_string-value, decode_string-encode_to_string}
use zk_fact_verification.Blockchain.Bytes32.{IsWord, pad_word, hex_to_bytes32}

nibble-ne-panic : (c : ℕ) → nibble c ≢ panic
unfolding nibble from_hex_char
nibble-ne-panic c h = ground arith

ok_inj : {a b : Bytes} → ◌≡◌ {A = Result Bytes} (ok a) (ok b) → a ≡ b
ok_inj h = cc

bind-ne-panic :
    {A B : Type 0} (r : Result A) (f : A → Result B)
    → r ≢ panic
    → ((a : A) → f a ≢ panic)
    → (r >>= f) ≢ panic
bind-ne-panic (ok a) f hr hf = hf a
bind-ne-panic (err e) f hr hf = λ h. absurd (cc h)
bind-ne-panic panic f hr hf = λ h. hr refl

decode_string-ne-panic : (s : Bytes) → decode_string s ≢ panic
unfolding decode_string
decode_string-ne-panic [] = λ h. absurd (cc h)
decode_string-ne-panic (c ∷ []) =
    bind-ne-panic (nibble c) _ (nibble-ne-panic c) λ a h. absurd (cc h)
decode_string-ne-panic (c ∷ c' ∷ s) = bind-ne-panic (nibble c) _ (nibble-ne-panic c) λ a.
    bind-ne-panic (nibble c') _ (nibble-ne-panic c')
      λ b. bind-ne-panic (decode_string s) _ (decode_string-ne-panic s) λ rest h. absurd (cc h)

-- Up to 32 bytes are copied to the end of the word.
pad_word-short : (b : Bytes) → length b ≤ 32 → pad_word b ≡ ok (replicate (32 - length b) 0 ++ b)
unfolding pad_word
pad_word-short b h =
    let fits : ltb 32 (length b) ≡ false = ground arith in
    let e : 32 - length b + length b ≡ 32 = omega arith in
    rw fits (
      ap (λ t. ok (copy_range (replicate t 0) (32 - length b) t b)) (sym e)
      ∙ ap ok (copy_range-zeros (32 - length b) (length b) b refl))

All-replicate : (n : ℕ) (xs : Bytes) → All IsByte xs → All IsByte (replicate n 0 ++ xs)
All-replicate zero xs h = h
All-replicate (suc n) xs h = (omega arith, All-replicate n xs h)

pub be_value-zeros : (n : ℕ) (xs : Bytes) → be_value 0 (replicate n 0 ++ xs) ≡ be_value 0 xs
unfolding be_value
be_value-zeros zero xs = refl
be_value-zeros (suc n) xs = be_value-zeros n xs

take-all : (n : ℕ) (xs : Bytes) → length xs ≤ n → take n xs ≡ xs
take-all zero [] h = refl
take-all zero (x ∷ xs) h = absurd (omega arith)
take-all (suc n) [] h = refl
take-all (suc n) (x ∷ xs) h = ap (λ t. x ∷ t) (take-all n xs (omega arith))

length-take : (n : ℕ) (xs : Bytes) → length (take n xs) + (length xs - n) ≡ length xs
length-take zero xs = omega arith
length-take (suc n) [] = omega arith
length-take (suc n) (x ∷ xs) = omega (arith, length-take n xs)

All-take : (n : ℕ) (xs : Bytes) → All IsByte xs → All IsByte (take n xs)
All-take zero xs h = tt
All-take (suc n) [] h = tt
All-take (suc n) (x ∷ xs) (hx, h) = (hx, All-take n xs h)

-- The first 32 bytes, behind zeros up to 32 bytes in all.
abbrev pub fitted : Bytes → Bytes
fitted b = replicate (32 - length b) 0 ++ take 32 b

fitted-IsWord : (b : Bytes) → All IsByte b → IsWord (fitted b)
fitted-IsWord b small = (
  omega (
    arith,
    length-append (replicate (32 - length b) 0) (take 32 b),
    length-replicate {A = ℕ} (32 - length b) 0,
    length-take 32 b,
  ),
  All-replicate _ (take 32 b) (All-take 32 b small),
)

pad_word-fitted :
    (b : Bytes) → pad_word (if ltb 32 (length b) then take 32 b else b) ≡ ok (fitted b)
pad_word-fitted b = elim (Bool-cases (ltb 32 (length b))) [
  | inl long ↦
      let full : length (take 32 b) ≡ 32 = ground (arith, length-take 32 b) in
      let same : 32 - length (take 32 b) ≡ 32 - length b = ground arith in
      rw long
        (pad_word-short (take 32 b) (omega arith) ∙ ap (λ t. ok (replicate t 0 ++ take 32 b)) same)
  | inr short ↦
      let le : length b ≤ 32 = ground arith in
      rw short (
        pad_word-short b le
        ∙ ap (λ t. ok (replicate (32 - length b) 0 ++ t)) (sym (take-all 32 b le)))
]

module _ (h : Bytes) where
  hex_to_bytes32-fitted :
      (b : Bytes)
      → decode_string (trim_prefix h (codes "0x")) ≡ ok b
      → hex_to_bytes32 h ≡ ok (fitted b)
  unfolding hex_to_bytes32
  hex_to_bytes32-fitted b e = rw e (pad_word-fitted b)

  -- Whatever the text, `HexToBytes32` does not panic: it fails with the error of the hex decoder, or
  -- it returns the first 32 of the decoded bytes behind zeros up to 32 bytes in all, which are a word.
  pub hex_to_bytes32_total :
      ((e : Error) × (decode_string (trim_prefix h (codes "0x")) ≡ err e)
        × (hex_to_bytes32 h ≡ err e))
      ⊎ ((b : Bytes) × (decode_string (trim_prefix h (codes "0x")) ≡ ok b)
          × (hex_to_bytes32 h ≡ ok (fitted b))
          × IsWord (fitted b))
  unfolding hex_to_bytes32
  hex_to_bytes32_total = by_result (decode_string (trim_prefix h (codes "0x"))) refl
    where
      by_result :
          (r : Result Bytes)
          → decode_string (trim_prefix h (codes "0x")) ≡ r
          → ((e : Error) × (decode_string (trim_prefix h (codes "0x")) ≡ err e)
              × (hex_to_bytes32 h ≡ err e))
            ⊎ ((b : Bytes) × (decode_string (trim_prefix h (codes "0x")) ≡ ok b)
                × (hex_to_bytes32 h ≡ ok (fitted b))
                × IsWord (fitted b))
      by_result (ok b) q =
          let (_, _, small) = decode_string-value (trim_prefix h (codes "0x")) b 0 q in
          inr (b, q, hex_to_bytes32-fitted b q, fitted-IsWord b small)
      by_result (err e) q = inl (e, q, rw q refl)
      by_result panic q = absurd (decode_string-ne-panic (trim_prefix h (codes "0x")) q)

  pub hex_to_bytes32-IsWord : (w : Bytes) → hex_to_bytes32 h ≡ ok w → IsWord w
  hex_to_bytes32-IsWord w e = elim hex_to_bytes32_total [
    | inl (x, _, failed) ↦ absurd (cc (sym failed ∙ e))
    | inr (b, _, done, word) ↦ subst IsWord (ok_inj (sym done ∙ e)) word
  ]

-- Of at most 32 decoded bytes, the word is the same big-endian number.
pub hex_to_bytes32-of_short :
    (h b : Bytes)
    → decode_string (trim_prefix h (codes "0x")) ≡ ok b
    → length b ≤ 32
    → hex_to_bytes32 h ≡ ok (replicate (32 - length b) 0 ++ b)
hex_to_bytes32-of_short h b e short =
    hex_to_bytes32-fitted h b e
    ∙ ap (λ t. ok (replicate (32 - length b) 0 ++ t)) (take-all 32 b short)

-- A word is read back from its print, with the prefix that the site and the CLI print.
pub hex_to_bytes32-encode_to_string :
    (w : Bytes) → IsWord w → hex_to_bytes32 (codes "0x" ++ encode_to_string w) ≡ ok w
hex_to_bytes32-encode_to_string w (len, small) =
    hex_to_bytes32-of_short (codes "0x" ++ encode_to_string w) w
      (unfold trim_prefix in decode_string-encode_to_string w small) (omega arith)
    ∙ (let full : 32 - length w ≡ 0 = omega arith in ap (λ t. ok (replicate t 0 ++ w)) full)
