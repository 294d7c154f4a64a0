-- ===== src/Std/Hex/Value.antt =====
-- `DecodeString` against `SetString` and `EncodeToString`.
use zk_fact_verification.Common.{
  ℕ, zero, suc, ◌+◌, ◌*◌, ◌/◌, ◌%◌, ◌<◌, ◌≡◌, refl, ap, ◌∙◌, [], ◌∷◌, Bytes, IsByte, All, some,
  Error, ok, err, length, arith, >>=-eq-ok,
}
use zk_fact_verification.Std.Digits.{digit_below, scan_from}
use zk_fact_verification.Std.Digits.RoundTrip.{scan_from-cons, scan_from-inv}
use zk_fact_verification.Std.Slices.{be_value}
use zk_fact_verification.Std.Hex.{nibble, decode_string, hex_char, encode_to_string}

digit_below-nibble : (c d : ℕ) → nibble c ≡ ok d → (digit_below 16 c ≡ some d) × (d < 16)
unfolding nibble digit_below
digit_below-nibble c d h = ground arith

nibble-digit_below : (c d : ℕ) → digit_below 16 c ≡ some d → nibble c ≡ ok d
unfolding nibble digit_below
nibble-digit_below c d h = ground arith

nibble-hex_char : (d : ℕ) → d < 16 → nibble (hex_char d) ≡ ok d
unfolding nibble hex_char
nibble-hex_char d h = ground arith

decode_string_inv :
    (c c' : ℕ) (s bs : Bytes)
    → decode_string (c ∷ c' ∷ s) ≡ ok bs
    → (a : ℕ) × (b : ℕ) × (rest : Bytes) × (nibble c ≡ ok a)
      × (nibble c' ≡ ok b)
      × (decode_string s ≡ ok rest)
      × (bs ≡ (a * 16 + b) ∷ rest)
unfolding decode_string
decode_string_inv c c' s bs h =
    let (a, ea, h1) = >>=-eq-ok (nibble c) _ h in
    let (b, eb, h2) = >>=-eq-ok (nibble c') _ h1 in
    let (rest, er, h3) = >>=-eq-ok (decode_string s) _ h2 in (a, b, rest, ea, eb, er, (cc))

-- A character that is no digit stops the decoding.
pub decode_string-bad :
    (c : ℕ) (s : Bytes) {e : Error} → nibble c ≡ err e → decode_string (c ∷ s) ≡ err e
unfolding decode_string
decode_string-bad c [] h = rw h
decode_string-bad c (c' ∷ s) h = rw h

-- A decoded text has two digits for each byte, and both spell one number.
pub decode_string-value :
    (s bs : Bytes) (n : ℕ)
    → decode_string s ≡ ok bs
    → (scan_from 16 n s ≡ some (be_value n bs)) × (length s ≡ 2 * length bs) × All IsByte bs
unfolding decode_string
decode_string-value [] [] n h = (unfold scan_from be_value in refl, omega arith, tt)
decode_string-value [] (b ∷ bs) n h = absurd (cc h)
decode_string-value (c ∷ []) bs n h = absurd (ground arith)
decode_string-value (c ∷ c' ∷ s) bs n h =
    let (a, b, rest, ea, eb, er, e) = decode_string_inv c c' s bs h in
    let (scanned, len, small) = decode_string-value s rest (n * 256 + (a * 16 + b)) er in
    let (da, la) = digit_below-nibble c a ea in
    let (db, lb) = digit_below-nibble c' b eb in
    rw e (
      scan_from-cons 16 n c a (c' ∷ s) da
          ∙ scan_from-cons 16 (n * 16 + a) c' b s db
          ∙ ap (λ t. scan_from 16 t s) (omega arith)
          ∙ scanned
          ∙ (unfold be_value in refl),
      omega arith,
      (omega arith, small),
    )

-- Digits in even number are decoded.
pub decode_string-total :
    (s : Bytes) (k n : ℕ) {m : ℕ}
    → scan_from 16 n s ≡ some m
    → length s ≡ 2 * k
    → (bs : Bytes) × (decode_string s ≡ ok bs) × (length bs ≡ k)
unfolding decode_string
decode_string-total [] k n e len = ([], refl, omega arith)
decode_string-total (c ∷ []) k n e len = absurd (omega arith)
decode_string-total (c ∷ c' ∷ s) zero n e len = absurd (omega arith)
decode_string-total (c ∷ c' ∷ s) (suc k) n e len =
    let (a, da, e1) = scan_from-inv 16 n c (c' ∷ s) e in
    let (b, db, e2) = scan_from-inv 16 (n * 16 + a) c' s e1 in
    let (bs, ebs, lbs) = decode_string-total s k ((n * 16 + a) * 16 + b) e2 (omega arith) in
    (
      (a * 16 + b) ∷ bs,
      rw (nibble-digit_below c a da, nibble-digit_below c' b db, ebs),
      omega arith,
    )

-- `DecodeString` undoes `EncodeToString`.
pub decode_string-encode_to_string :
    (bs : Bytes) → All IsByte bs → decode_string (encode_to_string bs) ≡ ok bs
unfolding decode_string encode_to_string
decode_string-encode_to_string [] h = refl
decode_string-encode_to_string (b ∷ bs) (hb, h) =
    rw
      (
        nibble-hex_char (b / 16) (omega arith),
        nibble-hex_char (b % 16) (omega arith),
        decode_string-encode_to_string bs h,
      )
      (ap (λ t. ok (t ∷ bs)) (omega arith))

length-encode_to_string : (bs : Bytes) → length (encode_to_string bs) ≡ 2 * length bs
unfolding encode_to_string
length-encode_to_string [] = omega arith
length-encode_to_string (b ∷ bs) = omega (arith, length-encode_to_string bs)
