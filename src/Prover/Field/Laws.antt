-- ===== src/Prover/Field/Laws.antt =====
-- The texts of field elements: printed, read back, and turned into words of 32 bytes.
use zk_fact_verification.Common.{
  ℕ, ◌+◌, ◌-◌, ◌*◌, ◌^◌, ◌≤◌, ◌<◌, ◌≡◌, refl, ap, ◌∙◌, ℤ, pos, negsuc, [], ◌∷◌, ◌++◌, Bytes, some,
  ok, err, text_of, length, replicate, arith, some,
}
use native.Mathlib.Nat.{pow-suc}
use mathlib.Core.Option.{Option}
use zk_fact_verification.Std.Slices.{trim_prefix, be_value}
use zk_fact_verification.Std.Digits.{format_064x, itoa, scan_from}
use zk_fact_verification.Std.Digits.RoundTrip.{
  set_string-format_064x, scan_from-padded, length-format_064x,
}
use zk_fact_verification.Std.Hex.{decode_string, nibble}
use zk_fact_verification.Std.Hex.Value.{decode_string-value, decode_string-total, decode_string-bad}
use zk_fact_verification.Blockchain.Bytes32.{IsWord, hex_to_bytes32}
use zk_fact_verification.Blockchain.Bytes32.Laws.{
  hex_to_bytes32-of_short, hex_to_bytes32-IsWord, be_value-zeros,
}
use zk_fact_verification.Prover.Field.{
  strip_0x, hex_to_field, field_to_hex, compute_idempotency_key_hash,
}

strip_0x-field_to_hex : (v : ℤ) → strip_0x (field_to_hex v) ≡ format_064x v
unfolding field_to_hex trim_prefix
strip_0x-field_to_hex v = refl

-- Every integer, negative ones too, is read back from its print.
pub hex_to_field-field_to_hex : (v : ℤ) → hex_to_field (field_to_hex v) ≡ ok v
unfolding hex_to_field
hex_to_field-field_to_hex v = rw (strip_0x-field_to_hex v, set_string-format_064x v, hex_to_field)

format_064x-padded : (n : ℕ) → (k : ℕ) × (format_064x (pos n) ≡ replicate k b'0' ++ itoa 16 n)
unfolding format_064x
format_064x-padded n = (_, refl)

scan_from-format_064x : (n : ℕ) → scan_from 16 0 (format_064x (pos n)) ≡ some n
scan_from-format_064x n = let (k, e) = format_064x-padded n in rw e (scan_from-padded k n)

one_value : (o : Option ℕ) (m n : ℕ) → o ≡ some m → o ≡ some n → m ≡ n
one_value o m n p q = cc

-- A number below 2 ^ 256 goes through `FieldToHex` and `HexToBytes32` into the word that spells it
-- in big-endian order.
pub hex_to_bytes32-field_to_hex :
    (n : ℕ)
    → n < 2 ^ 256
    → (w : Bytes) × (hex_to_bytes32 (field_to_hex (pos n)) ≡ ok w) × IsWord w × (be_value 0 w ≡ n)
hex_to_bytes32-field_to_hex n small =
    let scanned = scan_from-format_064x n in
    let (b, eb, len) =
      decode_string-total (format_064x (pos n)) 32 0 scanned (length-format_064x n (omega arith)) in
    let (value, _, _) = decode_string-value (format_064x (pos n)) b 0 eb in
    let w = replicate {A = ℕ} (32 - length b) 0 ++ b in
    let e : hex_to_bytes32 (field_to_hex (pos n)) ≡ ok w =
      hex_to_bytes32-of_short (field_to_hex (pos n)) b
        (ap decode_string (strip_0x-field_to_hex (pos n)) ∙ eb) (omega arith) in
    (
      w,
      e,
      hex_to_bytes32-IsWord _ w e,
      be_value-zeros (32 - length b) b
          ∙ one_value (scan_from 16 0 (format_064x (pos n))) _ n value scanned,
    )

format_064x-negative : (n : ℕ) → (rest : Bytes) × (format_064x (negsuc n) ≡ b'-' ∷ rest)
unfolding format_064x
format_064x-negative n = (_, refl)

mul_step : (n b t : ℕ) {v : ℕ} → (n * 256 + b) * t ≤ v → n * (t * 256) ≤ v
mul_step n b t h = grind arith

minus_is_bad : nibble b'-' ≡ err (text_of "encoding/hex: invalid byte: %#U" (b'-' ∷ []))
unfolding nibble
minus_is_bad = refl

be_value-ge : (n : ℕ) (key : Bytes) → n * 256 ^ length key ≤ be_value n key
unfolding be_value
be_value-ge n [] = omega arith
be_value-ge n (b ∷ key) =
    rw (pow-suc 256 (length key)) (mul_step n b (256 ^ length key) (be_value-ge (n * 256 + b) key))

-- The print of a negative number is no text of `encoding/hex`.
pub hex_to_bytes32-of_negative :
    (n : ℕ)
    → hex_to_bytes32 (field_to_hex (negsuc n))
      ≡ err (text_of "encoding/hex: invalid byte: %#U" (b'-' ∷ []))
unfolding hex_to_bytes32
hex_to_bytes32-of_negative n =
    let (rest, e) = format_064x-negative n in
    rw (strip_0x-field_to_hex (negsuc n), e, decode_string-bad b'-' rest minus_is_bad)

-- The bytes of a key are taken as one big-endian number, which grows with the key: it is not
-- brought into the field.
pub compute_idempotency_key_hash-le :
    (c : ℕ) (key : Bytes)
    → 0 < c
    → (h : ℕ) × (compute_idempotency_key_hash (c ∷ key) ≡ ok (pos h)) × (256 ^ length key ≤ h)
unfolding compute_idempotency_key_hash
compute_idempotency_key_hash-le c key h =
    (be_value 0 (c ∷ key), refl, (unfold be_value in grind (arith, be_value-ge (0 * 256 + c) key)))
