-- ===== src/Std/Hex.antt =====
-- `encoding/hex`.
pub mod Value
use zk_fact_verification.Common.{
  ℕ, ◌+◌, ◌-◌, ◌*◌, ◌/◌, ◌%◌, List, [], ◌∷◌, Bytes, ◌&&◌, Option, none, some, leb, ltb, Result, ok,
  err, text, text_of, if◌then◌else◌, ◌>>=◌,
}

unfoldable pub from_hex_char : ℕ → Option ℕ
from_hex_char c =
    if leb b'0' c && leb c b'9'
    then some (c - b'0')
    else if leb b'a' c && leb c b'f'
    then some (c - b'a' + 10)
    else if leb b'A' c && leb c b'F'
    then some (c - b'A' + 10)
    else none

-- The value of a character, or `InvalidByteError`.
unfoldable pub nibble : ℕ → Result ℕ
unfolding from_hex_char
nibble c = elim (from_hex_char c) [
  | none ↦ err (text_of "encoding/hex: invalid byte: %#U" (c ∷ []))
  | some d ↦ ok d
]

-- `hex.DecodeString`: a last character without a partner is tested before the length is.
unfoldable pub decode_string : Bytes → Result Bytes
decode_string [] = ok []
decode_string (c ∷ []) = do _ ← nibble c; err (text "encoding/hex: odd length hex string")
decode_string (c ∷ c' ∷ s) = do
  a ← nibble c
  b ← nibble c'
  rest ← decode_string s
  ok ((a * 16 + b) ∷ rest)

unfoldable pub hex_char : ℕ → ℕ
hex_char d = if ltb d 10 then b'0' + d else b'a' + (d - 10)

-- `hex.EncodeToString`
unfoldable pub encode_to_string : Bytes → Bytes
unfolding hex_char
encode_to_string [] = []
encode_to_string (b ∷ bs) = hex_char (b / 16) ∷ hex_char (b % 16) ∷ encode_to_string bs
