-- ===== src/Std/Digits.antt =====
-- The texts of a `big.Int` in a base of at most 36: `SetString`, `String` and the verb `%064x`.
pub mod RoundTrip
pub mod Plain
use zk_fact_verification.Common.{
  ℕ, zero, suc, ◌+◌, ◌-◌, ◌*◌, ◌/◌, ◌%◌, ℤ, pos, negsuc, neg_of_nat, nat_abs, is_neg, List, [], ◌∷◌,
  ◌++◌, Bytes, Bool, true, false, ◌&&◌, Option, none, some, ltb, leb, ◌==◌, length, replicate,
  if◌then◌else◌,
}
use mathlib.Core.Option

-- The value of a digit or letter.
unfoldable pub digit_value : ℕ → Option ℕ
digit_value c =
    if leb b'0' c && leb c b'9'
    then some (c - b'0')
    else if leb b'a' c && leb c b'z'
    then some (c - b'a' + 10)
    else if leb b'A' c && leb c b'Z'
    then some (c - b'A' + 10)
    else none

unfoldable pub digit_below : ℕ → ℕ → Option ℕ
unfolding digit_value
digit_below base c = elim (digit_value c) [
  | none ↦ none
  | some d ↦ if ltb d base then some d else none
]

-- The number that digits spell behind `n`.
unfoldable pub scan_from : ℕ → ℕ → Bytes → Option ℕ
unfolding digit_below
scan_from base n [] = some n
scan_from base n (c ∷ s) = elim (digit_below base c) [
  | none ↦ none
  | some d ↦ scan_from base (n * base + d) s
]

-- At least one digit is wanted.
unfoldable pub scan : ℕ → Bytes → Option ℕ
unfolding scan_from
scan base [] = none
scan base (c ∷ s) = scan_from base 0 (c ∷ s)

-- `new(big.Int).SetString(s, base)` for a base other than 0
unfoldable pub set_string : ℕ → Bytes → Option ℤ
unfolding scan
set_string base [] = none
set_string base (c ∷ s) =
    if c == b'-'
    then Option.map neg_of_nat (scan base s)
    else if c == b'+'
    then Option.map pos (scan base s)
    else Option.map pos (scan base (c ∷ s))

unfoldable pub digit_char : ℕ → ℕ
digit_char d = if ltb d 10 then b'0' + d else b'a' + (d - 10)

-- The digits of `n` in front of `out`; every round divides `n`, so `n` rounds are enough.
unfoldable pub digits : ℕ → ℕ → ℕ → Bytes → Bytes
unfolding digit_char
digits zero base n out = out
digits (suc fuel) base n out =
    let more = digits fuel base (n / base) (digit_char (n % base) ∷ out) in
    if n == 0 then out else more

unfoldable pub itoa : ℕ → ℕ → Bytes
unfolding digits
itoa base n = if n == 0 then b'0' ∷ [] else digits n base n []

unfoldable pub sign : ℤ → Bytes
sign v = if is_neg v then b'-' ∷ [] else []

-- `v.String()`
unfoldable pub to_string : ℤ → Bytes
unfolding itoa sign
to_string v = sign v ++ itoa 10 (nat_abs v)

-- `fmt.Sprintf("%064x", v)`: zeros between the sign and the digits, up to 64 characters in all.
unfoldable pub format_064x : ℤ → Bytes
unfolding itoa sign
format_064x v =
    let ds = itoa 16 (nat_abs v) in
    sign v ++ (replicate (64 - (length (sign v) + length ds)) b'0' ++ ds)
