-- ===== src/Std/Digits/Plain.antt =====
-- The characters of a printed number.
use zk_fact_verification.Common.{
  ℕ, zero, suc, ◌/◌, ◌%◌, ◌<◌, ◌≡◌, refl, ℤ, pos, negsuc, [], ◌∷◌, Bytes, true, Bool-cases, inl,
  inr, ◌==◌, ◌||◌, ◌&&◌, leb, All, arith,
}
use zk_fact_verification.Std.Digits.{digit_char, digits, itoa, sign, to_string}

-- A decimal digit or a minus sign.
abbrev pub IsNumeral : ℕ → Type 0
IsNumeral c = ((c == b'-') || (leb b'0' c && leb c b'9')) ≡ true

digit_char-IsNumeral : (d : ℕ) → d < 10 → IsNumeral (digit_char d)
unfolding digit_char
digit_char-IsNumeral d h = ground arith

digits-IsNumeral :
    (fuel n : ℕ) (out : Bytes) → All IsNumeral out → All IsNumeral (digits fuel 10 n out)
unfolding digits
digits-IsNumeral zero n out h = h
digits-IsNumeral (suc fuel) n out h = elim (Bool-cases (n == 0)) [
  | inl done ↦ rw done h
  | inr more ↦ rw more (
      digits-IsNumeral fuel (n / 10) (digit_char (n % 10) ∷ out)
        (digit_char-IsNumeral (n % 10) (omega arith), h))
]

itoa-IsNumeral : (n : ℕ) → All IsNumeral (itoa 10 n)
unfolding itoa
itoa-IsNumeral n = elim (Bool-cases (n == 0)) [
  | inl done ↦ rw done (refl, tt)
  | inr more ↦ rw more (digits-IsNumeral n n [] tt)
]

pub to_string-IsNumeral : (v : ℤ) → All IsNumeral (to_string v)
unfolding to_string sign
to_string-IsNumeral (pos n) = itoa-IsNumeral n
to_string-IsNumeral (negsuc n) = (refl, itoa-IsNumeral (suc n))
