-- ===== src/Std/Digits/RoundTrip.antt =====
-- The printed texts of numbers and their reader.
use native.Mathlib.Nat.{pow-suc}
use zk_fact_verification.Common.{
  ℕ, zero, suc, ◌+◌, ◌-◌, ◌*◌, ◌/◌, ◌%◌, ◌^◌, ◌≤◌, ◌<◌, ◌≡◌, ◌≢◌, refl, sym, ap, ◌∙◌, ℤ, pos,
  negsuc, neg_of_nat, [], ◌∷◌, ◌++◌, Bytes, Bool-cases, Option-cases, inl, inr, none, some, ◌==◌,
  ==_iff, length, replicate, arith, length-append, length-replicate,
}
use zk_fact_verification.Std.Digits.{
  digit_below, scan_from, scan, set_string, digit_char, digits, itoa, to_string, format_064x,
}
use mathlib.Core.Option
use mathlib.Core.List.{cons-ne-nil}

digit_below-digit_char :
    (base d : ℕ) → d < base → base ≤ 16 → digit_below base (digit_char d) ≡ some d
unfolding digit_below digit_char
digit_below-digit_char base d h small = ground arith

pub scan_from-cons :
    (base n c d : ℕ) (s : Bytes)
    → digit_below base c ≡ some d
    → scan_from base n (c ∷ s) ≡ scan_from base (n * base + d) s
unfolding scan_from
scan_from-cons base n c d s h = rw (h, scan_from)

scan_from-bad :
    (base n c : ℕ) (s : Bytes) → digit_below base c ≡ none → scan_from base n (c ∷ s) ≡ none
unfolding scan_from
scan_from-bad base n c s h = rw (h, scan_from)

pub scan_from-inv :
    (base n c : ℕ) (s : Bytes) {m : ℕ}
    → scan_from base n (c ∷ s) ≡ some m
    → (d : ℕ) × (digit_below base c ≡ some d) × (scan_from base (n * base + d) s ≡ some m)
scan_from-inv base n c s h = elim (Option-cases (digit_below base c)) [
  | inl bad ↦ absurd (cc (scan_from-bad base n c s bad, h))
  | inr (d, e) ↦ (d, e, sym (scan_from-cons base n c d s e) ∙ h)
]

zero_digit : (base : ℕ) → 2 ≤ base → base ≤ 16 → digit_below base b'0' ≡ some 0
unfolding digit_below
zero_digit base lo hi = ground arith

scan_from-zero :
    (base : ℕ) (s : Bytes) → 2 ≤ base → base ≤ 16 → scan_from base 0 (b'0' ∷ s) ≡ scan_from base 0 s
scan_from-zero base s lo hi =
    scan_from-cons base 0 b'0' 0 s (zero_digit base lo hi)
    ∙ ap (λ t. scan_from base t s) (omega arith)

-- Reading the last digit of `n` behind the digits before it gives `n`.
scan_last :
    (base n : ℕ) (out : Bytes)
    → 2 ≤ base
    → base ≤ 16
    → scan_from base (n / base) (digit_char (n % base) ∷ out) ≡ scan_from base n out
unfolding scan_from
scan_last base n out lo hi =
    rw (digit_below-digit_char base (n % base) (grind arith) hi, scan_from)
      (ap (λ t. scan_from base t out) (grind arith))

div_fuel : (fuel base n : ℕ) → n ≤ suc fuel → 2 ≤ base → n ≢ 0 → n / base ≤ fuel
div_fuel fuel base n h lo nz = grind arith

scan_from-digits :
    (fuel base n : ℕ) (out : Bytes)
    → n ≤ fuel
    → 2 ≤ base
    → base ≤ 16
    → scan_from base 0 (digits fuel base n out) ≡ scan_from base n out
unfolding digits
scan_from-digits zero base n out h lo hi = ap (λ t. scan_from base t out) (omega arith)
scan_from-digits (suc fuel) base n out h lo hi = elim (Bool-cases (n == 0)) [
  | inl done ↦ rw done (ap (λ t. scan_from base t out) (ground arith))
  | inr more ↦ rw more (
      scan_from-digits fuel base (n / base) (digit_char (n % base) ∷ out)
        (div_fuel fuel base n h lo (ground arith)) lo hi
      ∙ scan_last base n out lo hi)
]

-- A text without its first character's being a sign.
digits-ne-nil : (fuel base n : ℕ) (out : Bytes) → out ≢ [] → digits fuel base n out ≢ []
unfolding digits
digits-ne-nil zero base n out h = h
digits-ne-nil (suc fuel) base n out h = elim (Bool-cases (n == 0)) [
  | inl done ↦ rw done h
  | inr more ↦
      rw more (digits-ne-nil fuel base (n / base) (digit_char (n % base) ∷ out) (cons-ne-nil _ _))
]

digits_of_pos : (n base : ℕ) → n ≢ 0 → digits n base n [] ≢ []
unfolding digits
digits_of_pos zero base h = absurd (h refl)
digits_of_pos (suc n) base h = elim (Bool-cases (suc n == 0)) [
  | inl done ↦ absurd (ground arith)
  | inr more ↦ rw more (digits-ne-nil n base (suc n / base) _ (cons-ne-nil _ _))
]

scan-scan_from : (base : ℕ) (s : Bytes) → s ≢ [] → scan base s ≡ scan_from base 0 s
unfolding scan
scan-scan_from base [] h = absurd (h refl)
scan-scan_from base (c ∷ s) h = refl

itoa-ne-nil : (base n : ℕ) → itoa base n ≢ []
unfolding itoa
itoa-ne-nil base n = elim (Bool-cases (n == 0)) [
  | inl done ↦ rw done (cons-ne-nil _ _)
  | inr more ↦ rw more (digits_of_pos n base (ground arith))
]

scan_from-itoa : (base n : ℕ) → 2 ≤ base → base ≤ 16 → scan_from base 0 (itoa base n) ≡ some n
unfolding itoa
scan_from-itoa base n lo hi = elim (Bool-cases (n == 0)) [
  | inl done ↦ rw done (scan_from-zero base [] lo hi ∙ (unfold scan_from in ground arith))
  | inr more ↦
      rw more (scan_from-digits n base n [] (omega arith) lo hi ∙ (unfold scan_from in refl))
]

-- Zeros in front change nothing.
scan_from-zeros :
    (base k : ℕ) (s : Bytes)
    → 2 ≤ base
    → base ≤ 16
    → scan_from base 0 (replicate k b'0' ++ s) ≡ scan_from base 0 s
scan_from-zeros base zero s lo hi = refl
scan_from-zeros base (suc k) s lo hi =
    scan_from-zero base (replicate k b'0' ++ s) lo hi ∙ scan_from-zeros base k s lo hi

sign_is_no_digit :
    (base : ℕ) (s : Bytes)
    → (scan_from base 0 (b'-' ∷ s) ≡ none) × (scan_from base 0 (b'+' ∷ s) ≡ none)
unfolding scan_from
sign_is_no_digit base s = (refl, refl)

-- Digits with no sign are the number that they spell.
set_string-of_digits :
    (base : ℕ) (s : Bytes) (n : ℕ)
    → s ≢ []
    → scan_from base 0 s ≡ some n
    → set_string base s ≡ some (pos n)
unfolding set_string
set_string-of_digits base [] n h e = absurd (h refl)
set_string-of_digits base (c ∷ s) n h e = elim (Bool-cases (c == b'-')) [
  | inl minus ↦ absurd (
      cc (
        ap (λ t. scan_from base 0 (t ∷ s)) ((==_iff c b'-').0 minus),
        (sign_is_no_digit base s).0,
        e,
      ))
  | inr other ↦ elim (Bool-cases (c == b'+')) [
    | inl plus ↦ absurd (
        cc (
          ap (λ t. scan_from base 0 (t ∷ s)) ((==_iff c b'+').0 plus),
          (sign_is_no_digit base s).1,
          e,
        ))
    | inr digit ↦ rw (other, digit) (ap (Option.map pos) e)
  ]
]

set_string-minus :
    (base : ℕ) (s : Bytes) (n : ℕ)
    → s ≢ []
    → scan_from base 0 s ≡ some (suc n)
    → set_string base (b'-' ∷ s) ≡ some (negsuc n)
unfolding set_string
set_string-minus base s n h e = ap (Option.map neg_of_nat) (scan-scan_from base s h ∙ e)

append-ne-nil : (xs ys : Bytes) → ys ≢ [] → xs ++ ys ≢ []
append-ne-nil [] ys h = h
append-ne-nil (x ∷ xs) ys h = cons-ne-nil _ _

pub set_string-to_string : (v : ℤ) → set_string 10 (to_string v) ≡ some v
unfolding to_string
set_string-to_string (pos n) =
    set_string-of_digits 10 (itoa 10 n) n (itoa-ne-nil 10 n)
      (scan_from-itoa 10 n (omega arith) (omega arith))
set_string-to_string (negsuc n) =
    set_string-minus 10 (itoa 10 (suc n)) n (itoa-ne-nil 10 (suc n))
      (scan_from-itoa 10 (suc n) (omega arith) (omega arith))

padded-ne-nil : (k n : ℕ) → replicate k b'0' ++ itoa 16 n ≢ []
padded-ne-nil k n = append-ne-nil _ _ (itoa-ne-nil 16 n)

pub scan_from-padded : (k n : ℕ) → scan_from 16 0 (replicate k b'0' ++ itoa 16 n) ≡ some n
scan_from-padded k n =
    scan_from-zeros 16 k (itoa 16 n) (omega arith) (omega arith)
    ∙ scan_from-itoa 16 n (omega arith) (omega arith)

pub set_string-format_064x : (v : ℤ) → set_string 16 (format_064x v) ≡ some v
unfolding format_064x
set_string-format_064x (pos n) =
    set_string-of_digits 16 _ n (padded-ne-nil _ n) (scan_from-padded _ n)
set_string-format_064x (negsuc n) =
    set_string-minus 16 _ n (padded-ne-nil _ (suc n)) (scan_from-padded _ (suc n))

length-digits :
    (k fuel n : ℕ) (out : Bytes) → n < 16 ^ k → length (digits fuel 16 n out) ≤ k + length out
unfolding digits
length-digits k zero n out h = omega arith
length-digits zero (suc fuel) n out h = ground arith
length-digits (suc k) (suc fuel) n out h =
    ground (arith, pow-suc 16 k, length-digits k fuel (n / 16) (digit_char (n % 16) ∷ out))

length-itoa : (n : ℕ) → n < 16 ^ 64 → length (itoa 16 n) ≤ 64
unfolding itoa
length-itoa n h = elim (Bool-cases (n == 0)) [
  | inl done ↦ rw done (omega arith)
  | inr more ↦ rw more (omega (arith, length-digits 64 n n [] h))
]

length-padded :
    (ds : Bytes) → length ds ≤ 64 → length (replicate (64 - (0 + length ds)) b'0' ++ ds) ≡ 64
length-padded ds h = omega (
  arith,
  length-append (replicate (64 - (0 + length ds)) b'0') ds,
  length-replicate {A = ℕ} (64 - (0 + length ds)) b'0',
)

-- A number below 16 ^ 64 fills the 64 characters exactly.
pub length-format_064x : (n : ℕ) → n < 16 ^ 64 → length (format_064x (pos n)) ≡ 64
unfolding format_064x
length-format_064x n h = length-padded (itoa 16 n) (length-itoa n h)
