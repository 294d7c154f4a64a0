-- ===== src/Common/Int.antt =====
-- Go's `big.Int`: an integer of any size.
use Prim.Native.Nat.{ℕ, zero, suc}
use mathlib.Core.Path.{◌≡◌, refl}
use mathlib.Core.Bool.{Bool, true, false}

-- `negsuc n` is -(n + 1).
pub data ℤ : Type 0 where
  pos : ℕ → ℤ
  negsuc : ℕ → ℤ

abbrev pub nat_abs : ℤ → ℕ
nat_abs (pos n) = n
nat_abs (negsuc n) = suc n

abbrev pub is_neg : ℤ → Bool
is_neg (pos n) = false
is_neg (negsuc n) = true

-- -n
abbrev pub neg_of_nat : ℕ → ℤ
neg_of_nat zero = pos 0
neg_of_nat (suc n) = negsuc n

neg_of_nat-nat_abs : (n : ℕ) → neg_of_nat (suc n) ≡ negsuc n
neg_of_nat-nat_abs n = refl
