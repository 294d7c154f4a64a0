-- ===== src/Std/Slices.antt =====
-- `strings.TrimPrefix`, `strings.HasPrefix`, `copy` and the `SetBytes` of `math/big`.
use zk_fact_verification.Common.{
  ℕ, zero, suc, ◌+◌, ◌-◌, ◌*◌, ◌≡◌, refl, ap, [], ◌∷◌, ◌++◌, Bytes, Bool, true, false, Option, none,
  some, ◌==◌, arith, length, take, drop, replicate, append-nil, append_assoc, length-append,
  length-replicate, sym, ◌∙◌, if◌then◌else◌,
}

-- What follows the prefix, if the text starts with it.
unfoldable pub cut_prefix : Bytes → Bytes → Option Bytes
cut_prefix [] s = some s
cut_prefix (p ∷ prefix) [] = none
cut_prefix (p ∷ prefix) (c ∷ s) = let rest = cut_prefix prefix s in if p == c then rest else none

unfoldable pub trim_prefix : Bytes → Bytes → Bytes
unfolding cut_prefix
trim_prefix s prefix = elim (cut_prefix prefix s) [ none ↦ s | some rest ↦ rest ]

unfoldable pub has_prefix : Bytes → Bytes → Bool
unfolding cut_prefix
has_prefix s prefix = elim (cut_prefix prefix s) [ none ↦ false | some rest ↦ true ]

-- `copy(dst, src)`: the bytes of `dst` afterwards.
unfoldable pub copy : Bytes → Bytes → Bytes
copy [] src = []
copy (d ∷ dst) [] = d ∷ dst
copy (d ∷ dst) (s ∷ src) = s ∷ copy dst src

-- `copy(dst[lo:hi], src)`
unfoldable pub copy_range : Bytes → ℕ → ℕ → Bytes → Bytes
unfolding copy
copy_range dst lo hi src = take lo dst ++ (copy (take (hi - lo) (drop lo dst)) src ++ drop hi dst)

-- `new(big.Int).SetBytes(b)`: big-endian, behind the number `n`.
unfoldable pub be_value : ℕ → Bytes → ℕ
be_value n [] = n
be_value n (b ∷ bs) = be_value (n * 256 + b) bs

copy-same_length : (dst src : Bytes) → length dst ≡ length src → copy dst src ≡ src
unfolding copy
copy-same_length [] [] h = refl
copy-same_length [] (s ∷ src) h = absurd (omega arith)
copy-same_length (d ∷ dst) [] h = absurd (omega arith)
copy-same_length (d ∷ dst) (s ∷ src) h = ap (λ t. s ∷ t) (copy-same_length dst src (omega arith))

take-replicate : (k m a : ℕ) → take k (replicate (k + m) a) ≡ replicate k a
take-replicate zero m a = refl
take-replicate (suc k) m a = rw (suc-add k m) (ap (λ t. a ∷ t) (take-replicate k m a))
  where
    suc-add : (k m : ℕ) → suc k + m ≡ suc (k + m)
    suc-add k m = omega arith

drop-replicate : (k m a : ℕ) → drop k (replicate (k + m) a) ≡ replicate m a
drop-replicate zero m a = rw (zero-add' m)
  where
    zero-add' : (m : ℕ) → 0 + m ≡ m
    zero-add' m = omega arith
drop-replicate (suc k) m a = rw (suc-add k m) (drop-replicate k m a)
  where
    suc-add : (k m : ℕ) → suc k + m ≡ suc (k + m)
    suc-add k m = omega arith

take-replicate_all : (n a : ℕ) → take n (replicate n a) ≡ replicate n a
take-replicate_all zero a = refl
take-replicate_all (suc n) a = ap (λ t. a ∷ t) (take-replicate_all n a)

drop-replicate_all : (n a : ℕ) → drop n (replicate n a) ≡ []
drop-replicate_all zero a = refl
drop-replicate_all (suc n) a = drop-replicate_all n a

-- A copy that fills the end of a zero array.
pub copy_range-zeros :
    (k m : ℕ) (src : Bytes)
    → length src ≡ m
    → copy_range (replicate (k + m) 0) k (k + m) src ≡ replicate k 0 ++ src
unfolding copy_range
copy_range-zeros k m src len =
    let gap : k + m - k ≡ m = omega arith in
    rw (
      take-replicate k m 0,
      drop-replicate k m 0,
      gap,
      take-replicate_all m 0,
      drop-replicate_all (k + m) 0,
      append-nil,
      copy-same_length (replicate m 0) src (length-replicate m 0 ∙ sym len),
    )

take-append : (xs ys : Bytes) (n : ℕ) → length xs ≡ n → take n (xs ++ ys) ≡ xs
take-append [] ys zero h = refl
take-append [] ys (suc n) h = absurd (omega arith)
take-append (x ∷ xs) ys zero h = absurd (omega arith)
take-append (x ∷ xs) ys (suc n) h = ap (λ t. x ∷ t) (take-append xs ys n (omega arith))

drop-append : (xs ys : Bytes) (n : ℕ) → length xs ≡ n → drop n (xs ++ ys) ≡ ys
drop-append [] ys zero h = refl
drop-append [] ys (suc n) h = absurd (omega arith)
drop-append (x ∷ xs) ys zero h = absurd (omega arith)
drop-append (x ∷ xs) ys (suc n) h = drop-append xs ys n (omega arith)

-- A copy over the middle part of an array.
pub copy_range-append :
    (pre mid post src : Bytes) (lo hi : ℕ)
    → length pre ≡ lo
    → length mid ≡ length src
    → hi ≡ lo + length src
    → copy_range (pre ++ (mid ++ post)) lo hi src ≡ pre ++ (src ++ post)
unfolding copy_range
copy_range-append pre mid post src lo hi hpre hmid hhi =
    let behind : drop hi (pre ++ (mid ++ post)) ≡ post =
      ap (drop hi) (sym (append_assoc pre mid post))
      ∙ drop-append (pre ++ mid) post hi (omega (arith, length-append pre mid)) in
    rw (
      take-append pre (mid ++ post) lo hpre,
      drop-append pre (mid ++ post) lo hpre,
      behind,
      take-append mid post (hi - lo) (omega arith),
      copy-same_length mid src hmid,
    )
