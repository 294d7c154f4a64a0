-- ===== src/Poseidon.antt =====
-- The contract of `poseidon.Hash` (go-iden3-crypto) that the Go code relies on: a hash is returned
-- for two and for four field elements, and is a field element.
use zk_fact_verification.Common.{◌<◌, ◌≡◌, ℤ, pos, negsuc, List, [], ◌∷◌, Result, ok}
use zk_fact_verification.Circuit.{field_mod}

abbrev pub InField : ℤ → Type 0
InField (pos n) = n < field_mod
InField (negsuc n) = ⊥

pub record HashesField (hash : List ℤ → Result ℤ) : Type 0 where
  pub two : (a b : ℤ) → InField a → InField b → (h : ℤ) × (hash (a ∷ b ∷ []) ≡ ok h) × InField h
  pub four :
      (a b c d : ℤ)
      → InField a
      → InField b
      → InField c
      → InField d
      → (h : ℤ) × (hash (a ∷ b ∷ c ∷ d ∷ []) ≡ ok h) × InField h
