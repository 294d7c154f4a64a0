-- ===== src/Tests/Toy.antt =====
-- Concrete instances of the parameters: a hash, a credential, a policy, a node.
use zk_fact_verification.Common.{
  ℕ, ◌+◌, ◌%◌, ◌≡◌, refl, sym, ap, ℤ, pos, List, [], ◌∷◌, true, Result, ok, arith,
}
use zk_fact_verification.Circuit.{field_mod, to_field, NoirLib, SameHash}
use zk_fact_verification.Poseidon.{InField, HashesField}

-- The sum of field elements stands for the hash.
unfoldable pub field_sum : List ℤ → ℕ
field_sum [] = 0
field_sum (x ∷ xs) = to_field x + field_sum xs

unfoldable pub sum_hash : List ℤ → Result ℤ
sum_hash xs = ok (pos (field_sum xs % field_mod))

abbrev pub sum_lib : NoirLib
sum_lib = record {
  hash_2 = λ a b. (a + (b + 0)) % field_mod % field_mod;
  hash_4 = λ a b c d. (a + (b + (c + (d + 0)))) % field_mod % field_mod;
  eddsa_verify = λ x y s r8x r8y m. true;
}

ok_inj : {a b : ℤ} → ◌≡◌ {A = Result ℤ} (ok a) (ok b) → a ≡ b
ok_inj h = cc

pub sum_SameHash : SameHash sum_hash sum_lib
unfolding sum_hash field_sum to_field
sum_SameHash = record {
  two = λ a b h e. ap to_field (sym (ok_inj e));
  four = λ a b c d h e. ap to_field (sym (ok_inj e));
}

rest_lt : (n : ℕ) → InField (pos (n % field_mod))
rest_lt n = omega arith

pub sum_HashesField : HashesField sum_hash
unfolding sum_hash
sum_HashesField = record {
  two = λ a b ha hb. (pos (field_sum (a ∷ b ∷ []) % field_mod), refl, rest_lt _);
  four = λ a b c d ha hb hc hd. (pos (field_sum (a ∷ b ∷ c ∷ d ∷ []) % field_mod), refl, rest_lt _);
}
