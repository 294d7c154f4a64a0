-- ===== src/Policy/Tree/Shape.antt =====
-- The size of a path of `GetMerklePath` (cli/internal/policy/tree.go), and its bits.
use mathlib.Core.Path.{subst}
use zk_fact_verification.Common.{
  ℕ, zero, suc, ◌≡◌, refl, ap, ◌<◌, ◌+◌, ◌-◌, ◌/◌, ◌%◌, ◌==◌, ℤ, pos, List, [], ◌∷◌, Result, ok,
  map, length, All, arith, Bool-cases, inl, inr, ok_cases, Option, ◌>>=◌, or_panic, get_elem?,
}
use zk_fact_verification.Circuit.{to_field}
use zk_fact_verification.Policy.Tree.{tree_depth, merkle_path_from, get_merkle_path}

abbrev pub IsBit : ℕ → Type 0
IsBit b = b < 2

-- `n` nodes, and as many bits.
pub record IsPath (n : ℕ) (path : List ℤ × List ℕ) : Type 0 where
  pub length-nodes : length (path.0) ≡ n
  pub length-bits : length (path.1) ≡ n
  pub bits : All IsBit (path.1)

ok_inj : {a b : List ℤ × List ℕ} → ◌≡◌ {A = Result (List ℤ × List ℕ)} (ok a) (ok b) → a ≡ b
ok_inj h = cc

-- One round, for either sibling.
IsPath-step :
    (n : ℕ) (sibling : Option ℤ) (b : ℕ) (rest : Result (List ℤ × List ℕ)) (path : List ℤ × List ℕ)
    → b < 2
    → ((r : List ℤ × List ℕ) → rest ≡ ok r → IsPath n r)
    → (do s ← or_panic sibling; r ← rest; ok (s ∷ r.0, b ∷ r.1)) ≡ ok path
    → IsPath (suc n) path
IsPath-step n sibling b rest path hb below h0 = ok_cases (or_panic sibling) _ h0 λ s _ h1.
    ok_cases rest _ h1 λ r er h2.
      let h : IsPath n r = below r er in
      subst (IsPath (suc n)) (ok_inj h2) (record {
        length-nodes = ap suc h.length-nodes;
        length-bits = ap suc h.length-bits;
        bits = (hb, h.bits);
      })

merkle_path_from-IsPath :
    (n : ℕ) (levels : List (List ℤ)) (idx : ℕ) (path : List ℤ × List ℕ)
    → merkle_path_from n levels idx ≡ ok path
    → IsPath n path
unfolding merkle_path_from
merkle_path_from-IsPath zero levels idx path h =
    subst (IsPath 0) (ok_inj {a = ([], [])} h)
      (record { length-nodes = refl; length-bits = refl; bits = tt })
merkle_path_from-IsPath (suc n) [] idx path h = cc
merkle_path_from-IsPath (suc n) (level ∷ levels) idx path h =
    let below : (r : List ℤ × List ℕ) → merkle_path_from n levels (idx / 2) ≡ ok r → IsPath n r =
      merkle_path_from-IsPath n levels (idx / 2) in
    elim (Bool-cases (idx % 2 == 0)) [
      | inl even ↦
          IsPath-step n (get_elem? level (idx + 1)) 0 _ path (omega arith) below
            (rw (merkle_path_from, even) at h)
      | inr odd ↦
          IsPath-step n (get_elem? level (idx - 1)) 1 _ path (omega arith) below
            (rw (merkle_path_from, odd) at h)
    ]

pub get_merkle_path-IsPath :
    (levels : List (List ℤ)) (idx : ℕ) (path : List ℤ × List ℕ)
    → get_merkle_path levels idx ≡ ok path
    → IsPath tree_depth path
unfolding get_merkle_path
get_merkle_path-IsPath levels idx path h = merkle_path_from-IsPath tree_depth levels idx path h

-- A bit stands for itself in the field.
pub to_field-bits : (bits : List ℕ) → All IsBit bits → map to_field (map pos bits) ≡ bits
unfolding to_field
to_field-bits [] h = refl
to_field-bits (b ∷ bits) (hb, h) =
    let same : to_field (pos b) ≡ b = omega arith in rw (same, to_field-bits bits h) refl
