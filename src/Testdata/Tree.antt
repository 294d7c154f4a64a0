-- ===== src/Testdata/Tree.antt =====
-- The levels of cli/testdata/generate.go and those of `BuildTree`.
use zk_fact_verification.Common.{
  ℕ, zero, suc, ◌+◌, ◌-◌, ◌≡◌, refl, sym, ap, ◌∙◌, ℤ, pos, List, [], ◌∷◌, Result, ok, ok_cases,
}
use zk_fact_verification.Policy.Tree.{
  tree_depth, max_leaves, pad_leaves, next_level, build_levels, build_tree,
}
use zk_fact_verification.Policy.Tree.Levels.{next_level_inv}
use zk_fact_verification.Testdata.{Crypto, zero_leaves, parent_level, levels_above}

-- The value that `poseidon.Hash` returns, where it gives no error.
abbrev pub Returns : (List ℤ → Result ℤ) → Crypto → Type 0
Returns hash crypto = (xs : List ℤ) (h : ℤ) → hash xs ≡ ok h → crypto.poseidon xs ≡ h

pad_leaves-zero_leaves : (n : ℕ) → pad_leaves n [] ≡ zero_leaves n
unfolding pad_leaves zero_leaves
pad_leaves-zero_leaves zero = refl
pad_leaves-zero_leaves (suc n) = ap (λ t. pos 0 ∷ t) (pad_leaves-zero_leaves n)

padded_leaf : (n : ℕ) (leaf : ℤ) → pad_leaves (suc n) (leaf ∷ []) ≡ leaf ∷ zero_leaves n
unfolding pad_leaves
padded_leaf n leaf = ap (λ t. leaf ∷ t) (pad_leaves-zero_leaves n)

list_ok_inj : {a b : List ℤ} → ◌≡◌ {A = Result (List ℤ)} (ok a) (ok b) → a ≡ b
list_ok_inj h = cc

levels_ok_inj : {a b : List (List ℤ)} → ◌≡◌ {A = Result (List (List ℤ))} (ok a) (ok b) → a ≡ b
levels_ok_inj h = cc

module _ (hash : List ℤ → Result ℤ) (crypto : Crypto) (returns : Returns hash crypto) where
  parent_level-next_level :
      (d i : ℕ) (prev next : List ℤ)
      → next_level hash d i prev ≡ ok next
      → parent_level crypto prev ≡ next
  unfolding next_level parent_level
  parent_level-next_level d i [] next e = list_ok_inj e
  parent_level-next_level d i (x ∷ []) next e = list_ok_inj e
  parent_level-next_level d i (l ∷ r ∷ prev) next e =
      let (h, rest, hashed, er, en) = next_level_inv hash d i l r prev next e in
      rw (returns _ h hashed, parent_level-next_level d (i + 1) prev rest er) (sym en)

  levels_above-build_levels :
      (n d : ℕ) (level : List ℤ) (levels : List (List ℤ))
      → build_levels hash n d level ≡ ok levels
      → levels_above crypto n level ≡ levels
  unfolding build_levels levels_above
  levels_above-build_levels zero d level levels e = levels_ok_inj e
  levels_above-build_levels (suc n) d level levels e0 =
      ok_cases (next_level hash d 0 level) _ e0 λ next en e1.
        ok_cases (build_levels hash n (d + 1) next) _ e1 λ above ea e2.
          rw (parent_level-next_level d 0 level next en) (
            ap (λ t. level ∷ t) (levels_above-build_levels n (d + 1) next above ea)
            ∙ levels_ok_inj e2)

  pub levels_above-build_tree :
      (leaf : ℤ) (levels : List (List ℤ))
      → build_tree hash (leaf ∷ []) ≡ ok levels
      → levels_above crypto tree_depth (leaf ∷ zero_leaves (max_leaves - 1)) ≡ levels
  unfolding build_tree
  levels_above-build_tree leaf levels e =
      levels_above-build_levels tree_depth 0 (leaf ∷ zero_leaves (max_leaves - 1)) levels
        (ap (build_levels hash tree_depth 0) (sym (padded_leaf 65535 leaf)) ∙ e)
