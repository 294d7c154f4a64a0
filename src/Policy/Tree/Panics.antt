-- ===== src/Policy/Tree/Panics.antt =====
-- `GetMerklePath` (cli/internal/policy/tree.go) at an index out of range.
use zk_fact_verification.Common.{
  ℕ, zero, suc, ◌+◌, ◌-◌, ◌*◌, ◌%◌, ◌≤◌, ◌<◌, ◌≡◌, refl, sym, ap, ◌∙◌, ℤ, List, [], ◌∷◌, none,
  Result, ok, panic, or_panic, get_elem?, length, arith, Bool-cases, inl, inr, ok_cases, ◌==◌,
}
use zk_fact_verification.Policy.Tree.{
  tree_depth, max_leaves, pad_leaves, next_level, build_levels, build_tree, merkle_path_from,
  get_merkle_path,
}
use zk_fact_verification.Policy.Tree.Levels.{length-pad_leaves}

get_elem?-none : (level : List ℤ) (i : ℕ) → length level ≤ i → get_elem? level i ≡ none
get_elem?-none [] i h = refl
get_elem?-none (x ∷ level) zero h = absurd (omega arith)
get_elem?-none (x ∷ level) (suc i) h = get_elem?-none level i (omega arith)

found-lt : (level : List ℤ) (i : ℕ) (s : ℤ) → or_panic (get_elem? level i) ≡ ok s → i < length level
found-lt [] i s h = absurd (cc h)
found-lt (x ∷ level) zero s h = omega arith
found-lt (x ∷ level) (suc i) s h = omega (arith, found-lt level i s h)

module _ (n : ℕ) (level : List ℤ) (above : List (List ℤ)) (idx k : ℕ)
    (len : length level ≡ 2 * k) where
  merkle_path_from-lt :
      (r : List ℤ × List ℕ)
      → merkle_path_from (suc n) (level ∷ above) idx ≡ ok r
      → idx < length level
  unfolding merkle_path_from
  merkle_path_from-lt r h = elim (Bool-cases (idx % 2 == 0)) [
    | inl even ↦
        ok_cases (or_panic (get_elem? level (idx + 1))) _ (rw even at h)
          λ s es _. omega (arith, found-lt level (idx + 1) s es)
    | inr odd ↦
        ok_cases (or_panic (get_elem? level (idx - 1))) _ (rw odd at h) λ s es _.
          let p : idx % 2 ≡ 1 = ground arith in omega (arith, found-lt level (idx - 1) s es)
  ]

  merkle_path_from-panics :
      length level ≤ idx → merkle_path_from (suc n) (level ∷ above) idx ≡ panic
  unfolding merkle_path_from
  merkle_path_from-panics h = elim (Bool-cases (idx % 2 == 0)) [
    | inl even ↦ rw (even, get_elem?-none level (idx + 1) (omega arith))
    | inr odd ↦
        let p : idx % 2 ≡ 1 = ground arith in rw (odd, get_elem?-none level (idx - 1) (omega arith))
  ]

build_levels-lowest :
    (hash : List ℤ → Result ℤ) (n d : ℕ) (level : List ℤ) (levels : List (List ℤ))
    → build_levels hash (suc n) d level ≡ ok levels
    → (above : List (List ℤ)) × (levels ≡ level ∷ above)
unfolding build_levels
build_levels-lowest hash n d level levels h =
    ok_cases (next_level hash d 0 level) _ h
      λ next e h1. ok_cases (build_levels hash n (d + 1) next) _ h1 λ above e' h2. (above, (cc h2))

module _ (hash : List ℤ → Result ℤ) (leaves : List ℤ) (levels : List (List ℤ)) (idx : ℕ) where
  pub get_merkle_path-lt :
      (r : List ℤ × List ℕ)
      → build_tree hash leaves ≡ ok levels
      → get_merkle_path levels idx ≡ ok r
      → idx < max_leaves
  unfolding build_tree get_merkle_path
  get_merkle_path-lt r built h =
      let level = pad_leaves max_leaves leaves in
      let (above, e) = build_levels-lowest hash 15 0 level levels built in
      let len : length level ≡ 2 * 32768 = length-pad_leaves max_leaves leaves in
      omega (
        arith,
        length-pad_leaves max_leaves leaves,
        merkle_path_from-lt 15 level above idx 32768 len r
            (ap (λ t. merkle_path_from tree_depth t idx) (sym e) ∙ h),
      )

  -- Past the 65536 leaves of a built tree `GetMerklePath` panics.
  pub get_merkle_path-panics :
      build_tree hash leaves ≡ ok levels → max_leaves ≤ idx → get_merkle_path levels idx ≡ panic
  unfolding build_tree get_merkle_path
  get_merkle_path-panics built h =
      let level = pad_leaves max_leaves leaves in
      let (above, e) = build_levels-lowest hash 15 0 level levels built in
      let len : length level ≡ 2 * 32768 = length-pad_leaves max_leaves leaves in
      ap (λ t. merkle_path_from tree_depth t idx) e
      ∙ merkle_path_from-panics 15 level above idx 32768 len (omega (arith, len))
