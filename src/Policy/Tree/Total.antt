-- ===== src/Policy/Tree/Total.antt =====
-- The result of `BuildTree` (cli/internal/policy/tree.go) over a hash without errors.
use zk_fact_verification.Common.{
  ℕ, zero, suc, ◌+◌, ℤ, List, [], ◌∷◌, ◌≡◌, refl, Result, ok, length, arith, All,
}
use zk_fact_verification.Poseidon.{InField, HashesField}
use zk_fact_verification.Policy.Tree.{
  tree_depth, max_leaves, pad_leaves, next_level, build_levels, build_tree,
}

pad_leaves-InField :
    (n : ℕ) (leaves : List ℤ) → All InField leaves → All InField (pad_leaves n leaves)
unfolding pad_leaves
pad_leaves-InField zero leaves h = tt
pad_leaves-InField (suc n) [] h = (omega arith, pad_leaves-InField n [] h)
pad_leaves-InField (suc n) (x ∷ leaves) (hx, h) = (hx, pad_leaves-InField n leaves h)

module _ (hash : List ℤ → Result ℤ) (total : HashesField hash) where
  next_level-total :
      (d i : ℕ) (prev : List ℤ)
      → All InField prev
      → (next : List ℤ) × (next_level hash d i prev ≡ ok next) × All InField next
  unfolding next_level
  next_level-total d i [] h = ([], refl, tt)
  next_level-total d i (x ∷ []) h = ([], refl, tt)
  next_level-total d i (l ∷ r ∷ prev) (hl, (hr, h)) =
      let (p, hashed, hp) = total.two l r hl hr in
      let (next, e, hn) = next_level-total d (i + 1) prev h in (p ∷ next, rw (hashed, e), (hp, hn))

  -- One more level than rounds, and each level half as long as the one below.
  build_levels-total :
      (n d : ℕ) (level : List ℤ)
      → All InField level
      → (levels : List (List ℤ)) × (build_levels hash n d level ≡ ok levels)
        × (length levels ≡ suc n)
        × All (All InField) levels
  unfolding build_levels
  build_levels-total zero d level h = (level ∷ [], refl, refl, (h, tt))
  build_levels-total (suc n) d level h =
      let (next, e, hn) = next_level-total d 0 level h in
      let (above, ea, len, ha) = build_levels-total n (d + 1) next hn in
      (level ∷ above, rw (e, ea), omega arith, (h, ha))

  -- If the hash is defined on field elements, `BuildTree` succeeds on every list of field
  -- elements, of any length, and returns 17 levels of field elements.
  pub build_tree-total :
      (leaves : List ℤ)
      → All InField leaves
      → (levels : List (List ℤ)) × (build_tree hash leaves ≡ ok levels)
        × (length levels ≡ tree_depth + 1)
        × All (All InField) levels
  unfolding build_tree
  build_tree-total leaves h =
      build_levels-total tree_depth 0 (pad_leaves max_leaves leaves)
        (pad_leaves-InField max_leaves leaves h)
