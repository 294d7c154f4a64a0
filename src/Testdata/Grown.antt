-- ===== src/Testdata/Grown.antt =====
-- The tree of the generated policy and the path of its leaf.
use zk_fact_verification.Common.{ℕ, ◌≡◌, refl, ℤ, List, [], ◌∷◌, some, Result, ok, get_elem?, arith}
use zk_fact_verification.Circuit.{NoirLib}
use zk_fact_verification.Policy.Tree.{tree_depth, build_tree, get_merkle_path}
use zk_fact_verification.Policy.Tree.Total.{build_tree-total}
use zk_fact_verification.Policy.Tree.Path.{get_merkle_path-compute_merkle_root}
use zk_fact_verification.Testdata.{Crypto, test_leaf, test_levels}
use zk_fact_verification.Testdata.Tree.{levels_above-build_tree}
use zk_fact_verification.Testdata.Hashes.{IsSound, leaf_hashed}

module _ (hash : List ℤ → Result ℤ) (lib : NoirLib) (crypto : Crypto) (k : crypto.PrivKey)
    (sound : IsSound hash lib crypto k) where
  -- The policy's tree, and the path of its first leaf.
  pub record Grown : Type 0 where
    pub levels : List (List ℤ)
    pub path : List ℤ
    pub bits : List ℕ
    pub root : ℤ
    pub built : build_tree hash (test_leaf crypto k ∷ []) ≡ ok levels
    pub same : test_levels crypto k ≡ levels
    pub found : get_merkle_path levels 0 ≡ ok (path, bits)
    pub top : get_elem? levels tree_depth ≡ some (root ∷ [])

  pub grown : Grown
  unfolding test_levels
  grown =
      let leaf = test_leaf crypto k in
      let (levels, built, _, _) =
        build_tree-total hash sound.total (leaf ∷ [])
          ((leaf_hashed hash lib crypto k sound).1, tt) in
      let (path, bits, root, found, _, _, top, _) =
        get_merkle_path-compute_merkle_root hash lib sound.agree (leaf ∷ []) levels 0 leaf built
          (omega arith) refl in
      record {
        levels = levels;
        path = path;
        bits = bits;
        root = root;
        built = built;
        same = levels_above-build_tree hash crypto sound.returns leaf levels built;
        found = found;
        top = top;
      }
