-- ===== src/Policy/Tree/Path.antt =====
-- The path of `GetMerklePath` (cli/internal/policy/tree.go) and the circuit's root.
use mathlib.Core.Path.{subst}
use native.Mathlib.Nat.{pow-suc}
use zk_fact_verification.Common.{
  ℕ, zero, suc, ◌+◌, ◌-◌, ◌*◌, ◌/◌, ◌%◌, ◌^◌, ◌<◌, ℤ, List, [], ◌∷◌, ◌≡◌, refl, sym, ap, ◌∙◌,
  Result, ok, some, map, get_elem?, length, arith, >>=-eq-ok, Bool-cases, inl, inr, ◌==◌,
}
use zk_fact_verification.Circuit.{NoirLib, SameHash, to_field, compute_merkle_root}
use zk_fact_verification.Policy.Tree.{
  tree_depth, max_leaves, pad_leaves, build_levels, build_tree, merkle_path_from, get_merkle_path,
}
use zk_fact_verification.Policy.Tree.Levels.{
  length-pad_leaves, get_elem?-pad_leaves, length-next_level, get_elem?-next_level,
}

-- What the path of `idx` in `levels` is, for a node `leaf` of the lowest level and `n` rounds.
pub record Opens (lib : NoirLib) (n : ℕ) (levels : List (List ℤ)) (idx : ℕ) (leaf : ℤ)
    : Type 0 where
  pub path : List ℤ
  pub bits : List ℕ
  pub root : ℤ
  pub found : merkle_path_from n levels idx ≡ ok (path, bits)
  pub length-path : length path ≡ n
  pub length-bits : length bits ≡ n
  pub top : get_elem? levels n ≡ some (root ∷ [])
  pub leads : compute_merkle_root lib (to_field leaf) (map to_field path) bits ≡ to_field root

singleton :
    (level : List ℤ) (idx : ℕ) {leaf : ℤ}
    → length level ≡ 1
    → get_elem? level idx ≡ some leaf
    → level ≡ leaf ∷ []
singleton [] idx len at = cc
singleton (x ∷ []) zero len at = ground arith
singleton (x ∷ []) (suc idx) len at = cc
singleton (x ∷ y ∷ level) idx len at = absurd (omega arith)

built_one :
    (level : List ℤ) (levels : List (List ℤ))
    → ◌≡◌ {A = Result (List (List ℤ))} (ok (level ∷ [])) (ok levels)
    → levels ≡ level ∷ []
built_one level levels h = cc

get_elem?-lt : (level : List ℤ) (i : ℕ) {x : ℤ} → get_elem? level i ≡ some x → i < length level
get_elem?-lt [] i h = cc
get_elem?-lt (y ∷ level) zero h = omega arith
get_elem?-lt (y ∷ level) (suc i) h = omega (arith, get_elem?-lt level i h)

same_leaf :
    (level : List ℤ) (i j : ℕ) {x y : ℤ}
    → i ≡ j
    → get_elem? level i ≡ some x
    → get_elem? level j ≡ some y
    → x ≡ y
same_leaf level i j e p q = cc (ap (λ (t : ℕ). get_elem? level t) e)

module _ (lib : NoirLib) (n : ℕ) (above : List (List ℤ)) (level : List ℤ) (idx : ℕ) where
  -- One level more below an opened node, by the parity of the index.
  Opens-even :
      (leaf sibling h : ℤ)
      → Opens lib n above (idx / 2) h
      → idx % 2 ≡ 0
      → get_elem? level (idx + 1) ≡ some sibling
      → to_field h ≡ lib.hash_2 (to_field leaf) (to_field sibling)
      → Opens lib (suc n) (level ∷ above) idx leaf
  unfolding merkle_path_from compute_merkle_root
  Opens-even leaf sibling h o parity at hashed = record {
    path = sibling ∷ o.path;
    bits = 0 ∷ o.bits;
    root = o.root;
    found = rw (parity, merkle_path_from, at, o.found);
    length-path = ap suc o.length-path;
    length-bits = ap suc o.length-bits;
    top = o.top;
    leads = ap (λ t. compute_merkle_root lib t (map to_field o.path) o.bits) (sym hashed) ∙ o.leads;
  }

  Opens-odd :
      (leaf sibling h : ℤ)
      → Opens lib n above (idx / 2) h
      → idx % 2 ≡ 1
      → get_elem? level (idx - 1) ≡ some sibling
      → to_field h ≡ lib.hash_2 (to_field sibling) (to_field leaf)
      → Opens lib (suc n) (level ∷ above) idx leaf
  unfolding merkle_path_from compute_merkle_root
  Opens-odd leaf sibling h o parity at hashed = record {
    path = sibling ∷ o.path;
    bits = 1 ∷ o.bits;
    root = o.root;
    found = rw (parity, merkle_path_from, at, o.found);
    length-path = ap suc o.length-path;
    length-bits = ap suc o.length-bits;
    top = o.top;
    leads = ap (λ t. compute_merkle_root lib t (map to_field o.path) o.bits) (sym hashed) ∙ o.leads;
  }

module _ (hash : List ℤ → Result ℤ) (lib : NoirLib) (agree : SameHash hash lib) where
  build_levels-Opens :
      (n d : ℕ) (level : List ℤ) (levels : List (List ℤ)) (idx : ℕ) (leaf : ℤ)
      → build_levels hash n d level ≡ ok levels
      → length level ≡ 2 ^ n
      → get_elem? level idx ≡ some leaf
      → Opens lib n levels idx leaf
  unfolding build_levels merkle_path_from compute_merkle_root
  build_levels-Opens zero d level levels idx leaf built full at = record {
    path = [];
    bits = [];
    root = leaf;
    found = refl;
    length-path = refl;
    length-bits = refl;
    top =
        ap (λ (t : List (List ℤ)). get_elem? t 0) (built_one level levels built)
        ∙ ap some (singleton level idx full at);
    leads = refl;
  }
  build_levels-Opens (suc n) d level levels idx leaf built full at =
      let (next, enext, built') = >>=-eq-ok _ _ built in
      let (above, eabove, built'') = >>=-eq-ok _ _ built' in
      let len : length next ≡ 2 ^ n =
        omega (arith, length-next_level hash d 0 level next enext, pow-suc 2 n) in
      let (l, r, h, el, er, hashed, eh) =
        get_elem?-next_level hash d 0 level next (idx / 2) enext
          (omega (arith, get_elem?-lt level idx at, pow-suc 2 n)) in
      let o : Opens lib n above (idx / 2) h =
        build_levels-Opens n (d + 1) next above (idx / 2) h eabove len eh in
      let up : level ∷ above ≡ levels = cc built'' in
      subst (λ t. Opens lib (suc n) t idx leaf) up
        (elim (Bool-cases (idx % 2 == 0)) [
          | inl even ↦
              let e : leaf ≡ l = same_leaf level idx (2 * (idx / 2)) (ground arith) at el in
              Opens-even lib n above level idx leaf r h o (ground arith)
                (ap (λ (t : ℕ). get_elem? level t) (ground arith) ∙ er)
                (rw e (agree.two l r h hashed))
          | inr odd ↦
              let e : leaf ≡ r = same_leaf level idx (2 * (idx / 2) + 1) (ground arith) at er in
              Opens-odd lib n above level idx leaf l h o (ground arith)
                (ap (λ (t : ℕ). get_elem? level t) (ground arith) ∙ el)
                (rw e (agree.two l r h hashed))
        ])

  -- For a hash that agrees with the circuit's: of every leaf below the bound of a built tree,
  -- `GetMerklePath` returns a path of 16 nodes and 16 bits, with no panic, and the circuit's
  -- `compute_merkle_root` follows it from the leaf to the one node of the top level.
  pub get_merkle_path-compute_merkle_root :
      (leaves : List ℤ) (levels : List (List ℤ)) (idx : ℕ) (leaf : ℤ)
      → build_tree hash leaves ≡ ok levels
      → idx < max_leaves
      → get_elem? leaves idx ≡ some leaf
      → (path : List ℤ) × (bits : List ℕ) × (root : ℤ) × (get_merkle_path levels idx
          ≡ ok (path, bits))
        × (length path ≡ tree_depth)
        × (length bits ≡ tree_depth)
        × (get_elem? levels tree_depth ≡ some (root ∷ []))
        × (compute_merkle_root lib (to_field leaf) (map to_field path) bits ≡ to_field root)
  unfolding build_tree get_merkle_path
  get_merkle_path-compute_merkle_root leaves levels idx leaf built small at =
      let o =
        build_levels-Opens tree_depth 0 (pad_leaves max_leaves leaves) levels idx leaf built
          (length-pad_leaves max_leaves leaves)
          (get_elem?-pad_leaves max_leaves leaves idx small at) in
      (o.path, o.bits, o.root, o.found, o.length-path, o.length-bits, o.top, o.leads)
