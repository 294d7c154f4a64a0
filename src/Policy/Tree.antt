-- ===== src/Policy/Tree.antt =====
-- cli/internal/policy/tree.go. A level is the list of its nodes, and the index of a loop is the
-- place of the list's head. `hash` is `poseidon.Hash` of go-iden3-crypto.
pub mod Levels
pub mod Path
pub mod Total
pub mod Panics
pub mod Shape
use zk_fact_verification.Common.{
  ℕ, zero, suc, ◌+◌, ◌-◌, ◌/◌, ◌%◌, ◌^◌, ℤ, pos, List, [], ◌∷◌, Result, ok, panic, wrapped_at,
  or_panic, get_elem?, replicate, ◌==◌, if◌then◌else◌, ◌>>=◌,
}

abbrev pub tree_depth : ℕ
tree_depth = 16

abbrev pub max_leaves : ℕ
max_leaves = 2 ^ tree_depth

-- The first `n` leaves, with zeros behind the last one.
unfoldable pub pad_leaves : ℕ → List ℤ → List ℤ
pad_leaves zero leaves = []
pad_leaves (suc n) [] = pos 0 ∷ pad_leaves n []
pad_leaves (suc n) (leaf ∷ leaves) = leaf ∷ pad_leaves n leaves

module _ (hash : List ℤ → Result ℤ) where
  -- `nextLevel` at depth `d`, from its entry `i` on; an odd last node has no parent.
  unfoldable pub next_level : ℕ → ℕ → List ℤ → Result (List ℤ)
  next_level d i (left ∷ right ∷ prev_level) = do
    h ← wrapped_at "poseidon hash at depth %d, index %d: %w" (d ∷ i ∷ []) (hash (left ∷ right ∷ []))
    rest ← next_level d (i + 1) prev_level
    ok (h ∷ rest)
  next_level d i _ = ok []

  -- The levels from depth `d` on, where `n` rounds of the loop are left.
  unfoldable pub build_levels : ℕ → ℕ → List ℤ → Result (List (List ℤ))
  unfolding next_level
  build_levels zero d level = ok (level ∷ [])
  build_levels (suc n) d level = do
    next ← next_level d 0 level
    above ← build_levels n (d + 1) next
    ok (level ∷ above)

  unfoldable pub build_tree : List ℤ → Result (List (List ℤ))
  build_tree leaves = build_levels tree_depth 0 (pad_leaves max_leaves leaves)

  unfoldable pub compute_leaf : ℤ → ℤ → Result ℤ
  compute_leaf pubkey_x pubkey_y = hash (pubkey_x ∷ pubkey_y ∷ [])

-- The list is `levels[d:]`, and `n` rounds are left. An index out of range panics.
unfoldable pub merkle_path_from : ℕ → List (List ℤ) → ℕ → Result (List ℤ × List ℕ)
merkle_path_from zero levels idx = ok ([], [])
merkle_path_from (suc n) [] idx = panic
merkle_path_from (suc n) (level ∷ levels) idx =
    let rest = merkle_path_from n levels (idx / 2) in
    if idx % 2 == 0
    then (do s ← or_panic (get_elem? level (idx + 1)); r ← rest; ok (s ∷ r.0, 0 ∷ r.1))
    else (do s ← or_panic (get_elem? level (idx - 1)); r ← rest; ok (s ∷ r.0, 1 ∷ r.1))

unfoldable pub get_merkle_path : List (List ℤ) → ℕ → Result (List ℤ × List ℕ)
unfolding merkle_path_from
get_merkle_path levels leaf_index = merkle_path_from tree_depth levels leaf_index
