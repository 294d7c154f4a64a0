-- ===== src/Tests/Proofs.antt =====
-- The tree, the circuit and the prover.
use zk_fact_verification.Common.{
  ℕ, ◌+◌, ◌≡◌, ◌↔◌, refl, ℤ, pos, List, [], ◌∷◌, All, length, map, get_elem?, some, ok, panic,
  arith,
}
use zk_fact_verification.Poseidon.{InField}
use zk_fact_verification.Circuit.{to_field, compute_merkle_root, main}
use zk_fact_verification.Circuit.Binding.{
  HasCollision, Holds, main-iff-Holds, compute_merkle_root-binding,
}
use zk_fact_verification.Policy.Tree.{tree_depth, build_tree, get_merkle_path}
use zk_fact_verification.Policy.Tree.Total.{build_tree-total}
use zk_fact_verification.Policy.Tree.Path.{get_merkle_path-compute_merkle_root}
use zk_fact_verification.Policy.Tree.Panics.{get_merkle_path-panics}
use zk_fact_verification.Prover.Prepare.{parse_leaves, prepare, Prepared}
use zk_fact_verification.Prover.Prepare.Total.{prepare-total}
use zk_fact_verification.Prover.Generator.Witness.{circuit_inputs, IsProvable, prepare-main}
use zk_fact_verification.Prover.Generator.{toml_of}
use zk_fact_verification.Prover.Generator.TomlRead.{read_prover_toml-toml_of}
use zk_fact_verification.Prover.Toml.Reader.{read_prover_toml}
use zk_fact_verification.Tests.Toy.{sum_hash, sum_lib, sum_SameHash, sum_HashesField}
use zk_fact_verification.Tests.Inputs.{
  cfg, cred, req, pol, prepared, prepare-prepared, inputs-IsPreparable, inputs-ListsKey,
}

abbrev leaves : List ℤ
leaves = pos 3 ∷ pos 4 ∷ pos 5 ∷ []

leaves-InField : All InField leaves
leaves-InField = (omega arith, (omega arith, (omega arith, tt)))

build_tree-total_example :
    (levels : List (List ℤ)) × (build_tree sum_hash leaves ≡ ok levels)
    × (length levels ≡ tree_depth + 1)
    × All (All InField) levels
build_tree-total_example = build_tree-total sum_hash sum_HashesField leaves leaves-InField

-- The tree of the three leaves.
built : (levels : List (List ℤ)) × (build_tree sum_hash leaves ≡ ok levels)
built =
    let (levels, e, _, _) = build_tree-total sum_hash sum_HashesField leaves leaves-InField in
    (levels, e)

get_merkle_path_example :
    (path : List ℤ) × (bits : List ℕ) × (root : ℤ) × (get_merkle_path built.0 1 ≡ ok (path, bits))
    × (length path ≡ tree_depth)
    × (length bits ≡ tree_depth)
    × (get_elem? built.0 tree_depth ≡ some (root ∷ []))
    × (compute_merkle_root sum_lib (to_field (pos 4)) (map to_field path) bits ≡ to_field root)
get_merkle_path_example =
    get_merkle_path-compute_merkle_root sum_hash sum_lib sum_SameHash leaves built.0 1 (pos 4)
      built.1 (omega arith) refl

get_merkle_path-panics_example : get_merkle_path built.0 65536 ≡ panic
get_merkle_path-panics_example =
    get_merkle_path-panics sum_hash leaves built.0 65536 built.1 (omega arith)

main-iff-Holds_example :
    (main sum_lib (circuit_inputs cred req prepared 86400) ≡ ok tt)
    ↔ Holds sum_lib (circuit_inputs cred req prepared 86400)
main-iff-Holds_example = main-iff-Holds sum_lib (circuit_inputs cred req prepared 86400)

-- Under the sum the order of the two nodes does not matter: 1 and 2 open the root 3 at one place.
compute_merkle_root-binding_example : HasCollision sum_lib
unfolding compute_merkle_root
compute_merkle_root-binding_example =
    compute_merkle_root-binding sum_lib 1 2 (2 ∷ []) (1 ∷ []) (0 ∷ []) refl refl (omega arith)

prepare-total_example : (p : Prepared) × (prepare sum_hash cfg cred req pol ≡ ok p)
prepare-total_example =
    prepare-total sum_hash sum_HashesField sum_lib sum_SameHash cfg cred req pol inputs-IsPreparable

prepare-main_example :
    (leaves : List ℤ) × (levels : List (List ℤ)) × (root : ℤ) × (parse_leaves 0 pol.issuers
      ≡ ok leaves)
    × (build_tree sum_hash leaves ≡ ok levels)
    × (get_elem? levels tree_depth ≡ some (root ∷ []))
    × ((main sum_lib (circuit_inputs cred req prepared 86400) ≡ ok tt)
        ↔ IsProvable sum_lib (circuit_inputs cred req prepared 86400) root)
prepare-main_example =
    prepare-main sum_hash sum_lib sum_SameHash cfg cred req pol prepared 86400 prepare-prepared
      inputs-ListsKey

read_prover_toml_example :
    read_prover_toml (toml_of cred req prepared 86400)
    ≡ some (circuit_inputs cred req prepared 86400)
read_prover_toml_example =
    read_prover_toml-toml_of sum_hash cfg cred req pol prepared 86400 prepare-prepared
