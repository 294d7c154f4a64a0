-- ===== src/Cmd/Package/Short.antt =====
-- A package with fewer than four public inputs.
use zk_fact_verification.Common.{
  ℕ, ◌+◌, ◌<◌, ◌≡◌, refl, List, [], ◌∷◌, Bytes, ok, panic, length, arith, All,
}
use zk_fact_verification.Blockchain.Bytes32.{hex_to_bytes32}
use zk_fact_verification.Prover.{ProofPackage}
use zk_fact_verification.Cmd.Package.{hex_decode, parse_public_inputs, input_word, read_package}

-- A text that `HexToBytes32` accepts.
abbrev pub IsWordText : Bytes → Type 0
IsWordText s = (w : Bytes) × (hex_to_bytes32 s ≡ ok w)

parse_public_inputs-total :
    (i : ℕ) (inputs : List Bytes)
    → All IsWordText inputs
    → (words : List Bytes) × (parse_public_inputs i inputs ≡ ok words)
unfolding parse_public_inputs
parse_public_inputs-total i [] h = ([], refl)
parse_public_inputs-total i (pi ∷ inputs) ((w, e), h) =
    let (words, ew) = parse_public_inputs-total (i + 1) inputs h in (w ∷ words, rw (e, ew))

module _ (chain_id : Bytes) (pkg : ProofPackage) (proof : Bytes)
    (tag : IsWordText pkg.subject_tag) where
  by_inputs :
      (inputs : List Bytes)
      → pkg.public_inputs ≡ inputs
      → hex_decode pkg.proof ≡ ok proof
      → All IsWordText inputs
      → length inputs < 4
      → read_package chain_id pkg ≡ panic
  unfolding read_package input_word
  by_inputs [] e ep h small = rw (ep, e, (parse_public_inputs-total 0 [] h).1)
  by_inputs (x ∷ []) e ep h small =
      rw (ep, e, (parse_public_inputs-total 0 (x ∷ []) h).1, h.0.1, tag.1)
  by_inputs (x ∷ y ∷ []) e ep h small =
      rw (ep, e, (parse_public_inputs-total 0 (x ∷ y ∷ []) h).1, h.0.1, tag.1, h.1.0.1)
  by_inputs (x ∷ y ∷ z ∷ []) e ep h small =
      rw (
        ep,
        e,
        (parse_public_inputs-total 0 (x ∷ y ∷ z ∷ []) h).1,
        h.0.1,
        tag.1,
        h.1.0.1,
        h.1.1.0.1,
      )
  by_inputs (x ∷ y ∷ z ∷ w ∷ inputs) e ep h small = absurd (omega arith)

  -- Where every text of the package parses and there are fewer than four public inputs,
  -- `submit-fact` panics with an index out of range.
  pub read_package-panics :
      hex_decode pkg.proof ≡ ok proof
      → All IsWordText pkg.public_inputs
      → length pkg.public_inputs < 4
      → read_package chain_id pkg ≡ panic
  read_package-panics ep words short = by_inputs pkg.public_inputs refl ep words short
