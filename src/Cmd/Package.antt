-- ===== src/Cmd/Package.antt =====
-- The part of `submitFactCmd` (cli/cmd/main.go) that reads a proof package into the arguments of
-- `SubmitFact`. An index out of range panics, as in Go.
pub mod Words
pub mod Short
use zk_fact_verification.Common.{
  ℕ, suc, ◌+◌, ◌%◌, ◌^◌, ℤ, List, [], ◌∷◌, Bytes, Option, none, some, Result, ok, err, panic,
  text_of, codes, wrapped, wrapped_at, or_panic, get_elem?, length, ltb, if◌then◌else◌, ◌>>=◌,
}
use zk_fact_verification.Std.Slices.{trim_prefix, be_value}
use zk_fact_verification.Std.Hex.{decode_string}
use zk_fact_verification.Std.Digits.{set_string}
use zk_fact_verification.Contracts.FactRegistry.{Submission}
use zk_fact_verification.Blockchain.Bytes32.{hex_to_bytes32}
use zk_fact_verification.Prover.{ProofPackage}

unfoldable pub hex_decode : Bytes → Result Bytes
hex_decode h = decode_string (trim_prefix h (codes "0x"))

-- The loop over `pkg.PublicInputs`, from the index `i` on.
unfoldable pub parse_public_inputs : ℕ → List Bytes → Result (List Bytes)
parse_public_inputs i [] = ok []
parse_public_inputs i (pi ∷ inputs) = do
  w ← wrapped_at "parse public input %d: %w" (i ∷ []) (hex_to_bytes32 pi)
  words ← parse_public_inputs (i + 1) inputs
  ok (w ∷ words)

-- `blockchain.HexToBytes32(pkg.PublicInputs[i])`
unfoldable pub input_word : List Bytes → ℕ → Result Bytes
input_word inputs i = do pi ← or_panic (get_elem? inputs i); hex_to_bytes32 pi

-- `new(big.Int).SetBytes(vu[:]).Uint64()`, or 0 where the word does not parse
unfoldable pub uint64_of : Result Bytes → ℕ
uint64_of (ok vu) = be_value 0 vu % 2 ^ 64
uint64_of (err e) = 0
uint64_of panic = 0

-- `validUntil`: 0 unless there are more than six inputs and the seventh parses.
unfoldable pub valid_until_of : List Bytes → ℕ
unfolding uint64_of
valid_until_of inputs = if ltb 6 (length inputs) then uint64_of (input_word inputs 6) else 0

unfoldable pub parse_chain_id : Bytes → Result ℤ
parse_chain_id chain_id = elim (set_string 10 chain_id) [
  | none ↦ err (text_of "invalid CHAIN_ID: %s" chain_id)
  | some id ↦ ok id
]

unfoldable pub read_package : Bytes → ProofPackage → Result (ℤ × Submission)
read_package chain_id pkg = do
  proof_bytes ← wrapped "parse proof hex: %w" (hex_decode pkg.proof)
  public_inputs ← parse_public_inputs 0 pkg.public_inputs
  verifier_id_hash ← wrapped "parse verifier_id_hash: %w" (input_word pkg.public_inputs 0)
  subject_tag ← wrapped "parse subject_tag: %w" (hex_to_bytes32 pkg.subject_tag)
  fact_type_hash ← wrapped "parse fact_type_hash: %w" (input_word pkg.public_inputs 1)
  policy_root ← wrapped "parse issuer_policy_root: %w" (input_word pkg.public_inputs 2)
  schema_hash ← wrapped "parse schema_hash: %w" (input_word pkg.public_inputs 3)
  nullifier ← wrapped "parse nullifier: %w" (hex_to_bytes32 pkg.nullifier)
  id ← parse_chain_id chain_id
  ok (
    id,
    record {
      proof = proof_bytes;
      public_inputs = public_inputs;
      verifier_id_hash = verifier_id_hash;
      subject_tag = subject_tag;
      fact_type_hash = fact_type_hash;
      issuer_policy_root = policy_root;
      schema_hash = schema_hash;
      nullifier = nullifier;
      valid_until = valid_until_of pkg.public_inputs;
    },
  )
