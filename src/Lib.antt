-- ===== src/Lib.antt =====
-- The verification of zk-fact-verification: a holder proves a fact about a credential (age over 18) in
-- zero knowledge, records the verified fact on a chain, and a verifier's site looks it up.
--
-- The parts and how they interact. The command `prove` reads a credential, a request and an issuer
-- policy, builds the policy's Merkle tree, writes Prover.toml for the Noir circuit, runs nargo and bb
-- and saves a proof package. `submit-fact` reads the package and sends a transaction to the contract
-- FactRegistry, which asks the proof verifier and stores the fact. `lookup-fact` and the site's
-- /api/lookup read the fact back.
--
-- Which file models which part:
--   Policy          cli/internal/policy: the policy; Policy/Tree its Merkle tree (BuildTree,
--                   GetMerklePath, ComputeLeaf)
--   Creds, Request  cli/internal/creds, cli/internal/request: the structs, and Validate
--   Config          cli/internal/config: LoadConfig
--   Prover          cli/internal/prover: Prover/Field has the hex and hash helpers of witness.go,
--                   generator.go and cli/internal/functions/hex.go; Prover/Prepare the steps of
--                   GenerateProof before a file is written; Prover/Toml buildProverToml, and
--                   Prover/Toml/Reader what such a file says, as a specification;
--                   Prover/Generator the rest of GenerateProof and SaveProofPackage
--   Circuit         circuits/age_over_18_v1/src/main.nr
--   Contracts       blockchain/contracts: FactRegistry.sol, with FactRegistry/History as its
--                   abstract view and FactRegistry/Recorded what one submission changes, and
--                   IssuerRegistry.sol; Contracts/Abi the entries of an ABI
--   Blockchain      cli/internal/blockchain: Bytes32 has HexToBytes32, Submitter SubmitFact, Reader
--                   LookupFact, IsFactValid and ComputeFactKey
--   Cmd             cli/cmd/main.go: Package reads a proof package, Loaders has the three loaders,
--                   Journal cli/internal/result/model.go, Commands the five commands, with
--                   Commands/Flow for verify-service-flow as a whole
--   Site            site/backend: Verifier has verifier.go, Server the handlers and routes of main.go
--   Testdata        cli/testdata/generate.go: the test credential, policy, request and Prover.toml
--   Std             what the code uses of Go's slices, math/big and encoding/hex
--   System          the operating system as an interface: files, programs, clock, environment
--   Poseidon        the contract of the hash that the Go code relies on
--   Common          shared types, list and Boolean functions, errors
--   Tests           runs of the theorems on concrete inputs
--
-- How the code is modelled. A pure function is a function by clauses; a Go error and a panic are
-- values of `Result`; a command is a function from a state to a result and a state. A string is the
-- list of its bytes, a `*big.Int` an integer, a `[32]byte` a list of bytes with `IsWord`. Code that is
-- not in the repository is a parameter: Poseidon and EdDSA, go-ethereum (`EthLib`, `EthNode`), the
-- operating system (`System`), JSON (`Json`), RFC 3339, the proof verifier and keccak256. What a theorem
-- needs of it is a named hypothesis: `SameHash` and `HashesField` of Poseidon, `IsSound` of the two
-- cryptographic packages together, `Serves` of a node, `SetsFirstField` of UnpackIntoInterface on a lone tuple, `Takes` and `Executes` of a node that takes a
-- transaction, `Crops` of BytesToHash.
--
-- Bounds. The loops of the tree and of a path run 16 rounds, which is their bound in the code. The
-- texts of numbers are made with as many rounds as the number has digits or more. No other fuel is used.
--
-- Not modelled: printing (except the result of `lookup-fact`), the start of the server, the encoding
-- of JSON, the ABI encoding, gas and transaction receipts, concurrency, the generated NoirVerifier
-- contract, the deployment scripts and the frontend. A decimal in Prover.toml stands for its residue:
-- that nargo may refuse a number that is not below the field's modulus is not modelled.
pub mod Common
pub mod Std
pub mod Blockchain
pub mod System
pub mod Creds
pub mod Request
pub mod Contracts
pub mod Cmd
pub mod Config
pub mod Site
pub mod Policy
pub mod Prover
pub mod Circuit
pub mod Poseidon
pub mod Testdata
pub mod Tests
