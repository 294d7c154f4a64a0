-- ===== src/Contracts/Abi.antt =====
-- The description of a contract's functions: the entries of an ABI in JSON, and what a compiler
-- makes of a function's signature. `find_method` is the entry under a name.
use zk_fact_verification.Common.{Bytes, List, [], ◌∷◌, Option, none, some, bytes_eq, if◌then◌else◌}

pub data Elementary : Type 0 where
  bytes_type bytes32_type bytes32_list uint64_type address_type bool_type : Elementary

pub record Component : Type 0 where
  pub name : Bytes
  pub elementary : Elementary

pub data AbiType : Type 0 where
  single : Elementary → AbiType
  tuple : List Component → AbiType

pub record Argument : Type 0 where
  pub name : Bytes
  pub abi_type : AbiType

pub record AbiMethod : Type 0 where
  pub inputs : List Argument
  pub name : Bytes
  pub outputs : List Argument
  pub state_mutability : Bytes

-- `{"name": n, "type": t}`
abbrev pub argument : Bytes → Elementary → Argument
argument n t = record { name = n; abi_type = single t }

abbrev pub component : Bytes → Elementary → Component
component n t = record { name = n; elementary = t }

unfoldable pub find_method : List AbiMethod → Bytes → Option AbiMethod
find_method [] n = none
find_method (m ∷ abi) n =
    let later = find_method abi n in if bytes_eq m.name n then some m else later
