-- ===== src/Blockchain/Bytes32.antt =====
-- `HexToBytes32` of cli/internal/blockchain/submitter.go. A `[32]byte` is a list of 32 bytes.
pub mod Laws
use zk_fact_verification.Common.{
  ℕ, ◌-◌, ◌≡◌, Bytes, IsByte, All, Result, ok, panic, codes, ltb, length, take, replicate,
  if◌then◌else◌, ◌>>=◌,
}
use zk_fact_verification.Std.Slices.{trim_prefix, copy_range}
use zk_fact_verification.Std.Hex.{decode_string}

abbrev pub zero_word : Bytes
zero_word = replicate 32 0

-- What a value of the type `[32]byte` is.
abbrev pub IsWord : Bytes → Type 0
IsWord w = (length w ≡ 32) × All IsByte w

-- `copy(result[32-len(b):], b)` into a zero array; the slice's bound is negative for a longer `b`.
unfoldable pub pad_word : Bytes → Result Bytes
pad_word b = if ltb 32 (length b) then panic else ok (copy_range zero_word (32 - length b) 32 b)

unfoldable pub hex_to_bytes32 : Bytes → Result Bytes
unfolding pad_word
hex_to_bytes32 h = do
  b ← decode_string (trim_prefix h (codes "0x"))
  pad_word (if ltb 32 (length b) then take 32 b else b)
