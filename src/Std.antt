-- ===== src/Std.antt =====
-- The functions of Go's standard library that the program computes with: `math/big` texts,
-- `encoding/hex`, `strings` and `copy`.
pub mod Digits
pub mod Hex
pub mod Slices
