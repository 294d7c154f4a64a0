-- ===== src/Tests.antt =====
-- Runs of the theorems on concrete inputs.
mod Toy
mod Node
mod Chain
mod Texts
mod Web
mod Machine
mod Proofs
mod Inputs
mod Flow
mod Generator
