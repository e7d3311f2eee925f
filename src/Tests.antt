-- ===== src/Tests.antt =====
-- Runs of the models on concrete inputs, and the theorems applied to concrete inputs.
mod Arith
mod Blocks
mod Cache
mod Insns
mod Liveness
mod Methods
mod Pools
mod Data
mod Types
