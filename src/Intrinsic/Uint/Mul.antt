-- ===== src/Intrinsic/Uint/Mul.antt =====
-- The overflow test of 32-bit unsigned multiplication.
use native.Mathlib.Nat.{mod-eq_of_lt}
use libjit.Base.{ℕ, ◌-◌, ◌*◌, ◌%◌, ◌^◌, ◌≤◌, ◌<◌, ◌≡◌, arith, ltb}
use libjit.Word.{flag, uint_modulus, ulong_modulus}
use libjit.Intrinsic.Uint.{mul_ovf}

product_bound : (a b : ℕ) → a < 2 ^ 32 → b < 2 ^ 32 → a * b ≤ (2 ^ 32 - 1) * (2 ^ 32 - 1)
product_bound a b p q = grind arith

-- `jit_uint_mul_ovf` of two 32-bit numbers stores their product modulo 2 ^ 32, and returns 1 exactly
-- if the exact product is below 2 ^ 32.
pub mul_ovf_unsigned :
    (a b : ℕ)
    → a < uint_modulus
    → b < uint_modulus
    → mul_ovf a b ≡ (a * b % uint_modulus, flag (ltb (a * b) uint_modulus))
unfolding mul_ovf
mul_ovf_unsigned a b p q =
    ground (arith, product_bound a b, mod-eq_of_lt {n = a * b} {m = ulong_modulus})
