-- ===== src/Intrinsic/Int/Mul.antt =====
-- The overflow test of 32-bit signed multiplication.
use libjit.Base.{ℕ, suc, ◌*◌, ◌^◌, ◌≤◌, ◌≡◌, arith}
use libjit.Base.Int.{ℤ, pos, negsuc, ◌*ℤ◌}
use libjit.Word.{wrap, Fits, flag, int_half, long_half}
use libjit.Word.Laws.{wrap_id}
use libjit.Intrinsic.Int.{mul_ovf}
use libjit.Intrinsic.Signed.Overflow.{in_range}

product_bound : (a b k : ℕ) → a ≤ k → b ≤ k → a * b ≤ k * k
product_bound a b k p q = grind arith

product-Fits : (a b : ℤ) → Fits int_half a → Fits int_half b → Fits long_half (a *ℤ b)
unfolding ◌*ℤ◌
product-Fits (pos a) (pos b) fa fb = ground (arith, product_bound a b (2 ^ 31))
product-Fits (pos a) (negsuc b) fa fb = ground (arith, product_bound a (suc b) (2 ^ 31))
product-Fits (negsuc a) (pos b) fa fb = ground (arith, product_bound (suc a) b (2 ^ 31))
product-Fits (negsuc a) (negsuc b) fa fb = ground (arith, product_bound (suc a) (suc b) (2 ^ 31))

-- `jit_int_mul_ovf` stores the product, wrapped to 32 bits, and returns 1 exactly if the exact
-- product lies in the range of `jit_int`.
pub mul_ovf_wraps :
    (a b : ℤ)
    → Fits int_half a
    → Fits int_half b
    → mul_ovf a b ≡ (wrap int_half (a *ℤ b), flag (in_range int_half (a *ℤ b)))
unfolding mul_ovf
mul_ovf_wraps a b fa fb = rw (wrap_id long_half (a *ℤ b) (product-Fits a b fa fb))
