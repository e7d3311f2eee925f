-- ===== src/Intrinsic/Ulong/Mul.antt =====
-- `jit_ulong_mul_ovf` multiplies exactly, or detects that the product does not fit.
use libjit.Base.{ℕ, ◌+◌, ◌-◌, ◌*◌, ◌/◌, ◌%◌, ◌^◌, ◌≤◌, ◌<◌, ◌≡◌, arith, ltb, if◌then◌else◌}
use libjit.Base.Int.{pos}
use libjit.Base.Bits.{or_disjoint}
use libjit.Word.{ulong_modulus}
use libjit.Intrinsic.Ulong.{middle, upper, mul_ovf}

-- Bounds for the product of two limbs.
limb_product : (a b : ℕ) → a < 2 ^ 32 → b < 2 ^ 32 → a * b ≤ (2 ^ 32 - 1) * (2 ^ 32 - 1)
limb_product a b p q = grind arith

-- The four limbs hold the low products exactly.
middle_value :
    (low1 high1 low2 high2 : ℕ)
    → low1 < 2 ^ 32
    → high1 < 2 ^ 32
    → low2 < 2 ^ 32
    → high2 < 2 ^ 32
    → let r = middle low1 high1 low2 high2 in
      (r.0 + 2 ^ 32 * r.1 + 2 ^ 64 * r.2 + 2 ^ 96 * r.3
        ≡ low1 * low2 + 2 ^ 32 * (low1 * high2 + high1 * low2))
      × (r.0 < 2 ^ 32)
      × (r.1 < 2 ^ 32)
      × (r.2 < 2 ^ 32)
      × (r.3 ≤ 1)
unfolding middle
middle_value low1 high1 low2 high2 p q r s =
    ground (arith, limb_product low1 low2, limb_product low1 high2, limb_product high1 low2)

-- The upper limbs hold the high product and the carries, where these fit.
upper_value :
    (high1 high2 result3 result4 : ℕ)
    → high1 < 2 ^ 32
    → high2 < 2 ^ 32
    → result3 < 2 ^ 32
    → high1 * high2 + result3 + 2 ^ 32 * result4 < 2 ^ 64
    → let r = upper high1 high2 result3 result4 in
      r.0 + 2 ^ 32 * r.1 ≡ high1 * high2 + result3 + 2 ^ 32 * result4
unfolding upper
upper_value high1 high2 result3 result4 p q r s = ground (arith, limb_product high1 high2)

product_limbs :
    (low1 high1 low2 high2 : ℕ)
    → (low1 + 2 ^ 32 * high1) * (low2 + 2 ^ 32 * high2)
      ≡ low1 * low2 + 2 ^ 32 * (low1 * high2 + high1 * low2) + 2 ^ 64 * (high1 * high2)
product_limbs low1 high1 low2 high2 = omega arith

product_bound : (a b : ℕ) → a < 2 ^ 64 → b < 2 ^ 64 → a * b < 2 ^ 128
product_bound a b p q = grind arith

-- All the limbs together are the product.
limbs_whole :
    (a b low1 high1 low2 high2 : ℕ)
    → (a ≡ low1 + 2 ^ 32 * high1) × (b ≡ low2 + 2 ^ 32 * high2)
    → low1 < 2 ^ 32
    → low2 < 2 ^ 32
    → (high1 < 2 ^ 32) × (high2 < 2 ^ 32)
    → a < ulong_modulus
    → b < ulong_modulus
    → let r = middle low1 high1 low2 high2 in
      let u = upper high1 high2 r.2 r.3 in
      (a * b ≡ r.0 + 2 ^ 32 * r.1 + 2 ^ 64 * (u.0 + 2 ^ 32 * u.1)) × (r.0 < 2 ^ 32) × (r.1 < 2 ^ 32)
limbs_whole a b low1 high1 low2 high2 split p q h la lb =
    let r = middle low1 high1 low2 high2 in
    let m = middle_value low1 high1 low2 high2 p h.0 q h.1 in
    let product : a * b
        ≡ low1 * low2 + 2 ^ 32 * (low1 * high2 + high1 * low2) + 2 ^ 64 * (high1 * high2) =
      rw (split.0, split.1) (product_limbs low1 high1 low2 high2) in
    let bound = product_bound a b la lb in
    let u = upper_value high1 high2 r.2 r.3 h.0 h.1 (omega arith) (omega arith) in
    (omega arith, m.1, m.2)

-- `jit_ulong_mul_ovf` of two 64-bit numbers returns 1 and stores their product if it is below
-- 2 ^ 64; otherwise it returns 0 and stores the greatest value of the type.
pub mul_ovf_exact :
    (a b : ℕ)
    → a < ulong_modulus
    → b < ulong_modulus
    → mul_ovf a b
      ≡ (if ltb (a * b) ulong_modulus then (a * b, pos 1) else (ulong_modulus - 1, pos 0))
unfolding mul_ovf
mul_ovf_exact a b p q =
    let low1 : ℕ = a % 2 ^ 32 in
    let high1 : ℕ = a / 2 ^ 32 in
    let low2 : ℕ = b % 2 ^ 32 in
    let high2 : ℕ = b / 2 ^ 32 in
    let r = middle low1 high1 low2 high2 in
    let whole =
      limbs_whole a b low1 high1 low2 high2 (omega arith) (omega arith) (omega arith) (omega arith)
        p q in
    ground (arith, whole, or_disjoint 32 r.1 r.0)
