-- ===== src/Intrinsic/Long/Mul.antt =====
-- The overflow test of 64-bit signed multiplication.
use libjit.Base.{ℕ, suc, ◌-◌, ◌*◌, ◌<◌, ◌≡◌, arith, ltb, leb, if◌then◌else◌}
use libjit.Base.Int.{ℤ, pos, negsuc, ◌*ℤ◌, sub_ℕ, neg_ℤ, ◌≤?◌}
use libjit.Word.{Fits, min_value, max_value, long_half, ulong_modulus}
use libjit.Word.Laws.{wrap_id, wrap_above, residue_pos, residue_negsuc}
use libjit.Intrinsic.Long.{same_sign, other_sign, negated, mul_ovf}
use libjit.Intrinsic.Signed.{neg}
use libjit.Intrinsic.Signed.Overflow.{in_range}
use libjit.Intrinsic.Ulong.Mul

negated_value : (n : ℕ) → n < long_half → negated (negsuc n) ≡ suc n
unfolding negated neg_ℤ
negated_value n lt = ground (
  arith,
  wrap_id long_half (pos (suc n)),
  wrap_above long_half (suc n),
  residue_pos ulong_modulus (suc n),
  residue_negsuc ulong_modulus (2 * long_half - 1 - suc n),
)

same_sign_value :
    (u v : ℕ)
    → u < ulong_modulus
    → v < ulong_modulus
    → same_sign u v
      ≡ (if ltb (u * v) long_half then (pos (u * v), pos 1) else (max_value long_half, pos 0))
unfolding same_sign
same_sign_value u v p q =
    rw (Mul.mul_ovf_exact u v p q) (ground (arith, wrap_id long_half (pos (u * v))))

other_sign_value :
    (u v : ℕ)
    → u < ulong_modulus
    → v < ulong_modulus
    → other_sign u v
      ≡ (if leb (u * v) long_half then (sub_ℕ 0 (u * v), pos 1) else (min_value long_half, pos 0))
unfolding other_sign neg neg_ℤ
other_sign_value u v p q = rw (Mul.mul_ovf_exact u v p q) (
    ground (
      arith,
      wrap_id long_half (pos (u * v)),
      wrap_above long_half (u * v),
      wrap_id long_half (negsuc (u * v - 1)),
      wrap_id long_half (pos 0),
    ))

-- `jit_long_mul_ovf` returns 1 and stores the exact product if that lies in the range of
-- `jit_long`; otherwise it returns 0 and stores the end of the range on the product's side.
pub mul_ovf_saturates :
    (a b : ℤ)
    → Fits long_half a
    → Fits long_half b
    → mul_ovf a b ≡ (
        if in_range long_half (a *ℤ b)
        then (a *ℤ b, pos 1)
        else (if pos 0 ≤? a *ℤ b then max_value long_half else min_value long_half, pos 0))
unfolding mul_ovf ◌*ℤ◌
mul_ovf_saturates (pos a) (pos b) fa fb =
    ground (arith, residue_pos ulong_modulus a, residue_pos ulong_modulus b, same_sign_value a b)
mul_ovf_saturates (pos a) (negsuc b) fa fb =
    ground (arith, residue_pos ulong_modulus a, negated_value b, other_sign_value a (suc b))
mul_ovf_saturates (negsuc a) (pos b) fa fb =
    ground (arith, negated_value a, residue_pos ulong_modulus b, other_sign_value (suc a) b)
mul_ovf_saturates (negsuc a) (negsuc b) fa fb =
    ground (arith, negated_value a, negated_value b, same_sign_value (suc a) (suc b))
