-- ===== src/Tests/Arith.antt =====
-- The theorems on integer intrinsics, at concrete values.
use libjit.Base.{◌<◌, ◌≡◌, ◌≢◌, arith, ◌⊎◌}
use libjit.Base.Int.{pos, negsuc, ◌+ℤ◌, ◌*ℤ◌, ◌≤ℤ◌, nat_abs}
use libjit.Word.{residue, signed, wrap, Fits, int_half, long_half, min_value}
use libjit.Intrinsic.{result_ok, result_arithmetic, result_division_by_zero}
use libjit.Intrinsic.Signed
use libjit.Intrinsic.Long
use libjit.Intrinsic.Ulong
use libjit.Intrinsic.Signed.Overflow.{add_ovf_lem}
use libjit.Intrinsic.Signed.Division.{div-rem}
use libjit.Intrinsic.Long.Mul.{mul_ovf_saturates}
use libjit.Intrinsic.Ulong.Mul.{mul_ovf_exact}

add_ovf_lem_example : Signed.add_ovf int_half (pos 2147483647) (pos 1) ≡ (negsuc 2147483647, pos 0)
unfolding ◌+ℤ◌ wrap residue signed
add_ovf_lem_example =
    add_ovf_lem int_half (pos 2147483647) (pos 1) (omega arith) (omega arith, omega arith)
      (omega arith, omega arith)

div-rem_example :
    ((pos 2 ≡ pos 0)
      × (Signed.div int_half (negsuc 6) (pos 2) ≡ (pos 0, result_division_by_zero))
      × (Signed.rem int_half (negsuc 6) (pos 2) ≡ (pos 0, result_division_by_zero)))
    ⊎ (((pos 2 ≡ negsuc 0)
          × (negsuc 6 ≡ min_value int_half)
          × (Signed.div int_half (negsuc 6) (pos 2) ≡ (pos 0, result_arithmetic))
          × (Signed.rem int_half (negsuc 6) (pos 2) ≡ (pos 0, result_arithmetic)))
        ⊎ ((pos 2 ≢ pos 0)
            × ((Signed.div int_half (negsuc 6) (pos 2)).1 ≡ result_ok)
            × ((Signed.rem int_half (negsuc 6) (pos 2)).1 ≡ result_ok)
            × Fits int_half (Signed.div int_half (negsuc 6) (pos 2)).0
            × ((Signed.div int_half (negsuc 6) (pos 2)).0 *ℤ pos 2
                  +ℤ (Signed.rem int_half (negsuc 6) (pos 2)).0
                ≡ negsuc 6)
            × (nat_abs (Signed.rem int_half (negsuc 6) (pos 2)).0 < 2)
            × (pos 0 ≤ℤ negsuc 6 → pos 0 ≤ℤ (Signed.rem int_half (negsuc 6) (pos 2)).0)
            × (negsuc 6 ≤ℤ pos 0 → (Signed.rem int_half (negsuc 6) (pos 2)).0 ≤ℤ pos 0)))
div-rem_example = div-rem int_half (negsuc 6) (pos 2) (omega arith) (omega arith, omega arith)

mul_ovf_saturates_example :
    Long.mul_ovf (pos 4294967296) (negsuc 4294967295) ≡ (min_value long_half, pos 0)
unfolding ◌*ℤ◌
mul_ovf_saturates_example =
    mul_ovf_saturates (pos 4294967296) (negsuc 4294967295) (omega arith, omega arith)
      (omega arith, omega arith)

mul_ovf_exact_example : Ulong.mul_ovf 4294967297 4294967295 ≡ (18446744073709551615, pos 1)
mul_ovf_exact_example = mul_ovf_exact 4294967297 4294967295 (omega arith) (omega arith)
