-- ===== src/Interp/Arith.antt =====
-- The arithmetic opcodes of `_jit_run_function` in jit/jit-interp.c on integers.
use libjit.Base.{ℕ}
use libjit.Base.Int.{◌+ℤ◌, ◌-ℤ◌, ◌*ℤ◌, neg_ℤ}
use libjit.Word.{wrap, int_half, long_half}
use libjit.Intrinsic.Int
use libjit.Intrinsic.Uint
use libjit.Intrinsic.Long
use libjit.Intrinsic.Ulong
use libjit.Item.{int_value, uint_value, long_value, ulong_value, put_int, put_long}
use libjit.Opcode.{
  ArithOp, iadd, iadd_ovf, iadd_ovf_un, isub, isub_ovf, isub_ovf_un, imul, imul_ovf, imul_ovf_un,
  idiv, idiv_un, irem, irem_un, ineg, ladd, ladd_ovf, ladd_ovf_un, lsub, lsub_ovf, lsub_ovf_un,
  lmul, lmul_ovf, lmul_ovf_un, ldiv, ldiv_un, lrem, lrem_un, lneg,
}
use libjit.Interp.{Outcome, next, checked_int, checked_uint, checked_long, checked_ulong}

-- The opcode, with the contents of the registers 0, 1 and 2.
unfoldable pub run_arith : ArithOp → ℕ → ℕ → ℕ → Outcome
run_arith iadd r0 r1 r2 = next (put_int r0 (wrap int_half (int_value r1 +ℤ int_value r2)))
run_arith iadd_ovf r0 r1 r2 = checked_int r0 (Int.add_ovf (int_value r1) (int_value r2))
run_arith iadd_ovf_un r0 r1 r2 = checked_uint r0 (Uint.add_ovf (uint_value r1) (uint_value r2))
run_arith isub r0 r1 r2 = next (put_int r0 (wrap int_half (int_value r1 -ℤ int_value r2)))
run_arith isub_ovf r0 r1 r2 = checked_int r0 (Int.sub_ovf (int_value r1) (int_value r2))
run_arith isub_ovf_un r0 r1 r2 = checked_uint r0 (Uint.sub_ovf (uint_value r1) (uint_value r2))
run_arith imul r0 r1 r2 = next (put_int r0 (wrap int_half (int_value r1 *ℤ int_value r2)))
run_arith imul_ovf r0 r1 r2 = checked_int r0 (Int.mul_ovf (int_value r1) (int_value r2))
run_arith imul_ovf_un r0 r1 r2 = checked_uint r0 (Uint.mul_ovf (uint_value r1) (uint_value r2))
run_arith idiv r0 r1 r2 = checked_int r0 (Int.div (int_value r1) (int_value r2))
run_arith idiv_un r0 r1 r2 = checked_uint r0 (Uint.div (uint_value r1) (uint_value r2))
run_arith irem r0 r1 r2 = checked_int r0 (Int.rem (int_value r1) (int_value r2))
run_arith irem_un r0 r1 r2 = checked_uint r0 (Uint.rem (uint_value r1) (uint_value r2))
run_arith ineg r0 r1 r2 = next (put_int r0 (wrap int_half (neg_ℤ (int_value r1))))
run_arith ladd r0 r1 r2 = next (put_long r0 (wrap long_half (long_value r1 +ℤ long_value r2)))
run_arith ladd_ovf r0 r1 r2 = checked_long r0 (Long.add_ovf (long_value r1) (long_value r2))
run_arith ladd_ovf_un r0 r1 r2 = checked_ulong r0 (Ulong.add_ovf (ulong_value r1) (ulong_value r2))
run_arith lsub r0 r1 r2 = next (put_long r0 (wrap long_half (long_value r1 -ℤ long_value r2)))
run_arith lsub_ovf r0 r1 r2 = checked_long r0 (Long.sub_ovf (long_value r1) (long_value r2))
run_arith lsub_ovf_un r0 r1 r2 = checked_ulong r0 (Ulong.sub_ovf (ulong_value r1) (ulong_value r2))
run_arith lmul r0 r1 r2 = next (put_long r0 (wrap long_half (long_value r1 *ℤ long_value r2)))
run_arith lmul_ovf r0 r1 r2 = checked_long r0 (Long.mul_ovf (long_value r1) (long_value r2))
run_arith lmul_ovf_un r0 r1 r2 = checked_ulong r0 (Ulong.mul_ovf (ulong_value r1) (ulong_value r2))
run_arith ldiv r0 r1 r2 = checked_long r0 (Long.div (long_value r1) (long_value r2))
run_arith ldiv_un r0 r1 r2 = checked_ulong r0 (Ulong.div (ulong_value r1) (ulong_value r2))
run_arith lrem r0 r1 r2 = checked_long r0 (Long.rem (long_value r1) (long_value r2))
run_arith lrem_un r0 r1 r2 = checked_ulong r0 (Ulong.rem (ulong_value r1) (ulong_value r2))
run_arith lneg r0 r1 r2 = next (put_long r0 (wrap long_half (neg_ℤ (long_value r1))))
