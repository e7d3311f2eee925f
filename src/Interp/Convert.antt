-- ===== src/Interp/Convert.antt =====
-- The conversion opcodes of `_jit_run_function` in jit/jit-interp.c, without those on floating point.
pub mod Exact
use libjit.Base.{ℕ}
use libjit.Base.Int.{ℤ, pos}
use libjit.Word.{residue, wrap, byte_half, short_half, byte_modulus, short_modulus, uint_modulus}
use libjit.Intrinsic.Convert.{
  int_to_sbyte_ovf, int_to_ubyte_ovf, int_to_short_ovf, int_to_ushort_ovf, uint_to_int_ovf,
  int_to_uint_ovf, long_to_uint_ovf, long_to_int_ovf, ulong_to_long_ovf, long_to_ulong_ovf,
}
use libjit.Item.{
  int_value, uint_value, long_value, ulong_value, put_int, put_uint, put_long, put_ulong,
}
use libjit.Opcode.{
  ConvertOp, trunc_sbyte, trunc_ubyte, trunc_short, trunc_ushort, trunc_int, trunc_uint,
  check_sbyte, check_ubyte, check_short, check_ushort, check_int, check_uint, low_word, expand_int,
  expand_uint, check_low_word, check_signed_low_word, check_long, check_ulong,
}
use libjit.Interp.{Outcome, next, checked_int, checked_uint, checked_long, checked_ulong}

-- The opcode, with the contents of the registers 0 and 1.
unfoldable pub run_convert : ConvertOp → ℕ → ℕ → Outcome
run_convert trunc_sbyte r0 r1 = next (put_int r0 (wrap byte_half (int_value r1)))
run_convert trunc_ubyte r0 r1 = next (put_int r0 (pos (residue byte_modulus (int_value r1))))
run_convert trunc_short r0 r1 = next (put_int r0 (wrap short_half (int_value r1)))
run_convert trunc_ushort r0 r1 = next (put_int r0 (pos (residue short_modulus (int_value r1))))
run_convert trunc_int r0 r1 = next (put_int r0 (int_value r1))
run_convert trunc_uint r0 r1 = next (put_int r0 (int_value r1))
run_convert check_sbyte r0 r1 = checked_int r0 (int_to_sbyte_ovf (int_value r1))
run_convert check_ubyte r0 r1 = checked_int r0 (int_to_ubyte_ovf (int_value r1))
run_convert check_short r0 r1 = checked_int r0 (int_to_short_ovf (int_value r1))
run_convert check_ushort r0 r1 = checked_int r0 (int_to_ushort_ovf (int_value r1))
run_convert check_int r0 r1 = checked_int r0 (uint_to_int_ovf (uint_value r1))
run_convert check_uint r0 r1 = checked_uint r0 (int_to_uint_ovf (int_value r1))
run_convert low_word r0 r1 = next (put_uint r0 (residue uint_modulus (long_value r1)))
run_convert expand_int r0 r1 = next (put_long r0 (int_value r1))
run_convert expand_uint r0 r1 = next (put_ulong r0 (uint_value r1))
run_convert check_low_word r0 r1 = checked_uint r0 (long_to_uint_ovf (long_value r1))
run_convert check_signed_low_word r0 r1 = checked_int r0 (long_to_int_ovf (long_value r1))
run_convert check_long r0 r1 = checked_long r0 (ulong_to_long_ovf (ulong_value r1))
run_convert check_ulong r0 r1 = checked_ulong r0 (long_to_ulong_ovf (long_value r1))
