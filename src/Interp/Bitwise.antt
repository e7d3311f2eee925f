-- ===== src/Interp/Bitwise.antt =====
-- The bitwise opcodes of `_jit_run_function` in jit/jit-interp.c.
use Prim.Native.Nat.{bit_and, bit_or, bit_xor}
use libjit.Base.{ℕ, ◌-◌, ◌/◌, ◌^◌}
use libjit.Base.Int.{ℤ, pos, ◌*ℤ◌}
use libjit.Word.{wrap, signed, residue, int_half, long_half, uint_modulus, ulong_modulus}
use libjit.Intrinsic.Signed.{shift_right}
use libjit.Item.{
  int_value, uint_value, long_value, ulong_value, put_int, put_uint, put_long, put_ulong,
}
use libjit.Opcode.{
  BitwiseOp, iand, ior, ixor, inot, ishl, ishr, ishr_un, land, lor, lxor, lnot, lshl, lshr, lshr_un,
}
use libjit.Interp.{Outcome, next}

-- An operation of C on the bits of two signed values.
abbrev pub on_bits : ℕ → ℕ → (ℕ → ℕ → ℕ) → ℤ → ℤ → ℤ
on_bits h m f x y = signed h (f (residue m x) (residue m y))

-- The opcode, with the contents of the registers 0, 1 and 2. The count of a shift is masked; the
-- lowest bits of the count are the same, whether it is read as signed or as unsigned.
unfoldable pub run_bitwise : BitwiseOp → ℕ → ℕ → ℕ → Outcome
run_bitwise iand r0 r1 r2 =
    next (put_int r0 (on_bits int_half uint_modulus bit_and (int_value r1) (int_value r2)))
run_bitwise ior r0 r1 r2 =
    next (put_int r0 (on_bits int_half uint_modulus bit_or (int_value r1) (int_value r2)))
run_bitwise ixor r0 r1 r2 =
    next (put_int r0 (on_bits int_half uint_modulus bit_xor (int_value r1) (int_value r2)))
run_bitwise inot r0 r1 r2 =
    next (put_int r0 (signed int_half (uint_modulus - 1 - residue uint_modulus (int_value r1))))
run_bitwise ishl r0 r1 r2 = next (
    put_int r0 (
      wrap int_half (int_value r1 *ℤ pos (2 ^ bit_and (residue uint_modulus (int_value r2)) 0x1F))))
run_bitwise ishr r0 r1 r2 =
    next (put_int r0 (shift_right (int_value r1) (bit_and (uint_value r2) 0x1F)))
run_bitwise ishr_un r0 r1 r2 = next (put_uint r0 (uint_value r1 / 2 ^ bit_and (uint_value r2) 0x1F))
run_bitwise land r0 r1 r2 =
    next (put_long r0 (on_bits long_half ulong_modulus bit_and (long_value r1) (long_value r2)))
run_bitwise lor r0 r1 r2 =
    next (put_long r0 (on_bits long_half ulong_modulus bit_or (long_value r1) (long_value r2)))
run_bitwise lxor r0 r1 r2 =
    next (put_long r0 (on_bits long_half ulong_modulus bit_xor (long_value r1) (long_value r2)))
run_bitwise lnot r0 r1 r2 =
    next
      (put_long r0 (signed long_half (ulong_modulus - 1 - residue ulong_modulus (long_value r1))))
run_bitwise lshl r0 r1 r2 =
    next (put_long r0 (wrap long_half (long_value r1 *ℤ pos (2 ^ bit_and (uint_value r2) 0x3F))))
run_bitwise lshr r0 r1 r2 =
    next (put_long r0 (shift_right (long_value r1) (bit_and (uint_value r2) 0x3F)))
run_bitwise lshr_un r0 r1 r2 =
    next (put_ulong r0 (ulong_value r1 / 2 ^ bit_and (uint_value r2) 0x3F))
