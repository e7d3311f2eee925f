-- ===== src/Interp/Compare.antt =====
-- The comparison opcodes of `_jit_run_function` in jit/jit-interp.c on integers.
use libjit.Base.{ℕ, not, ltb, leb}
use libjit.Base.Int.{◌≤?◌, ◌<?◌, ◌==ℤ◌}
use libjit.Word.{flag}
use libjit.Intrinsic.Int
use libjit.Intrinsic.Uint
use libjit.Intrinsic.Long
use libjit.Intrinsic.Ulong
use libjit.Item.{int_value, uint_value, long_value, ulong_value, put_int}
use libjit.Opcode.{
  CompareOp, icmp, icmp_un, lcmp, lcmp_un, ieq, ine, ilt, ilt_un, ile, ile_un, igt, igt_un, ige,
  ige_un, leq, lne, llt, llt_un, lle, lle_un, lgt, lgt_un, lge, lge_un,
}
use libjit.Interp.{Outcome, next}

-- The opcode, with the contents of the registers 0, 1 and 2. The result of a comparison of unsigned
-- values may be stored as `uint_value`, which writes the same bytes.
unfoldable pub run_compare : CompareOp → ℕ → ℕ → ℕ → Outcome
run_compare icmp r0 r1 r2 = next (put_int r0 (Int.cmp (int_value r1) (int_value r2)))
run_compare icmp_un r0 r1 r2 = next (put_int r0 (Uint.cmp (uint_value r1) (uint_value r2)))
run_compare lcmp r0 r1 r2 = next (put_int r0 (Long.cmp (long_value r1) (long_value r2)))
run_compare lcmp_un r0 r1 r2 = next (put_int r0 (Ulong.cmp (ulong_value r1) (ulong_value r2)))
run_compare ieq r0 r1 r2 = next (put_int r0 (flag (int_value r1 ==ℤ int_value r2)))
run_compare ine r0 r1 r2 = next (put_int r0 (flag (not (int_value r1 ==ℤ int_value r2))))
run_compare ilt r0 r1 r2 = next (put_int r0 (flag (int_value r1 <? int_value r2)))
run_compare ilt_un r0 r1 r2 = next (put_int r0 (flag (ltb (uint_value r1) (uint_value r2))))
run_compare ile r0 r1 r2 = next (put_int r0 (flag (int_value r1 ≤? int_value r2)))
run_compare ile_un r0 r1 r2 = next (put_int r0 (flag (leb (uint_value r1) (uint_value r2))))
run_compare igt r0 r1 r2 = next (put_int r0 (flag (int_value r2 <? int_value r1)))
run_compare igt_un r0 r1 r2 = next (put_int r0 (flag (ltb (uint_value r2) (uint_value r1))))
run_compare ige r0 r1 r2 = next (put_int r0 (flag (int_value r2 ≤? int_value r1)))
run_compare ige_un r0 r1 r2 = next (put_int r0 (flag (leb (uint_value r2) (uint_value r1))))
run_compare leq r0 r1 r2 = next (put_int r0 (flag (long_value r1 ==ℤ long_value r2)))
run_compare lne r0 r1 r2 = next (put_int r0 (flag (not (long_value r1 ==ℤ long_value r2))))
run_compare llt r0 r1 r2 = next (put_int r0 (flag (long_value r1 <? long_value r2)))
run_compare llt_un r0 r1 r2 = next (put_int r0 (flag (ltb (ulong_value r1) (ulong_value r2))))
run_compare lle r0 r1 r2 = next (put_int r0 (flag (long_value r1 ≤? long_value r2)))
run_compare lle_un r0 r1 r2 = next (put_int r0 (flag (leb (ulong_value r1) (ulong_value r2))))
run_compare lgt r0 r1 r2 = next (put_int r0 (flag (long_value r2 <? long_value r1)))
run_compare lgt_un r0 r1 r2 = next (put_int r0 (flag (ltb (ulong_value r2) (ulong_value r1))))
run_compare lge r0 r1 r2 = next (put_int r0 (flag (long_value r2 ≤? long_value r1)))
run_compare lge_un r0 r1 r2 = next (put_int r0 (flag (leb (ulong_value r2) (ulong_value r1))))
