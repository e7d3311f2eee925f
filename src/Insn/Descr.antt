-- ===== src/Insn/Descr.antt =====
-- The opcode descriptors in the functions of jit/jit-insn.c that build operations on integers.
use libjit.Base.{Bool, true, false}
use libjit.Opcode.{
  Op, arith_op, bitwise_op, compare_op, iadd, iadd_ovf, iadd_ovf_un, isub, isub_ovf, isub_ovf_un,
  imul, imul_ovf, imul_ovf_un, idiv, idiv_un, irem, irem_un, ladd, ladd_ovf, ladd_ovf_un, lsub,
  lsub_ovf, lsub_ovf_un, lmul, lmul_ovf, lmul_ovf_un, ldiv, ldiv_un, lrem, lrem_un, iand, ior, ixor,
  inot, ishl, ishr, ishr_un, land, lor, lxor, lnot, lshl, lshr, lshr_un, icmp, icmp_un, lcmp,
  lcmp_un, ieq, ine, ilt, ilt_un, ile, ile_un, igt, igt_un, ige, ige_un, leq, lne, llt, llt_un, lle,
  lle_un, lgt, lgt_un, lge, lge_un,
}

-- `jit_opcode_descr`: the opcodes on integers, and whether the descriptors of the intrinsics for them have a
-- `ptr_result_type`.
pub record OpcodeDescr : Type 0 where
  pub ioper : Op
  pub iuoper : Op
  pub loper : Op
  pub luoper : Op
  pub reports : Bool

abbrev opcodes : Op → Op → Op → Op → Bool → OpcodeDescr
opcodes ioper iuoper loper luoper reports = record {
  ioper = ioper;
  iuoper = iuoper;
  loper = loper;
  luoper = luoper;
  reports = reports;
}

abbrev pub add_descr : OpcodeDescr
add_descr = opcodes (arith_op iadd) (arith_op iadd) (arith_op ladd) (arith_op ladd) false

abbrev pub add_ovf_descr : OpcodeDescr
add_ovf_descr =
    opcodes (arith_op iadd_ovf) (arith_op iadd_ovf_un) (arith_op ladd_ovf) (arith_op ladd_ovf_un)
      true

abbrev pub sub_descr : OpcodeDescr
sub_descr = opcodes (arith_op isub) (arith_op isub) (arith_op lsub) (arith_op lsub) false

abbrev pub sub_ovf_descr : OpcodeDescr
sub_ovf_descr =
    opcodes (arith_op isub_ovf) (arith_op isub_ovf_un) (arith_op lsub_ovf) (arith_op lsub_ovf_un)
      true

abbrev pub mul_descr : OpcodeDescr
mul_descr = opcodes (arith_op imul) (arith_op imul) (arith_op lmul) (arith_op lmul) false

abbrev pub mul_ovf_descr : OpcodeDescr
mul_ovf_descr =
    opcodes (arith_op imul_ovf) (arith_op imul_ovf_un) (arith_op lmul_ovf) (arith_op lmul_ovf_un)
      true

abbrev pub div_descr : OpcodeDescr
div_descr = opcodes (arith_op idiv) (arith_op idiv_un) (arith_op ldiv) (arith_op ldiv_un) true

abbrev pub rem_descr : OpcodeDescr
rem_descr = opcodes (arith_op irem) (arith_op irem_un) (arith_op lrem) (arith_op lrem_un) true

abbrev pub and_descr : OpcodeDescr
and_descr = opcodes (bitwise_op iand) (bitwise_op iand) (bitwise_op land) (bitwise_op land) false

abbrev pub or_descr : OpcodeDescr
or_descr = opcodes (bitwise_op ior) (bitwise_op ior) (bitwise_op lor) (bitwise_op lor) false

abbrev pub xor_descr : OpcodeDescr
xor_descr = opcodes (bitwise_op ixor) (bitwise_op ixor) (bitwise_op lxor) (bitwise_op lxor) false

abbrev pub not_descr : OpcodeDescr
not_descr = opcodes (bitwise_op inot) (bitwise_op inot) (bitwise_op lnot) (bitwise_op lnot) false

abbrev pub shl_descr : OpcodeDescr
shl_descr = opcodes (bitwise_op ishl) (bitwise_op ishl) (bitwise_op lshl) (bitwise_op lshl) false

abbrev pub shr_descr : OpcodeDescr
shr_descr =
    opcodes (bitwise_op ishr) (bitwise_op ishr_un) (bitwise_op lshr) (bitwise_op lshr_un) false

abbrev pub ushr_descr : OpcodeDescr
ushr_descr =
    opcodes (bitwise_op ishr_un) (bitwise_op ishr_un) (bitwise_op lshr_un) (bitwise_op lshr_un)
      false

abbrev pub sshr_descr : OpcodeDescr
sshr_descr = opcodes (bitwise_op ishr) (bitwise_op ishr) (bitwise_op lshr) (bitwise_op lshr) false

abbrev pub eq_descr : OpcodeDescr
eq_descr = opcodes (compare_op ieq) (compare_op ieq) (compare_op leq) (compare_op leq) false

abbrev pub ne_descr : OpcodeDescr
ne_descr = opcodes (compare_op ine) (compare_op ine) (compare_op lne) (compare_op lne) false

abbrev pub lt_descr : OpcodeDescr
lt_descr = opcodes (compare_op ilt) (compare_op ilt_un) (compare_op llt) (compare_op llt_un) false

abbrev pub le_descr : OpcodeDescr
le_descr = opcodes (compare_op ile) (compare_op ile_un) (compare_op lle) (compare_op lle_un) false

abbrev pub gt_descr : OpcodeDescr
gt_descr = opcodes (compare_op igt) (compare_op igt_un) (compare_op lgt) (compare_op lgt_un) false

abbrev pub ge_descr : OpcodeDescr
ge_descr = opcodes (compare_op ige) (compare_op ige_un) (compare_op lge) (compare_op lge_un) false

abbrev pub cmpl_descr : OpcodeDescr
cmpl_descr =
    opcodes (compare_op icmp) (compare_op icmp_un) (compare_op lcmp) (compare_op lcmp_un) false

abbrev pub cmpg_descr : OpcodeDescr
cmpg_descr =
    opcodes (compare_op icmp) (compare_op icmp_un) (compare_op lcmp) (compare_op lcmp_un) false
