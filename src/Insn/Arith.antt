-- ===== src/Insn/Arith.antt =====
-- The functions of jit/jit-insn.c that build arithmetic, bitwise operations, shifts and comparisons on
-- integers: the common type of the operands, their conversion to it, and the opcode for it.
pub mod Builds
pub mod Registers
pub mod Sums
pub mod Products
pub mod Comparisons
pub mod Divisions
pub mod Results
use libjit.Base.{ℕ, Bool, true, false, ◌||◌}
use libjit.Item.{Kind, int, uint, long, ulong}
use libjit.Opcode.{Op, arith_op, ineg, lneg}
use libjit.Insn.Descr.{
  OpcodeDescr, add_descr, add_ovf_descr, sub_descr, sub_ovf_descr, mul_descr, mul_ovf_descr,
  div_descr, rem_descr, and_descr, or_descr, xor_descr, not_descr, shl_descr, shr_descr, ushr_descr,
  sshr_descr, eq_descr, ne_descr, lt_descr, le_descr, gt_descr, ge_descr, cmpl_descr, cmpg_descr,
}
use libjit.Value.{Value, type_of, promote_int}
use libjit.Insn.{Builder, apply_unary, apply_binary, convert}

-- On promoted types.
abbrev pub common_type : Kind → Kind → Kind
common_type int int = int
common_type int uint = int
common_type int long = long
common_type int ulong = long
common_type uint type2 = type2
common_type long type2 = long
common_type ulong int = long
common_type ulong long = long
common_type ulong uint = ulong
common_type ulong ulong = ulong
common_type type1 type2 = long

-- `common_binary` for integers.
unfoldable pub common_binary : Kind → Kind → Kind
common_binary type1 type2 = common_type (promote_int type1) (promote_int type2)

abbrev pub oper_for : OpcodeDescr → Kind → Op
oper_for descr int = descr.ioper
oper_for descr uint = descr.iuoper
oper_for descr long = descr.loper
oper_for descr kind = descr.luoper

-- The type of a shift count, by the promoted type that is given.
abbrev pub count_type_of : Kind → Kind
count_type_of int = int
count_type_of type = uint

module _ (beyond : ℕ → Bool) (un : ℕ) where
  unfoldable pub apply_unary_arith : Builder → OpcodeDescr → Value → Bool → Builder × Value
  apply_unary_arith builder descr value1 overflow_check =
      let result_type = common_binary (type_of value1) (type_of value1) in
      let marked = record builder { may_throw = builder.may_throw || descr.reports } in
      let (builder1, value1') = convert beyond un marked value1 result_type overflow_check in
      apply_unary builder1 (oper_for descr result_type) value1' result_type

  unfoldable pub apply_arith : Builder → OpcodeDescr → Value → Value → Bool → Builder × Value
  apply_arith builder descr value1 value2 overflow_check =
      let result_type = common_binary (type_of value1) (type_of value2) in
      let marked = record builder { may_throw = builder.may_throw || descr.reports } in
      let (builder1, value1') = convert beyond un marked value1 result_type overflow_check in
      let (builder2, value2') = convert beyond un builder1 value2 result_type overflow_check in
      apply_binary builder2 (oper_for descr result_type) value1' value2' result_type

  unfoldable pub apply_shift : Builder → OpcodeDescr → Value → Value → Builder × Value
  apply_shift builder descr value1 value2 =
      let result_type = common_binary (type_of value1) (type_of value1) in
      let count_type = count_type_of (promote_int (type_of value2)) in
      let (builder1, value1') = convert beyond un builder value1 result_type false in
      let (builder2, value2') = convert beyond un builder1 value2 count_type false in
      apply_binary builder2 (oper_for descr result_type) value1' value2' result_type

  unfoldable pub apply_compare : Builder → OpcodeDescr → Value → Value → Builder × Value
  apply_compare builder descr value1 value2 =
      let result_type = common_binary (type_of value1) (type_of value2) in
      let (builder1, value1') = convert beyond un builder value1 result_type false in
      let (builder2, value2') = convert beyond un builder1 value2 result_type false in
      apply_binary builder2 (oper_for descr result_type) value1' value2' int

  abbrev pub insn_add : Builder → Value → Value → Builder × Value
  insn_add builder value1 value2 = apply_arith builder add_descr value1 value2 false

  abbrev pub insn_add_ovf : Builder → Value → Value → Builder × Value
  insn_add_ovf builder value1 value2 = apply_arith builder add_ovf_descr value1 value2 true

  abbrev pub insn_sub : Builder → Value → Value → Builder × Value
  insn_sub builder value1 value2 = apply_arith builder sub_descr value1 value2 false

  abbrev pub insn_sub_ovf : Builder → Value → Value → Builder × Value
  insn_sub_ovf builder value1 value2 = apply_arith builder sub_ovf_descr value1 value2 true

  abbrev pub insn_mul : Builder → Value → Value → Builder × Value
  insn_mul builder value1 value2 = apply_arith builder mul_descr value1 value2 false

  abbrev pub insn_mul_ovf : Builder → Value → Value → Builder × Value
  insn_mul_ovf builder value1 value2 = apply_arith builder mul_ovf_descr value1 value2 true

  abbrev pub insn_div : Builder → Value → Value → Builder × Value
  insn_div builder value1 value2 = apply_arith builder div_descr value1 value2 false

  abbrev pub insn_rem : Builder → Value → Value → Builder × Value
  insn_rem builder value1 value2 = apply_arith builder rem_descr value1 value2 false

  abbrev pub insn_and : Builder → Value → Value → Builder × Value
  insn_and builder value1 value2 = apply_arith builder and_descr value1 value2 false

  abbrev pub insn_or : Builder → Value → Value → Builder × Value
  insn_or builder value1 value2 = apply_arith builder or_descr value1 value2 false

  abbrev pub insn_xor : Builder → Value → Value → Builder × Value
  insn_xor builder value1 value2 = apply_arith builder xor_descr value1 value2 false

  abbrev pub insn_not : Builder → Value → Builder × Value
  insn_not builder value1 = apply_unary_arith builder not_descr value1 false

  abbrev pub insn_shl : Builder → Value → Value → Builder × Value
  insn_shl builder value1 value2 = apply_shift builder shl_descr value1 value2

  abbrev pub insn_shr : Builder → Value → Value → Builder × Value
  insn_shr builder value1 value2 = apply_shift builder shr_descr value1 value2

  abbrev pub insn_ushr : Builder → Value → Value → Builder × Value
  insn_ushr builder value1 value2 = apply_shift builder ushr_descr value1 value2

  abbrev pub insn_sshr : Builder → Value → Value → Builder × Value
  insn_sshr builder value1 value2 = apply_shift builder sshr_descr value1 value2

  abbrev pub insn_eq : Builder → Value → Value → Builder × Value
  insn_eq builder value1 value2 = apply_compare builder eq_descr value1 value2

  abbrev pub insn_ne : Builder → Value → Value → Builder × Value
  insn_ne builder value1 value2 = apply_compare builder ne_descr value1 value2

  abbrev pub insn_lt : Builder → Value → Value → Builder × Value
  insn_lt builder value1 value2 = apply_compare builder lt_descr value1 value2

  abbrev pub insn_le : Builder → Value → Value → Builder × Value
  insn_le builder value1 value2 = apply_compare builder le_descr value1 value2

  abbrev pub insn_gt : Builder → Value → Value → Builder × Value
  insn_gt builder value1 value2 = apply_compare builder gt_descr value1 value2

  abbrev pub insn_ge : Builder → Value → Value → Builder × Value
  insn_ge builder value1 value2 = apply_compare builder ge_descr value1 value2

  abbrev pub insn_cmpl : Builder → Value → Value → Builder × Value
  insn_cmpl builder value1 value2 = apply_compare builder cmpl_descr value1 value2

  abbrev pub insn_cmpg : Builder → Value → Value → Builder × Value
  insn_cmpg builder value1 value2 = apply_compare builder cmpg_descr value1 value2

  -- `jit_insn_neg`: an unsigned value is negated as one of the signed type.
  abbrev pub negated_type : Kind → Kind
  negated_type uint = int
  negated_type ulong = long
  negated_type type = type

  unfoldable pub insn_neg : Builder → Value → Builder × Value
  insn_neg builder value1 =
      let result_type = negated_type (promote_int (type_of value1)) in
      let (builder1, value1') = convert beyond un builder value1 result_type false in
      apply_unary builder1 (elim result_type [ int ↦ arith_op ineg | other ↦ arith_op lneg ])
        value1' result_type
