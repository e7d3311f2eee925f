-- ===== src/Opcode.antt =====
-- include/jit/jit-opcode.h, the opcodes on integers, in one data type for each of the header's
-- sections, and the numbers of the conversion opcodes and of the copies.
use libjit.Base.{ℕ}

-- Conversion opcodes.
pub data ConvertOp : Type 0 where
  trunc_sbyte trunc_ubyte trunc_short trunc_ushort trunc_int trunc_uint : ConvertOp
  check_sbyte check_ubyte check_short check_ushort check_int check_uint : ConvertOp
  low_word expand_int expand_uint check_low_word check_signed_low_word : ConvertOp
  check_long check_ulong : ConvertOp

-- Arithmetic opcodes.
pub data ArithOp : Type 0 where
  iadd iadd_ovf iadd_ovf_un isub isub_ovf isub_ovf_un imul imul_ovf imul_ovf_un : ArithOp
  idiv idiv_un irem irem_un ineg : ArithOp
  ladd ladd_ovf ladd_ovf_un lsub lsub_ovf lsub_ovf_un lmul lmul_ovf lmul_ovf_un : ArithOp
  ldiv ldiv_un lrem lrem_un lneg : ArithOp

-- Bitwise opcodes.
pub data BitwiseOp : Type 0 where
  iand ior ixor inot ishl ishr ishr_un land lor lxor lnot lshl lshr lshr_un : BitwiseOp

-- Comparison opcodes.
pub data CompareOp : Type 0 where
  icmp icmp_un lcmp lcmp_un : CompareOp
  ieq ine ilt ilt_un ile ile_un igt igt_un ige ige_un : CompareOp
  leq lne llt llt_un lle lle_un lgt lgt_un lge lge_un : CompareOp

-- The opcodes that copy a value from one place to another.
pub data CopyOp : Type 0 where
  copy_int copy_long : CopyOp

pub data Op : Type 0 where
  convert_op : ConvertOp → Op
  arith_op : ArithOp → Op
  bitwise_op : BitwiseOp → Op
  compare_op : CompareOp → Op
  copy_op : CopyOp → Op

abbrev pub convert_number : ConvertOp → ℕ
convert_number trunc_sbyte = 0x01
convert_number trunc_ubyte = 0x02
convert_number trunc_short = 0x03
convert_number trunc_ushort = 0x04
convert_number trunc_int = 0x05
convert_number trunc_uint = 0x06
convert_number check_sbyte = 0x07
convert_number check_ubyte = 0x08
convert_number check_short = 0x09
convert_number check_ushort = 0x0A
convert_number check_int = 0x0B
convert_number check_uint = 0x0C
convert_number low_word = 0x0D
convert_number expand_int = 0x0E
convert_number expand_uint = 0x0F
convert_number check_low_word = 0x10
convert_number check_signed_low_word = 0x11
convert_number check_long = 0x12
convert_number check_ulong = 0x13

abbrev pub copy_number : CopyOp → ℕ
copy_number copy_int = 0x15F
copy_number copy_long = 0x160
