-- ===== src/Insn/Tables.antt =====
-- The tables of `jit_insn_convert` in jit/jit-insn.c, for a machine of 64 bits: the opcodes of a conversion,
-- each with the type of its result. The rows are from `jit_int`, `jit_uint`, `jit_long` and `jit_ulong`, each
-- without and with a check for overflow. The rows from floating point, which follow, are left out.
use libjit.Base.{List, [], ◌∷◌}
use libjit.Item.{Kind, sbyte, ubyte, short, ushort, int, uint, long, ulong}
use libjit.Opcode.{
  Op, convert_op, copy_op, copy_int, copy_long, trunc_sbyte, trunc_ubyte, trunc_short, trunc_ushort,
  trunc_int, trunc_uint, check_sbyte, check_ubyte, check_short, check_ushort, check_int, check_uint,
  low_word, expand_int, expand_uint, check_low_word, check_signed_low_word, check_long, check_ulong,
}

-- `jit_convert_info_t`, without the empty places.
abbrev pub ConvertInfo : Type 0
ConvertInfo = List (Op × Kind)

abbrev pub to_sbyte_table : List ConvertInfo
to_sbyte_table =
    ((convert_op trunc_sbyte, sbyte) ∷ [])
    ∷ ((convert_op check_sbyte, sbyte) ∷ [])
    ∷ ((convert_op trunc_sbyte, sbyte) ∷ [])
    ∷ ((convert_op check_int, int) ∷ (convert_op check_sbyte, sbyte) ∷ [])
    ∷ ((convert_op low_word, int) ∷ (convert_op trunc_sbyte, sbyte) ∷ [])
    ∷ ((convert_op check_signed_low_word, int) ∷ (convert_op check_sbyte, sbyte) ∷ [])
    ∷ ((convert_op low_word, int) ∷ (convert_op trunc_sbyte, sbyte) ∷ [])
    ∷ ((convert_op check_low_word, uint)
        ∷ (convert_op check_int, int)
        ∷ (convert_op check_sbyte, sbyte)
        ∷ [])
    ∷ []

abbrev pub to_ubyte_table : List ConvertInfo
to_ubyte_table =
    ((convert_op trunc_ubyte, ubyte) ∷ [])
    ∷ ((convert_op check_ubyte, ubyte) ∷ [])
    ∷ ((convert_op trunc_ubyte, ubyte) ∷ [])
    ∷ ((convert_op check_ubyte, ubyte) ∷ [])
    ∷ ((convert_op low_word, int) ∷ (convert_op trunc_ubyte, ubyte) ∷ [])
    ∷ ((convert_op check_signed_low_word, int) ∷ (convert_op check_ubyte, ubyte) ∷ [])
    ∷ ((convert_op low_word, int) ∷ (convert_op trunc_ubyte, ubyte) ∷ [])
    ∷ ((convert_op check_low_word, uint) ∷ (convert_op check_ubyte, ubyte) ∷ [])
    ∷ []

abbrev pub to_short_table : List ConvertInfo
to_short_table =
    ((convert_op trunc_short, short) ∷ [])
    ∷ ((convert_op check_short, short) ∷ [])
    ∷ ((convert_op trunc_short, short) ∷ [])
    ∷ ((convert_op check_int, int) ∷ (convert_op check_short, short) ∷ [])
    ∷ ((convert_op low_word, int) ∷ (convert_op trunc_short, short) ∷ [])
    ∷ ((convert_op check_signed_low_word, int) ∷ (convert_op check_short, short) ∷ [])
    ∷ ((convert_op low_word, int) ∷ (convert_op trunc_short, short) ∷ [])
    ∷ ((convert_op check_low_word, uint)
        ∷ (convert_op check_int, int)
        ∷ (convert_op check_short, short)
        ∷ [])
    ∷ []

abbrev pub to_ushort_table : List ConvertInfo
to_ushort_table =
    ((convert_op trunc_ushort, ushort) ∷ [])
    ∷ ((convert_op check_ushort, ushort) ∷ [])
    ∷ ((convert_op trunc_ushort, ushort) ∷ [])
    ∷ ((convert_op check_ushort, ushort) ∷ [])
    ∷ ((convert_op low_word, int) ∷ (convert_op trunc_ushort, ushort) ∷ [])
    ∷ ((convert_op check_signed_low_word, int) ∷ (convert_op check_ushort, ushort) ∷ [])
    ∷ ((convert_op low_word, int) ∷ (convert_op trunc_ushort, ushort) ∷ [])
    ∷ ((convert_op check_low_word, uint) ∷ (convert_op check_ushort, ushort) ∷ [])
    ∷ []

abbrev pub to_int_table : List ConvertInfo
to_int_table =
    ((copy_op copy_int, int) ∷ [])
    ∷ ((copy_op copy_int, int) ∷ [])
    ∷ ((convert_op trunc_int, int) ∷ [])
    ∷ ((convert_op check_int, int) ∷ [])
    ∷ ((convert_op low_word, int) ∷ (convert_op trunc_int, int) ∷ [])
    ∷ ((convert_op check_signed_low_word, int) ∷ [])
    ∷ ((convert_op low_word, int) ∷ (convert_op trunc_int, int) ∷ [])
    ∷ ((convert_op check_low_word, uint) ∷ (convert_op check_int, int) ∷ [])
    ∷ []

abbrev pub to_uint_table : List ConvertInfo
to_uint_table =
    ((convert_op trunc_uint, uint) ∷ [])
    ∷ ((convert_op check_uint, uint) ∷ [])
    ∷ ((copy_op copy_int, uint) ∷ [])
    ∷ ((copy_op copy_int, uint) ∷ [])
    ∷ ((convert_op low_word, uint) ∷ [])
    ∷ ((convert_op check_low_word, uint) ∷ [])
    ∷ ((convert_op low_word, uint) ∷ [])
    ∷ ((convert_op check_low_word, uint) ∷ [])
    ∷ []

abbrev pub to_long_table : List ConvertInfo
to_long_table =
    ((convert_op expand_int, long) ∷ [])
    ∷ ((convert_op expand_int, long) ∷ [])
    ∷ ((convert_op expand_uint, long) ∷ [])
    ∷ ((convert_op expand_uint, long) ∷ [])
    ∷ ((copy_op copy_long, long) ∷ [])
    ∷ ((copy_op copy_long, long) ∷ [])
    ∷ ((copy_op copy_long, long) ∷ [])
    ∷ ((convert_op check_long, long) ∷ [])
    ∷ []

abbrev pub to_ulong_table : List ConvertInfo
to_ulong_table =
    ((convert_op expand_int, ulong) ∷ [])
    ∷ ((convert_op check_uint, uint) ∷ (convert_op expand_uint, ulong) ∷ [])
    ∷ ((convert_op expand_uint, ulong) ∷ [])
    ∷ ((convert_op expand_uint, ulong) ∷ [])
    ∷ ((copy_op copy_long, ulong) ∷ [])
    ∷ ((convert_op check_ulong, ulong) ∷ [])
    ∷ ((copy_op copy_long, ulong) ∷ [])
    ∷ ((copy_op copy_long, ulong) ∷ [])
    ∷ []

-- `opcode_map` for the type that is converted to.
unfoldable pub table_of : Kind → List ConvertInfo
table_of sbyte = to_sbyte_table
table_of ubyte = to_ubyte_table
table_of short = to_short_table
table_of ushort = to_ushort_table
table_of int = to_int_table
table_of uint = to_uint_table
table_of long = to_long_table
table_of ulong = to_ulong_table
