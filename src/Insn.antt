-- ===== src/Insn.antt =====
-- jit/jit-insn.c, building the instructions of a function, with the interpreter as back end, which
-- supports all opcodes (`_jit_opcode_is_supported` of jit/jit-rules-interp.c). Types are those of
-- integers. Memory can be had.
pub mod Tables
pub mod Convert
pub mod Descr
pub mod Arith
use libjit.Base.{
  ℕ, suc, ◌+◌, ◌-◌, Bool, true, false, ◌||◌, Option, none, some, List, [], ◌∷◌, ◌++◌, ◌==◌,
  if◌then◌else◌, get_elem?, get_or,
}
use libjit.Base.Int.{ℤ}
use libjit.Base.Maybe.{◌>>=◌}
use libjit.Item.{Kind, uint, long, ulong, same_kind}
use libjit.Opcode.{Op, convert_op, copy_op, convert_number, copy_number}
use libjit.Value.{
  Value, constant, temporary, type_of, promote_int, get_constant, create_constant, constant_convert,
}
use libjit.Insn.Tables.{ConvertInfo, table_of}

-- `struct _jit_insn`
pub record Insn : Type 0 where
  pub opcode : Op
  pub dest : Value
  pub value1 : Value
  pub value2 : Option Value

-- `struct _jit_builder`: the instructions so far, the place of the next value in the frame, and
-- whether the function may throw.
pub record Builder : Type 0 where
  pub insns : List Insn
  pub frame_size : ℕ
  pub may_throw : Bool

-- Adding an instruction whose destination is a new value.
abbrev pub apply : Builder → Op → Value → Option Value → Kind → Builder × Value
apply builder oper value1 value2 type =
    let dest = temporary type builder.frame_size in
    (
      record builder {
        insns =
            builder.insns
            ++ (record { opcode = oper; dest = dest; value1 = value1; value2 = value2 } ∷ []);
        frame_size = suc builder.frame_size;
      },
      dest,
    )

unfoldable pub apply_unary : Builder → Op → Value → Kind → Builder × Value
apply_unary builder oper value1 type = apply builder oper value1 none type

unfoldable pub apply_binary : Builder → Op → Value → Value → Kind → Builder × Value
apply_binary builder oper value1 value2 type = apply builder oper value1 (some value2) type

-- `convert_intrinsics`: whether the descriptor has a `ptr_result_type`, that is, whether the
-- conversion may throw.
abbrev pub convert_intrinsics : List Bool
convert_intrinsics =
    false ∷ false ∷ false ∷ false ∷ false ∷ false ∷ true ∷ true ∷ true ∷ true ∷ true ∷ true ∷ false
    ∷ false ∷ false ∷ true ∷ true ∷ true ∷ true ∷ false ∷ false ∷ false ∷ false ∷ true ∷ true ∷ true
    ∷ true ∷ false ∷ false ∷ false ∷ false ∷ false ∷ false ∷ false ∷ false ∷ []

abbrev pub oper_number : Op → ℕ
oper_number (convert_op op) = convert_number op
oper_number (copy_op op) = copy_number op
oper_number oper = 0

-- `beyond` is what a read behind the end of the table gives.
unfoldable pub conversion_throws : (beyond : ℕ → Bool) → Op → Bool
conversion_throws beyond oper = elim (get_elem? convert_intrinsics (oper_number oper - 1)) [
  | none ↦ beyond (oper_number oper - 1)
  | some throws ↦ throws
]

unfoldable pub apply_unary_conversion : (ℕ → Bool) → Builder → Op → Value → Kind → Builder × Value
apply_unary_conversion beyond builder oper value1 type =
    apply_unary (record builder { may_throw = builder.may_throw || conversion_throws beyond oper })
      oper value1 type

-- The opcodes of a conversion, one after the other.
unfoldable pub apply_conversions : (ℕ → Bool) → Builder → ConvertInfo → Value → Builder × Value
apply_conversions beyond builder [] value = (builder, value)
apply_conversions beyond builder ((oper, type) ∷ rest) value =
    let (builder', value') = apply_unary_conversion beyond builder oper value type in
    apply_conversions beyond builder' rest value'

-- The steps from the start of a table to the rows of a type.
abbrev pub row_of : Kind → ℕ
row_of uint = 2
row_of long = 4
row_of ulong = 6
row_of kind = 0

abbrev pub convert_info : Kind → Kind → Bool → ConvertInfo
convert_info type vtype overflow_check =
    get_or (table_of type) (row_of (promote_int vtype) + (if overflow_check then 1 else 0)) []

-- The constant that a constant is converted to, if it can be converted now; `un` is what the memory of
-- `const_value` holds before.
abbrev pub convert_constant : ℕ → Value → Kind → Bool → Option Value
convert_constant un (temporary kind offset) type overflow_check = none
convert_constant un (constant kind address) type overflow_check = do
  let const_value = get_constant kind address un
  result ← constant_convert const_value const_value type overflow_check
  some (create_constant result.type result.un)

-- `jit_insn_convert`
unfoldable pub convert : (ℕ → Bool) → ℕ → Builder → Value → Kind → Bool → Builder × Value
convert beyond un builder value type overflow_check =
    if same_kind type (type_of value)
    then (builder, value)
    else elim (convert_constant un value type overflow_check) [
      | some result ↦ (builder, result)
      | none ↦
          apply_conversions beyond builder (convert_info type (type_of value) overflow_check) value
    ]
