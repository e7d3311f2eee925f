-- ===== src/Insn/Convert/Chains.antt =====
-- The chains of opcodes in the conversion tables: which type each opcode takes, and what a chain gives.
use libjit.Base.{ℕ, ◌%◌, ◌≡◌, Bool, true, false, ◌&&◌, Option, some, [], ◌∷◌, ◌==◌}
use libjit.Base.Int.{ℤ}
use libjit.Base.Maybe.{◌>>=◌}
use libjit.Word.{residue}
use libjit.Item.{Kind, int, uint, long, ulong, cast, holds, converted}
use libjit.Opcode.{
  ConvertOp, Op, convert_op, copy_op, trunc_sbyte, trunc_ubyte, trunc_short, trunc_ushort,
  trunc_int, trunc_uint, check_sbyte, check_ubyte, check_short, check_ushort, check_int, check_uint,
  low_word, expand_int, expand_uint, check_low_word, check_signed_low_word, check_long, check_ulong,
}
use libjit.Value.{promote_int}
use libjit.Insn.Tables.{ConvertInfo}
use libjit.Interp.Answers.{width}
use libjit.Interp.Convert.Exact.{
  Converts, op_kind, op_checks, Converts-int, Converts-uint, Converts-long, Converts-ulong,
}

-- Does the opcode convert values of the promoted type?
abbrev pub takes : ConvertOp → Kind → Bool
takes trunc_sbyte int = true
takes trunc_sbyte uint = true
takes trunc_ubyte int = true
takes trunc_ubyte uint = true
takes trunc_short int = true
takes trunc_short uint = true
takes trunc_ushort int = true
takes trunc_ushort uint = true
takes trunc_int int = true
takes trunc_int uint = true
takes trunc_uint int = true
takes trunc_uint uint = true
takes check_sbyte int = true
takes check_ubyte int = true
takes check_ubyte uint = true
takes check_short int = true
takes check_ushort int = true
takes check_ushort uint = true
takes check_int uint = true
takes check_uint int = true
takes low_word long = true
takes low_word ulong = true
takes expand_int int = true
takes expand_uint uint = true
takes check_low_word long = true
takes check_low_word ulong = true
takes check_signed_low_word long = true
takes check_long ulong = true
takes check_ulong long = true
takes op kind = false

pub takes-Converts :
    (op : ConvertOp) (kind : Kind)
    → takes op kind ≡ true
    → (r0 r1 : ℕ) (x : ℤ) → holds kind x ≡ true
    → r1 % width kind ≡ residue (width kind) x
    → Converts op r0 r1 x
takes-Converts trunc_sbyte int h r0 r1 x range at = (Converts-int r0 r1 x range at).0
takes-Converts trunc_sbyte uint h r0 r1 x range at = (Converts-uint r0 r1 x range at).0
takes-Converts trunc_ubyte int h r0 r1 x range at = (Converts-int r0 r1 x range at).1
takes-Converts trunc_ubyte uint h r0 r1 x range at = (Converts-uint r0 r1 x range at).1
takes-Converts trunc_short int h r0 r1 x range at = (Converts-int r0 r1 x range at).2
takes-Converts trunc_short uint h r0 r1 x range at = (Converts-uint r0 r1 x range at).2
takes-Converts trunc_ushort int h r0 r1 x range at = (Converts-int r0 r1 x range at).3
takes-Converts trunc_ushort uint h r0 r1 x range at = (Converts-uint r0 r1 x range at).3
takes-Converts trunc_int int h r0 r1 x range at = (Converts-int r0 r1 x range at).4
takes-Converts trunc_int uint h r0 r1 x range at = (Converts-uint r0 r1 x range at).4
takes-Converts trunc_uint int h r0 r1 x range at = (Converts-int r0 r1 x range at).5
takes-Converts trunc_uint uint h r0 r1 x range at = (Converts-uint r0 r1 x range at).5
takes-Converts check_sbyte int h r0 r1 x range at = (Converts-int r0 r1 x range at).6
takes-Converts check_ubyte int h r0 r1 x range at = (Converts-int r0 r1 x range at).7
takes-Converts check_ubyte uint h r0 r1 x range at = (Converts-uint r0 r1 x range at).6
takes-Converts check_short int h r0 r1 x range at = (Converts-int r0 r1 x range at).8
takes-Converts check_ushort int h r0 r1 x range at = (Converts-int r0 r1 x range at).9
takes-Converts check_ushort uint h r0 r1 x range at = (Converts-uint r0 r1 x range at).7
takes-Converts check_int uint h r0 r1 x range at = (Converts-uint r0 r1 x range at).8
takes-Converts check_uint int h r0 r1 x range at = (Converts-int r0 r1 x range at).10
takes-Converts low_word long h r0 r1 x range at = (Converts-long r0 r1 x range at).0
takes-Converts low_word ulong h r0 r1 x range at = (Converts-ulong r0 r1 x range at).0
takes-Converts expand_int int h r0 r1 x range at = (Converts-int r0 r1 x range at).11
takes-Converts expand_uint uint h r0 r1 x range at = (Converts-uint r0 r1 x range at).9
takes-Converts check_low_word long h r0 r1 x range at = (Converts-long r0 r1 x range at).1
takes-Converts check_low_word ulong h r0 r1 x range at = (Converts-ulong r0 r1 x range at).1
takes-Converts check_signed_low_word long h r0 r1 x range at = (Converts-long r0 r1 x range at).2
takes-Converts check_long ulong h r0 r1 x range at = (Converts-ulong r0 r1 x range at).2
takes-Converts check_ulong long h r0 r1 x range at = (Converts-long r0 r1 x range at).3
takes-Converts op kind h r0 r1 x range at = cc

-- What an opcode gives for a value.
abbrev pub op_value : Op → ℤ → Option ℤ
op_value (convert_op op) x = converted (op_kind op) (op_checks op) x
op_value oper x = some x

abbrev pub chain_value : ConvertInfo → ℤ → Option ℤ
chain_value [] x = some x
chain_value ((oper, kind) ∷ rest) x = op_value oper x >>= λ y. chain_value rest (cast kind y)

-- Each opcode takes what the one before it gives.
abbrev pub fits : Op → Kind → Kind → Bool
fits (convert_op op) kind type = takes op (promote_int kind) && width (op_kind op) == width type
fits (copy_op op) kind type = width kind == width type
fits oper kind type = false

abbrev pub is_chain : Kind → ConvertInfo → Bool
is_chain kind [] = true
is_chain kind ((oper, type) ∷ rest) = fits oper kind type && is_chain type rest

abbrev pub last_kind : Kind → ConvertInfo → Kind
last_kind kind [] = kind
last_kind kind ((oper, type) ∷ rest) = last_kind type rest
