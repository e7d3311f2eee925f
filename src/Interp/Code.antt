-- ===== src/Interp/Code.antt =====
-- jit/jit-rules-interp.c, the code that `_jit_gen_insn` generates for an instruction that computes a value,
-- together with what the interpreter does when it runs that code. An instruction becomes a load of
-- each operand, its own opcode, and a store. The code is run straight after it is chosen: addresses
-- of code are left out.
pub mod Places
pub mod Runs
pub mod Steps
use libjit.Base.{ℕ, ◌==◌, Option, none, some, List, [], ◌∷◌, if◌then◌else◌}
use libjit.Base.Int.{ℤ, pos}
use libjit.Word.{residue, wrap, byte_half, short_half, int_half, byte_modulus, short_modulus}
use libjit.Item.{
  Kind, sbyte, ubyte, short, ushort, int, uint, long, ulong, int_value, long_value, put_byte,
  put_short, put_int, put_long,
}
use libjit.Opcode.{Op, convert_op, arith_op, bitwise_op, compare_op, copy_op}
use libjit.Value.{Value, constant, temporary}
use libjit.Insn.{Insn}
use libjit.Interp.{Outcome, next, builtin}
use libjit.Interp.Convert.{run_convert}
use libjit.Interp.Arith.{run_arith}
use libjit.Interp.Bitwise.{run_bitwise}
use libjit.Interp.Compare.{run_compare}

-- The local variables of `_jit_run_function`: the registers, and the frame, which has an item for
-- each offset.
pub record Machine : Type 0 where
  pub r0 : ℕ
  pub r1 : ℕ
  pub r2 : ℕ
  pub frame : ℕ → ℕ

-- The opcodes that load a constant into a register.
unfoldable pub load_constant : ℕ → Kind → ℤ → ℕ
load_constant register long address = put_long register address
load_constant register ulong address = put_long register address
load_constant register kind address = put_int register (wrap int_half address)

-- The opcodes that load a local variable into a register, by the variable's type.
unfoldable pub load_local : ℕ → Kind → ℕ → ℕ
load_local register sbyte item = put_int register (wrap byte_half (pos item))
load_local register ubyte item = put_int register (pos (residue byte_modulus (pos item)))
load_local register short item = put_int register (wrap short_half (pos item))
load_local register ushort item = put_int register (pos (residue short_modulus (pos item)))
load_local register int item = put_int register (int_value item)
load_local register uint item = put_int register (int_value item)
load_local register long item = put_long register (long_value item)
load_local register ulong item = put_long register (long_value item)

-- The opcodes that store register 0 into a local variable: the variable's item afterwards.
unfoldable pub store_local : ℕ → Kind → ℕ → ℕ
store_local item sbyte r0 = put_byte item (int_value r0)
store_local item ubyte r0 = put_byte item (int_value r0)
store_local item short r0 = put_short item (int_value r0)
store_local item ushort r0 = put_short item (int_value r0)
store_local item int r0 = put_int item (int_value r0)
store_local item uint r0 = put_int item (int_value r0)
store_local item long r0 = put_long item (long_value r0)
store_local item ulong r0 = put_long item (long_value r0)

abbrev pub load_value : (ℕ → ℕ) → ℕ → Value → ℕ
load_value frame register (constant kind address) = load_constant register kind address
load_value frame register (temporary kind offset) = load_local register kind (frame offset)

-- A destination is never a constant.
abbrev pub store_value : (ℕ → ℕ) → ℕ → Value → ℕ → ℕ
store_value frame r0 (constant kind address) = frame
store_value frame r0 (temporary kind offset) =
    λ n. if n == offset then store_local (frame n) kind r0 else frame n

-- The opcode of an instruction, with the registers.
abbrev pub run_op : Op → ℕ → ℕ → ℕ → Outcome
run_op (convert_op op) r0 r1 r2 = run_convert op r0 r1
run_op (arith_op op) r0 r1 r2 = run_arith op r0 r1 r2
run_op (bitwise_op op) r0 r1 r2 = run_bitwise op r0 r1 r2
run_op (compare_op op) r0 r1 r2 = run_compare op r0 r1 r2
run_op (copy_op op) r0 r1 r2 = next r0

-- What running code comes to: a state, or an exception.
pub data Result : Type 0 where
  ran : Machine → Result
  thrown : ℤ → Result

-- To go on where no exception is thrown.
abbrev pub onward : Result → (Machine → Result) → Result
onward (thrown exception) k = thrown exception
onward (ran machine) k = k machine

abbrev pub finish : Machine → Value → Outcome → Result
finish machine dest (builtin exception) = thrown exception
finish machine dest (next r0) =
    ran (record machine { r0 = r0; frame = store_value machine.frame r0 dest })

abbrev pub load_second : Machine → Option Value → Machine
load_second machine none = machine
load_second machine (some value2) = record machine {
  r2 = load_value machine.frame machine.r2 value2;
}

-- The code of an instruction. A copy goes through register 0.
unfoldable pub run_insn : Machine → Insn → Result
run_insn machine insn =
    let copied = load_value machine.frame machine.r0 insn.value1 in
    let loaded =
      load_second (record machine { r1 = load_value machine.frame machine.r1 insn.value1 })
        insn.value2 in
    elim insn.opcode [
      | copy_op op ↦ finish (record machine { r0 = copied }) insn.dest (next copied)
      | oper ↦ finish loaded insn.dest (run_op oper loaded.r0 loaded.r1 loaded.r2)
    ]

-- The code of instructions in their order.
unfoldable pub run : Machine → List Insn → Result
run machine [] = ran machine
run machine (insn ∷ rest) = onward (run_insn machine insn) (λ machine'. run machine' rest)
