-- ===== src/Live.antt =====
-- jit/jit-live.c, the liveness of values in a block: `compute_liveness_for_block`. Values are known by
-- numbers, and a null pointer is `none`.
pub mod Needed
pub mod Elimination
use libjit.Base.{
  ℕ, zero, suc, Bool, true, false, not, ◌&&◌, ◌||◌, Option, none, some, List, [], ◌∷◌, ◌==◌,
  if◌then◌else◌,
}

-- The bits of `struct _jit_value` that are read and written here.
pub record Value : Type 0 where
  pub is_constant : Bool
  pub live : Bool
  pub next_use : Bool

abbrev pub Values : Type 0
Values = ℕ → Value

-- `JIT_INSN_LIVENESS_FLAGS`
pub record Marks : Type 0 where
  pub dest_live : Bool
  pub dest_next_use : Bool
  pub value1_live : Bool
  pub value1_next_use : Bool
  pub value2_live : Bool
  pub value2_next_use : Bool

-- `struct _jit_insn`. The other bits of `flags` are Booleans: `dest_other` is set if any of
-- `JIT_INSN_DEST_OTHER_FLAGS` is, and so on.
pub record Insn : Type 0 where
  pub opcode : ℕ
  pub dest_other : Bool
  pub value1_other : Bool
  pub value2_other : Bool
  pub dest_is_value : Bool
  pub marks : Marks
  pub dest : Option ℕ
  pub value1 : Option ℕ
  pub value2 : Option ℕ

-- `JIT_OP_NOP`
abbrev pub op_nop : ℕ
op_nop = 0

-- An operand that is a value, and no constant.
abbrev pub operand : Values → Bool → Option ℕ → Option ℕ
operand values other none = none
operand values other (some x) =
    if other then none else if (values x).is_constant then none else some x

abbrev pub is_live : Values → Option ℕ → Bool
is_live values none = false
is_live values (some x) = (values x).live

abbrev pub has_next_use : Values → Option ℕ → Bool
has_next_use values none = false
has_next_use values (some x) = (values x).next_use

-- Both bits of a value, if there is one.
abbrev pub put_bits : Values → Option ℕ → Bool → Values
put_bits values none bit = values
put_bits values (some x) bit = λ y.
    if y == x
    then record { is_constant = (values x).is_constant; live = bit; next_use = bit }
    else values y

-- The bits of the destination: `none` if the instruction is discarded.
abbrev pub put_dest : Values → Bool → Option ℕ → Option Values
put_dest values is_value none = some values
put_dest values is_value (some x) =
    if is_value
    then some (put_bits values (some x) true)
    else if not (values x).next_use && not (values x).live
    then none
    else some (put_bits values (some x) false)

-- The body of the loop.
unfoldable pub visit : Values → Insn → Values × Insn
visit values insn =
    let dest = operand values insn.dest_other insn.dest in
    let value1 = operand values insn.value1_other insn.value1 in
    let value2 = operand values insn.value2_other insn.value2 in
    let marked = record insn {
      marks = record {
        dest_live = is_live values dest;
        dest_next_use = has_next_use values dest;
        value1_live = is_live values value1;
        value1_next_use = has_next_use values value1;
        value2_live = is_live values value2;
        value2_next_use = has_next_use values value2;
      };
    } in
    if insn.opcode == op_nop
    then (values, insn)
    else elim (put_dest values insn.dest_is_value dest) [
      | none ↦ (values, record marked { opcode = op_nop })
      | some values' ↦ (put_bits (put_bits values' value1 true) value2 true, marked)
    ]

-- `compute_liveness_for_block`: the instructions are visited from the last one on.
unfoldable pub compute_liveness : Values → List Insn → Values × List Insn
compute_liveness values [] = (values, [])
compute_liveness values (insn ∷ insns) =
    let (values', rest) = compute_liveness values insns in
    let (values'', insn') = visit values' insn in (values'', insn' ∷ rest)
