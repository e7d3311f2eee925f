-- ===== src/Insn/Convert.antt =====
-- What `jit_insn_convert` builds converts as the types say.
pub mod Chains
pub mod Rows
pub mod Fits
pub mod Constants
pub mod Throws
use mathlib.Core.Bool.{and-eq-true_iff}
use mathlib.Core.Path.{subst}
use libjit.Base.{
  ℕ, suc, ◌+◌, ◌%◌, ◌≤◌, ◌<◌, ◌≡◌, refl, sym, ap, ◌∙◌, arith, Bool, true, false, ◌&&◌, ◌||◌, Option,
  none, some, List, [], ◌∷◌, ◌++◌, ◌==◌, if◌then◌else◌, inl, inr, Bool-cases, Option-cases, get_or,
  ==_iff,
}
use libjit.Base.Int.{ℤ, pos}
use libjit.Base.Maybe.{◌>>=◌}
use libjit.Word.{residue}
use libjit.Item.{Kind, cast, holds, converted, same_kind}
use libjit.Item.Laws.{every_kind, same_kind_lem}
use libjit.Opcode.{Op, convert_op, arith_op, bitwise_op, compare_op, copy_op}
use libjit.Value.{Value, constant, temporary, type_of, promote_int}
use libjit.Insn.{
  Insn, Builder, apply, apply_unary, apply_unary_conversion, apply_conversions, conversion_throws,
  convert_info, convert_constant, convert,
}
use libjit.Insn.Tables.{ConvertInfo}
use libjit.Insn.Convert.Chains.{
  takes, takes-Converts, op_value, chain_value, fits, is_chain, last_kind,
}
use libjit.Insn.Convert.Rows.{convert_info-converted}
use libjit.Insn.Convert.Constants.{convert_constant_lem, convert_constant-IsPlaced}
use libjit.Insn.Convert.Fits.{convert_info-is_chain, convert_info-last_kind}
use libjit.Interp.Answers.{
  Answer, answer, raises, answered, and_then, cast_answer, width, low_bytes, outcome_of,
}
use libjit.Interp.Convert.{run_convert}
use libjit.Interp.Convert.Exact.{op_kind}
use libjit.Interp.Code.{Machine}
use libjit.Interp.Code.Places.{content, IsProper, holds-promote_int, content-holds, content-cast}
use libjit.Interp.Code.Runs.{Keeps, IsPlaced, Builds, Builds-nothing, Builds-more, Builds-same}
use libjit.Interp.Code.Steps.{Computes, Holds, Builds-apply, copy-Computes, convert-Computes}

width-promote_int : (kind : Kind) → width (promote_int kind) ≡ width kind
width-promote_int =
    every_kind (λ k. width (promote_int k) ≡ width k)
      (refl, refl, refl, refl, refl, refl, refl, refl)

op-Computes :
    (oper : Op) (value : Value) (type : Kind) (dest : Value)
    → IsProper value
    → fits oper (type_of value) type ≡ true
    → Computes
        (record { opcode = oper; dest = dest; value1 = value; value2 = none })
        dest
        type
        (λ frame. answered (op_value oper (content frame value)))
op-Computes (copy_op op) value type dest proper fit =
    copy-Computes op value type dest proper (sym ((==_iff _ _).0 fit))
op-Computes (convert_op op) value type dest proper fit =
    let both_fit = (and-eq-true_iff _ _).0 fit in
    convert-Computes op value type dest (λ x. answered (op_value (convert_op op) x)) proper
      (λ r0 r1 x at range.
        subst
          (λ w.
            low_bytes w (run_convert op r0 r1)
            ≡ outcome_of w (answered (op_value (convert_op op) x)))
          ((==_iff _ _).0 both_fit.1)
          (takes-Converts op (promote_int (type_of value)) both_fit.0 r0 r1 x
            (holds-promote_int (type_of value) x range)
            (rw (width-promote_int (type_of value)) at)))
op-Computes (arith_op op) value type dest proper fit = cc
op-Computes (bitwise_op op) value type dest proper fit = cc
op-Computes (compare_op op) value type dest proper fit = cc

step_value :
    (o : Option ℤ) (type : Kind) (rest : ConvertInfo)
    → and_then (cast_answer type (answered o)) (λ y. answered (chain_value rest y))
      ≡ answered (o >>= λ y. chain_value rest (cast type y))
step_value none type rest = refl
step_value (some y) type rest = refl

-- The opcodes of a chain, one after the other.
apply_conversions-Builds :
    (beyond : ℕ → Bool) (builder : Builder) (info : ConvertInfo) (value : Value)
    → is_chain (type_of value) info ≡ true
    → IsPlaced builder.frame_size value
    → IsProper value
    → Builds builder
        (apply_conversions beyond builder info value)
        (last_kind (type_of value) info)
        (λ frame. answered (chain_value info (content frame value)))
unfolding apply_conversions apply_unary_conversion apply_unary IsProper
apply_conversions-Builds beyond builder [] value chain placed proper =
    Builds-nothing builder value placed proper
apply_conversions-Builds beyond builder ((oper, type) ∷ rest) value chain placed proper =
    let parts = (and-eq-true_iff _ _).0 chain in
    let marked : Builder = record builder {
      may_throw = builder.may_throw || conversion_throws beyond oper;
    } in
    let first = apply marked oper value none type in
    let m : (ℕ → ℕ) → Answer =
      λ frame. cast_answer type (answered (op_value oper (content frame value))) in
    let one : Builds builder first type m =
      Builds-same marked builder first type m m refl refl (λ frame. refl)
        (Builds-apply marked oper value none type
          (λ frame. answered (op_value oper (content frame value)))
          (op-Computes oper value type (temporary type builder.frame_size) proper parts.0)) in
    let more = apply_conversions-Builds beyond first.0 rest first.1 parts.1 (omega arith) tt in
    let final = apply_conversions beyond first.0 rest first.1 in
    Builds-same builder builder final (last_kind type rest)
      (λ frame. and_then (m frame) (λ y. answered (chain_value rest y)))
      (λ frame. answered (chain_value ((oper, type) ∷ rest) (content frame value))) refl refl
      (λ frame. step_value (op_value oper (content frame value)) type rest)
      (Builds-more builder first final type (last_kind type rest) m
        (λ frame y. answered (chain_value rest y)) one more (λ frame frame' y keeps. refl))

row-Builds :
    (beyond : ℕ → Bool) (builder : Builder) (value : Value) (type : Kind) (check : Bool)
    → IsPlaced builder.frame_size value
    → IsProper value
    → Builds builder
        (apply_conversions beyond builder (convert_info type (type_of value) check) value)
        type
        (λ frame. answered (converted type check (content frame value)))
row-Builds beyond builder value type check placed proper =
    let info : ConvertInfo = convert_info type (type_of value) check in
    let b =
      apply_conversions-Builds beyond builder info value
        (convert_info-is_chain type (type_of value) check) placed proper in
    Builds-same builder builder (apply_conversions beyond builder info value) type
      (λ frame. answered (chain_value info (content frame value)))
      (λ frame. answered (converted type check (content frame value))) refl refl
      (λ frame. ap answered (
        convert_info-converted type (type_of value) check (content frame value)
          (content-holds frame value)))
      (subst
        (λ k.
          Builds builder (apply_conversions beyond builder info value) k
            (λ frame. answered (chain_value info (content frame value))))
        (convert_info-last_kind type (type_of value) check) b)

-- A value of the type is kept.
pub converted-holds :
    (type : Kind) (check : Bool) (x : ℤ)
    → holds type x ≡ true
    → cast type x ≡ x
    → converted type check x ≡ some x
converted-holds type check x h kept = rw (h, kept) (ground arith)

same-Builds :
    (builder : Builder) (value : Value) (type : Kind) (check : Bool)
    → IsPlaced builder.frame_size value
    → IsProper value
    → type_of value ≡ type
    → Builds builder
        (builder, value)
        type
        (λ frame. answered (converted type check (content frame value)))
same-Builds builder value type check placed proper same =
    subst
      (λ k.
        Builds builder (builder, value) k
          (λ frame. answered (converted k check (content frame value))))
      same
      (Builds-same builder builder (builder, value) (type_of value)
        (λ frame. answer (content frame value))
        (λ frame. answered (converted (type_of value) check (content frame value))) refl refl
        (λ frame. ap answered (
          sym (
            converted-holds (type_of value) check (content frame value) (content-holds frame value)
              (content-cast frame value))))
        (Builds-nothing builder value placed proper))

constant-Builds :
    (builder : Builder) (value result : Value) (type : Kind) (check : Bool)
    → IsProper result
    → type_of result ≡ type
    → ((frame : ℕ → ℕ) → converted type check (content frame value) ≡ some (content frame result))
    → IsPlaced builder.frame_size result
    → Builds builder
        (builder, result)
        type
        (λ frame. answered (converted type check (content frame value)))
constant-Builds builder value result type check proper typed exact placed =
    subst
      (λ k.
        Builds builder (builder, result) k
          (λ frame. answered (converted type check (content frame value))))
      typed
      (Builds-same builder builder (builder, result) (type_of result)
        (λ frame. answer (content frame result))
        (λ frame. answered (converted type check (content frame value))) refl refl
        (λ frame. ap answered (sym (exact frame))) (Builds-nothing builder result placed proper))

-- `jit_insn_convert` builds a conversion: the instructions that it adds, run by the interpreter, leave
-- in the new value what the old value holds, as a value of the type; or, if overflow is to be checked and
-- the type does not have the value, they report overflow. That holds for any two integer types, and also
-- where the source is a constant, which is converted at once if that can be done.
pub convert-Builds :
    (beyond : ℕ → Bool) (un : ℕ) (builder : Builder) (value : Value) (type : Kind) (check : Bool)
    → IsPlaced builder.frame_size value
    → IsProper value
    → Builds builder
        (convert beyond un builder value type check)
        type
        (λ frame. answered (converted type check (content frame value)))
unfolding convert
convert-Builds beyond un builder value type check placed proper =
    elim (Bool-cases (same_kind type (type_of value))) [
      | inl same ↦
          rw same
            (same-Builds builder value type check placed proper (sym (same_kind_lem _ _ same)))
      | inr other ↦ elim (Option-cases (convert_constant un value type check)) [
        | inl e ↦ rw (other, e) (row-Builds beyond builder value type check placed proper)
        | inr (result, e) ↦
            let (exact, result_proper, result_type) =
              convert_constant_lem un value type check result proper e in
            rw (other, e)
              (constant-Builds builder value result type check result_proper result_type exact
                (convert_constant-IsPlaced un value type check result e builder.frame_size))
      ]
    ]
