-- ===== src/Insn/Arith/Builds.antt =====
-- A binary operation computes what its opcode computes from the converted operands.
use mathlib.Core.Path.{subst}
use libjit.Base.{ℕ, ◌≡◌, refl, sym, ap, Bool, true, some}
use libjit.Base.Int.{ℤ}
use libjit.Insn.Descr.{OpcodeDescr}
use libjit.Item.{Kind, int, uint, long, ulong, holds, converted}
use libjit.Opcode.{Op, convert_op, arith_op, bitwise_op, compare_op, copy_op}
use libjit.Value.{Value, temporary, type_of}
use libjit.Insn.{Builder, apply, convert}
use libjit.Insn.Convert.{convert-Builds}
use libjit.Interp.{Outcome}
use libjit.Interp.Answers.{
  Answer, answer, answered, and_then, cast_answer, width, low_bytes, outcome_of,
}
use libjit.Interp.Code.{Machine, run_insn, run_op, load_value}
use libjit.Interp.Code.Places.{content, IsProper, content-holds, load_value_lem}
use libjit.Interp.Code.Runs.{IsPlaced, IsPlaced-le, content-Keeps, Builds, Builds-more}
use libjit.Interp.Code.Steps.{Computes, Holds, Builds-apply}

-- An opcode, other than a copy, that takes values of two types and gives one of a third.
abbrev pub Operates : Op → Kind → Kind → Kind → (ℤ → ℤ → Answer) → Type 0
Operates oper kind1 kind2 type f =
    (r0 r1 r2 : ℕ) (x y : ℤ)
    → Holds kind1 r1 x
    → Holds kind2 r2 y
    → holds kind1 x ≡ true
    → holds kind2 y ≡ true
    → low_bytes (width type) (run_op oper r0 r1 r2) ≡ outcome_of (width type) (f x y)

-- The opcodes of a descriptor compute a function at every promoted type.
abbrev pub OperatesAll : OpcodeDescr → (Kind → ℤ → ℤ → Answer) → Type 0
OperatesAll descr f =
    Operates descr.ioper int int int (f int)
    × Operates descr.iuoper uint uint uint (f uint)
    × Operates descr.loper long long long (f long)
    × Operates descr.luoper ulong ulong ulong (f ulong)

-- The same for opcodes whose result is a `jit_int`.
abbrev pub ComparesAll : OpcodeDescr → (ℤ → ℤ → ℤ) → Type 0
ComparesAll descr f =
    Operates descr.ioper int int int (λ x y. answer (f x y))
    × Operates descr.iuoper uint uint int (λ x y. answer (f x y))
    × Operates descr.loper long long int (λ x y. answer (f x y))
    × Operates descr.luoper ulong ulong int (λ x y. answer (f x y))

abbrev pub NoCopy : Op → Type 0
NoCopy (copy_op op) = ⊥
NoCopy oper = Unit

module _ (value1 value2 : Value) (type : Kind) (dest : Value) (f : ℤ → ℤ → Answer) where
  abbrev loaded : Machine → Machine
  loaded machine = record machine {
    r1 = load_value machine.frame machine.r1 value1;
    r2 = load_value machine.frame machine.r2 value2;
  }

  abbrev outcome : Op → Machine → Outcome
  outcome oper machine = run_op oper machine.r0 (loaded machine).r1 (loaded machine).r2

  outcome-low_bytes :
      (oper : Op) (machine : Machine)
      → IsProper value1
      → IsProper value2
      → Operates oper (type_of value1) (type_of value2) type f
      → low_bytes (width type) (outcome oper machine)
        ≡ outcome_of (width type) (f (content machine.frame value1) (content machine.frame value2))
  outcome-low_bytes oper machine proper1 proper2 operates =
      operates machine.r0 (loaded machine).r1 (loaded machine).r2 (content machine.frame value1)
        (content machine.frame value2) (load_value_lem machine.frame machine.r1 value1 proper1)
        (load_value_lem machine.frame machine.r2 value2 proper2)
        (content-holds machine.frame value1) (content-holds machine.frame value2)

  binary-Computes :
      (oper : Op)
      → NoCopy oper
      → IsProper value1
      → IsProper value2
      → Operates oper (type_of value1) (type_of value2) type f
      → Computes
          (record { opcode = oper; dest = dest; value1 = value1; value2 = some value2 })
          dest
          type
          (λ frame. f (content frame value1) (content frame value2))
  unfolding run_insn
  binary-Computes (copy_op op) plain proper1 proper2 operates machine = absurd plain
  binary-Computes (convert_op op) plain proper1 proper2 operates machine = (
    loaded machine,
    outcome (convert_op op) machine,
    refl,
    refl,
    outcome-low_bytes (convert_op op) machine proper1 proper2 operates,
  )
  binary-Computes (arith_op op) plain proper1 proper2 operates machine = (
    loaded machine,
    outcome (arith_op op) machine,
    refl,
    refl,
    outcome-low_bytes (arith_op op) machine proper1 proper2 operates,
  )
  binary-Computes (bitwise_op op) plain proper1 proper2 operates machine = (
    loaded machine,
    outcome (bitwise_op op) machine,
    refl,
    refl,
    outcome-low_bytes (bitwise_op op) machine proper1 proper2 operates,
  )
  binary-Computes (compare_op op) plain proper1 proper2 operates machine = (
    loaded machine,
    outcome (compare_op op) machine,
    refl,
    refl,
    outcome-low_bytes (compare_op op) machine proper1 proper2 operates,
  )

-- What an operation on two operands that are converted first comes to.
abbrev pub meaning_of : Kind → Kind → Kind → Bool → (ℤ → ℤ → Answer) → ℤ → ℤ → Answer
meaning_of kind1 kind2 type check f x y =
    and_then (answered (converted kind1 check x))
      λ x'. and_then (answered (converted kind2 check y)) λ y'. cast_answer type (f x' y')

-- Converting two operands, then the instruction.
pub converted-Builds :
    (beyond : ℕ → Bool) (un : ℕ) (builder : Builder) (value1 value2 : Value)
    (kind1 kind2 type : Kind) (check : Bool) (oper : Op) (f : ℤ → ℤ → Answer)
    → IsPlaced builder.frame_size value1
    → IsPlaced builder.frame_size value2
    → IsProper value1
    → IsProper value2
    → NoCopy oper
    → Operates oper kind1 kind2 type f
    → (let first = convert beyond un builder value1 kind1 check in
        let second = convert beyond un first.0 value2 kind2 check in
        Builds builder (apply second.0 oper first.1 (some second.1) type) type (λ frame.
          meaning_of kind1 kind2 type check f (content frame value1) (content frame value2)))
converted-Builds beyond un builder value1 value2 kind1 kind2 type check oper f placed1 placed2
      proper1 proper2 plain operates =
    let first = convert beyond un builder value1 kind1 check in
    let second = convert beyond un first.0 value2 kind2 check in
    let last = apply second.0 oper first.1 (some second.1) type in
    let one = convert-Builds beyond un builder value1 kind1 check placed1 proper1 in
    let two =
      convert-Builds beyond un first.0 value2 kind2 check
        (IsPlaced-le builder.frame_size first.0.frame_size value2 one.grows placed2) proper2 in
    let both_typed : Operates oper (type_of first.1) (type_of second.1) type f =
      subst (λ k. Operates oper k (type_of second.1) type f) (sym one.typed)
        (subst (λ k. Operates oper kind1 k type f) (sym two.typed) operates) in
    let three : Builds second.0 last type
        (λ frame. cast_answer type (f (content frame first.1) (content frame second.1))) =
      Builds-apply second.0 oper first.1 (some second.1) type
        (λ frame. f (content frame first.1) (content frame second.1))
        (binary-Computes first.1 second.1 type (temporary type second.0.frame_size) f oper plain
          one.proper two.proper both_typed) in
    let from_second : Builds first.0 last type (λ frame.
      and_then (answered (converted kind2 check (content frame value2)))
        λ y. cast_answer type (f (content frame first.1) y)) =
      Builds-more first.0 second last kind2 type
        (λ frame. answered (converted kind2 check (content frame value2)))
        (λ frame y. cast_answer type (f (content frame first.1) y)) two three
        (λ frame frame' y keeps.
          ap (λ x. cast_answer type (f x y))
            (content-Keeps first.0.frame_size frame frame' first.1 keeps one.placed)) in
    Builds-more builder first last kind1 type
      (λ frame. answered (converted kind1 check (content frame value1)))
      (λ frame x.
        and_then (answered (converted kind2 check (content frame value2)))
          λ y. cast_answer type (f x y))
      one from_second
      (λ frame frame' x keeps.
        ap (λ z. and_then (answered (converted kind2 check z)) λ y. cast_answer type (f x y))
          (content-Keeps builder.frame_size frame frame' value2 keeps placed2))
