-- ===== src/Interp/Code/Steps.antt =====
-- One instruction computes a value.
use mathlib.Core.Path.{subst}
use libjit.Base.{
  ℕ, ◌%◌, ◌≤◌, ◌≡◌, refl, sym, ap, ◌∙◌, arith, true, false, Option, none, [], ◌∷◌, ◌==◌,
}
use libjit.Base.Int.{ℤ, pos}
use libjit.Word.{residue}
use libjit.Item.{Kind, holds}
use libjit.Opcode.{ConvertOp, CopyOp, Op, convert_op, copy_op}
use libjit.Value.{Value, temporary, type_of}
use libjit.Insn.{Insn, Builder, apply}
use libjit.Interp.{Outcome, next, builtin}
use libjit.Interp.Answers.{Answer, answer, raises, cast_answer, width, low_bytes, outcome_of}
use libjit.Interp.Code.{
  Machine, Result, ran, thrown, finish, store_value, run, run_insn, load_value, onward,
}
use libjit.Interp.Code.Places.{content, IsProper, store_local_lem}
use libjit.Interp.Code.Places.{load_value_lem, content-holds}
use libjit.Interp.Convert.{run_convert}
use libjit.Interp.Code.Runs.{Ends, Builds}

next-injective : {r s : ℕ} → next r ≡ next s → r ≡ s
next-injective e = ap (λ o. elim o [ next r ↦ r | builtin x ↦ 0 ]) e

builtin-injective : {e e' : ℤ} → builtin e ≡ builtin e' → e ≡ e'
builtin-injective same = ap (λ o. elim o [ next r ↦ pos 0 | builtin x ↦ x ]) same

next≢builtin : {r : ℕ} {e : ℤ} → next r ≡ builtin e → ⊥
next≢builtin e = cc

-- The result is stored, or the exception is thrown.
finish-Ends :
    (size : ℕ) (machine : Machine) (kind : Kind) (offset : ℕ) (out : Outcome) (a : Answer)
    → size ≤ offset
    → low_bytes (width kind) out ≡ outcome_of (width kind) a
    → Ends size machine.frame
        (finish machine (temporary kind offset) out)
        (temporary kind offset)
        (cast_answer kind a)
unfolding content
finish-Ends size machine kind offset (builtin e) (raises e') le same =
    ap thrown (builtin-injective same)
finish-Ends size machine kind offset (builtin e) (answer y) le same =
    absurd (next≢builtin (sym same))
finish-Ends size machine kind offset (next r0) (raises e) le same = absurd (next≢builtin same)
finish-Ends size machine kind offset (next r0) (answer y) le same = (
  record machine { r0 = r0; frame = store_value machine.frame r0 (temporary kind offset) },
  refl,
  (let itself : (offset == offset) ≡ true = ground arith in
      rw itself (store_local_lem (machine.frame offset) kind r0 y (next-injective same))),
  λ n lt. (let other : (n == offset) ≡ false = ground arith in rw other refl),
)

onward-ran : (r : Result) → onward r ran ≡ r
onward-ran (thrown e) = refl
onward-ran (ran machine) = refl

-- What the code of an instruction does with a frame: an outcome that has the meaning.
abbrev pub Computes : Insn → Value → Kind → ((ℕ → ℕ) → Answer) → Type 0
Computes insn dest type meaning =
    (machine : Machine)
    → (loaded : Machine) × (out : Outcome) × (run_insn machine insn ≡ finish loaded dest out)
      × (loaded.frame ≡ machine.frame)
      × (low_bytes (width type) out ≡ outcome_of (width type) (meaning machine.frame))

pub Builds-apply :
    (builder : Builder) (oper : Op) (value1 : Value) (value2 : Option Value) (type : Kind)
    (meaning : (ℕ → ℕ) → Answer)
    → Computes
        (record {
          opcode = oper;
          dest = temporary type builder.frame_size;
          value1 = value1;
          value2 = value2;
        })
        (temporary type builder.frame_size)
        type
        meaning
    → Builds builder
        (apply builder oper value1 value2 type)
        type
        (λ frame. cast_answer type (meaning frame))
unfolding run IsProper
Builds-apply builder oper value1 value2 type meaning computes =
    let dest : Value = temporary type builder.frame_size in
    let insn : Insn = record { opcode = oper; dest = dest; value1 = value1; value2 = value2 } in
    record {
      added = insn ∷ [];
      appended = refl;
      grows = omega arith;
      placed = omega arith;
      proper = tt;
      typed = refl;
      runs = λ machine.
          let (loaded, out, code, same_frame, low) = computes machine in
          let ends =
            finish-Ends builder.frame_size loaded type builder.frame_size out
              (meaning machine.frame) (omega arith) low in
          subst
            (λ r.
              Ends builder.frame_size machine.frame r dest
                (cast_answer type (meaning machine.frame)))
            (sym (onward-ran (run_insn machine insn) ∙ code))
            (subst
              (λ f.
                Ends builder.frame_size f (finish loaded dest out) dest
                  (cast_answer type (meaning machine.frame)))
              same_frame ends);
    }

-- A register holds a value of the type.
abbrev pub Holds : Kind → ℕ → ℤ → Type 0
Holds kind register x = register % width kind ≡ residue (width kind) x

pub copy-Computes :
    (op : CopyOp) (value : Value) (type : Kind) (dest : Value)
    → IsProper value
    → width type ≡ width (type_of value)
    → Computes
        (record { opcode = copy_op op; dest = dest; value1 = value; value2 = none })
        dest
        type
        (λ frame. answer (content frame value))
unfolding run_insn
copy-Computes op value type dest proper same machine = (
  record machine { r0 = load_value machine.frame machine.r0 value },
  next (load_value machine.frame machine.r0 value),
  refl,
  refl,
  rw same (ap next (load_value_lem machine.frame machine.r0 value proper)),
)

pub convert-Computes :
    (op : ConvertOp) (value : Value) (type : Kind) (dest : Value) (f : ℤ → Answer)
    → IsProper value
    → ((r0 r1 : ℕ) (x : ℤ)
        → Holds (type_of value) r1 x
        → holds (type_of value) x ≡ true
        → low_bytes (width type) (run_convert op r0 r1) ≡ outcome_of (width type) (f x))
    → Computes
        (record { opcode = convert_op op; dest = dest; value1 = value; value2 = none })
        dest
        type
        (λ frame. f (content frame value))
unfolding run_insn
convert-Computes op value type dest f proper each machine =
    let r1 : ℕ = load_value machine.frame machine.r1 value in
    (
      record machine { r1 = r1 },
      run_convert op machine.r0 r1,
      refl,
      refl,
      each machine.r0 r1 (content machine.frame value)
          (load_value_lem machine.frame machine.r1 value proper)
          (content-holds machine.frame value),
    )
