-- ===== src/Tests/Insns.antt =====
-- The theorems on the building of instructions, at concrete values.
use libjit.Base.{ℕ, ◌≡◌, refl, Bool, true, false, ◌||◌, none, [], length, arith, not}
use mathlib.Core.Option.{map as map_option}
use libjit.Base.Int.{pos, ◌+ℤ◌, ◌-ℤ◌, ◌*ℤ◌, ◌<?◌, ◌≤?◌, ◌==ℤ◌, quot, rem}
use libjit.Word.{flag, residue}
use libjit.Intrinsic.Signed
use libjit.Item.{sbyte, ubyte, short, int, uint, long, ulong, cast, holds, converted}
use libjit.Value.{Value, temporary, Constant, constant_convert, promote_int}
use libjit.Value.Exact.{constant_convert_lem}
use libjit.Insn.{Builder, convert, convert_intrinsics}
use libjit.Insn.Convert.{convert-Builds}
use libjit.Insn.Convert.Throws.{convert-may_throw, copies_read_beyond}
use libjit.Insn.Arith.{
  insn_add, insn_add_ovf, insn_sub, insn_sub_ovf, insn_mul, insn_mul_ovf, insn_div, insn_rem,
  insn_eq, insn_ne, insn_lt, insn_le, insn_gt, insn_ge, insn_cmpl, insn_cmpg,
}
use libjit.Insn.Arith.Divisions.{divided}
use libjit.Insn.Arith.Results.{Applies, Compares, sums_lem, divisions_lem, comparisons_lem}
use libjit.Interp.Answers.{answer, answered}
use libjit.Interp.Code.Places.{content, IsProper}
use libjit.Interp.Code.Runs.{Builds}

abbrev beyond : ℕ → Bool
beyond = λ n. false

-- A function with two local variables.
abbrev empty_builder : Builder
empty_builder = record { insns = []; frame_size = 2; may_throw = false }

abbrev byte_local : Value
byte_local = temporary ubyte 0

abbrev word_local : Value
word_local = temporary ulong 1

byte_local-IsProper : IsProper byte_local
unfolding IsProper
byte_local-IsProper = tt

word_local-IsProper : IsProper word_local
unfolding IsProper
word_local-IsProper = tt

-- 300 does not fit.
abbrev held : ℕ → ℕ
held = λ n. 300

held_overflows : converted sbyte true (content held word_local) ≡ none
unfolding content cast holds residue
held_overflows = refl

convert-Builds_example :
    Builds empty_builder
      (convert beyond 0 empty_builder word_local sbyte true)
      sbyte
      (λ frame. answered (converted sbyte true (content frame word_local)))
convert-Builds_example =
    convert-Builds beyond 0 empty_builder word_local sbyte true (omega arith) word_local-IsProper

convert-may_throw_example :
    (convert beyond 0 empty_builder word_local sbyte true).0.may_throw ≡ true
convert-may_throw_example =
    convert-may_throw beyond 0 empty_builder word_local sbyte true held word_local-IsProper
      held_overflows

copies_read_beyond_example :
    (length convert_intrinsics ≡ 35)
    × ((convert beyond 0 empty_builder (temporary sbyte 0) int true).0.may_throw
        ≡ (empty_builder.may_throw || beyond 350))
    × ((convert beyond 0 empty_builder (temporary short 0) int true).0.may_throw
        ≡ (empty_builder.may_throw || beyond 350))
    × ((convert beyond 0 empty_builder (temporary ubyte 0) uint true).0.may_throw
        ≡ (empty_builder.may_throw || beyond 350))
    × ((convert beyond 0 empty_builder (temporary ulong 0) long false).0.may_throw
        ≡ (empty_builder.may_throw || beyond 351))
    × ((convert beyond 0 empty_builder (temporary long 0) ulong false).0.may_throw
        ≡ (empty_builder.may_throw || beyond 351))
copies_read_beyond_example = copies_read_beyond beyond 0 empty_builder 0 true

abbrev three_hundred : Constant
three_hundred = record { type = int; un = 300 }

constant_convert_lem_example :
    map_option
      (λ (c : Constant). cast (promote_int c.type) (pos c.un))
      (constant_convert three_hundred three_hundred ubyte false)
    ≡ converted ubyte false (cast int (pos 300))
constant_convert_lem_example = constant_convert_lem three_hundred three_hundred ubyte false

sums_lem_example :
    Applies beyond 0 empty_builder byte_local word_local
      (omega arith)
      (omega arith)
      byte_local-IsProper
      word_local-IsProper
      (insn_add beyond 0 empty_builder byte_local word_local)
      false
      (λ kind x y. answer (x +ℤ y))
    × Applies beyond 0 empty_builder byte_local word_local
        (omega arith)
        (omega arith)
        byte_local-IsProper
        word_local-IsProper
        (insn_sub beyond 0 empty_builder byte_local word_local)
        false
        (λ kind x y. answer (x -ℤ y))
    × Applies beyond 0 empty_builder byte_local word_local
        (omega arith)
        (omega arith)
        byte_local-IsProper
        word_local-IsProper
        (insn_add_ovf beyond 0 empty_builder byte_local word_local)
        true
        (λ kind x y. answered (converted kind true (x +ℤ y)))
    × Applies beyond 0 empty_builder byte_local word_local
        (omega arith)
        (omega arith)
        byte_local-IsProper
        word_local-IsProper
        (insn_sub_ovf beyond 0 empty_builder byte_local word_local)
        true
        (λ kind x y. answered (converted kind true (x -ℤ y)))
    × Applies beyond 0 empty_builder byte_local word_local
        (omega arith)
        (omega arith)
        byte_local-IsProper
        word_local-IsProper
        (insn_mul beyond 0 empty_builder byte_local word_local)
        false
        (λ kind x y. answer (x *ℤ y))
    × Applies beyond 0 empty_builder byte_local word_local
        (omega arith)
        (omega arith)
        byte_local-IsProper
        word_local-IsProper
        (insn_mul_ovf beyond 0 empty_builder byte_local word_local)
        true
        (λ kind x y. answered (converted kind true (x *ℤ y)))
sums_lem_example =
    sums_lem beyond 0 empty_builder byte_local word_local (omega arith) (omega arith)
      byte_local-IsProper word_local-IsProper

divisions_lem_example :
    Applies beyond 0 empty_builder byte_local word_local
      (omega arith)
      (omega arith)
      byte_local-IsProper
      word_local-IsProper
      (insn_div beyond 0 empty_builder byte_local word_local)
      false
      (divided quot)
    × Applies beyond 0 empty_builder byte_local word_local
        (omega arith)
        (omega arith)
        byte_local-IsProper
        word_local-IsProper
        (insn_rem beyond 0 empty_builder byte_local word_local)
        false
        (divided rem)
divisions_lem_example =
    divisions_lem beyond 0 empty_builder byte_local word_local (omega arith) (omega arith)
      byte_local-IsProper word_local-IsProper

comparisons_lem_example :
    Compares beyond 0 empty_builder byte_local word_local
      (omega arith)
      (omega arith)
      byte_local-IsProper
      word_local-IsProper
      (insn_eq beyond 0 empty_builder byte_local word_local)
      (λ x y. flag (x ==ℤ y))
    × Compares beyond 0 empty_builder byte_local word_local
        (omega arith)
        (omega arith)
        byte_local-IsProper
        word_local-IsProper
        (insn_ne beyond 0 empty_builder byte_local word_local)
        (λ x y. flag (not (x ==ℤ y)))
    × Compares beyond 0 empty_builder byte_local word_local
        (omega arith)
        (omega arith)
        byte_local-IsProper
        word_local-IsProper
        (insn_lt beyond 0 empty_builder byte_local word_local)
        (λ x y. flag (x <? y))
    × Compares beyond 0 empty_builder byte_local word_local
        (omega arith)
        (omega arith)
        byte_local-IsProper
        word_local-IsProper
        (insn_le beyond 0 empty_builder byte_local word_local)
        (λ x y. flag (x ≤? y))
    × Compares beyond 0 empty_builder byte_local word_local
        (omega arith)
        (omega arith)
        byte_local-IsProper
        word_local-IsProper
        (insn_gt beyond 0 empty_builder byte_local word_local)
        (λ x y. flag (y <? x))
    × Compares beyond 0 empty_builder byte_local word_local
        (omega arith)
        (omega arith)
        byte_local-IsProper
        word_local-IsProper
        (insn_ge beyond 0 empty_builder byte_local word_local)
        (λ x y. flag (y ≤? x))
    × Compares beyond 0 empty_builder byte_local word_local
        (omega arith)
        (omega arith)
        byte_local-IsProper
        word_local-IsProper
        (insn_cmpl beyond 0 empty_builder byte_local word_local)
        Signed.cmp
    × Compares beyond 0 empty_builder byte_local word_local
        (omega arith)
        (omega arith)
        byte_local-IsProper
        word_local-IsProper
        (insn_cmpg beyond 0 empty_builder byte_local word_local)
        Signed.cmp
comparisons_lem_example =
    comparisons_lem beyond 0 empty_builder byte_local word_local (omega arith) (omega arith)
      byte_local-IsProper word_local-IsProper
