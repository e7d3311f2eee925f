-- ===== src/Insn/Arith/Results.antt =====
-- What the functions that build arithmetic and comparisons build.
use libjit.Base.{ℕ, ◌≡◌, refl, Bool, true, false, ◌||◌, ◌&&◌}
use libjit.Base.Int.{ℤ, ◌+ℤ◌, ◌-ℤ◌, ◌*ℤ◌, ◌<?◌, ◌≤?◌, ◌==ℤ◌, quot, rem}
use libjit.Base.{not}
use libjit.Word.{flag}
use libjit.Intrinsic.Signed
use mathlib.Core.Path.{subst}
use libjit.Item.{same_kind, Kind, ubyte, ushort, int, uint, long, ulong, converted}
use libjit.Item.Laws.{all_conversions, same_kind_lem}
use libjit.Value.{Value, type_of}
use libjit.Insn.{Builder, apply_binary}
use libjit.Insn.Descr.{
  OpcodeDescr, add_descr, add_ovf_descr, sub_descr, sub_ovf_descr, mul_descr, mul_ovf_descr,
  div_descr, rem_descr, eq_descr, ne_descr, lt_descr, le_descr, gt_descr, ge_descr, cmpl_descr,
  cmpg_descr,
}
use libjit.Insn.Arith.{
  common_binary, oper_for, apply_arith, apply_compare, insn_add, insn_add_ovf, insn_sub,
  insn_sub_ovf, insn_mul, insn_mul_ovf, insn_div, insn_rem, insn_eq, insn_ne, insn_lt, insn_le,
  insn_gt, insn_ge, insn_cmpl, insn_cmpg,
}
use libjit.Insn.Arith.Builds.{
  OperatesAll, ComparesAll, Operates, NoCopy, meaning_of, converted-Builds,
}
use libjit.Insn.Arith.Sums.{add-Operates, add_ovf-Operates, sub-Operates, sub_ovf-Operates}
use libjit.Insn.Arith.Products.{mul-Operates, mul_ovf-Operates}
use libjit.Insn.Arith.Comparisons.{
  eq-Operates, ne-Operates, lt-Operates, le-Operates, gt-Operates, ge-Operates, cmp-Operates,
}
use libjit.Insn.Arith.Divisions.{divided, div-Operates, rem-Operates}
use libjit.Interp.Answers.{Answer, answer, answered}
use libjit.Interp.Code.Places.{content, IsProper}
use libjit.Interp.Code.Runs.{IsPlaced, Builds, Builds-same}

-- The types that operands are converted to.
abbrev is_common : Kind → Bool
is_common int = true
is_common uint = true
is_common long = true
is_common ulong = true
is_common kind = false

common_binary-is_common : (type1 type2 : Kind) → is_common (common_binary type1 type2) ≡ true
unfolding common_binary
common_binary-is_common type1 type2 =
    all_conversions (λ a b check. is_common (common_binary a b)) refl type1 type2 true

-- The type that an operation on two integer types should have: of 64 bits if one of the two is, and
-- unsigned only if both are.
abbrev is_wide : Kind → Bool
is_wide long = true
is_wide ulong = true
is_wide kind = false

abbrev is_unsigned : Kind → Bool
is_unsigned ubyte = true
is_unsigned ushort = true
is_unsigned uint = true
is_unsigned ulong = true
is_unsigned kind = false

abbrev kind_of : (wide unsigned : Bool) → Kind
kind_of true true = ulong
kind_of true false = long
kind_of false true = uint
kind_of false false = int

abbrev usual_type : Kind → Kind → Kind
usual_type a b = kind_of (is_wide a || is_wide b) (is_unsigned a && is_unsigned b)

common_binary-usual_type : (type1 type2 : Kind) → common_binary type1 type2 ≡ usual_type type1 type2
unfolding common_binary
common_binary-usual_type type1 type2 =
    same_kind_lem (common_binary type1 type2) (usual_type type1 type2) (
      all_conversions (λ a b check. same_kind (common_binary a b) (usual_type a b)) refl type1 type2
        true)

-- No opcode of the descriptor is a copy.
abbrev Plain : OpcodeDescr → Type 0
Plain descr = NoCopy descr.ioper × NoCopy descr.iuoper × NoCopy descr.loper × NoCopy descr.luoper

oper_for-Plain :
    (descr : OpcodeDescr) (kind : Kind)
    → Plain descr
    → is_common kind ≡ true
    → NoCopy (oper_for descr kind)
oper_for-Plain descr int plain common = plain.0
oper_for-Plain descr uint plain common = plain.1
oper_for-Plain descr long plain common = plain.2
oper_for-Plain descr ulong plain common = plain.3
oper_for-Plain descr kind plain common = cc

oper_for-Operates :
    (descr : OpcodeDescr) (kind : Kind) (f : Kind → ℤ → ℤ → Answer)
    → OperatesAll descr f
    → is_common kind ≡ true
    → Operates (oper_for descr kind) kind kind kind (f kind)
oper_for-Operates descr int f all common = all.0
oper_for-Operates descr uint f all common = all.1
oper_for-Operates descr long f all common = all.2
oper_for-Operates descr ulong f all common = all.3
oper_for-Operates descr kind f all common = cc

oper_for-Compares :
    (descr : OpcodeDescr) (kind : Kind) (f : ℤ → ℤ → ℤ)
    → ComparesAll descr f
    → is_common kind ≡ true
    → Operates (oper_for descr kind) kind kind int (λ x y. answer (f x y))
oper_for-Compares descr int f all common = all.0
oper_for-Compares descr uint f all common = all.1
oper_for-Compares descr long f all common = all.2
oper_for-Compares descr ulong f all common = all.3
oper_for-Compares descr kind f all common = cc

module _ (beyond : ℕ → Bool) (un : ℕ) (builder : Builder) (value1 value2 : Value)
    (placed1 : IsPlaced builder.frame_size value1) (placed2 : IsPlaced builder.frame_size value2)
    (proper1 : IsProper value1) (proper2 : IsProper value2) where
  -- The type that the code converts the operands to, and the type that they should be converted to.
  abbrev common : Kind
  common = common_binary (type_of value1) (type_of value2)

  abbrev usual : Kind
  usual = usual_type (type_of value1) (type_of value2)

  abbrev common_ok : is_common common ≡ true
  common_ok = common_binary-is_common (type_of value1) (type_of value2)

  common-usual : common ≡ usual
  common-usual = common_binary-usual_type (type_of value1) (type_of value2)

  abbrev AppliesAt : Kind → Builder × Value → Bool → (Kind → ℤ → ℤ → Answer) → Type 0
  AppliesAt kind built check f = Builds builder built kind (λ frame.
      meaning_of kind kind kind check (f kind) (content frame value1) (content frame value2))

  abbrev ComparesAt : Kind → Builder × Value → (ℤ → ℤ → ℤ) → Type 0
  ComparesAt kind built f = Builds builder built int (λ frame.
      meaning_of kind kind int false (λ x y. answer (f x y)) (content frame value1)
        (content frame value2))

  -- The operands are converted to that type, and its function is applied.
  abbrev pub Applies : Builder × Value → Bool → (Kind → ℤ → ℤ → Answer) → Type 0
  Applies built check f = AppliesAt usual built check f

  -- The same with a `jit_int` as result.
  abbrev pub Compares : Builder × Value → (ℤ → ℤ → ℤ) → Type 0
  Compares built f = ComparesAt usual built f

  apply_arith-Applies :
      (descr : OpcodeDescr) (check : Bool) (f : Kind → ℤ → ℤ → Answer)
      → Plain descr
      → OperatesAll descr f
      → Applies (apply_arith beyond un builder descr value1 value2 check) check f
  unfolding apply_arith apply_binary
  apply_arith-Applies descr check f plain all =
      let marked : Builder = record builder { may_throw = builder.may_throw || descr.reports } in
      let built : Builder × Value = apply_arith beyond un builder descr value1 value2 check in
      subst (λ k. AppliesAt k built check f) common-usual
        (Builds-same marked builder (apply_arith beyond un builder descr value1 value2 check) common
          (λ frame.
            meaning_of common common common check (f common) (content frame value1)
              (content frame value2))
          (λ frame.
            meaning_of common common common check (f common) (content frame value1)
              (content frame value2))
          refl refl (λ frame. refl)
          (converted-Builds beyond un marked value1 value2 common common common check
            (oper_for descr common) (f common) placed1 placed2 proper1 proper2
            (oper_for-Plain descr common plain common_ok)
            (oper_for-Operates descr common f all common_ok)))

  apply_compare-Compares :
      (descr : OpcodeDescr) (f : ℤ → ℤ → ℤ)
      → Plain descr
      → ComparesAll descr f
      → Compares (apply_compare beyond un builder descr value1 value2) f
  unfolding apply_compare apply_binary
  apply_compare-Compares descr f plain all =
      let built : Builder × Value = apply_compare beyond un builder descr value1 value2 in
      subst (λ k. ComparesAt k built f) common-usual
        (converted-Builds beyond un builder value1 value2 common common int false
          (oper_for descr common) (λ x y. answer (f x y)) placed1 placed2 proper1 proper2
          (oper_for-Plain descr common plain common_ok)
          (oper_for-Compares descr common f all common_ok))

  -- Addition, subtraction and multiplication of values of any two integer types: the operands are converted to
  -- a common type, which has 64 bits if one of theirs has, and is unsigned only if both are; the exact
  -- result is converted to it, and `jit_insn_add_ovf`, `jit_insn_sub_ovf` and `jit_insn_mul_ovf` report
  -- overflow where an operand or the result is not a value of it. The instructions that are added, run by
  -- the interpreter, leave that in the new value.
  pub sums_lem :
      Applies (insn_add beyond un builder value1 value2) false (λ kind x y. answer (x +ℤ y))
      × Applies (insn_sub beyond un builder value1 value2) false (λ kind x y. answer (x -ℤ y))
      × Applies
          (insn_add_ovf beyond un builder value1 value2)
          true
          (λ kind x y. answered (converted kind true (x +ℤ y)))
      × Applies
          (insn_sub_ovf beyond un builder value1 value2)
          true
          (λ kind x y. answered (converted kind true (x -ℤ y)))
      × Applies (insn_mul beyond un builder value1 value2) false (λ kind x y. answer (x *ℤ y))
      × Applies
          (insn_mul_ovf beyond un builder value1 value2)
          true
          (λ kind x y. answered (converted kind true (x *ℤ y)))
  sums_lem = (
    apply_arith-Applies add_descr false (λ kind x y. answer (x +ℤ y)) (tt, tt, tt, tt) add-Operates,
    apply_arith-Applies sub_descr false (λ kind x y. answer (x -ℤ y)) (tt, tt, tt, tt) sub-Operates,
    apply_arith-Applies add_ovf_descr true (λ kind x y. answered (converted kind true (x +ℤ y)))
        (tt, tt, tt, tt) add_ovf-Operates,
    apply_arith-Applies sub_ovf_descr true (λ kind x y. answered (converted kind true (x -ℤ y)))
        (tt, tt, tt, tt) sub_ovf-Operates,
    apply_arith-Applies mul_descr false (λ kind x y. answer (x *ℤ y)) (tt, tt, tt, tt) mul-Operates,
    apply_arith-Applies mul_ovf_descr true (λ kind x y. answered (converted kind true (x *ℤ y)))
        (tt, tt, tt, tt) mul_ovf-Operates,
  )

  -- Division and remainder of values of any two integer types: the operands are converted to a common type,
  -- which has 64 bits if one of theirs has, and is unsigned only if both are, and
  -- the instructions that are added, run by the interpreter, leave the quotient of C or its remainder
  -- in the new value; or they report a division by zero, or that the type does not have the quotient.
  pub divisions_lem :
      Applies (insn_div beyond un builder value1 value2) false (divided quot)
      × Applies (insn_rem beyond un builder value1 value2) false (divided rem)
  divisions_lem = (
    apply_arith-Applies div_descr false (divided quot) (tt, tt, tt, tt) div-Operates,
    apply_arith-Applies rem_descr false (divided rem) (tt, tt, tt, tt) rem-Operates,
  )

  -- Comparison of values of any two integer types: the operands are converted to a common type,
  -- which has 64 bits if one of theirs has, and is unsigned only if both are, and the
  -- instructions that are added, run by the interpreter, leave 1 in the new value if the numbers compare so
  -- and 0 if not, or their order as -1, 0 or 1.
  pub comparisons_lem :
      Compares (insn_eq beyond un builder value1 value2) (λ x y. flag (x ==ℤ y))
      × Compares (insn_ne beyond un builder value1 value2) (λ x y. flag (not (x ==ℤ y)))
      × Compares (insn_lt beyond un builder value1 value2) (λ x y. flag (x <? y))
      × Compares (insn_le beyond un builder value1 value2) (λ x y. flag (x ≤? y))
      × Compares (insn_gt beyond un builder value1 value2) (λ x y. flag (y <? x))
      × Compares (insn_ge beyond un builder value1 value2) (λ x y. flag (y ≤? x))
      × Compares (insn_cmpl beyond un builder value1 value2) Signed.cmp
      × Compares (insn_cmpg beyond un builder value1 value2) Signed.cmp
  comparisons_lem = (
    apply_compare-Compares eq_descr _ (tt, tt, tt, tt) eq-Operates,
    apply_compare-Compares ne_descr _ (tt, tt, tt, tt) ne-Operates,
    apply_compare-Compares lt_descr _ (tt, tt, tt, tt) lt-Operates,
    apply_compare-Compares le_descr _ (tt, tt, tt, tt) le-Operates,
    apply_compare-Compares gt_descr _ (tt, tt, tt, tt) gt-Operates,
    apply_compare-Compares ge_descr _ (tt, tt, tt, tt) ge-Operates,
    apply_compare-Compares cmpl_descr _ (tt, tt, tt, tt) cmp-Operates,
    apply_compare-Compares cmpg_descr _ (tt, tt, tt, tt) cmp-Operates,
  )
