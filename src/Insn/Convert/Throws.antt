-- ===== src/Insn/Convert/Throws.antt =====
-- Whether a function is marked as one that may throw, for its conversions.
use libjit.Base.{
  ℕ, ◌≡◌, refl, sym, ap, ◌∙◌, arith, Bool, true, false, ◌||◌, none, [], ◌∷◌, inl, inr, Bool-cases,
  Option-cases, length,
}
use libjit.Base.Int.{ℤ}
use libjit.Base.Maybe.{◌>>=◌, some≢none}
use libjit.Item.{Kind, sbyte, ubyte, short, int, uint, long, ulong, cast, converted, same_kind}
use libjit.Opcode.{
  ConvertOp, Op, convert_op, check_sbyte, check_ubyte, check_short, check_ushort, check_int,
  check_uint, check_low_word, check_signed_low_word, check_long, check_ulong,
}
use libjit.Value.{Value, temporary, type_of}
use libjit.Insn.{
  Builder, apply_unary, apply_unary_conversion, apply_conversions, conversion_throws,
  convert_intrinsics, convert_info, convert_constant, convert,
}
use libjit.Insn.Tables.{ConvertInfo, table_of}
use libjit.Insn.Convert.{converted-holds}
use libjit.Insn.Convert.Chains.{op_value, chain_value}
use libjit.Insn.Convert.Rows.{convert_info-converted}
use libjit.Insn.Convert.Constants.{convert_constant_lem}
use libjit.Item.Laws.{same_kind_lem}
use libjit.Interp.Convert.Exact.{op_kind, op_checks}
use libjit.Interp.Code.Places.{content, IsProper, content-holds, content-cast}

checks-throws :
    (beyond : ℕ → Bool) (op : ConvertOp)
    → op_checks op ≡ true
    → conversion_throws beyond (convert_op op) ≡ true
unfolding conversion_throws
checks-throws beyond check_sbyte h = refl
checks-throws beyond check_ubyte h = refl
checks-throws beyond check_short h = refl
checks-throws beyond check_ushort h = refl
checks-throws beyond check_int h = refl
checks-throws beyond check_uint h = refl
checks-throws beyond check_low_word h = refl
checks-throws beyond check_signed_low_word h = refl
checks-throws beyond check_long h = refl
checks-throws beyond check_ulong h = refl
checks-throws beyond op h = cc

converted-none : (type : Kind) (check : Bool) (x : ℤ) → converted type check x ≡ none → check ≡ true
converted-none type true x e = refl
converted-none type false x e = absurd (some≢none e)

op_value-throws :
    (beyond : ℕ → Bool) (oper : Op) (x : ℤ)
    → op_value oper x ≡ none
    → conversion_throws beyond oper ≡ true
op_value-throws beyond (convert_op op) x e =
    checks-throws beyond op (converted-none (op_kind op) (op_checks op) x e)
op_value-throws beyond oper x e = cc

stays_marked :
    (beyond : ℕ → Bool) (builder : Builder) (info : ConvertInfo) (value : Value)
    → builder.may_throw ≡ true
    → (apply_conversions beyond builder info value).0.may_throw ≡ true
unfolding apply_conversions apply_unary_conversion apply_unary
stays_marked beyond builder [] value h = h
stays_marked beyond builder ((oper, type) ∷ rest) value h =
    stays_marked beyond (apply_unary_conversion beyond builder oper value type).0 rest
      (apply_unary_conversion beyond builder oper value type).1 (rw h refl)

chain_marked :
    (beyond : ℕ → Bool) (builder : Builder) (info : ConvertInfo) (value : Value) (x : ℤ)
    → chain_value info x ≡ none
    → (apply_conversions beyond builder info value).0.may_throw ≡ true
unfolding apply_conversions apply_unary_conversion apply_unary
chain_marked beyond builder [] value x e = absurd (some≢none e)
chain_marked beyond builder ((oper, type) ∷ rest) value x e =
    let first = apply_unary_conversion beyond builder oper value type in
    elim (Option-cases (op_value oper x)) [
      | inl nothing ↦
          let throws : conversion_throws beyond oper ≡ true =
            op_value-throws beyond oper x nothing in
          stays_marked beyond first.0 rest first.1 (rw throws (ground arith))
      | inr (y, found) ↦
          chain_marked beyond first.0 rest first.1 (cast type y)
            (sym (ap (λ o. o >>= λ z. chain_value rest (cast type z)) found) ∙ e)
    ]

-- A function whose conversion overflows where it is run has been marked as one that may throw, when
-- the conversion was built.
pub convert-may_throw :
    (beyond : ℕ → Bool) (un : ℕ) (builder : Builder) (value : Value) (type : Kind) (check : Bool)
    (frame : ℕ → ℕ)
    → IsProper value
    → converted type check (content frame value) ≡ none
    → (convert beyond un builder value type check).0.may_throw ≡ true
unfolding convert
convert-may_throw beyond un builder value type check frame proper overflow =
    elim (Bool-cases (same_kind type (type_of value))) [
      | inl same ↦
          let it : type ≡ type_of value = same_kind_lem _ _ same in
          absurd (
            some≢none (
              sym (
                ap (λ k. converted k check (content frame value)) it
                ∙ converted-holds (type_of value) check (content frame value)
                    (content-holds frame value) (content-cast frame value))
              ∙ overflow))
      | inr other ↦ elim (Option-cases (convert_constant un value type check)) [
        | inr (result, e) ↦ absurd (
            some≢none
              (sym ((convert_constant_lem un value type check result proper e).0 frame) ∙ overflow))
        | inl e ↦
            rw (other, e)
              (chain_marked beyond builder (convert_info type (type_of value) check) value
                (content frame value)
                (convert_info-converted type (type_of value) check (content frame value)
                    (content-holds frame value)
                  ∙ overflow))
      ]
    ]

-- The table of conversion intrinsics has 35 entries, but a conversion that only copies reads entry 350 or 351:
-- from 8 or 16 bits to the promoted type of the same sign, and between the types of 64 bits. Whether the
-- function is marked as one that may throw then depends on what lies behind the table.
pub copies_read_beyond :
    (beyond : ℕ → Bool) (un : ℕ) (builder : Builder) (offset : ℕ) (check : Bool)
    → (length convert_intrinsics ≡ 35)
      × ((convert beyond un builder (temporary sbyte offset) int check).0.may_throw
          ≡ (builder.may_throw || beyond 350))
      × ((convert beyond un builder (temporary short offset) int check).0.may_throw
          ≡ (builder.may_throw || beyond 350))
      × ((convert beyond un builder (temporary ubyte offset) uint check).0.may_throw
          ≡ (builder.may_throw || beyond 350))
      × ((convert beyond un builder (temporary ulong offset) long false).0.may_throw
          ≡ (builder.may_throw || beyond 351))
      × ((convert beyond un builder (temporary long offset) ulong false).0.may_throw
          ≡ (builder.may_throw || beyond 351))
unfolding convert apply_conversions apply_unary_conversion apply_unary conversion_throws table_of
copies_read_beyond beyond un builder offset true = (refl, refl, refl, refl, refl, refl)
copies_read_beyond beyond un builder offset false = (refl, refl, refl, refl, refl, refl)
