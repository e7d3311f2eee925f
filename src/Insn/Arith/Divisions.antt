-- ===== src/Insn/Arith/Divisions.antt =====
-- The opcodes of division and remainder divide, and report what cannot be divided.
use mathlib.Core.Path.{subst}
use native.Mathlib.Nat.{add-zero}
use libjit.Base.{
  ℕ, ◌/◌, ◌%◌, ◌≡◌, refl, sym, ap, ◌∙◌, Bool, true, false, ◌&&◌, ◌==◌, if◌then◌else◌, inl, inr,
  Bool-cases,
}
use libjit.Base.Int.{ℤ, pos, negsuc, quot, rem, ◌==ℤ◌}
use libjit.Word.{residue, min_value, int_half, long_half, uint_modulus, ulong_modulus}
use libjit.Intrinsic.{result_arithmetic, result_division_by_zero}
use libjit.Intrinsic.Signed
use libjit.Intrinsic.Unsigned
use libjit.Item.{Kind, int, uint, long, ulong, uint_value, ulong_value}
use libjit.Insn.Descr.{div_descr, rem_descr}
use libjit.Insn.Arith.Builds.{OperatesAll}
use libjit.Insn.Arith.Registers.{
  int_value-Holds, long_value-Holds, uint_value-Holds, ulong_value-Holds, put_int_low, put_long_low,
}
use libjit.Interp.{next, checked_int, checked_uint, checked_long, checked_ulong}
use libjit.Interp.Answers.{Answer, answer, raises, low_bytes, outcome_of}
use libjit.Interp.Arith.{run_arith}

-- The one quotient that the type does not have.
abbrev pub overflows : Kind → ℤ → ℤ → Bool
overflows int x y = y ==ℤ negsuc 0 && x ==ℤ min_value int_half
overflows long x y = y ==ℤ negsuc 0 && x ==ℤ min_value long_half
overflows kind x y = false

-- A division of C, or the exception for operands that cannot be divided.
abbrev pub divided : (ℤ → ℤ → ℤ) → Kind → ℤ → ℤ → Answer
divided f kind x y =
    if y ==ℤ pos 0
    then raises result_division_by_zero
    else if overflows kind x y
    then raises result_arithmetic
    else answer (f x y)

zero_test : (b : ℕ) → (pos b ==ℤ pos 0) ≡ (b == 0)
zero_test b = ap (λ n. n == 0) (add-zero b)

int_div :
    (r0 : ℕ) (x y : ℤ)
    → low_bytes uint_modulus (checked_int r0 (Signed.div int_half x y))
      ≡ outcome_of uint_modulus (divided quot int x y)
unfolding Signed.div
int_div r0 x y = elim (Bool-cases (y ==ℤ pos 0)) [
  | inl zero_there ↦ rw zero_there refl
  | inr b ↦ elim (Bool-cases (overflows int x y)) [
    | inl c ↦ rw (b, c) refl
    | inr c ↦ rw (b, c) (ap next (put_int_low r0 (quot x y)))
  ]
]

uint_div :
    (r0 a b : ℕ)
    → low_bytes uint_modulus (checked_uint r0 (Unsigned.div a b))
      ≡ outcome_of uint_modulus (divided quot uint (pos a) (pos b))
unfolding Unsigned.div quot
uint_div r0 a b = elim (Bool-cases (b == 0)) [
  | inl c ↦ let d : (pos b ==ℤ pos 0) ≡ true = zero_test b ∙ c in rw (c, d) refl
  | inr c ↦
      let d : (pos b ==ℤ pos 0) ≡ false = zero_test b ∙ c in
      rw (c, d) (ap next (put_int_low r0 (pos (a / b))))
]

long_div :
    (r0 : ℕ) (x y : ℤ)
    → low_bytes ulong_modulus (checked_long r0 (Signed.div long_half x y))
      ≡ outcome_of ulong_modulus (divided quot long x y)
unfolding Signed.div
long_div r0 x y = elim (Bool-cases (y ==ℤ pos 0)) [
  | inl zero_there ↦ rw zero_there refl
  | inr b ↦ elim (Bool-cases (overflows long x y)) [
    | inl c ↦ rw (b, c) refl
    | inr c ↦ rw (b, c) (ap next (put_long_low r0 (quot x y)))
  ]
]

ulong_div :
    (r0 a b : ℕ)
    → low_bytes ulong_modulus (checked_ulong r0 (Unsigned.div a b))
      ≡ outcome_of ulong_modulus (divided quot ulong (pos a) (pos b))
unfolding Unsigned.div quot
ulong_div r0 a b = elim (Bool-cases (b == 0)) [
  | inl c ↦ let d : (pos b ==ℤ pos 0) ≡ true = zero_test b ∙ c in rw (c, d) refl
  | inr c ↦
      let d : (pos b ==ℤ pos 0) ≡ false = zero_test b ∙ c in
      rw (c, d) (ap next (put_long_low r0 (pos (a / b))))
]

pub div-Operates : OperatesAll div_descr (divided quot)
unfolding run_arith
div-Operates = (
  λ r0 r1 r2 x y at1 at2 fits1 fits2.
      rw (int_value-Holds r1 x at1 fits1, int_value-Holds r2 y at2 fits2) (int_div r0 x y),
  λ r0 r1 r2 x y at1 at2 fits1 fits2.
      subst
        (λ z.
          low_bytes uint_modulus (checked_uint r0 (Unsigned.div (uint_value r1) (uint_value r2)))
          ≡ outcome_of uint_modulus (divided quot uint z y))
        (uint_value-Holds r1 x at1 fits1)
        (subst
          (λ z.
            low_bytes uint_modulus (checked_uint r0 (Unsigned.div (uint_value r1) (uint_value r2)))
            ≡ outcome_of uint_modulus (divided quot uint (pos (uint_value r1)) z))
          (uint_value-Holds r2 y at2 fits2) (uint_div r0 (uint_value r1) (uint_value r2))),
  λ r0 r1 r2 x y at1 at2 fits1 fits2.
      rw (long_value-Holds r1 x at1 fits1, long_value-Holds r2 y at2 fits2) (long_div r0 x y),
  λ r0 r1 r2 x y at1 at2 fits1 fits2.
      subst
        (λ z.
          low_bytes ulong_modulus
            (checked_ulong r0 (Unsigned.div (ulong_value r1) (ulong_value r2)))
          ≡ outcome_of ulong_modulus (divided quot ulong z y))
        (ulong_value-Holds r1 x at1 fits1)
        (subst
          (λ z.
            low_bytes ulong_modulus
              (checked_ulong r0 (Unsigned.div (ulong_value r1) (ulong_value r2)))
            ≡ outcome_of ulong_modulus (divided quot ulong (pos (ulong_value r1)) z))
          (ulong_value-Holds r2 y at2 fits2) (ulong_div r0 (ulong_value r1) (ulong_value r2))),
)

int_rem :
    (r0 : ℕ) (x y : ℤ)
    → low_bytes uint_modulus (checked_int r0 (Signed.rem int_half x y))
      ≡ outcome_of uint_modulus (divided rem int x y)
unfolding Signed.rem
int_rem r0 x y = elim (Bool-cases (y ==ℤ pos 0)) [
  | inl zero_there ↦ rw zero_there refl
  | inr b ↦ elim (Bool-cases (overflows int x y)) [
    | inl c ↦ rw (b, c) refl
    | inr c ↦ rw (b, c) (ap next (put_int_low r0 (rem x y)))
  ]
]

uint_rem :
    (r0 a b : ℕ)
    → low_bytes uint_modulus (checked_uint r0 (Unsigned.rem a b))
      ≡ outcome_of uint_modulus (divided rem uint (pos a) (pos b))
unfolding Unsigned.rem rem
uint_rem r0 a b = elim (Bool-cases (b == 0)) [
  | inl c ↦ let d : (pos b ==ℤ pos 0) ≡ true = zero_test b ∙ c in rw (c, d) refl
  | inr c ↦
      let d : (pos b ==ℤ pos 0) ≡ false = zero_test b ∙ c in
      rw (c, d)
        (ap next (put_int_low r0 (pos (a % b)))
          ∙ ap (λ n. next (residue uint_modulus (pos (a % n)))) (sym (add-zero b)))
]

long_rem :
    (r0 : ℕ) (x y : ℤ)
    → low_bytes ulong_modulus (checked_long r0 (Signed.rem long_half x y))
      ≡ outcome_of ulong_modulus (divided rem long x y)
unfolding Signed.rem
long_rem r0 x y = elim (Bool-cases (y ==ℤ pos 0)) [
  | inl zero_there ↦ rw zero_there refl
  | inr b ↦ elim (Bool-cases (overflows long x y)) [
    | inl c ↦ rw (b, c) refl
    | inr c ↦ rw (b, c) (ap next (put_long_low r0 (rem x y)))
  ]
]

ulong_rem :
    (r0 a b : ℕ)
    → low_bytes ulong_modulus (checked_ulong r0 (Unsigned.rem a b))
      ≡ outcome_of ulong_modulus (divided rem ulong (pos a) (pos b))
unfolding Unsigned.rem rem
ulong_rem r0 a b = elim (Bool-cases (b == 0)) [
  | inl c ↦ let d : (pos b ==ℤ pos 0) ≡ true = zero_test b ∙ c in rw (c, d) refl
  | inr c ↦
      let d : (pos b ==ℤ pos 0) ≡ false = zero_test b ∙ c in
      rw (c, d)
        (ap next (put_long_low r0 (pos (a % b)))
          ∙ ap (λ n. next (residue ulong_modulus (pos (a % n)))) (sym (add-zero b)))
]

pub rem-Operates : OperatesAll rem_descr (divided rem)
unfolding run_arith
rem-Operates = (
  λ r0 r1 r2 x y at1 at2 fits1 fits2.
      rw (int_value-Holds r1 x at1 fits1, int_value-Holds r2 y at2 fits2) (int_rem r0 x y),
  λ r0 r1 r2 x y at1 at2 fits1 fits2.
      subst
        (λ z.
          low_bytes uint_modulus (checked_uint r0 (Unsigned.rem (uint_value r1) (uint_value r2)))
          ≡ outcome_of uint_modulus (divided rem uint z y))
        (uint_value-Holds r1 x at1 fits1)
        (subst
          (λ z.
            low_bytes uint_modulus (checked_uint r0 (Unsigned.rem (uint_value r1) (uint_value r2)))
            ≡ outcome_of uint_modulus (divided rem uint (pos (uint_value r1)) z))
          (uint_value-Holds r2 y at2 fits2) (uint_rem r0 (uint_value r1) (uint_value r2))),
  λ r0 r1 r2 x y at1 at2 fits1 fits2.
      rw (long_value-Holds r1 x at1 fits1, long_value-Holds r2 y at2 fits2) (long_rem r0 x y),
  λ r0 r1 r2 x y at1 at2 fits1 fits2.
      subst
        (λ z.
          low_bytes ulong_modulus
            (checked_ulong r0 (Unsigned.rem (ulong_value r1) (ulong_value r2)))
          ≡ outcome_of ulong_modulus (divided rem ulong z y))
        (ulong_value-Holds r1 x at1 fits1)
        (subst
          (λ z.
            low_bytes ulong_modulus
              (checked_ulong r0 (Unsigned.rem (ulong_value r1) (ulong_value r2)))
            ≡ outcome_of ulong_modulus (divided rem ulong (pos (ulong_value r1)) z))
          (ulong_value-Holds r2 y at2 fits2) (ulong_rem r0 (ulong_value r1) (ulong_value r2))),
)
