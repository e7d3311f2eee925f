-- ===== src/Insn/Arith/Products.antt =====
-- The opcodes of multiplication compute the product, wrapped, or report that the type does not have
-- it. The wrapping ones multiply the registers of unsigned types as signed integers.
use libjit.Interp.{next}
use libjit.Opcode.{imul, lmul}
use libjit.Base.{
  if◌then◌else◌, refl, true, ap, sym, ◌∙◌, ℕ, suc, ltb, Bool-cases, inl, inr, ◌≡◌, ◌+◌, ◌*◌, ◌-◌,
  ◌%◌, ◌<◌, arith,
}
use libjit.Base.Int.{ℤ, pos, negsuc, ◌*ℤ◌}
use libjit.Item.{
  uint, long, ulong, put, holds, cast, converted, int_value, long_value, uint_value, ulong_value,
}
use libjit.Insn.Descr.{mul_descr, mul_ovf_descr}
use libjit.Insn.Arith.Builds.{OperatesAll}
use libjit.Insn.Arith.Registers.{
  int_value-Holds, long_value-Holds, uint_value-Holds, ulong_value-Holds, next_int, next_long,
  int_Fits, long_Fits, checked_int_lem, put_long_low, wrap_long_low,
}
use libjit.Interp.Answers.{answer, answered, low_bytes, outcome_of}
use libjit.Interp.Arith.{run_arith}
use libjit.Intrinsic.Uint
use libjit.Intrinsic.Ulong
use libjit.Intrinsic.Int.Mul.{mul_ovf_wraps}
use libjit.Intrinsic.Uint.Mul.{mul_ovf_unsigned}
use libjit.Intrinsic.Long.Mul.{mul_ovf_saturates}
use libjit.Intrinsic.Ulong.Mul.{mul_ovf_exact}
use libjit.Intrinsic.Signed.Overflow.{in_range}
use libjit.Interp.{checked_long, checked_uint, checked_ulong}
use libjit.Word.{residue, signed, int_half, long_half, uint_modulus, ulong_modulus}

product_beside : (a b k : ℕ) → a * b + a * suc k ≡ a * (suc k + b)
product_beside a b k = omega arith

products_beside :
    (a b j k : ℕ)
    → a * b + suc j * (suc k + b) + (suc j + a) * suc k ≡ (suc j + a) * (suc k + b) + suc j * suc k
products_beside a b j k = omega arith

pos_negsuc_int :
    (a b k : ℕ)
    → suc k + b ≡ uint_modulus
    → residue uint_modulus (pos a *ℤ negsuc k) ≡ a * b % uint_modulus
unfolding residue ◌*ℤ◌
pos_negsuc_int a b k beside = ground (arith, product_beside a b k)

negsuc_negsuc_int :
    (a b j k : ℕ)
    → suc j + a ≡ uint_modulus
    → suc k + b ≡ uint_modulus
    → residue uint_modulus (negsuc j *ℤ negsuc k) ≡ a * b % uint_modulus
unfolding residue ◌*ℤ◌
negsuc_negsuc_int a b j k beside1 beside2 = ground (arith, products_beside a b j k)

negsuc_pos_int :
    (a b j : ℕ)
    → suc j + a ≡ uint_modulus
    → residue uint_modulus (negsuc j *ℤ pos b) ≡ a * b % uint_modulus
unfolding residue ◌*ℤ◌
negsuc_pos_int a b j beside = ground (arith, product_beside b a j)

pos_pos_int : (a b : ℕ) → residue uint_modulus (pos a *ℤ pos b) ≡ a * b % uint_modulus
unfolding residue ◌*ℤ◌
pos_pos_int a b = ground arith

signed_product_int :
    (a b : ℕ)
    → a < uint_modulus
    → b < uint_modulus
    → residue uint_modulus (signed int_half a *ℤ signed int_half b) ≡ a * b % uint_modulus
unfolding signed
signed_product_int a b small1 small2 = elim (Bool-cases (ltb a int_half)) [
  | inl p ↦ elim (Bool-cases (ltb b int_half)) [
    | inl q ↦ rw (p, q) (pos_pos_int a b)
    | inr q ↦ rw (p, q) (pos_negsuc_int a b (2 * int_half - 1 - b) (omega arith))
  ]
  | inr p ↦ elim (Bool-cases (ltb b int_half)) [
    | inl q ↦ rw (p, q) (negsuc_pos_int a b (2 * int_half - 1 - a) (omega arith))
    | inr q ↦
        rw (p, q)
          (negsuc_negsuc_int a b (2 * int_half - 1 - a) (2 * int_half - 1 - b) (omega arith)
            (omega arith))
  ]
]

-- The opcode on registers that hold unsigned values.
mul_uint :
    (r0 r1 r2 : ℕ)
    → low_bytes uint_modulus (run_arith imul r0 r1 r2)
      ≡ outcome_of uint_modulus (answer (pos (uint_value r1) *ℤ pos (uint_value r2)))
unfolding run_arith int_value uint_value
mul_uint r0 r1 r2 =
    let a = r1 % uint_modulus in
    let b = r2 % uint_modulus in
    next_int r0 (signed int_half a *ℤ signed int_half b)
    ∙ ap next (signed_product_int a b (omega arith) (omega arith) ∙ sym (pos_pos_int a b))

pos_negsuc_long :
    (a b k : ℕ)
    → suc k + b ≡ ulong_modulus
    → residue ulong_modulus (pos a *ℤ negsuc k) ≡ a * b % ulong_modulus
unfolding residue ◌*ℤ◌
pos_negsuc_long a b k beside = ground (arith, product_beside a b k)

negsuc_negsuc_long :
    (a b j k : ℕ)
    → suc j + a ≡ ulong_modulus
    → suc k + b ≡ ulong_modulus
    → residue ulong_modulus (negsuc j *ℤ negsuc k) ≡ a * b % ulong_modulus
unfolding residue ◌*ℤ◌
negsuc_negsuc_long a b j k beside1 beside2 = ground (arith, products_beside a b j k)

negsuc_pos_long :
    (a b j : ℕ)
    → suc j + a ≡ ulong_modulus
    → residue ulong_modulus (negsuc j *ℤ pos b) ≡ a * b % ulong_modulus
unfolding residue ◌*ℤ◌
negsuc_pos_long a b j beside = ground (arith, product_beside b a j)

pos_pos_long : (a b : ℕ) → residue ulong_modulus (pos a *ℤ pos b) ≡ a * b % ulong_modulus
unfolding residue ◌*ℤ◌
pos_pos_long a b = ground arith

signed_product_long :
    (a b : ℕ)
    → a < ulong_modulus
    → b < ulong_modulus
    → residue ulong_modulus (signed long_half a *ℤ signed long_half b) ≡ a * b % ulong_modulus
unfolding signed
signed_product_long a b small1 small2 = elim (Bool-cases (ltb a long_half)) [
  | inl p ↦ elim (Bool-cases (ltb b long_half)) [
    | inl q ↦ rw (p, q) (pos_pos_long a b)
    | inr q ↦ rw (p, q) (pos_negsuc_long a b (2 * long_half - 1 - b) (omega arith))
  ]
  | inr p ↦ elim (Bool-cases (ltb b long_half)) [
    | inl q ↦ rw (p, q) (negsuc_pos_long a b (2 * long_half - 1 - a) (omega arith))
    | inr q ↦
        rw (p, q)
          (negsuc_negsuc_long a b (2 * long_half - 1 - a) (2 * long_half - 1 - b) (omega arith)
            (omega arith))
  ]
]

-- The opcode on registers that hold unsigned values.
mul_ulong :
    (r0 r1 r2 : ℕ)
    → low_bytes ulong_modulus (run_arith lmul r0 r1 r2)
      ≡ outcome_of ulong_modulus (answer (pos (ulong_value r1) *ℤ pos (ulong_value r2)))
unfolding run_arith long_value ulong_value
mul_ulong r0 r1 r2 =
    let a = r1 % ulong_modulus in
    let b = r2 % ulong_modulus in
    next_long r0 (signed long_half a *ℤ signed long_half b)
    ∙ ap next (signed_product_long a b (omega arith) (omega arith) ∙ sym (pos_pos_long a b))

pub mul-Operates : OperatesAll mul_descr (λ kind x y. answer (x *ℤ y))
unfolding run_arith
mul-Operates = (
  λ r0 r1 r2 x y at1 at2 fits1 fits2.
      rw (int_value-Holds r1 x at1 fits1, int_value-Holds r2 y at2 fits2) (next_int r0 (x *ℤ y)),
  λ r0 r1 r2 x y at1 at2 fits1 fits2.
      rw (sym (uint_value-Holds r1 x at1 fits1), sym (uint_value-Holds r2 y at2 fits2))
        (mul_uint r0 r1 r2),
  λ r0 r1 r2 x y at1 at2 fits1 fits2.
      rw (long_value-Holds r1 x at1 fits1, long_value-Holds r2 y at2 fits2) (next_long r0 (x *ℤ y)),
  λ r0 r1 r2 x y at1 at2 fits1 fits2.
      rw (sym (ulong_value-Holds r1 x at1 fits1), sym (ulong_value-Holds r2 y at2 fits2))
        (mul_ulong r0 r1 r2),
)

uint_value-lt : (r : ℕ) → uint_value r < uint_modulus
unfolding uint_value
uint_value-lt r = omega arith

ulong_value-lt : (r : ℕ) → ulong_value r < ulong_modulus
unfolding ulong_value
ulong_value-lt r = omega arith

uint_mul_ovf :
    (r0 a b : ℕ)
    → a < uint_modulus
    → b < uint_modulus
    → low_bytes uint_modulus (checked_uint r0 (Uint.mul_ovf a b))
      ≡ outcome_of uint_modulus (answered (converted uint true (pos a *ℤ pos b)))
unfolding put holds cast residue ◌*ℤ◌
uint_mul_ovf r0 a b small1 small2 = rw (mul_ovf_unsigned a b small1 small2) (ground arith)

ulong_mul_ovf :
    (r0 a b : ℕ)
    → a < ulong_modulus
    → b < ulong_modulus
    → low_bytes ulong_modulus (checked_ulong r0 (Ulong.mul_ovf a b))
      ≡ outcome_of ulong_modulus (answered (converted ulong true (pos a *ℤ pos b)))
unfolding put holds cast residue ◌*ℤ◌
ulong_mul_ovf r0 a b small1 small2 = rw (mul_ovf_exact a b small1 small2) (ground arith)

saturated_long :
    (r0 : ℕ) (x other : ℤ)
    → low_bytes ulong_modulus
        (checked_long r0 (if in_range long_half x then (x, pos 1) else (other, pos 0)))
      ≡ outcome_of ulong_modulus (answered (converted long true x))
unfolding holds cast
saturated_long r0 x other = elim (Bool-cases (in_range long_half x)) [
  | inl b ↦ rw b (ap next (put_long_low r0 x ∙ sym (wrap_long_low x)))
  | inr b ↦ rw b refl
]

pub mul_ovf-Operates :
    OperatesAll mul_ovf_descr (λ kind x y. answered (converted kind true (x *ℤ y)))
unfolding run_arith
mul_ovf-Operates = (
  λ r0 r1 r2 x y at1 at2 fits1 fits2.
      rw
        (
          int_value-Holds r1 x at1 fits1,
          int_value-Holds r2 y at2 fits2,
          mul_ovf_wraps x y (int_Fits x fits1) (int_Fits y fits2),
        )
        (checked_int_lem r0 (x *ℤ y)),
  λ r0 r1 r2 x y at1 at2 fits1 fits2.
      rw (sym (uint_value-Holds r1 x at1 fits1), sym (uint_value-Holds r2 y at2 fits2))
        (uint_mul_ovf r0 (uint_value r1) (uint_value r2) (uint_value-lt r1) (uint_value-lt r2)),
  λ r0 r1 r2 x y at1 at2 fits1 fits2.
      rw
        (
          long_value-Holds r1 x at1 fits1,
          long_value-Holds r2 y at2 fits2,
          mul_ovf_saturates x y (long_Fits x fits1) (long_Fits y fits2),
        )
        (saturated_long r0 (x *ℤ y) _),
  λ r0 r1 r2 x y at1 at2 fits1 fits2.
      rw (sym (ulong_value-Holds r1 x at1 fits1), sym (ulong_value-Holds r2 y at2 fits2))
        (ulong_mul_ovf r0 (ulong_value r1) (ulong_value r2) (ulong_value-lt r1)
          (ulong_value-lt r2)),
)
