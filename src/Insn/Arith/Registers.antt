-- ===== src/Insn/Arith/Registers.antt =====
-- Reading operands from registers, and results that are written to register 0.
use libjit.Base.{ℕ, ◌%◌, ◌≡◌, refl, ap, ◌∙◌, arith, true, inl, inr, Bool-cases}
use libjit.Base.Int.{ℤ, pos, negsuc}
use libjit.Word.{
  residue, signed, wrap, flag, Fits, int_half, long_half, uint_modulus, ulong_modulus,
}
use libjit.Intrinsic.Signed.Overflow.{in_range}
use libjit.Item.{
  int, uint, long, ulong, int_value, uint_value, long_value, ulong_value, put, put_int, put_long,
  cast, holds, converted,
}
use libjit.Interp.{next, checked_int, checked_long}
use libjit.Interp.Answers.{answer, answered, low_bytes, outcome_of}
use libjit.Interp.Code.Steps.{Holds}

pub int_value-Holds : (r : ℕ) (x : ℤ) → Holds int r x → holds int x ≡ true → int_value r ≡ x
unfolding int_value holds residue signed
int_value-Holds r (pos n) at range = ground arith
int_value-Holds r (negsuc n) at range = ground arith

pub uint_value-Holds :
    (r : ℕ) (x : ℤ) → Holds uint r x → holds uint x ≡ true → pos (uint_value r) ≡ x
unfolding uint_value holds residue
uint_value-Holds r (pos n) at range = ground arith
uint_value-Holds r (negsuc n) at range = ground arith

pub int_Fits : (x : ℤ) → holds int x ≡ true → Fits int_half x
unfolding holds
int_Fits (pos n) range = ground arith
int_Fits (negsuc n) range = ground arith

pub put_int_low : (r0 : ℕ) (x : ℤ) → put_int r0 x % uint_modulus ≡ residue uint_modulus x
unfolding put residue
put_int_low r0 (pos n) = omega arith
put_int_low r0 (negsuc n) = omega arith

wrap_int_low : (x : ℤ) → residue uint_modulus (wrap int_half x) ≡ residue uint_modulus x
unfolding wrap residue signed
wrap_int_low (pos n) = ground arith
wrap_int_low (negsuc n) = ground arith

pub next_int :
    (r0 : ℕ) (x : ℤ)
    → low_bytes uint_modulus (next (put_int r0 (wrap int_half x)))
      ≡ outcome_of uint_modulus (answer x)
next_int r0 x = ap next (put_int_low r0 (wrap int_half x) ∙ wrap_int_low x)

pub checked_int_lem :
    (r0 : ℕ) (x : ℤ)
    → low_bytes uint_modulus (checked_int r0 (wrap int_half x, flag (in_range int_half x)))
      ≡ outcome_of uint_modulus (answered (converted int true x))
unfolding holds cast
checked_int_lem r0 x = elim (Bool-cases (in_range int_half x)) [
  | inl b ↦ rw b (ap next (put_int_low r0 (wrap int_half x)))
  | inr b ↦ rw b refl
]

pub long_value-Holds : (r : ℕ) (x : ℤ) → Holds long r x → holds long x ≡ true → long_value r ≡ x
unfolding long_value holds residue signed
long_value-Holds r (pos n) at range = ground arith
long_value-Holds r (negsuc n) at range = ground arith

pub ulong_value-Holds :
    (r : ℕ) (x : ℤ) → Holds ulong r x → holds ulong x ≡ true → pos (ulong_value r) ≡ x
unfolding ulong_value holds residue
ulong_value-Holds r (pos n) at range = ground arith
ulong_value-Holds r (negsuc n) at range = ground arith

pub long_Fits : (x : ℤ) → holds long x ≡ true → Fits long_half x
unfolding holds
long_Fits (pos n) range = ground arith
long_Fits (negsuc n) range = ground arith

pub put_long_low : (r0 : ℕ) (x : ℤ) → put_long r0 x % ulong_modulus ≡ residue ulong_modulus x
unfolding put residue
put_long_low r0 (pos n) = omega arith
put_long_low r0 (negsuc n) = omega arith

pub wrap_long_low : (x : ℤ) → residue ulong_modulus (wrap long_half x) ≡ residue ulong_modulus x
unfolding wrap residue signed
wrap_long_low (pos n) = ground arith
wrap_long_low (negsuc n) = ground arith

pub next_long :
    (r0 : ℕ) (x : ℤ)
    → low_bytes ulong_modulus (next (put_long r0 (wrap long_half x)))
      ≡ outcome_of ulong_modulus (answer x)
next_long r0 x = ap next (put_long_low r0 (wrap long_half x) ∙ wrap_long_low x)

pub checked_long_lem :
    (r0 : ℕ) (x : ℤ)
    → low_bytes ulong_modulus (checked_long r0 (wrap long_half x, flag (in_range long_half x)))
      ≡ outcome_of ulong_modulus (answered (converted long true x))
unfolding holds cast
checked_long_lem r0 x = elim (Bool-cases (in_range long_half x)) [
  | inl b ↦ rw b (ap next (put_long_low r0 (wrap long_half x)))
  | inr b ↦ rw b refl
]
