-- ===== src/Insn/Arith/Sums.antt =====
-- The opcodes of addition and subtraction compute the sum and the difference, exactly or wrapped.
use libjit.Base.{◌<◌, arith, true}
use libjit.Base.Int.{◌+ℤ◌, ◌-ℤ◌}
use libjit.Word.{residue, signed, wrap, int_half, long_half}
use libjit.Intrinsic.Signed.Overflow.{add_ovf_lem, sub_ovf_lem}
use libjit.Intrinsic.Unsigned
use libjit.Item.{int_value, uint_value, long_value, ulong_value, put, cast, holds, converted}
use libjit.Insn.Descr.{add_descr, add_ovf_descr, sub_descr, sub_ovf_descr}
use libjit.Insn.Arith.Builds.{OperatesAll}
use libjit.Insn.Arith.Registers.{
  int_value-Holds, long_value-Holds, int_Fits, long_Fits, next_int, next_long, checked_int_lem,
  checked_long_lem,
}
use libjit.Interp.Answers.{answer, answered}
use libjit.Interp.Arith.{run_arith}

int_half_positive : 0 < int_half
int_half_positive = omega arith

long_half_positive : 0 < long_half
long_half_positive = omega arith

pub add-Operates : OperatesAll add_descr (λ kind x y. answer (x +ℤ y))
unfolding run_arith put int_value long_value holds residue wrap signed ◌+ℤ◌
add-Operates = (
  λ r0 r1 r2 x y at1 at2 fits1 fits2.
      rw (int_value-Holds r1 x at1 fits1, int_value-Holds r2 y at2 fits2) (next_int r0 (x +ℤ y)),
  λ r0 r1 r2 x y at1 at2 fits1 fits2. ground arith,
  λ r0 r1 r2 x y at1 at2 fits1 fits2.
      rw (long_value-Holds r1 x at1 fits1, long_value-Holds r2 y at2 fits2) (next_long r0 (x +ℤ y)),
  λ r0 r1 r2 x y at1 at2 fits1 fits2. ground arith,
)

pub add_ovf-Operates :
    OperatesAll add_ovf_descr (λ kind x y. answered (converted kind true (x +ℤ y)))
unfolding run_arith Unsigned.add_ovf Unsigned.add put uint_value ulong_value holds cast residue ◌+ℤ◌
add_ovf-Operates = (
  λ r0 r1 r2 x y at1 at2 fits1 fits2.
      rw
        (
          int_value-Holds r1 x at1 fits1,
          int_value-Holds r2 y at2 fits2,
          add_ovf_lem int_half x y int_half_positive (int_Fits x fits1) (int_Fits y fits2),
        )
        (checked_int_lem r0 (x +ℤ y)),
  λ r0 r1 r2 x y at1 at2 fits1 fits2. ground arith,
  λ r0 r1 r2 x y at1 at2 fits1 fits2.
      rw
        (
          long_value-Holds r1 x at1 fits1,
          long_value-Holds r2 y at2 fits2,
          add_ovf_lem long_half x y long_half_positive (long_Fits x fits1) (long_Fits y fits2),
        )
        (checked_long_lem r0 (x +ℤ y)),
  λ r0 r1 r2 x y at1 at2 fits1 fits2. ground arith,
)

pub sub-Operates : OperatesAll sub_descr (λ kind x y. answer (x -ℤ y))
unfolding run_arith put int_value long_value holds residue wrap signed ◌-ℤ◌
sub-Operates = (
  λ r0 r1 r2 x y at1 at2 fits1 fits2.
      rw (int_value-Holds r1 x at1 fits1, int_value-Holds r2 y at2 fits2) (next_int r0 (x -ℤ y)),
  λ r0 r1 r2 x y at1 at2 fits1 fits2. ground arith,
  λ r0 r1 r2 x y at1 at2 fits1 fits2.
      rw (long_value-Holds r1 x at1 fits1, long_value-Holds r2 y at2 fits2) (next_long r0 (x -ℤ y)),
  λ r0 r1 r2 x y at1 at2 fits1 fits2. ground arith,
)

pub sub_ovf-Operates :
    OperatesAll sub_ovf_descr (λ kind x y. answered (converted kind true (x -ℤ y)))
unfolding run_arith Unsigned.sub_ovf Unsigned.sub put uint_value ulong_value holds cast residue ◌-ℤ◌
sub_ovf-Operates = (
  λ r0 r1 r2 x y at1 at2 fits1 fits2.
      rw
        (
          int_value-Holds r1 x at1 fits1,
          int_value-Holds r2 y at2 fits2,
          sub_ovf_lem int_half x y int_half_positive (int_Fits x fits1) (int_Fits y fits2),
        )
        (checked_int_lem r0 (x -ℤ y)),
  λ r0 r1 r2 x y at1 at2 fits1 fits2. ground arith,
  λ r0 r1 r2 x y at1 at2 fits1 fits2.
      rw
        (
          long_value-Holds r1 x at1 fits1,
          long_value-Holds r2 y at2 fits2,
          sub_ovf_lem long_half x y long_half_positive (long_Fits x fits1) (long_Fits y fits2),
        )
        (checked_long_lem r0 (x -ℤ y)),
  λ r0 r1 r2 x y at1 at2 fits1 fits2. ground arith,
)
