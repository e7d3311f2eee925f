-- ===== src/Insn/Arith/Comparisons.antt =====
-- The opcodes of comparison compare.
use libjit.Base.{ap, arith, not}
use libjit.Base.Int.{◌<?◌, ◌≤?◌, ◌==ℤ◌}
use libjit.Word.{residue, signed, flag}
use libjit.Intrinsic.Signed
use libjit.Intrinsic.Unsigned
use libjit.Item.{int_value, uint_value, long_value, ulong_value, put, holds}
use libjit.Insn.Descr.{eq_descr, ne_descr, lt_descr, le_descr, gt_descr, ge_descr, cmpl_descr}
use libjit.Insn.Arith.Builds.{ComparesAll}
use libjit.Insn.Arith.Registers.{int_value-Holds, long_value-Holds, put_int_low}
use libjit.Interp.{next}
use libjit.Interp.Compare.{run_compare}

pub eq-Operates : ComparesAll eq_descr (λ x y. flag (x ==ℤ y))
unfolding run_compare put int_value uint_value long_value ulong_value holds residue signed
eq-Operates = (
  λ r0 r1 r2 x y at1 at2 fits1 fits2.
      rw (int_value-Holds r1 x at1 fits1, int_value-Holds r2 y at2 fits2)
        (ap next (put_int_low r0 (flag (x ==ℤ y)))),
  λ r0 r1 r2 x y at1 at2 fits1 fits2. ground arith,
  λ r0 r1 r2 x y at1 at2 fits1 fits2.
      rw (long_value-Holds r1 x at1 fits1, long_value-Holds r2 y at2 fits2)
        (ap next (put_int_low r0 (flag (x ==ℤ y)))),
  λ r0 r1 r2 x y at1 at2 fits1 fits2. ground arith,
)

pub ne-Operates : ComparesAll ne_descr (λ x y. flag (not (x ==ℤ y)))
unfolding run_compare put int_value uint_value long_value ulong_value holds residue signed
ne-Operates = (
  λ r0 r1 r2 x y at1 at2 fits1 fits2.
      rw (int_value-Holds r1 x at1 fits1, int_value-Holds r2 y at2 fits2)
        (ap next (put_int_low r0 (flag (not (x ==ℤ y))))),
  λ r0 r1 r2 x y at1 at2 fits1 fits2. ground arith,
  λ r0 r1 r2 x y at1 at2 fits1 fits2.
      rw (long_value-Holds r1 x at1 fits1, long_value-Holds r2 y at2 fits2)
        (ap next (put_int_low r0 (flag (not (x ==ℤ y))))),
  λ r0 r1 r2 x y at1 at2 fits1 fits2. ground arith,
)

pub lt-Operates : ComparesAll lt_descr (λ x y. flag (x <? y))
unfolding run_compare put int_value uint_value long_value ulong_value holds residue signed
lt-Operates = (
  λ r0 r1 r2 x y at1 at2 fits1 fits2.
      rw (int_value-Holds r1 x at1 fits1, int_value-Holds r2 y at2 fits2)
        (ap next (put_int_low r0 (flag (x <? y)))),
  λ r0 r1 r2 x y at1 at2 fits1 fits2. ground arith,
  λ r0 r1 r2 x y at1 at2 fits1 fits2.
      rw (long_value-Holds r1 x at1 fits1, long_value-Holds r2 y at2 fits2)
        (ap next (put_int_low r0 (flag (x <? y)))),
  λ r0 r1 r2 x y at1 at2 fits1 fits2. ground arith,
)

pub le-Operates : ComparesAll le_descr (λ x y. flag (x ≤? y))
unfolding run_compare put int_value uint_value long_value ulong_value holds residue signed
le-Operates = (
  λ r0 r1 r2 x y at1 at2 fits1 fits2.
      rw (int_value-Holds r1 x at1 fits1, int_value-Holds r2 y at2 fits2)
        (ap next (put_int_low r0 (flag (x ≤? y)))),
  λ r0 r1 r2 x y at1 at2 fits1 fits2. ground arith,
  λ r0 r1 r2 x y at1 at2 fits1 fits2.
      rw (long_value-Holds r1 x at1 fits1, long_value-Holds r2 y at2 fits2)
        (ap next (put_int_low r0 (flag (x ≤? y)))),
  λ r0 r1 r2 x y at1 at2 fits1 fits2. ground arith,
)

pub gt-Operates : ComparesAll gt_descr (λ x y. flag (y <? x))
unfolding run_compare put int_value uint_value long_value ulong_value holds residue signed
gt-Operates = (
  λ r0 r1 r2 x y at1 at2 fits1 fits2.
      rw (int_value-Holds r1 x at1 fits1, int_value-Holds r2 y at2 fits2)
        (ap next (put_int_low r0 (flag (y <? x)))),
  λ r0 r1 r2 x y at1 at2 fits1 fits2. ground arith,
  λ r0 r1 r2 x y at1 at2 fits1 fits2.
      rw (long_value-Holds r1 x at1 fits1, long_value-Holds r2 y at2 fits2)
        (ap next (put_int_low r0 (flag (y <? x)))),
  λ r0 r1 r2 x y at1 at2 fits1 fits2. ground arith,
)

pub ge-Operates : ComparesAll ge_descr (λ x y. flag (y ≤? x))
unfolding run_compare put int_value uint_value long_value ulong_value holds residue signed
ge-Operates = (
  λ r0 r1 r2 x y at1 at2 fits1 fits2.
      rw (int_value-Holds r1 x at1 fits1, int_value-Holds r2 y at2 fits2)
        (ap next (put_int_low r0 (flag (y ≤? x)))),
  λ r0 r1 r2 x y at1 at2 fits1 fits2. ground arith,
  λ r0 r1 r2 x y at1 at2 fits1 fits2.
      rw (long_value-Holds r1 x at1 fits1, long_value-Holds r2 y at2 fits2)
        (ap next (put_int_low r0 (flag (y ≤? x)))),
  λ r0 r1 r2 x y at1 at2 fits1 fits2. ground arith,
)

pub cmp-Operates : ComparesAll cmpl_descr Signed.cmp
unfolding run_compare Signed.cmp Unsigned.cmp put int_value uint_value long_value ulong_value holds
    residue signed
cmp-Operates = (
  λ r0 r1 r2 x y at1 at2 fits1 fits2.
      rw (int_value-Holds r1 x at1 fits1, int_value-Holds r2 y at2 fits2)
        (ap next (put_int_low r0 (Signed.cmp x y))),
  λ r0 r1 r2 x y at1 at2 fits1 fits2. ground arith,
  λ r0 r1 r2 x y at1 at2 fits1 fits2.
      rw (long_value-Holds r1 x at1 fits1, long_value-Holds r2 y at2 fits2)
        (ap next (put_int_low r0 (Signed.cmp x y))),
  λ r0 r1 r2 x y at1 at2 fits1 fits2. ground arith,
)
