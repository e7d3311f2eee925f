-- ===== src/Intrinsic/Long.antt =====
-- The `jit_long_` functions: the signed bodies at 64 bits, and `jit_long_mul_ovf`, which multiplies
-- the absolute values.
pub mod Mul
use libjit.Base.{ℕ, ◌+◌, ◌-◌, ltb, if◌then◌else◌, ◌&&◌}
use libjit.Base.Int.{ℤ, pos, negsuc, neg_ℤ, ◌≤?◌, ◌==ℤ◌}
use libjit.Word.{wrap, min_value, max_value, residue, long_half, ulong_modulus}
use libjit.Intrinsic.Signed
use libjit.Intrinsic.Ulong

abbrev pub add : ℤ → ℤ → ℤ
add value1 value2 = Signed.add long_half value1 value2

abbrev pub sub : ℤ → ℤ → ℤ
sub value1 value2 = Signed.sub long_half value1 value2

abbrev pub mul : ℤ → ℤ → ℤ
mul value1 value2 = Signed.mul long_half value1 value2

abbrev pub div : ℤ → ℤ → ℤ × ℤ
div value1 value2 = Signed.div long_half value1 value2

abbrev pub rem : ℤ → ℤ → ℤ × ℤ
rem value1 value2 = Signed.rem long_half value1 value2

abbrev pub add_ovf : ℤ → ℤ → ℤ × ℤ
add_ovf value1 value2 = Signed.add_ovf long_half value1 value2

abbrev pub sub_ovf : ℤ → ℤ → ℤ × ℤ
sub_ovf value1 value2 = Signed.sub_ovf long_half value1 value2

-- The two results of `jit_long_mul_ovf` for factors of one sign, by their absolute values.
unfoldable pub same_sign : ℕ → ℕ → ℤ × ℤ
same_sign value1 value2 =
    let (temp, fits) = Ulong.mul_ovf value1 value2 in
    if fits ==ℤ pos 0
    then (max_value long_half, pos 0)
    else if ltb (long_half - 1) temp
    then (max_value long_half, pos 0)
    else (wrap long_half (pos temp), pos 1)

-- For factors of which one is negative.
unfoldable pub other_sign : ℕ → ℕ → ℤ × ℤ
other_sign value1 value2 =
    let (temp, fits) = Ulong.mul_ovf value1 value2 in
    if fits ==ℤ pos 0
    then (min_value long_half, pos 0)
    else if ltb (long_half - 1 + 1) temp
    then (min_value long_half, pos 0)
    else (Signed.neg long_half (wrap long_half (pos temp)), pos 1)

-- `-value` as a `jit_long`, then as a `jit_ulong`.
unfoldable pub negated : ℤ → ℕ
negated value = residue ulong_modulus (wrap long_half (neg_ℤ value))

unfoldable pub mul_ovf : ℤ → ℤ → ℤ × ℤ
mul_ovf value1 value2 =
    if pos 0 ≤? value1 && pos 0 ≤? value2
    then same_sign (residue ulong_modulus value1) (residue ulong_modulus value2)
    else if pos 0 ≤? value1
    then other_sign (residue ulong_modulus value1) (negated value2)
    else if pos 0 ≤? value2
    then other_sign (negated value1) (residue ulong_modulus value2)
    else same_sign (negated value1) (negated value2)

abbrev pub neg : ℤ → ℤ
neg value1 = Signed.neg long_half value1

abbrev pub bit_and_op : ℤ → ℤ → ℤ
bit_and_op value1 value2 = Signed.bit_and_op long_half value1 value2

abbrev pub bit_or_op : ℤ → ℤ → ℤ
bit_or_op value1 value2 = Signed.bit_or_op long_half value1 value2

abbrev pub bit_xor_op : ℤ → ℤ → ℤ
bit_xor_op value1 value2 = Signed.bit_xor_op long_half value1 value2

abbrev pub bit_not : ℤ → ℤ
bit_not value1 = Signed.bit_not long_half value1

abbrev pub shl : ℤ → ℕ → ℤ
shl value1 value2 = Signed.shl long_half 0x3F value1 value2

abbrev pub shr : ℤ → ℕ → ℤ
shr value1 value2 = Signed.shr 0x3F value1 value2

abbrev pub eq : ℤ → ℤ → ℤ
eq value1 value2 = Signed.eq value1 value2

abbrev pub ne : ℤ → ℤ → ℤ
ne value1 value2 = Signed.ne value1 value2

abbrev pub lt : ℤ → ℤ → ℤ
lt value1 value2 = Signed.lt value1 value2

abbrev pub le : ℤ → ℤ → ℤ
le value1 value2 = Signed.le value1 value2

abbrev pub gt : ℤ → ℤ → ℤ
gt value1 value2 = Signed.gt value1 value2

abbrev pub ge : ℤ → ℤ → ℤ
ge value1 value2 = Signed.ge value1 value2

abbrev pub cmp : ℤ → ℤ → ℤ
cmp value1 value2 = Signed.cmp value1 value2

abbrev pub abs : ℤ → ℤ
abs value1 = Signed.abs long_half value1

abbrev pub min : ℤ → ℤ → ℤ
min value1 value2 = Signed.min value1 value2

abbrev pub max : ℤ → ℤ → ℤ
max value1 value2 = Signed.max value1 value2

abbrev pub sign : ℤ → ℤ
sign value1 = Signed.sign value1
