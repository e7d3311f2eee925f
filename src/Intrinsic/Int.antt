-- ===== src/Intrinsic/Int.antt =====
-- The `jit_int_` functions: the signed bodies at 32 bits, and `jit_int_mul_ovf`, which goes
-- through the 64-bit type.
pub mod Mul
use libjit.Base.{ℕ, if◌then◌else◌, ◌&&◌}
use libjit.Base.Int.{ℤ, pos, negsuc, ◌*ℤ◌, ◌≤?◌}
use libjit.Word.{wrap, min_value, max_value, flag, int_half, long_half}
use libjit.Intrinsic.Signed

abbrev pub add : ℤ → ℤ → ℤ
add value1 value2 = Signed.add int_half value1 value2

abbrev pub sub : ℤ → ℤ → ℤ
sub value1 value2 = Signed.sub int_half value1 value2

abbrev pub mul : ℤ → ℤ → ℤ
mul value1 value2 = Signed.mul int_half value1 value2

abbrev pub div : ℤ → ℤ → ℤ × ℤ
div value1 value2 = Signed.div int_half value1 value2

abbrev pub rem : ℤ → ℤ → ℤ × ℤ
rem value1 value2 = Signed.rem int_half value1 value2

abbrev pub add_ovf : ℤ → ℤ → ℤ × ℤ
add_ovf value1 value2 = Signed.add_ovf int_half value1 value2

abbrev pub sub_ovf : ℤ → ℤ → ℤ × ℤ
sub_ovf value1 value2 = Signed.sub_ovf int_half value1 value2

unfoldable pub mul_ovf : ℤ → ℤ → ℤ × ℤ
mul_ovf value1 value2 =
    let temp = wrap long_half (value1 *ℤ value2) in
    (wrap int_half temp, flag (min_value int_half ≤? temp && temp ≤? max_value int_half))

abbrev pub neg : ℤ → ℤ
neg value1 = Signed.neg int_half value1

abbrev pub bit_and_op : ℤ → ℤ → ℤ
bit_and_op value1 value2 = Signed.bit_and_op int_half value1 value2

abbrev pub bit_or_op : ℤ → ℤ → ℤ
bit_or_op value1 value2 = Signed.bit_or_op int_half value1 value2

abbrev pub bit_xor_op : ℤ → ℤ → ℤ
bit_xor_op value1 value2 = Signed.bit_xor_op int_half value1 value2

abbrev pub bit_not : ℤ → ℤ
bit_not value1 = Signed.bit_not int_half value1

abbrev pub shl : ℤ → ℕ → ℤ
shl value1 value2 = Signed.shl int_half 0x1F value1 value2

abbrev pub shr : ℤ → ℕ → ℤ
shr value1 value2 = Signed.shr 0x1F value1 value2

abbrev pub eq : ℤ → ℤ → ℤ
eq value1 value2 = Signed.eq value1 value2

abbrev pub ne : ℤ → ℤ → ℤ
ne value1 value2 = Signed.ne value1 value2

abbrev pub lt : ℤ → ℤ → ℤ
lt value1 value2 = Signed.lt value1 value2

abbrev pub le : ℤ → ℤ → ℤ
le value1 value2 = Signed.le value1 value2

abbrev pub gt : ℤ → ℤ → ℤ
gt value1 value2 = Signed.gt value1 value2

abbrev pub ge : ℤ → ℤ → ℤ
ge value1 value2 = Signed.ge value1 value2

abbrev pub cmp : ℤ → ℤ → ℤ
cmp value1 value2 = Signed.cmp value1 value2

abbrev pub abs : ℤ → ℤ
abs value1 = Signed.abs int_half value1

abbrev pub min : ℤ → ℤ → ℤ
min value1 value2 = Signed.min value1 value2

abbrev pub max : ℤ → ℤ → ℤ
max value1 value2 = Signed.max value1 value2

abbrev pub sign : ℤ → ℤ
sign value1 = Signed.sign value1
