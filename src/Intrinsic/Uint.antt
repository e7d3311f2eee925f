-- ===== src/Intrinsic/Uint.antt =====
-- The `jit_uint_` functions: the unsigned bodies at 32 bits, and `jit_uint_mul_ovf`, which goes
-- through the 64-bit type.
pub mod Mul
use Prim.Native.Nat.{bit_and, bit_or, bit_xor}
use libjit.Base.{ℕ, ◌+◌, ◌-◌, ◌*◌, ◌/◌, ◌%◌, ◌^◌, ltb, leb, ◌==◌, not, ◌||◌, if◌then◌else◌}
use libjit.Base.Int.{ℤ, pos}
use libjit.Word.{flag, int_half, uint_modulus, ulong_modulus}
use libjit.Intrinsic.Unsigned

abbrev pub add : ℕ → ℕ → ℕ
add value1 value2 = Unsigned.add uint_modulus value1 value2

abbrev pub sub : ℕ → ℕ → ℕ
sub value1 value2 = Unsigned.sub uint_modulus value1 value2

abbrev pub mul : ℕ → ℕ → ℕ
mul value1 value2 = Unsigned.mul uint_modulus value1 value2

abbrev pub div : ℕ → ℕ → ℕ × ℤ
div value1 value2 = Unsigned.div value1 value2

abbrev pub rem : ℕ → ℕ → ℕ × ℤ
rem value1 value2 = Unsigned.rem value1 value2

abbrev pub add_ovf : ℕ → ℕ → ℕ × ℤ
add_ovf value1 value2 = Unsigned.add_ovf uint_modulus value1 value2

abbrev pub sub_ovf : ℕ → ℕ → ℕ × ℤ
sub_ovf value1 value2 = Unsigned.sub_ovf uint_modulus value1 value2

unfoldable pub mul_ovf : ℕ → ℕ → ℕ × ℤ
mul_ovf value1 value2 =
    let temp = value1 * value2 % ulong_modulus in
    (temp % uint_modulus, flag (leb temp (uint_modulus - 1)))

abbrev pub neg : ℕ → ℕ
neg value1 = Unsigned.neg int_half value1

abbrev pub bit_and_op : ℕ → ℕ → ℕ
bit_and_op value1 value2 = bit_and value1 value2

abbrev pub bit_or_op : ℕ → ℕ → ℕ
bit_or_op value1 value2 = bit_or value1 value2

abbrev pub bit_xor_op : ℕ → ℕ → ℕ
bit_xor_op value1 value2 = bit_xor value1 value2

abbrev pub bit_not : ℕ → ℕ
bit_not value1 = Unsigned.bit_not uint_modulus value1

abbrev pub shl : ℕ → ℕ → ℕ
shl value1 value2 = Unsigned.shl uint_modulus 0x1F value1 value2

abbrev pub shr : ℕ → ℕ → ℕ
shr value1 value2 = Unsigned.shr 0x1F value1 value2

abbrev pub eq : ℕ → ℕ → ℤ
eq value1 value2 = Unsigned.eq value1 value2

abbrev pub ne : ℕ → ℕ → ℤ
ne value1 value2 = Unsigned.ne value1 value2

abbrev pub lt : ℕ → ℕ → ℤ
lt value1 value2 = Unsigned.lt value1 value2

abbrev pub le : ℕ → ℕ → ℤ
le value1 value2 = Unsigned.le value1 value2

abbrev pub gt : ℕ → ℕ → ℤ
gt value1 value2 = Unsigned.gt value1 value2

abbrev pub ge : ℕ → ℕ → ℤ
ge value1 value2 = Unsigned.ge value1 value2

abbrev pub cmp : ℕ → ℕ → ℤ
cmp value1 value2 = Unsigned.cmp value1 value2

abbrev pub min : ℕ → ℕ → ℕ
min value1 value2 = Unsigned.min value1 value2

abbrev pub max : ℕ → ℕ → ℕ
max value1 value2 = Unsigned.max value1 value2
