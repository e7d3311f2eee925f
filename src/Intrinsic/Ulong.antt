-- ===== src/Intrinsic/Ulong.antt =====
-- The `jit_ulong_` functions: the unsigned bodies at 64 bits, and `jit_ulong_mul_ovf`.
pub mod Mul
use Prim.Native.Nat.{bit_and, bit_or, bit_xor}
use libjit.Base.{ℕ, ◌+◌, ◌-◌, ◌*◌, ◌/◌, ◌%◌, ◌^◌, ltb, leb, ◌==◌, not, ◌||◌, if◌then◌else◌}
use libjit.Base.Int.{ℤ, pos}
use libjit.Word.{flag, long_half, uint_modulus, ulong_modulus}
use libjit.Intrinsic.Unsigned

abbrev pub add : ℕ → ℕ → ℕ
add value1 value2 = Unsigned.add ulong_modulus value1 value2

abbrev pub sub : ℕ → ℕ → ℕ
sub value1 value2 = Unsigned.sub ulong_modulus value1 value2

abbrev pub mul : ℕ → ℕ → ℕ
mul value1 value2 = Unsigned.mul ulong_modulus value1 value2

abbrev pub div : ℕ → ℕ → ℕ × ℤ
div value1 value2 = Unsigned.div value1 value2

abbrev pub rem : ℕ → ℕ → ℕ × ℤ
rem value1 value2 = Unsigned.rem value1 value2

abbrev pub add_ovf : ℕ → ℕ → ℕ × ℤ
add_ovf value1 value2 = Unsigned.add_ovf ulong_modulus value1 value2

abbrev pub sub_ovf : ℕ → ℕ → ℕ × ℤ
sub_ovf value1 value2 = Unsigned.sub_ovf ulong_modulus value1 value2

-- The body of `jit_ulong_mul_ovf`: the product of two 64-bit numbers by schoolbook multiplication
-- on 32-bit limbs. Its variables keep their names; a variable that is assigned again is primed.
-- `middle` is the four limbs with the two cross products added, the last of them a carry.
unfoldable pub middle : ℕ → ℕ → ℕ → ℕ → ℕ × ℕ × ℕ × ℕ
middle low1 high1 low2 high2 =
    let temp = low1 * low2 % ulong_modulus in
    let result1 = temp % uint_modulus in
    let result2 = temp / 2 ^ 32 in
    let temp' = low1 * high2 % ulong_modulus in
    let result2' = (result2 + temp' % uint_modulus) % uint_modulus in
    let result3 =
      if ltb result2' result2 then (temp' / 2 ^ 32 + 1) % uint_modulus else temp' / 2 ^ 32 in
    let temp'' = high1 * low2 % ulong_modulus in
    let result2'' = (result2' + temp'' % uint_modulus) % uint_modulus in
    let result3' =
      if ltb result2'' result2'
      then (result3 + (temp'' / 2 ^ 32 + 1) % uint_modulus) % uint_modulus
      else (result3 + temp'' / 2 ^ 32) % uint_modulus in
    (result1, result2'', result3', if ltb result3' result3 then 1 else 0)

-- The two upper limbs, with the product of the high limbs added.
unfoldable pub upper : ℕ → ℕ → ℕ → ℕ → ℕ × ℕ
upper high1 high2 result3 result4 =
    let temp = high1 * high2 % ulong_modulus in
    let result3' = (result3 + temp % uint_modulus) % uint_modulus in
    let result4' =
      if ltb result3' result3
      then (result4 + (temp / 2 ^ 32 + 1) % uint_modulus) % uint_modulus
      else (result4 + temp / 2 ^ 32) % uint_modulus in
    (result3', result4')

unfoldable pub mul_ovf : ℕ → ℕ → ℕ × ℤ
mul_ovf value1 value2 =
    let high1 = value1 / 2 ^ 32 in
    let low1 = value1 % uint_modulus in
    let high2 = value2 / 2 ^ 32 in
    let low2 = value2 % uint_modulus in
    let (result1, result2, result3, result4) = middle low1 high1 low2 high2 in
    let (result3', result4') = upper high1 high2 result3 result4 in
    if not (result3' == 0) || not (result4' == 0)
    then (ulong_modulus - 1, pos 0)
    else (bit_or (result2 * 2 ^ 32) result1, pos 1)

abbrev pub neg : ℕ → ℕ
neg value1 = Unsigned.neg long_half value1

abbrev pub bit_and_op : ℕ → ℕ → ℕ
bit_and_op value1 value2 = bit_and value1 value2

abbrev pub bit_or_op : ℕ → ℕ → ℕ
bit_or_op value1 value2 = bit_or value1 value2

abbrev pub bit_xor_op : ℕ → ℕ → ℕ
bit_xor_op value1 value2 = bit_xor value1 value2

abbrev pub bit_not : ℕ → ℕ
bit_not value1 = Unsigned.bit_not ulong_modulus value1

abbrev pub shl : ℕ → ℕ → ℕ
shl value1 value2 = Unsigned.shl ulong_modulus 0x3F value1 value2

abbrev pub shr : ℕ → ℕ → ℕ
shr value1 value2 = Unsigned.shr 0x3F value1 value2

abbrev pub eq : ℕ → ℕ → ℤ
eq value1 value2 = Unsigned.eq value1 value2

abbrev pub ne : ℕ → ℕ → ℤ
ne value1 value2 = Unsigned.ne value1 value2

abbrev pub lt : ℕ → ℕ → ℤ
lt value1 value2 = Unsigned.lt value1 value2

abbrev pub le : ℕ → ℕ → ℤ
le value1 value2 = Unsigned.le value1 value2

abbrev pub gt : ℕ → ℕ → ℤ
gt value1 value2 = Unsigned.gt value1 value2

abbrev pub ge : ℕ → ℕ → ℤ
ge value1 value2 = Unsigned.ge value1 value2

abbrev pub cmp : ℕ → ℕ → ℤ
cmp value1 value2 = Unsigned.cmp value1 value2

abbrev pub min : ℕ → ℕ → ℕ
min value1 value2 = Unsigned.min value1 value2

abbrev pub max : ℕ → ℕ → ℕ
max value1 value2 = Unsigned.max value1 value2
