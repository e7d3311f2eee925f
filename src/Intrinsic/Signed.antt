-- ===== src/Intrinsic/Signed.antt =====
-- The intrinsics of the signed types: the `jit_int_` functions, whose bodies the `jit_long_` ones
-- repeat. `h` is half the modulus of the type. A function with a `*result` argument returns what
-- it stores there, with its own result.
pub mod Overflow
pub mod Division
pub mod Order
pub mod Shifts
use Prim.Native.Nat.{bit_and, bit_or, bit_xor}
use libjit.Base.{
  ℕ, ◌+◌, ◌-◌, ◌*◌, ◌/◌, ◌%◌, ◌^◌, ◌≤◌, ◌<◌, Bool, true, false, not, ◌&&◌, if◌then◌else◌,
}
use libjit.Base.Int.{ℤ, pos, negsuc, ◌+ℤ◌, ◌-ℤ◌, ◌*ℤ◌, neg_ℤ, quot, rem as rem_ℤ, ◌≤?◌, ◌<?◌, ◌==ℤ◌}
use libjit.Word.{residue, signed, wrap, min_value, flag}
use libjit.Intrinsic.{result_ok, result_arithmetic, result_division_by_zero}

unfoldable pub add : ℕ → ℤ → ℤ → ℤ
add h value1 value2 = wrap h (value1 +ℤ value2)

unfoldable pub sub : ℕ → ℤ → ℤ → ℤ
sub h value1 value2 = wrap h (value1 -ℤ value2)

unfoldable pub mul : ℕ → ℤ → ℤ → ℤ
mul h value1 value2 = wrap h (value1 *ℤ value2)

unfoldable pub div : ℕ → ℤ → ℤ → ℤ × ℤ
div h value1 value2 =
    if value2 ==ℤ pos 0
    then (pos 0, result_division_by_zero)
    else if value2 ==ℤ negsuc 0 && value1 ==ℤ min_value h
    then (pos 0, result_arithmetic)
    else (quot value1 value2, result_ok)

unfoldable pub rem : ℕ → ℤ → ℤ → ℤ × ℤ
rem h value1 value2 =
    if value2 ==ℤ pos 0
    then (pos 0, result_division_by_zero)
    else if value2 ==ℤ negsuc 0 && value1 ==ℤ min_value h
    then (pos 0, result_arithmetic)
    else (rem_ℤ value1 value2, result_ok)

unfoldable pub add_ovf : ℕ → ℤ → ℤ → ℤ × ℤ
unfolding add
add_ovf h value1 value2 =
    let result = add h value1 value2 in
    if pos 0 ≤? value1 && pos 0 ≤? value2
    then (result, flag (value1 ≤? result))
    else if value1 <? pos 0 && value2 <? pos 0
    then (result, flag (result <? value1))
    else (result, pos 1)

unfoldable pub sub_ovf : ℕ → ℤ → ℤ → ℤ × ℤ
unfolding sub
sub_ovf h value1 value2 =
    let result = sub h value1 value2 in
    if pos 0 ≤? value1 && pos 0 ≤? value2
    then (result, pos 1)
    else if value1 <? pos 0 && value2 <? pos 0
    then (result, pos 1)
    else if value1 <? pos 0
    then (result, flag (result ≤? value1))
    else (result, flag (value1 ≤? result))

unfoldable pub neg : ℕ → ℤ → ℤ
neg h value1 = wrap h (neg_ℤ value1)

-- The bitwise operations act on the two's complement patterns.
unfoldable pub bit_and_op : ℕ → ℤ → ℤ → ℤ
bit_and_op h value1 value2 = signed h (bit_and (residue (2 * h) value1) (residue (2 * h) value2))

unfoldable pub bit_or_op : ℕ → ℤ → ℤ → ℤ
bit_or_op h value1 value2 = signed h (bit_or (residue (2 * h) value1) (residue (2 * h) value2))

unfoldable pub bit_xor_op : ℕ → ℤ → ℤ → ℤ
bit_xor_op h value1 value2 = signed h (bit_xor (residue (2 * h) value1) (residue (2 * h) value2))

unfoldable pub bit_not : ℕ → ℤ → ℤ
bit_not h value1 = signed h (2 * h - 1 - residue (2 * h) value1)

-- `mask` is 0x1F or 0x3F.
unfoldable pub shl : ℕ → ℕ → ℤ → ℕ → ℤ
shl h mask value1 value2 = wrap h (value1 *ℤ pos (2 ^ bit_and value2 mask))

-- Arithmetic shift to the right: the quotient, rounded down.
unfoldable pub shift_right : ℤ → ℕ → ℤ
shift_right (pos n) k = pos (n / 2 ^ k)
shift_right (negsuc n) k = negsuc (n / 2 ^ k)

unfoldable pub shr : ℕ → ℤ → ℕ → ℤ
shr mask value1 value2 = shift_right value1 (bit_and value2 mask)

unfoldable pub eq : ℤ → ℤ → ℤ
eq value1 value2 = flag (value1 ==ℤ value2)

unfoldable pub ne : ℤ → ℤ → ℤ
ne value1 value2 = flag (not (value1 ==ℤ value2))

unfoldable pub lt : ℤ → ℤ → ℤ
lt value1 value2 = flag (value1 <? value2)

unfoldable pub le : ℤ → ℤ → ℤ
le value1 value2 = flag (value1 ≤? value2)

unfoldable pub gt : ℤ → ℤ → ℤ
gt value1 value2 = flag (value2 <? value1)

unfoldable pub ge : ℤ → ℤ → ℤ
ge value1 value2 = flag (value2 ≤? value1)

unfoldable pub cmp : ℤ → ℤ → ℤ
cmp value1 value2 = if value1 <? value2 then negsuc 0 else if value2 <? value1 then pos 1 else pos 0

unfoldable pub abs : ℕ → ℤ → ℤ
unfolding neg
abs h value1 = if pos 0 ≤? value1 then value1 else neg h value1

unfoldable pub min : ℤ → ℤ → ℤ
min value1 value2 = if value1 ≤? value2 then value1 else value2

unfoldable pub max : ℤ → ℤ → ℤ
max value1 value2 = if value2 ≤? value1 then value1 else value2

unfoldable pub sign : ℤ → ℤ
sign value1 = if value1 <? pos 0 then negsuc 0 else if pos 0 <? value1 then pos 1 else pos 0
