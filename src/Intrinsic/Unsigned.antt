-- ===== src/Intrinsic/Unsigned.antt =====
-- The intrinsics of the unsigned types: the `jit_uint_` functions, whose bodies the `jit_ulong_`
-- ones repeat. `m` is the modulus of the type, `h` half of it. A function with a `*result`
-- argument returns what it stores there, with its own result.
pub mod Laws
use Prim.Native.Nat.{bit_and, bit_or, bit_xor}
use libjit.Base.{ℕ, ◌+◌, ◌-◌, ◌*◌, ◌/◌, ◌%◌, ◌^◌, ltb, leb, ◌==◌, not, if◌then◌else◌}
use libjit.Base.Int.{ℤ, pos, negsuc, neg_ℤ}
use libjit.Word.{residue, signed, wrap, flag}
use libjit.Intrinsic.{result_ok, result_division_by_zero}

unfoldable pub add : ℕ → ℕ → ℕ → ℕ
add m value1 value2 = (value1 + value2) % m

unfoldable pub sub : ℕ → ℕ → ℕ → ℕ
sub m value1 value2 = (value1 + m - value2) % m

unfoldable pub mul : ℕ → ℕ → ℕ → ℕ
mul m value1 value2 = value1 * value2 % m

unfoldable pub div : ℕ → ℕ → ℕ × ℤ
div value1 value2 =
    if value2 == 0 then (0, result_division_by_zero) else (value1 / value2, result_ok)

unfoldable pub rem : ℕ → ℕ → ℕ × ℤ
rem value1 value2 =
    if value2 == 0 then (0, result_division_by_zero) else (value1 % value2, result_ok)

unfoldable pub add_ovf : ℕ → ℕ → ℕ → ℕ × ℤ
unfolding add
add_ovf m value1 value2 = let result = add m value1 value2 in (result, flag (leb value1 result))

unfoldable pub sub_ovf : ℕ → ℕ → ℕ → ℕ × ℤ
unfolding sub
sub_ovf m value1 value2 = let result = sub m value1 value2 in (result, flag (leb result value1))

-- Negated as a value of the signed type.
unfoldable pub neg : ℕ → ℕ → ℕ
neg h value1 = residue (2 * h) (wrap h (neg_ℤ (signed h value1)))

unfoldable pub bit_not : ℕ → ℕ → ℕ
bit_not m value1 = m - 1 - value1

-- `mask` is 0x1F or 0x3F.
unfoldable pub shl : ℕ → ℕ → ℕ → ℕ → ℕ
shl m mask value1 value2 = value1 * 2 ^ bit_and value2 mask % m

unfoldable pub shr : ℕ → ℕ → ℕ → ℕ
shr mask value1 value2 = value1 / 2 ^ bit_and value2 mask

unfoldable pub eq : ℕ → ℕ → ℤ
eq value1 value2 = flag (value1 == value2)

unfoldable pub ne : ℕ → ℕ → ℤ
ne value1 value2 = flag (not (value1 == value2))

unfoldable pub lt : ℕ → ℕ → ℤ
lt value1 value2 = flag (ltb value1 value2)

unfoldable pub le : ℕ → ℕ → ℤ
le value1 value2 = flag (leb value1 value2)

unfoldable pub gt : ℕ → ℕ → ℤ
gt value1 value2 = flag (ltb value2 value1)

unfoldable pub ge : ℕ → ℕ → ℤ
ge value1 value2 = flag (leb value2 value1)

unfoldable pub cmp : ℕ → ℕ → ℤ
cmp value1 value2 =
    if ltb value1 value2 then negsuc 0 else if ltb value2 value1 then pos 1 else pos 0

unfoldable pub min : ℕ → ℕ → ℕ
min value1 value2 = if leb value1 value2 then value1 else value2

unfoldable pub max : ℕ → ℕ → ℕ
max value1 value2 = if leb value2 value1 then value1 else value2
