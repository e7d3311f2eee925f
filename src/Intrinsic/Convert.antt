-- ===== src/Intrinsic/Convert.antt =====
-- The conversions between the integer types, without and with a test that the value is kept.
use libjit.Base.{ℕ, ◌-◌, ◌%◌, leb}
use libjit.Base.Int.{ℤ, pos, ◌≤?◌, ◌==ℤ◌}
use libjit.Word.{
  residue, wrap, flag, byte_half, short_half, int_half, long_half, byte_modulus, short_modulus,
  uint_modulus, ulong_modulus,
}

unfoldable pub int_to_sbyte : ℤ → ℤ
int_to_sbyte value = wrap byte_half value

unfoldable pub int_to_ubyte : ℤ → ℤ
int_to_ubyte value = pos (residue byte_modulus value)

unfoldable pub int_to_short : ℤ → ℤ
int_to_short value = wrap short_half value

unfoldable pub int_to_ushort : ℤ → ℤ
int_to_ushort value = pos (residue short_modulus value)

unfoldable pub int_to_int : ℤ → ℤ
int_to_int value = value

unfoldable pub int_to_uint : ℤ → ℕ
int_to_uint value = residue uint_modulus value

unfoldable pub int_to_long : ℤ → ℤ
int_to_long value = wrap long_half value

unfoldable pub int_to_ulong : ℤ → ℕ
int_to_ulong value = residue ulong_modulus (wrap long_half value)

unfoldable pub uint_to_int : ℕ → ℤ
uint_to_int value = wrap int_half (pos value)

unfoldable pub uint_to_uint : ℕ → ℕ
uint_to_uint value = value

unfoldable pub uint_to_long : ℕ → ℤ
uint_to_long value = wrap long_half (pos value)

-- The body casts to `jit_long`, and the return converts to `jit_ulong`.
unfoldable pub uint_to_ulong : ℕ → ℕ
uint_to_ulong value = residue ulong_modulus (wrap long_half (pos value))

unfoldable pub long_to_int : ℤ → ℤ
long_to_int value = wrap int_half value

unfoldable pub long_to_uint : ℤ → ℕ
long_to_uint value = residue uint_modulus value

unfoldable pub long_to_long : ℤ → ℤ
long_to_long value = value

unfoldable pub long_to_ulong : ℤ → ℕ
long_to_ulong value = residue ulong_modulus value

unfoldable pub ulong_to_int : ℕ → ℤ
ulong_to_int value = wrap int_half (pos value)

unfoldable pub ulong_to_uint : ℕ → ℕ
ulong_to_uint value = value % uint_modulus

unfoldable pub ulong_to_long : ℕ → ℤ
ulong_to_long value = wrap long_half (pos value)

unfoldable pub ulong_to_ulong : ℕ → ℕ
ulong_to_ulong value = value

unfoldable pub int_to_sbyte_ovf : ℤ → ℤ × ℤ
int_to_sbyte_ovf value = let result = wrap byte_half value in (result, flag (result ==ℤ value))

unfoldable pub int_to_ubyte_ovf : ℤ → ℤ × ℤ
int_to_ubyte_ovf value =
    let result = pos (residue byte_modulus value) in (result, flag (result ==ℤ value))

unfoldable pub int_to_short_ovf : ℤ → ℤ × ℤ
int_to_short_ovf value = let result = wrap short_half value in (result, flag (result ==ℤ value))

unfoldable pub int_to_ushort_ovf : ℤ → ℤ × ℤ
int_to_ushort_ovf value =
    let result = pos (residue short_modulus value) in (result, flag (result ==ℤ value))

unfoldable pub int_to_int_ovf : ℤ → ℤ × ℤ
int_to_int_ovf value = (value, pos 1)

unfoldable pub int_to_uint_ovf : ℤ → ℕ × ℤ
int_to_uint_ovf value = (residue uint_modulus value, flag (pos 0 ≤? value))

unfoldable pub int_to_long_ovf : ℤ → ℤ × ℤ
int_to_long_ovf value = (wrap long_half value, pos 1)

unfoldable pub int_to_ulong_ovf : ℤ → ℕ × ℤ
int_to_ulong_ovf value = (residue ulong_modulus (wrap long_half value), flag (pos 0 ≤? value))

unfoldable pub uint_to_int_ovf : ℕ → ℤ × ℤ
uint_to_int_ovf value = let result = wrap int_half (pos value) in (result, flag (pos 0 ≤? result))

unfoldable pub uint_to_uint_ovf : ℕ → ℕ × ℤ
uint_to_uint_ovf value = (value, pos 1)

unfoldable pub uint_to_long_ovf : ℕ → ℤ × ℤ
uint_to_long_ovf value = (wrap long_half (pos value), pos 1)

unfoldable pub uint_to_ulong_ovf : ℕ → ℕ × ℤ
uint_to_ulong_ovf value = (value % ulong_modulus, pos 1)

unfoldable pub long_to_int_ovf : ℤ → ℤ × ℤ
long_to_int_ovf value =
    let result = wrap int_half value in (result, flag (wrap long_half result ==ℤ value))

unfoldable pub long_to_uint_ovf : ℤ → ℕ × ℤ
long_to_uint_ovf value =
    let result = residue uint_modulus value in
    (result, flag (wrap long_half (pos result) ==ℤ value))

unfoldable pub long_to_long_ovf : ℤ → ℤ × ℤ
long_to_long_ovf value = (value, pos 1)

unfoldable pub long_to_ulong_ovf : ℤ → ℕ × ℤ
long_to_ulong_ovf value = (residue ulong_modulus value, flag (pos 0 ≤? value))

-- `(jit_ulong)(jit_long)jit_max_int` is 2 ^ 31 - 1.
unfoldable pub ulong_to_int_ovf : ℕ → ℤ × ℤ
ulong_to_int_ovf value = (wrap int_half (pos value), flag (leb value (int_half - 1)))

unfoldable pub ulong_to_uint_ovf : ℕ → ℕ × ℤ
ulong_to_uint_ovf value = (value % uint_modulus, flag (leb value (uint_modulus - 1)))

unfoldable pub ulong_to_long_ovf : ℕ → ℤ × ℤ
ulong_to_long_ovf value =
    let result = wrap long_half (pos value) in (result, flag (pos 0 ≤? result))

unfoldable pub ulong_to_ulong_ovf : ℕ → ℕ × ℤ
ulong_to_ulong_ovf value = (value, pos 1)
