-- ===== src/Intrinsic.antt =====
-- jit/jit-intrinsic.c, the integer intrinsics that compiled code calls, and the result codes of
-- include/jit/jit-except.h that they return.
-- `Signed` and `Unsigned` hold the bodies that a `jit_int_` function shares with its `jit_long_`
-- twin, and a `jit_uint_` function with its `jit_ulong_` twin, up to the type's width. `Int`,
-- `Uint`, `Long` and `Ulong` are those at the widths of the C types, with the functions that are
-- written in another way for one type. Signed arithmetic wraps, as it does on the machines that
-- libjit generates code for.
pub mod Signed
pub mod Unsigned
pub mod Int
pub mod Uint
pub mod Ulong
pub mod Long
pub mod Convert
use libjit.Base.Int.{ℤ, pos, negsuc}

abbrev pub result_ok : ℤ
result_ok = pos 1

abbrev pub result_overflow : ℤ
result_overflow = pos 0

abbrev pub result_arithmetic : ℤ
result_arithmetic = negsuc 0

abbrev pub result_division_by_zero : ℤ
result_division_by_zero = negsuc 1
