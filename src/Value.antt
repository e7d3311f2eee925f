-- ===== src/Value.antt =====
-- jit/jit-value.c, values and constants of integer types, and `jit_constant_convert` for those types.
-- `Item.Kind` stands for the types; `jit_type_normalize` keeps them.
pub mod Exact
use libjit.Base.{ℕ, Bool, true, false, Option, none, some, if◌then◌else◌}
use libjit.Base.Int.{ℤ, pos, ◌==ℤ◌}
use libjit.Base.Maybe.{◌>>=◌}
use libjit.Word.{wrap, int_half}
use libjit.Intrinsic.Convert.{
  int_to_sbyte, int_to_ubyte, int_to_short, int_to_ushort, int_to_uint, int_to_long, int_to_ulong,
  uint_to_int, uint_to_long, uint_to_ulong, long_to_int, long_to_uint, long_to_ulong, ulong_to_int,
  ulong_to_uint, ulong_to_long, int_to_sbyte_ovf, int_to_ubyte_ovf, int_to_short_ovf,
  int_to_ushort_ovf, int_to_uint_ovf, int_to_ulong_ovf, uint_to_int_ovf, long_to_int_ovf,
  long_to_uint_ovf, long_to_ulong_ovf, ulong_to_int_ovf, ulong_to_uint_ovf, ulong_to_long_ovf,
}
use libjit.Item.{
  Kind, sbyte, ubyte, short, ushort, int, uint, long, ulong, int_value, uint_value, long_value,
  ulong_value, put_int, put_uint, put_long, put_ulong,
}

-- `struct _jit_value`: a constant has its `address`; any other value has a place in the frame, which
-- `_jit_gen_fix_value` gives to it alone.
pub data Value : Type 0 where
  constant : Kind → (address : ℤ) → Value
  temporary : Kind → (offset : ℕ) → Value

abbrev pub type_of : Value → Kind
type_of (constant kind address) = kind
type_of (temporary kind offset) = kind

-- `jit_type_promote_int`
abbrev pub promote_int : Kind → Kind
promote_int sbyte = int
promote_int short = int
promote_int ubyte = uint
promote_int ushort = uint
promote_int kind = kind

-- `jit_constant_t`
pub record Constant : Type 0 where
  pub type : Kind
  pub un : ℕ

-- `jit_value_get_constant` on a constant; `un` is what the union holds before.
unfoldable pub get_constant : Kind → ℤ → ℕ → Constant
get_constant long address un = record { type = long; un = put_long un address }
get_constant ulong address un = record { type = ulong; un = put_long un address }
get_constant kind address un = record { type = kind; un = put_int un (wrap int_half address) }

-- `jit_value_create_constant`, with `jit_value_create_nint_constant`, for a constant of that type.
unfoldable pub create_constant : Kind → ℕ → Value
create_constant long un = constant long (long_value un)
create_constant ulong un = constant ulong (long_value un)
create_constant kind un = constant kind (int_value un)

-- A checked conversion that stores into the result; `none` where it returns 0.
abbrev pub store_int : ℕ → ℤ × ℤ → Option ℕ
store_int result (value, status) = if status ==ℤ pos 0 then none else some (put_int result value)

abbrev pub store_uint : ℕ → ℕ × ℤ → Option ℕ
store_uint result (value, status) = if status ==ℤ pos 0 then none else some (put_uint result value)

abbrev pub store_long : ℕ → ℤ × ℤ → Option ℕ
store_long result (value, status) = if status ==ℤ pos 0 then none else some (put_long result value)

abbrev pub store_ulong : ℕ → ℕ × ℤ → Option ℕ
store_ulong result (value, status) =
    if status ==ℤ pos 0 then none else some (put_ulong result value)

-- The part of `jit_constant_convert` for a type of 8 or 16 bits, with the conversions from `jit_int` to it.
unfoldable pub to_narrow : (ℤ → ℤ) → (ℤ → ℤ × ℤ) → Kind → Bool → ℕ → ℕ → Option ℕ
to_narrow plain ovf int false result value = some (put_int result (plain (int_value value)))
to_narrow plain ovf int true result value = store_int result (ovf (int_value value))
to_narrow plain ovf uint false result value = some (put_int result (plain (int_value value)))
to_narrow plain ovf uint true result value = do
  result' ← store_int result (uint_to_int_ovf (uint_value value))
  store_int result' (ovf (int_value result'))
to_narrow plain ovf long false result value =
    some (put_int result (plain (long_to_int (long_value value))))
to_narrow plain ovf long true result value = do
  result' ← store_int result (long_to_int_ovf (long_value value))
  store_int result' (ovf (int_value result'))
to_narrow plain ovf ulong false result value =
    some (put_int result (plain (ulong_to_int (ulong_value value))))
to_narrow plain ovf ulong true result value = do
  result' ← store_int result (ulong_to_int_ovf (ulong_value value))
  store_int result' (ovf (int_value result'))
to_narrow plain ovf kind check result value = none

unfoldable pub to_int : Kind → Bool → ℕ → ℕ → Option ℕ
to_int int check result value = some (put_int result (int_value value))
to_int uint true result value = store_int result (uint_to_int_ovf (uint_value value))
to_int uint false result value = some (put_int result (uint_to_int (uint_value value)))
to_int long true result value = store_int result (long_to_int_ovf (long_value value))
to_int long false result value = some (put_int result (long_to_int (long_value value)))
to_int ulong true result value = store_int result (ulong_to_int_ovf (ulong_value value))
to_int ulong false result value = some (put_int result (ulong_to_int (ulong_value value)))
to_int kind check result value = none

-- A `jit_int` is passed as `uint_value` once, and converted back by the call.
unfoldable pub to_uint : Kind → Bool → ℕ → ℕ → Option ℕ
to_uint int true result value =
    store_uint result (int_to_uint_ovf (wrap int_half (pos (uint_value value))))
to_uint int false result value = some (put_uint result (int_to_uint (int_value value)))
to_uint uint check result value = some (put_uint result (uint_value value))
to_uint long true result value = store_uint result (long_to_uint_ovf (long_value value))
to_uint long false result value = some (put_uint result (long_to_uint (long_value value)))
to_uint ulong true result value = store_uint result (ulong_to_uint_ovf (ulong_value value))
to_uint ulong false result value = some (put_uint result (ulong_to_uint (ulong_value value)))
to_uint kind check result value = none

-- A `jit_uint` is passed as `int_value` once, and converted back by the call.
unfoldable pub to_long : Kind → Bool → ℕ → ℕ → Option ℕ
to_long int check result value = some (put_long result (int_to_long (int_value value)))
to_long uint check result value =
    some (put_long result (uint_to_long (int_to_uint (int_value value))))
to_long long check result value = some (put_long result (long_value value))
to_long ulong true result value = store_long result (ulong_to_long_ovf (ulong_value value))
to_long ulong false result value = some (put_long result (ulong_to_long (ulong_value value)))
to_long kind check result value = none

unfoldable pub to_ulong : Kind → Bool → ℕ → ℕ → Option ℕ
to_ulong int true result value = store_ulong result (int_to_ulong_ovf (int_value value))
to_ulong int false result value = some (put_ulong result (int_to_ulong (int_value value)))
to_ulong uint check result value = some (put_ulong result (uint_to_ulong (uint_value value)))
to_ulong long true result value = store_ulong result (long_to_ulong_ovf (long_value value))
to_ulong long false result value = some (put_ulong result (long_to_ulong (long_value value)))
to_ulong ulong check result value = some (put_ulong result (ulong_value value))
to_ulong kind check result value = none

-- The switch on the type that is converted to.
unfoldable pub convert_item : Kind → Kind → Bool → ℕ → ℕ → Option ℕ
convert_item sbyte from check result value =
    to_narrow int_to_sbyte int_to_sbyte_ovf from check result value
convert_item ubyte from check result value =
    to_narrow int_to_ubyte int_to_ubyte_ovf from check result value
convert_item short from check result value =
    to_narrow int_to_short int_to_short_ovf from check result value
convert_item ushort from check result value =
    to_narrow int_to_ushort int_to_ushort_ovf from check result value
convert_item int from check result value = to_int from check result value
convert_item uint from check result value = to_uint from check result value
convert_item long from check result value = to_long from check result value
convert_item ulong from check result value = to_ulong from check result value

-- `jit_constant_convert`, where the result may be the value's own place: `none` where it returns 0.
unfoldable pub constant_convert : Constant → Constant → Kind → Bool → Option Constant
constant_convert result value type check = do
  un ← convert_item type (promote_int value.type) check result.un value.un
  some (record { type = type; un = un })
