-- ===== src/Item.antt =====
-- The unions `jit_item` of jit/jit-interp.h and `un` of `jit_constant_t` of include/jit/jit-value.h, as far
-- as they hold integers: the number of their first eight bytes, of which the first is the lowest.
-- Reading and writing a member that is shorter leaves the other bytes alone.
pub mod Laws
use libjit.Base.{
  ℕ, ◌+◌, ◌-◌, ◌*◌, ◌/◌, ◌%◌, ◌^◌, Bool, true, false, not, ◌&&◌, Option, none, some, if◌then◌else◌,
}
use libjit.Base.Int.{ℤ, pos, ◌≤?◌}
use libjit.Word.{
  residue, signed, wrap, byte_half, short_half, int_half, long_half, byte_modulus, short_modulus,
  uint_modulus, ulong_modulus, min_value, max_value,
}

-- The kinds of the integer types that `jit_type_normalize` gives on a machine of 64 bits.
pub data Kind : Type 0 where
  sbyte ubyte short ushort int uint long ulong : Kind

-- Two normalized types are the same.
abbrev pub same_kind : Kind → Kind → Bool
same_kind sbyte sbyte = true
same_kind ubyte ubyte = true
same_kind short short = true
same_kind ushort ushort = true
same_kind int int = true
same_kind uint uint = true
same_kind long long = true
same_kind ulong ulong = true
same_kind a b = false

unfoldable pub int_value : ℕ → ℤ
int_value item = signed int_half (item % uint_modulus)

unfoldable pub uint_value : ℕ → ℕ
uint_value item = item % uint_modulus

unfoldable pub long_value : ℕ → ℤ
long_value item = signed long_half (item % ulong_modulus)

unfoldable pub ulong_value : ℕ → ℕ
ulong_value item = item % ulong_modulus

-- The bytes of an item from its start on, up to the modulus, are replaced.
unfoldable pub put : ℕ → ℕ → ℤ → ℕ
put modulus item value = item / modulus * modulus + residue modulus value

abbrev pub put_byte : ℕ → ℤ → ℕ
put_byte item value = put byte_modulus item value

abbrev pub put_short : ℕ → ℤ → ℕ
put_short item value = put short_modulus item value

abbrev pub put_int : ℕ → ℤ → ℕ
put_int item value = put uint_modulus item value

abbrev pub put_uint : ℕ → ℕ → ℕ
put_uint item value = put uint_modulus item (pos value)

abbrev pub put_long : ℕ → ℤ → ℕ
put_long item value = put ulong_modulus item value

abbrev pub put_ulong : ℕ → ℕ → ℕ
put_ulong item value = put ulong_modulus item (pos value)

-- The value of an integer that is converted to a type, as a cast does it.
unfoldable pub cast : Kind → ℤ → ℤ
cast sbyte x = wrap byte_half x
cast ubyte x = pos (residue byte_modulus x)
cast short x = wrap short_half x
cast ushort x = pos (residue short_modulus x)
cast int x = wrap int_half x
cast uint x = pos (residue uint_modulus x)
cast long x = wrap long_half x
cast ulong x = pos (residue ulong_modulus x)

-- Is the value one of the type?
unfoldable pub holds : Kind → ℤ → Bool
holds sbyte x = min_value byte_half ≤? x && x ≤? max_value byte_half
holds ubyte x = pos 0 ≤? x && x ≤? pos (byte_modulus - 1)
holds short x = min_value short_half ≤? x && x ≤? max_value short_half
holds ushort x = pos 0 ≤? x && x ≤? pos (short_modulus - 1)
holds int x = min_value int_half ≤? x && x ≤? max_value int_half
holds uint x = pos 0 ≤? x && x ≤? pos (uint_modulus - 1)
holds long x = min_value long_half ≤? x && x ≤? max_value long_half
holds ulong x = pos 0 ≤? x && x ≤? pos (ulong_modulus - 1)

-- What a conversion should give: nothing if it is checked and the value is not one of the type.
abbrev pub converted : Kind → Bool → ℤ → Option ℤ
converted kind check x = if check && not (holds kind x) then none else some (cast kind x)
