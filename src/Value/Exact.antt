-- ===== src/Value/Exact.antt =====
-- `jit_constant_convert` converts as the types say.
use mathlib.Core.Option.{map as map_option}
use libjit.Base.{ℕ, ◌≡◌, refl, arith, Bool, true, false, Option, none, some}
use libjit.Base.Int.{pos}
use libjit.Word.{residue, signed, wrap}
use libjit.Intrinsic.Convert.{
  int_to_sbyte, int_to_ubyte, int_to_short, int_to_ushort, int_to_uint, int_to_long, int_to_ulong,
  uint_to_int, uint_to_long, uint_to_ulong, long_to_int, long_to_uint, long_to_ulong, ulong_to_int,
  ulong_to_uint, ulong_to_long, int_to_sbyte_ovf, int_to_ubyte_ovf, int_to_short_ovf,
  int_to_ushort_ovf, int_to_uint_ovf, int_to_ulong_ovf, uint_to_int_ovf, long_to_int_ovf,
  long_to_uint_ovf, long_to_ulong_ovf, ulong_to_int_ovf, ulong_to_uint_ovf, ulong_to_long_ovf,
}
use libjit.Item.{
  Kind, sbyte, ubyte, short, ushort, int, uint, long, ulong, int_value, uint_value, long_value,
  ulong_value, put, cast, holds, converted,
}
use libjit.Item.Laws.{every_kind, both}
use libjit.Base.{◌∙◌}
use libjit.Base.Maybe.{◌>>=◌}
use libjit.Value.{
  Constant, constant_convert, to_narrow, to_int, to_uint, to_long, to_ulong, convert_item,
  promote_int,
}

abbrev Exact : Kind → Kind → Bool → ℕ → ℕ → Type 0
Exact to from check result value =
    map_option (λ (un : ℕ). cast (promote_int to) (pos un))
      (convert_item to from check result value)
    ≡ converted to check (cast from (pos value))

abbrev Both : Kind → ℕ → ℕ → Kind → Type 0
Both from result value to = Exact to from true result value × Exact to from false result value

abbrev ToAll : Kind → Type 0
ToAll from =
    (result value : ℕ)
    → Both from result value sbyte
      × Both from result value ubyte
      × Both from result value short
      × Both from result value ushort
      × Both from result value int
      × Both from result value uint
      × Both from result value long
      × Both from result value ulong

from_int : ToAll int
unfolding convert_item to_narrow to_int to_uint to_long to_ulong int_to_sbyte int_to_ubyte
    int_to_short int_to_ushort int_to_sbyte_ovf int_to_ubyte_ovf int_to_short_ovf int_to_ushort_ovf
    int_to_uint int_to_uint_ovf int_to_long int_to_ulong int_to_ulong_ovf int_value uint_value put
    cast holds wrap residue signed
from_int result value = (
  (ground arith, ground arith),
  (ground arith, ground arith),
  (ground arith, ground arith),
  (ground arith, ground arith),
  (ground arith, ground arith),
  (ground arith, ground arith),
  (ground arith, ground arith),
  (ground arith, ground arith),
)

from_uint : ToAll uint
unfolding convert_item to_narrow to_int to_uint to_long to_ulong int_to_sbyte int_to_ubyte
    int_to_short int_to_ushort int_to_sbyte_ovf int_to_ubyte_ovf int_to_short_ovf int_to_ushort_ovf
    uint_to_int uint_to_int_ovf uint_to_long uint_to_ulong int_to_uint int_value uint_value put cast
    holds wrap residue signed
from_uint result value = (
  (ground arith, ground arith),
  (ground arith, ground arith),
  (ground arith, ground arith),
  (ground arith, ground arith),
  (ground arith, ground arith),
  (ground arith, ground arith),
  (ground arith, ground arith),
  (ground arith, ground arith),
)

from_long : ToAll long
unfolding convert_item to_narrow to_int to_uint to_long to_ulong int_to_sbyte int_to_ubyte
    int_to_short int_to_ushort int_to_sbyte_ovf int_to_ubyte_ovf int_to_short_ovf int_to_ushort_ovf
    long_to_int long_to_int_ovf long_to_uint long_to_uint_ovf long_to_ulong long_to_ulong_ovf
    int_value long_value put cast holds wrap residue signed
from_long result value = (
  (ground arith, ground arith),
  (ground arith, ground arith),
  (ground arith, ground arith),
  (ground arith, ground arith),
  (ground arith, ground arith),
  (ground arith, ground arith),
  (ground arith, ground arith),
  (ground arith, ground arith),
)

from_ulong : ToAll ulong
unfolding convert_item to_narrow to_int to_uint to_long to_ulong int_to_sbyte int_to_ubyte
    int_to_short int_to_ushort int_to_sbyte_ovf int_to_ubyte_ovf int_to_short_ovf int_to_ushort_ovf
    ulong_to_int ulong_to_int_ovf ulong_to_uint ulong_to_uint_ovf ulong_to_long ulong_to_long_ovf
    int_value ulong_value put cast holds wrap residue signed
from_ulong result value = (
  (ground arith, ground arith),
  (ground arith, ground arith),
  (ground arith, ground arith),
  (ground arith, ground arith),
  (ground arith, ground arith),
  (ground arith, ground arith),
  (ground arith, ground arith),
  (ground arith, ground arith),
)

from_all : (from : Kind) → ToAll (promote_int from)
from_all sbyte = from_int
from_all ubyte = from_uint
from_all short = from_int
from_all ushort = from_uint
from_all int = from_int
from_all uint = from_uint
from_all long = from_long
from_all ulong = from_ulong

-- Converting an item of a promoted type gives what the conversion of its value should give.
pub convert_item-converted :
    (to from : Kind) (check : Bool) (result value : ℕ)
    → Exact to (promote_int from) check result value
convert_item-converted to from check result value =
    let all : (k : Kind) → Both (promote_int from) result value k =
      every_kind (Both (promote_int from) result value) (from_all from result value) in
    both (λ b. Exact to (promote_int from) b result value) (all to) check

read_back :
    (o : Option ℕ) (type : Kind)
    → map_option
        (λ (c : Constant). cast (promote_int c.type) (pos c.un))
        (o >>= λ u. some (record { type = type; un = u }))
      ≡ map_option (λ (u : ℕ). cast (promote_int type) (pos u)) o
read_back none type = refl
read_back (some u) type = refl

-- `jit_constant_convert` between any two integer types: the result holds the value as one of the type that is
-- asked for; or, if overflow is to be checked and the type does not have the value, the conversion is
-- refused. The value is read as one of the promoted type.
pub constant_convert_lem :
    (result value : Constant) (type : Kind) (check : Bool)
    → map_option
        (λ (c : Constant). cast (promote_int c.type) (pos c.un))
        (constant_convert result value type check)
      ≡ converted type check (cast (promote_int value.type) (pos value.un))
unfolding constant_convert
constant_convert_lem result value type check =
    read_back (convert_item type (promote_int value.type) check result.un value.un) type
    ∙ convert_item-converted type value.type check result.un value.un
