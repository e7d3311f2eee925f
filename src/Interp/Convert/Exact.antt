-- ===== src/Interp/Convert/Exact.antt =====
-- The conversion opcodes convert as the types say.
use libjit.Base.{ℕ, ◌%◌, ◌≡◌, arith, Bool, true, false}
use libjit.Base.Int.{ℤ, pos, negsuc}
use libjit.Word.{residue, signed, wrap, uint_modulus, ulong_modulus}
use libjit.Intrinsic.Convert.{
  int_to_sbyte_ovf, int_to_ubyte_ovf, int_to_short_ovf, int_to_ushort_ovf, uint_to_int_ovf,
  int_to_uint_ovf, long_to_uint_ovf, long_to_int_ovf, ulong_to_long_ovf, long_to_ulong_ovf,
}
use libjit.Item.{
  Kind, sbyte, ubyte, short, ushort, int, uint, long, ulong, int_value, uint_value, long_value,
  ulong_value, put, cast, holds, converted,
}
use libjit.Opcode.{
  ConvertOp, trunc_sbyte, trunc_ubyte, trunc_short, trunc_ushort, trunc_int, trunc_uint,
  check_sbyte, check_ubyte, check_short, check_ushort, check_int, check_uint, low_word, expand_int,
  expand_uint, check_low_word, check_signed_low_word, check_long, check_ulong,
}
use libjit.Interp.Answers.{answered, width, low_bytes, outcome_of}
use libjit.Interp.Convert.{run_convert}

-- The type that an opcode converts to, and whether it checks.
abbrev pub op_kind : ConvertOp → Kind
op_kind trunc_sbyte = sbyte
op_kind trunc_ubyte = ubyte
op_kind trunc_short = short
op_kind trunc_ushort = ushort
op_kind trunc_int = int
op_kind trunc_uint = uint
op_kind check_sbyte = sbyte
op_kind check_ubyte = ubyte
op_kind check_short = short
op_kind check_ushort = ushort
op_kind check_int = int
op_kind check_uint = uint
op_kind low_word = uint
op_kind expand_int = long
op_kind expand_uint = ulong
op_kind check_low_word = uint
op_kind check_signed_low_word = int
op_kind check_long = long
op_kind check_ulong = ulong

abbrev pub op_checks : ConvertOp → Bool
op_checks trunc_sbyte = false
op_checks trunc_ubyte = false
op_checks trunc_short = false
op_checks trunc_ushort = false
op_checks trunc_int = false
op_checks trunc_uint = false
op_checks low_word = false
op_checks expand_int = false
op_checks expand_uint = false
op_checks op = true

-- What an opcode does with a register that holds `x`.
abbrev pub Converts : ConvertOp → ℕ → ℕ → ℤ → Type 0
Converts op r0 r1 x =
    low_bytes (width (op_kind op)) (run_convert op r0 r1)
    ≡ outcome_of (width (op_kind op)) (answered (converted (op_kind op) (op_checks op) x))

pub Converts-int :
    (r0 r1 : ℕ) (x : ℤ)
    → holds int x ≡ true
    → r1 % uint_modulus ≡ residue uint_modulus x
    → Converts trunc_sbyte r0 r1 x
      × Converts trunc_ubyte r0 r1 x
      × Converts trunc_short r0 r1 x
      × Converts trunc_ushort r0 r1 x
      × Converts trunc_int r0 r1 x
      × Converts trunc_uint r0 r1 x
      × Converts check_sbyte r0 r1 x
      × Converts check_ubyte r0 r1 x
      × Converts check_short r0 r1 x
      × Converts check_ushort r0 r1 x
      × Converts check_uint r0 r1 x
      × Converts expand_int r0 r1 x
unfolding run_convert int_to_sbyte_ovf int_to_ubyte_ovf int_to_short_ovf int_to_ushort_ovf
    uint_to_int_ovf int_to_uint_ovf long_to_uint_ovf long_to_int_ovf ulong_to_long_ovf
    long_to_ulong_ovf int_value uint_value long_value ulong_value put cast holds residue wrap signed
Converts-int r0 r1 (pos n) range at = (
  ground arith,
  ground arith,
  ground arith,
  ground arith,
  ground arith,
  ground arith,
  ground arith,
  ground arith,
  ground arith,
  ground arith,
  ground arith,
  ground arith,
)
Converts-int r0 r1 (negsuc n) range at = (
  ground arith,
  ground arith,
  ground arith,
  ground arith,
  ground arith,
  ground arith,
  ground arith,
  ground arith,
  ground arith,
  ground arith,
  ground arith,
  ground arith,
)

pub Converts-uint :
    (r0 r1 : ℕ) (x : ℤ)
    → holds uint x ≡ true
    → r1 % uint_modulus ≡ residue uint_modulus x
    → Converts trunc_sbyte r0 r1 x
      × Converts trunc_ubyte r0 r1 x
      × Converts trunc_short r0 r1 x
      × Converts trunc_ushort r0 r1 x
      × Converts trunc_int r0 r1 x
      × Converts trunc_uint r0 r1 x
      × Converts check_ubyte r0 r1 x
      × Converts check_ushort r0 r1 x
      × Converts check_int r0 r1 x
      × Converts expand_uint r0 r1 x
unfolding run_convert int_to_sbyte_ovf int_to_ubyte_ovf int_to_short_ovf int_to_ushort_ovf
    uint_to_int_ovf int_to_uint_ovf long_to_uint_ovf long_to_int_ovf ulong_to_long_ovf
    long_to_ulong_ovf int_value uint_value long_value ulong_value put cast holds residue wrap signed
Converts-uint r0 r1 (pos n) range at = (
  ground arith,
  ground arith,
  ground arith,
  ground arith,
  ground arith,
  ground arith,
  ground arith,
  ground arith,
  ground arith,
  ground arith,
)
Converts-uint r0 r1 (negsuc n) range at = (
  ground arith,
  ground arith,
  ground arith,
  ground arith,
  ground arith,
  ground arith,
  ground arith,
  ground arith,
  ground arith,
  ground arith,
)

pub Converts-long :
    (r0 r1 : ℕ) (x : ℤ)
    → holds long x ≡ true
    → r1 % ulong_modulus ≡ residue ulong_modulus x
    → Converts low_word r0 r1 x
      × Converts check_low_word r0 r1 x
      × Converts check_signed_low_word r0 r1 x
      × Converts check_ulong r0 r1 x
unfolding run_convert int_to_sbyte_ovf int_to_ubyte_ovf int_to_short_ovf int_to_ushort_ovf
    uint_to_int_ovf int_to_uint_ovf long_to_uint_ovf long_to_int_ovf ulong_to_long_ovf
    long_to_ulong_ovf int_value uint_value long_value ulong_value put cast holds residue wrap signed
Converts-long r0 r1 (pos n) range at = (ground arith, ground arith, ground arith, ground arith)
Converts-long r0 r1 (negsuc n) range at = (ground arith, ground arith, ground arith, ground arith)

pub Converts-ulong :
    (r0 r1 : ℕ) (x : ℤ)
    → holds ulong x ≡ true
    → r1 % ulong_modulus ≡ residue ulong_modulus x
    → Converts low_word r0 r1 x × Converts check_low_word r0 r1 x × Converts check_long r0 r1 x
unfolding run_convert int_to_sbyte_ovf int_to_ubyte_ovf int_to_short_ovf int_to_ushort_ovf
    uint_to_int_ovf int_to_uint_ovf long_to_uint_ovf long_to_int_ovf ulong_to_long_ovf
    long_to_ulong_ovf int_value uint_value long_value ulong_value put cast holds residue wrap signed
Converts-ulong r0 r1 (pos n) range at = (ground arith, ground arith, ground arith)
Converts-ulong r0 r1 (negsuc n) range at = (ground arith, ground arith, ground arith)
