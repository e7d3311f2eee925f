-- ===== src/Word.antt =====
-- Machine integers: include/jit/jit-defs.h.in, the types and the limits of the integer types.
-- A signed type is given by `h`, half its modulus (2 ^ 31 for `jit_int`, 2 ^ 63 for `jit_long`);
-- its values are the integers from -h to h - 1. An unsigned type is given by its modulus `m`; its
-- values are the numbers below `m`. Conversions reduce modulo 2 * h, as two's complement does.
pub mod Laws
use libjit.Base.{ℕ, ◌+◌, ◌-◌, ◌*◌, ◌/◌, ◌%◌, ◌^◌, ◌≤◌, ◌<◌, Bool, true, false, ltb, if◌then◌else◌}
use libjit.Base.Int.{ℤ, pos, negsuc, pos_part, neg_part}

-- The value of an integer converted to the unsigned type of modulus `m`.
unfoldable pub residue : ℕ → ℤ → ℕ
residue m (pos n) = n % m
residue m (negsuc n) = m - 1 - n % m

-- The signed value of the bit pattern `r`, which is below 2 * h.
unfoldable pub signed : ℕ → ℕ → ℤ
signed h r = if ltb r h then pos r else negsuc (2 * h - 1 - r)

-- The value of an integer converted to the signed type.
unfoldable pub wrap : ℕ → ℤ → ℤ
wrap h x = signed h (residue (2 * h) x)

abbrev pub Fits : ℕ → ℤ → Type 0
Fits h x = (neg_part x ≤ h) × (pos_part x < h)

abbrev pub byte_half : ℕ
byte_half = 2 ^ 7

abbrev pub short_half : ℕ
short_half = 2 ^ 15

abbrev pub int_half : ℕ
int_half = 2 ^ 31

abbrev pub long_half : ℕ
long_half = 2 ^ 63

abbrev pub byte_modulus : ℕ
byte_modulus = 2 ^ 8

abbrev pub short_modulus : ℕ
short_modulus = 2 ^ 16

abbrev pub uint_modulus : ℕ
uint_modulus = 2 ^ 32

abbrev pub ulong_modulus : ℕ
ulong_modulus = 2 ^ 64

-- `jit_min_int` and its kin.
abbrev pub min_value : ℕ → ℤ
min_value h = negsuc (h - 1)

abbrev pub max_value : ℕ → ℤ
max_value h = pos (h - 1)

-- The value of a C test, as a `jit_int`.
abbrev pub flag : Bool → ℤ
flag true = pos 1
flag false = pos 0
