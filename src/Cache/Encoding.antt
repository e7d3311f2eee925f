-- ===== src/Cache/Encoding.antt =====
-- jit/jit-cache.c, `CompressInt` and `UncompressInt`: integers as one, two, four or five bytes, in
-- which the offsets of debug information are kept. A `long` has 64 bits.
pub mod Bytes
pub mod Roundtrip
use Prim.Native.Nat.{bit_and, bit_or}
use libjit.Base.{
  ℕ, ◌+◌, ◌-◌, ◌*◌, ◌/◌, ◌^◌, Bool, true, false, Option, none, some, List, [], ◌∷◌, ltb, leb, ◌==◌,
  if◌then◌else◌, get_elem?, drop,
}
use libjit.Base.Int.{ℤ, pos, negsuc, ◌*ℤ◌, ◌≤?◌, ◌<?◌}
use libjit.Base.Maybe.{◌>>=◌}
use libjit.Word.{residue, signed, byte_modulus, ulong_modulus, byte_half, int_half}
use libjit.Intrinsic.Signed.{shift_right}

-- `(unsigned char)value`
unfoldable pub to_byte : ℤ → ℕ
to_byte value = residue byte_modulus value

-- `(unsigned char)(data << 1)`, and with the lowest bit set.
unfoldable pub low_byte : ℤ → ℕ
low_byte value = to_byte (value *ℤ pos 2)

unfoldable pub marked_byte : ℤ → ℕ
marked_byte value = bit_or (low_byte value) 1

-- `((data >> k) & mask) | tag`
unfoldable pub tagged_byte : ℤ → ℕ → ℕ → ℕ → ℕ
tagged_byte value k mask tag =
    bit_or (bit_and (residue ulong_modulus (shift_right value k)) mask) tag

-- `CompressInt`: the bytes that are stored.
unfoldable pub compress_int : ℤ → List ℕ
compress_int value =
    let byte = λ (k : ℕ). to_byte (shift_right value k) in
    if pos 0 ≤? value
    then (if value <? pos 0x40
        then low_byte value ∷ []
        else if value <? pos (2 ^ 13)
        then tagged_byte value 7 0x3F 0x80 ∷ low_byte value ∷ []
        else if value <? pos (2 ^ 28)
        then bit_or (byte 23) 0xC0 ∷ byte 15 ∷ byte 7 ∷ low_byte value ∷ []
        else 0xE0 ∷ byte 23 ∷ byte 15 ∷ byte 7 ∷ low_byte value ∷ [])
    else if negsuc 0x3F ≤? value
    then bit_or (bit_and (low_byte value) 0x7E) 1 ∷ []
    else if negsuc (2 ^ 13 - 1) ≤? value
    then tagged_byte value 7 0x3F 0x80 ∷ marked_byte value ∷ []
    else if negsuc (2 ^ 29 - 1) ≤? value
    then tagged_byte value 23 0x1F 0xC0 ∷ byte 15 ∷ byte 7 ∷ marked_byte value ∷ []
    else 0xE1 ∷ byte 23 ∷ byte 15 ∷ byte 7 ∷ marked_byte value ∷ []

-- `data` is the memory from the reader's position on.
pub record Reader : Type 0 where
  pub bytes : List ℕ
  pub len : ℕ
  pub error : Bool

-- The values of the four forms; a set lowest bit marks a negative value.
unfoldable pub one_byte : ℕ → ℤ
one_byte ch = if bit_and ch 1 == 0 then pos (ch / 2) else signed byte_half (bit_or (ch / 2) 0xC0)

unfoldable pub two_bytes : ℕ → ℕ → ℤ
two_bytes ch ch2 =
    let value = bit_or (bit_and ch 0x3F * 2 ^ 8) ch2 in
    if bit_and value 1 == 0
    then pos (value / 2)
    else signed int_half (bit_or (value / 2) 0xFFFFE000)

unfoldable pub joined : ℕ → ℕ → ℕ → ℕ → ℕ
joined ch ch2 ch3 ch4 = bit_or (bit_or (bit_or (ch * 2 ^ 24) (ch2 * 2 ^ 16)) (ch3 * 2 ^ 8)) ch4

unfoldable pub four_bytes : ℕ → ℕ → ℕ → ℕ → ℤ
four_bytes ch ch2 ch3 ch4 =
    let value = joined (bit_and ch 0x1F) ch2 ch3 ch4 in
    if bit_and value 1 == 0
    then pos (value / 2)
    else signed int_half (bit_or (value / 2) 0xF0000000)

unfoldable pub five_bytes : ℕ → ℕ → ℕ → ℕ → ℤ
five_bytes ch ch2 ch3 ch4 = signed int_half (joined ch ch2 ch3 ch4)

abbrev pub failed : Reader → ℕ → ℤ × Reader
failed meta len = (pos 0, record meta { len = len; error = true })

-- `UncompressInt`; `none` is a read outside the memory.
unfoldable pub uncompress_int : Reader → Option (ℤ × Reader)
uncompress_int meta = if meta.len == 0 then some (failed meta 0) else (do
  ch ← get_elem? meta.bytes 0
  let meta' : Reader = record meta { bytes = drop 1 meta.bytes; len = meta.len - 1 }
  if bit_and ch 0x80 == 0
      then some (one_byte ch, meta')
      else if bit_and ch 0xC0 == 0x80
      then (if meta'.len == 0 then some (failed meta' 0) else (do
        ch2 ← get_elem? meta'.bytes 0
        some (two_bytes ch ch2, record meta' { bytes = drop 1 meta'.bytes; len = meta'.len - 1 })))
      else if bit_and ch 0xE0 == 0xC0
      then (if leb 3 meta'.len
          then (do
            ch2 ← get_elem? meta'.bytes 0
            ch3 ← get_elem? meta'.bytes 1
            ch4 ← get_elem? meta'.bytes 2
            some (
              four_bytes ch ch2 ch3 ch4,
              record meta' { bytes = drop 3 meta'.bytes; len = meta'.len - 3 },
            ))
          else some (failed meta' 0))
      else if leb 4 meta'.len
      then (do
        ch1 ← get_elem? meta'.bytes 0
        ch2 ← get_elem? meta'.bytes 1
        ch3 ← get_elem? meta'.bytes 2
        ch4 ← get_elem? meta'.bytes 3
        some (
          five_bytes ch1 ch2 ch3 ch4,
          record meta' { bytes = drop 4 meta'.bytes; len = meta'.len - 4 },
        ))
      else some (failed meta' 0))
