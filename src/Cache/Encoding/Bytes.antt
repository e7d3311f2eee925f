-- ===== src/Cache/Encoding/Bytes.antt =====
-- The bytes of the encoding as arithmetic.
use Prim.Native.Nat.{bit_and, bit_or}
use libjit.Base.{
  ℕ, zero, suc, ◌+◌, ◌-◌, ◌*◌, ◌/◌, ◌%◌, ◌^◌, ◌<◌, ◌≡◌, refl, arith, Bool, true, false, ◌&&◌, ◌==◌,
  if◌then◌else◌, ap, ◌∙◌,
}
use libjit.Base.Int.{pos, negsuc, ◌*ℤ◌}
use libjit.Base.Bits.{and_low, or_disjoint, bit_or_comm}
use libjit.Word.{residue, signed}
use libjit.Intrinsic.Signed.{shift_right}
use libjit.Cache.Encoding.{
  to_byte, low_byte, marked_byte, tagged_byte, one_byte, two_bytes, joined, four_bytes,
}

-- A statement on all bytes, by trying each.
module _ (test : ℕ → Bool) where
  passes : ℕ → Bool
  passes zero = true
  passes (suc top) = let below = passes top in if test top then below else false

  passes-lt : (top : ℕ) → passes top ≡ true → (byte : ℕ) → byte < top → test byte ≡ true
  unfolding passes
  passes-lt zero e byte lt = absurd (omega arith)
  passes-lt (suc top) e byte lt = let lower = passes-lt top in ground (arith, lower _ byte)

tags_table :
    passes
      (λ ch.
        bit_and ch 0x80 == ch / 128 * 128
        && (bit_and ch 0xC0 == ch / 64 * 64
            && (bit_and ch 0xE0 == ch / 32 * 32
                && (bit_and ch 0x3F == ch % 64
                    && (bit_and ch 0x1F == ch % 32 && bit_and ch 1 == ch % 2)))))
      256
    ≡ true
unfolding passes
tags_table = refl

pub tags :
    (ch : ℕ)
    → ch < 256
    → (bit_and ch 0x80 ≡ ch / 128 * 128)
      × (bit_and ch 0xC0 ≡ ch / 64 * 64)
      × (bit_and ch 0xE0 ≡ ch / 32 * 32)
      × (bit_and ch 0x3F ≡ ch % 64)
      × (bit_and ch 0x1F ≡ ch % 32)
      × (bit_and ch 1 ≡ ch % 2)
tags ch lt = ground (arith, passes-lt _ 256 tags_table ch lt)

-- Encoding a value that is not negative.
pub low_byte_pos : (n : ℕ) → low_byte (pos n) ≡ 2 * n % 256
unfolding low_byte to_byte residue ◌*ℤ◌
low_byte_pos n = ground arith

pub shifted_pos : (n k : ℕ) → to_byte (shift_right (pos n) k) ≡ n / 2 ^ k % 256
unfolding to_byte residue shift_right
shifted_pos n k = refl

pub tagged_6_pos : (n : ℕ) → n < 2 ^ 13 → tagged_byte (pos n) 7 0x3F 0x80 ≡ 128 + n / 128
unfolding tagged_byte residue shift_right
tagged_6_pos n lt = omega (
  arith,
  and_low 6 (n / 2 ^ 7 % 2 ^ 64),
  bit_or_comm (bit_and (n / 2 ^ 7 % 2 ^ 64) 0x3F) 0x80,
  or_disjoint 7 1 (bit_and (n / 2 ^ 7 % 2 ^ 64) 0x3F)
      (omega (arith, and_low 6 (n / 2 ^ 7 % 2 ^ 64))),
)

pub top_pos :
    (n : ℕ) → n < 2 ^ 28 → bit_or (to_byte (shift_right (pos n) 23)) 0xC0 ≡ 192 + n / 2 ^ 23
top_pos n lt = omega (
  arith,
  shifted_pos n 23,
  bit_or_comm (to_byte (shift_right (pos n) 23)) 0xC0,
  or_disjoint 6 3 (to_byte (shift_right (pos n) 23)) (omega (arith, shifted_pos n 23)),
)

-- Encoding the value -(n + 1).
pub low_byte_neg : (n : ℕ) → low_byte (negsuc n) ≡ 254 - 2 * (n % 128)
unfolding low_byte to_byte residue ◌*ℤ◌
low_byte_neg n = ground arith

pub shifted_neg : (n k : ℕ) → to_byte (shift_right (negsuc n) k) ≡ 255 - n / 2 ^ k % 256
unfolding to_byte residue shift_right
shifted_neg n k = omega arith

pub marked_byte_neg : (n : ℕ) → marked_byte (negsuc n) ≡ 255 - 2 * (n % 128)
unfolding marked_byte
marked_byte_neg n = omega (
  arith,
  low_byte_neg n,
  ap (λ x. bit_or x 1) (even n),
  or_disjoint 1 (127 - n % 128) 1 (omega arith),
)
  where
    even : (n : ℕ) → low_byte (negsuc n) ≡ (127 - n % 128) * 2 ^ 1
    even n = omega (arith, low_byte_neg n)

one_neg_table : passes (λ n. bit_or (bit_and (254 - 2 * n) 0x7E) 1 == 127 - 2 * n) 64 ≡ true
unfolding passes
one_neg_table = refl

pub one_neg : (n : ℕ) → n < 64 → bit_or (bit_and (low_byte (negsuc n)) 0x7E) 1 ≡ 127 - 2 * n
one_neg n lt =
    let e : low_byte (negsuc n) ≡ 254 - 2 * n = omega (arith, low_byte_neg n) in
    rw e (ground (arith, passes-lt _ 64 one_neg_table n lt))

pub tagged_6_neg : (n : ℕ) → n < 2 ^ 13 → tagged_byte (negsuc n) 7 0x3F 0x80 ≡ 128 + (63 - n / 128)
unfolding tagged_byte residue shift_right
tagged_6_neg n lt =
    let r : ℕ = 2 ^ 64 - 1 - n / 2 ^ 7 % 2 ^ 64 in
    omega (
      arith,
      and_low 6 r,
      bit_or_comm (bit_and r 0x3F) 0x80,
      or_disjoint 7 1 (bit_and r 0x3F) (omega (arith, and_low 6 r)),
    )

pub tagged_5_neg : (n : ℕ) → tagged_byte (negsuc n) 23 0x1F 0xC0 ≡ 192 + (31 - n / 2 ^ 23 % 32)
unfolding tagged_byte residue shift_right
tagged_5_neg n =
    let r : ℕ = 2 ^ 64 - 1 - n / 2 ^ 23 % 2 ^ 64 in
    omega (
      arith,
      and_low 5 r,
      bit_or_comm (bit_and r 0x1F) 0xC0,
      or_disjoint 6 3 (bit_and r 0x1F) (omega (arith, and_low 5 r)),
    )

-- Decoding.
one_table : passes (λ ch. bit_or (ch / 2) 0xC0 == ch / 2 + 192) 128 ≡ true
unfolding passes
one_table = refl

pub one_byte_lem :
    (ch : ℕ) → ch < 128 → one_byte ch ≡ (if ch % 2 == 0 then pos (ch / 2) else negsuc (63 - ch / 2))
unfolding one_byte signed
one_byte_lem ch lt = ground (arith, and_low 1 ch, passes-lt _ 128 one_table ch lt)

pub two_bytes_lem :
    (ch ch2 : ℕ)
    → ch2 < 256
    → let value = ch % 64 * 256 + ch2 in
      two_bytes ch ch2
      ≡ (if value % 2 == 0 then pos (value / 2) else negsuc (2 ^ 13 - 1 - value / 2))
unfolding two_bytes signed
two_bytes_lem ch ch2 lt =
    let v : ℕ = ch % 64 * 256 + ch2 in
    let low : bit_and ch 0x3F ≡ ch % 64 = and_low 6 ch in
    let e : bit_or (ch % 64 * 2 ^ 8) ch2 ≡ v = or_disjoint 8 (ch % 64) ch2 lt in
    let extended : bit_or (v / 2) 0xFFFFE000 ≡ v / 2 + 0xFFFFE000 =
      bit_or_comm (v / 2) 0xFFFFE000
      ∙ or_disjoint 13 (2 ^ 19 - 1) (v / 2) (omega arith)
      ∙ omega arith in
    rw (low, e) (ground (arith, and_low 1 v, extended))

pub joined_lem :
    (ch ch2 ch3 ch4 : ℕ)
    → ch2 < 256
    → ch3 < 256
    → ch4 < 256
    → joined ch ch2 ch3 ch4 ≡ ((ch * 256 + ch2) * 256 + ch3) * 256 + ch4
unfolding joined
joined_lem ch ch2 ch3 ch4 l2 l3 l4 =
    let a = or_disjoint 24 ch (ch2 * 2 ^ 16) (omega arith) in
    let b = or_disjoint 16 (ch * 256 + ch2) (ch3 * 2 ^ 8) (omega arith) in
    let c = or_disjoint 8 ((ch * 256 + ch2) * 256 + ch3) ch4 (omega arith) in
    let e : ch * 2 ^ 24 + ch2 * 2 ^ 16 ≡ (ch * 256 + ch2) * 2 ^ 16 = omega arith in
    let f : (ch * 256 + ch2) * 2 ^ 16 + ch3 * 2 ^ 8 ≡ ((ch * 256 + ch2) * 256 + ch3) * 2 ^ 8 =
      omega arith in
    rw (a, e, b, f, c) (omega arith)

pub four_bytes_lem :
    (ch ch2 ch3 ch4 : ℕ)
    → ch2 < 256
    → ch3 < 256
    → ch4 < 256
    → let value = ((ch % 32 * 256 + ch2) * 256 + ch3) * 256 + ch4 in
      four_bytes ch ch2 ch3 ch4
      ≡ (if value % 2 == 0 then pos (value / 2) else negsuc (2 ^ 28 - 1 - value / 2))
unfolding four_bytes signed
four_bytes_lem ch ch2 ch3 ch4 l2 l3 l4 =
    let v : ℕ = ((ch % 32 * 256 + ch2) * 256 + ch3) * 256 + ch4 in
    let low : bit_and ch 0x1F ≡ ch % 32 = and_low 5 ch in
    let e : joined (ch % 32) ch2 ch3 ch4 ≡ v = joined_lem (ch % 32) ch2 ch3 ch4 l2 l3 l4 in
    let extended : bit_or (v / 2) 0xF0000000 ≡ v / 2 + 0xF0000000 =
      bit_or_comm (v / 2) 0xF0000000 ∙ or_disjoint 28 15 (v / 2) (omega arith) ∙ omega arith in
    rw (low, e) (ground (arith, and_low 1 v, extended))
