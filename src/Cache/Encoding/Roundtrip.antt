-- ===== src/Cache/Encoding/Roundtrip.antt =====
-- What `UncompressInt` reads of what `CompressInt` wrote.
use Prim.Native.Nat.{bit_and, bit_or}
use mathlib.Core.Path.{subst}
use libjit.Base.{
  ℕ, ◌+◌, ◌-◌, ◌*◌, ◌/◌, ◌%◌, ◌^◌, ◌≤◌, ◌<◌, ◌≡◌, ◌≢◌, arith, Bool, some, List, [], ◌∷◌, ◌++◌, ltb,
  if◌then◌else◌, length, Bool-cases, inl, inr,
}
use libjit.Base.Int.{ℤ, pos, negsuc}
use libjit.Word.{Fits, signed}
use libjit.Intrinsic.Signed.{shift_right}
use libjit.Cache.Encoding.{
  compress_int, uncompress_int, one_byte, two_bytes, four_bytes, five_bytes, low_byte, marked_byte,
  tagged_byte, to_byte,
}
use libjit.Cache.Encoding.Bytes.{
  tags, low_byte_pos, shifted_pos, tagged_6_pos, top_pos, shifted_neg, marked_byte_neg, one_neg,
  tagged_6_neg, tagged_5_neg, one_byte_lem, two_bytes_lem, joined_lem, four_bytes_lem,
}

-- Whatever follows the bytes, and however much of it may be read, they are read as `value`.
pub record Reads (bytes : List ℕ) (value : ℤ) : Type 0 where
  pub reads :
      (rest : List ℕ) (len : ℕ) (error : Bool)
      → length bytes ≤ len
      → uncompress_int (record { bytes = bytes ++ rest; len = len; error = error })
        ≡ some (value, record { bytes = rest; len = len - length bytes; error = error })

one_Reads : (ch : ℕ) (value : ℤ) → ch < 128 → one_byte ch ≡ value → Reads (ch ∷ []) value
unfolding uncompress_int
one_Reads ch value lt e = record {
  reads = λ rest len error le. ground (arith, tags ch (omega arith));
}

two_Reads :
    (ch ch2 : ℕ) (value : ℤ)
    → 128 ≤ ch
    → ch < 192
    → two_bytes ch ch2 ≡ value
    → Reads (ch ∷ ch2 ∷ []) value
unfolding uncompress_int
two_Reads ch ch2 value ge lt e = record {
  reads = λ rest len error le. ground (arith, tags ch (omega arith));
}

four_Reads :
    (ch ch2 ch3 ch4 : ℕ) (value : ℤ)
    → 192 ≤ ch
    → ch < 224
    → four_bytes ch ch2 ch3 ch4 ≡ value
    → Reads (ch ∷ ch2 ∷ ch3 ∷ ch4 ∷ []) value
unfolding uncompress_int
four_Reads ch ch2 ch3 ch4 value ge lt e = record {
  reads = λ rest len error le. ground (arith, tags ch (omega arith));
}

five_Reads :
    (ch ch1 ch2 ch3 ch4 : ℕ) (value : ℤ)
    → 224 ≤ ch
    → ch < 256
    → five_bytes ch1 ch2 ch3 ch4 ≡ value
    → Reads (ch ∷ ch1 ∷ ch2 ∷ ch3 ∷ ch4 ∷ []) value
unfolding uncompress_int
five_Reads ch ch1 ch2 ch3 ch4 value ge lt e = record {
  reads = λ rest len error le. ground (arith, tags ch (omega arith));
}

one_pos : (n : ℕ) → n < 64 → Reads (compress_int (pos n)) (pos n)
unfolding compress_int
one_pos n lt =
    let e : compress_int (pos n) ≡ low_byte (pos n) ∷ [] = ground arith in
    let l = low_byte_pos n in
    rw e (
      one_Reads (low_byte (pos n)) (pos n) (omega arith)
        (ground (arith, one_byte_lem (low_byte (pos n)))))

two_pos : (n : ℕ) → 64 ≤ n → n < 2 ^ 13 → Reads (compress_int (pos n)) (pos n)
unfolding compress_int
two_pos n ge lt =
    let ch : ℕ = tagged_byte (pos n) 7 0x3F 0x80 in
    let e : compress_int (pos n) ≡ ch ∷ low_byte (pos n) ∷ [] = ground arith in
    let l = low_byte_pos n in
    let t = tagged_6_pos n lt in
    rw e (
      two_Reads ch (low_byte (pos n)) (pos n) (omega arith) (omega arith)
        (ground (arith, two_bytes_lem ch (low_byte (pos n)))))

four_pos : (n : ℕ) → 2 ^ 13 ≤ n → n < 2 ^ 28 → Reads (compress_int (pos n)) (pos n)
unfolding compress_int
four_pos n ge lt =
    let ch : ℕ = bit_or (to_byte (shift_right (pos n) 23)) 0xC0 in
    let ch2 : ℕ = to_byte (shift_right (pos n) 15) in
    let ch3 : ℕ = to_byte (shift_right (pos n) 7) in
    let ch4 : ℕ = low_byte (pos n) in
    let e : compress_int (pos n) ≡ ch ∷ ch2 ∷ ch3 ∷ ch4 ∷ [] = ground arith in
    let l : ch4 ≡ 2 * n % 256 = low_byte_pos n in
    let t : ch ≡ 192 + n / 2 ^ 23 = top_pos n lt in
    let e2 : ch2 ≡ n / 2 ^ 15 % 256 = shifted_pos n 15 in
    let e3 : ch3 ≡ n / 2 ^ 7 % 256 = shifted_pos n 7 in
    rw e (
      four_Reads ch ch2 ch3 ch4 (pos n) (omega arith) (omega arith)
        (ground (arith, four_bytes_lem ch ch2 ch3 ch4)))

one_neg_Reads : (n : ℕ) → n < 64 → Reads (compress_int (negsuc n)) (negsuc n)
unfolding compress_int
one_neg_Reads n lt =
    let ch : ℕ = bit_or (bit_and (low_byte (negsuc n)) 0x7E) 1 in
    let e : compress_int (negsuc n) ≡ ch ∷ [] = ground arith in
    let l : ch ≡ 127 - 2 * n = one_neg n lt in
    rw e (one_Reads ch (negsuc n) (omega arith) (ground (arith, one_byte_lem ch)))

two_neg : (n : ℕ) → 64 ≤ n → n < 2 ^ 13 → Reads (compress_int (negsuc n)) (negsuc n)
unfolding compress_int
two_neg n ge lt =
    let ch : ℕ = tagged_byte (negsuc n) 7 0x3F 0x80 in
    let ch2 : ℕ = marked_byte (negsuc n) in
    let e : compress_int (negsuc n) ≡ ch ∷ ch2 ∷ [] = ground arith in
    let l : ch2 ≡ 255 - 2 * (n % 128) = marked_byte_neg n in
    let t : ch ≡ 128 + (63 - n / 128) = tagged_6_neg n lt in
    rw e (
      two_Reads ch ch2 (negsuc n) (omega arith) (omega arith)
        (ground (arith, two_bytes_lem ch ch2)))

-- The four-byte form has room for 28 bits of a negative value.
four_neg : (n : ℕ) → 2 ^ 13 ≤ n → n < 2 ^ 29 → Reads (compress_int (negsuc n)) (negsuc (n % 2 ^ 28))
unfolding compress_int
four_neg n ge lt =
    let ch : ℕ = tagged_byte (negsuc n) 23 0x1F 0xC0 in
    let ch2 : ℕ = to_byte (shift_right (negsuc n) 15) in
    let ch3 : ℕ = to_byte (shift_right (negsuc n) 7) in
    let ch4 : ℕ = marked_byte (negsuc n) in
    let e : compress_int (negsuc n) ≡ ch ∷ ch2 ∷ ch3 ∷ ch4 ∷ [] = ground arith in
    let l : ch4 ≡ 255 - 2 * (n % 128) = marked_byte_neg n in
    let t : ch ≡ 192 + (31 - n / 2 ^ 23 % 32) = tagged_5_neg n in
    let e2 : ch2 ≡ 255 - n / 2 ^ 15 % 256 = shifted_neg n 15 in
    let e3 : ch3 ≡ 255 - n / 2 ^ 7 % 256 = shifted_neg n 7 in
    rw e (
      four_Reads ch ch2 ch3 ch4 (negsuc (n % 2 ^ 28)) (omega arith) (omega arith)
        (ground (arith, four_bytes_lem ch ch2 ch3 ch4)))

five_pos : (n : ℕ) → 2 ^ 28 ≤ n → n < 2 ^ 30 → Reads (compress_int (pos n)) (pos (2 * n))
unfolding compress_int five_bytes signed
five_pos n ge lt =
    let ch1 : ℕ = to_byte (shift_right (pos n) 23) in
    let ch2 : ℕ = to_byte (shift_right (pos n) 15) in
    let ch3 : ℕ = to_byte (shift_right (pos n) 7) in
    let ch4 : ℕ = low_byte (pos n) in
    let e : compress_int (pos n) ≡ 0xE0 ∷ ch1 ∷ ch2 ∷ ch3 ∷ ch4 ∷ [] = ground arith in
    let l : ch4 ≡ 2 * n % 256 = low_byte_pos n in
    let e1 : ch1 ≡ n / 2 ^ 23 % 256 = shifted_pos n 23 in
    let e2 : ch2 ≡ n / 2 ^ 15 % 256 = shifted_pos n 15 in
    let e3 : ch3 ≡ n / 2 ^ 7 % 256 = shifted_pos n 7 in
    rw e (
      five_Reads 0xE0 ch1 ch2 ch3 ch4 (pos (2 * n)) (omega arith) (omega arith)
        (ground (arith, joined_lem ch1 ch2 ch3 ch4)))

five_neg : (n : ℕ) → 2 ^ 29 ≤ n → n < 2 ^ 30 → Reads (compress_int (negsuc n)) (negsuc (2 * n))
unfolding compress_int five_bytes signed
five_neg n ge lt =
    let ch1 : ℕ = to_byte (shift_right (negsuc n) 23) in
    let ch2 : ℕ = to_byte (shift_right (negsuc n) 15) in
    let ch3 : ℕ = to_byte (shift_right (negsuc n) 7) in
    let ch4 : ℕ = marked_byte (negsuc n) in
    let e : compress_int (negsuc n) ≡ 0xE1 ∷ ch1 ∷ ch2 ∷ ch3 ∷ ch4 ∷ [] = ground arith in
    let l : ch4 ≡ 255 - 2 * (n % 128) = marked_byte_neg n in
    let e1 : ch1 ≡ 255 - n / 2 ^ 23 % 256 = shifted_neg n 23 in
    let e2 : ch2 ≡ 255 - n / 2 ^ 15 % 256 = shifted_neg n 15 in
    let e3 : ch3 ≡ 255 - n / 2 ^ 7 % 256 = shifted_neg n 7 in
    rw e (
      five_Reads 0xE1 ch1 ch2 ch3 ch4 (negsuc (2 * n)) (omega arith) (omega arith)
        (ground (arith, joined_lem ch1 ch2 ch3 ch4)))

-- `UncompressInt` reads what `CompressInt` wrote, whatever follows it, for every value from -2 ^ 28
-- to 2 ^ 28 - 1.
pub compress_int-Reads : (value : ℤ) → Fits (2 ^ 28) value → Reads (compress_int value) value
compress_int-Reads (pos n) fits = elim (Bool-cases (ltb n 64)) [
  | inl small ↦ one_pos n (ground arith)
  | inr large ↦ elim (Bool-cases (ltb n (2 ^ 13))) [
    | inl medium ↦ two_pos n (ground arith) (ground arith)
    | inr larger ↦ four_pos n (ground arith) (omega arith)
  ]
]
compress_int-Reads (negsuc n) fits = elim (Bool-cases (ltb n 64)) [
  | inl small ↦ one_neg_Reads n (ground arith)
  | inr large ↦ elim (Bool-cases (ltb n (2 ^ 13))) [
    | inl medium ↦ two_neg n (ground arith) (ground arith)
    | inr larger ↦
        let same : n % 2 ^ 28 ≡ n = omega arith in
        subst (λ x. Reads (compress_int (negsuc n)) (negsuc x)) same
          (four_neg n (ground arith) (omega arith))
  ]
]

-- What a value is read as that needs more than 29 bits.
abbrev pub misread : ℤ → ℤ
misread (pos n) = pos (2 * n)
misread (negsuc n) = if ltb n (2 ^ 29) then negsuc (n - 2 ^ 28) else negsuc (2 * n)

-- No value from -2 ^ 30 to 2 ^ 30 - 1 that needs more than 29 bits is read back: from -2 ^ 29 to
-- -2 ^ 28 - 1 it comes back 2 ^ 28 too great, and otherwise as twice the value, plus 1 if negative.
pub wide_misread :
    (value : ℤ)
    → ¬ (Fits (2 ^ 28) value)
    → Fits (2 ^ 30) value
    → Reads (compress_int value) (misread value) × (misread value ≢ value)
wide_misread (pos n) wide fits =
    let ge : 2 ^ 28 ≤ n = elim (Bool-cases (ltb n (2 ^ 28))) [
      | inl lt ↦ absurd (wide (ground arith))
      | inr ge ↦ ground arith
    ] in
    (five_pos n ge (omega arith), λ e. ground arith)
wide_misread (negsuc n) wide fits =
    let ge : 2 ^ 28 ≤ n = elim (Bool-cases (ltb n (2 ^ 28))) [
      | inl lt ↦ absurd (wide (ground arith))
      | inr ge ↦ ground arith
    ] in
    elim (Bool-cases (ltb n (2 ^ 29))) [
      | inl lt ↦
          let e : n % 2 ^ 28 ≡ n - 2 ^ 28 = ground arith in
          rw (lt, ← e) (four_neg n (omega arith) (ground arith), λ same. ground arith)
      | inr ge29 ↦ rw ge29 (five_neg n (ground arith) (omega arith), λ e. ground arith)
    ]

-- `CompressInt` stores one to five bytes, for any value.
pub length-compress_int :
    (value : ℤ) → (1 ≤ length (compress_int value)) × (length (compress_int value) ≤ 5)
unfolding compress_int
length-compress_int value = ground arith
