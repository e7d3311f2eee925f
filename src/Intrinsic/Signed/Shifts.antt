-- ===== src/Intrinsic/Signed/Shifts.antt =====
-- Shifts of the signed types. The count is taken modulo the width, 2 ^ j bits.
use native.Mathlib.Nat.{
  div-add-mod, mod-lt, one-le-pow, mul-div_cancel, add-mul-div_right, div-eq_of_lt,
}
use libjit.Base.{ℕ, suc, ◌+◌, ◌-◌, ◌*◌, ◌/◌, ◌%◌, ◌^◌, ◌≤◌, ◌<◌, ◌≡◌, refl, arith, ap}
use libjit.Base.Int.{ℤ, pos, negsuc, ◌+ℤ◌, ◌*ℤ◌, ◌≤ℤ◌, ◌<ℤ◌}
use libjit.Base.Bits.{and_low}
use libjit.Word.{Fits}
use libjit.Word.Laws.{wrap_id}
use libjit.Intrinsic.Signed.{shl, shr, shift_right}

power_parts : (n s : ℕ) → (2 ^ s * (n / 2 ^ s) + n % 2 ^ s ≡ n) × (n % 2 ^ s < 2 ^ s) × (1 ≤ 2 ^ s)
power_parts n s =
    (div-add-mod n (2 ^ s), mod-lt n (one-le-pow s 2 (omega arith)), one-le-pow s 2 (omega arith))

suc_times : (n d : ℕ) → suc n * d ≡ n * d + d
suc_times n d = omega arith

-- Products with a positive number.
pos-times : (n d : ℕ) → pos n *ℤ pos d ≡ pos (n * d)
unfolding ◌*ℤ◌
pos-times n d = ground arith

negsuc-times : (n d : ℕ) → 1 ≤ d → negsuc n *ℤ pos d ≡ negsuc (suc n * d - 1)
unfolding ◌*ℤ◌
negsuc-times n d p = ground (arith, suc_times n d)

shift_right_floor :
    (a : ℤ) (s : ℕ)
    → (shift_right a s *ℤ pos (2 ^ s) ≤ℤ a) × (a <ℤ shift_right a s *ℤ pos (2 ^ s) +ℤ pos (2 ^ s))
unfolding shift_right ◌+ℤ◌
shift_right_floor (pos n) s = rw (pos-times (n / 2 ^ s) (2 ^ s)) (ground (arith, power_parts n s))
shift_right_floor (negsuc n) s =
    let parts = power_parts n s in
    rw (negsuc-times (n / 2 ^ s) (2 ^ s) parts.2)
      (ground (arith, parts, suc_times (n / 2 ^ s) (2 ^ s)))

times_minus_one : (n d : ℕ) → 1 ≤ d → (suc n * d - 1) / d ≡ n
times_minus_one n d p =
    let split : suc n * d - 1 ≡ (d - 1) + n * d = omega arith in
    rw (split, add-mul-div_right (d - 1) n {z = d} p)
      (omega (arith, div-eq_of_lt {n = d - 1} {m = d} (omega arith)))

shift_right-times : (a : ℤ) (s : ℕ) → shift_right (a *ℤ pos (2 ^ s)) s ≡ a
unfolding shift_right
shift_right-times (pos n) s =
    rw (pos-times n (2 ^ s)) (ap pos (mul-div_cancel n (one-le-pow s 2 (omega arith))))
shift_right-times (negsuc n) s =
    rw (negsuc-times n (2 ^ s) (one-le-pow s 2 (omega arith)))
      (ap negsuc (times_minus_one n (2 ^ s) (one-le-pow s 2 (omega arith))))

-- The right shift of a signed value divides by the power of two and rounds down, whatever the
-- sign; only the low `j` bits of the count are used (j is 5 for `jit_int`, 6 for `jit_long`).
pub shr_floor :
    (j k : ℕ) (a : ℤ)
    → (shr (2 ^ j - 1) a k *ℤ pos (2 ^ (k % 2 ^ j)) ≤ℤ a)
      × (a <ℤ shr (2 ^ j - 1) a k *ℤ pos (2 ^ (k % 2 ^ j)) +ℤ pos (2 ^ (k % 2 ^ j)))
unfolding shr
shr_floor j k a = rw (and_low j k) (shift_right_floor a (k % 2 ^ j))

-- A left shift that loses no bits multiplies by the power of two, and the right shift by the same
-- count undoes it.
pub shr-shl :
    (h j k : ℕ) (a : ℤ)
    → Fits h (a *ℤ pos (2 ^ (k % 2 ^ j)))
    → (shl h (2 ^ j - 1) a k ≡ a *ℤ pos (2 ^ (k % 2 ^ j)))
      × (shr (2 ^ j - 1) (shl h (2 ^ j - 1) a k) k ≡ a)
unfolding shr shl
shr-shl h j k a f =
    rw (and_low j k, wrap_id h (a *ℤ pos (2 ^ (k % 2 ^ j))) f)
      (refl, shift_right-times a (k % 2 ^ j))
