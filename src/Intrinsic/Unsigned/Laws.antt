-- ===== src/Intrinsic/Unsigned/Laws.antt =====
-- What the overflow tests, the division and the negation of the unsigned types compute.
use native.Mathlib.Nat.{div-add-mod, mod-lt, mod-eq_of_lt}
use libjit.Base.{
  ℕ, ◌+◌, ◌-◌, ◌*◌, ◌%◌, ◌≤◌, ◌<◌, ◌≡◌, ◌==◌, ◌⊎◌, inl, inr, refl, ltb, leb, arith, zero, suc,
  if◌then◌else◌,
}
use libjit.Base.Int.{pos, negsuc, neg_ℤ}
use libjit.Word.{flag, signed}
use libjit.Word.Laws.{wrap_id, wrap_above, residue_pos, residue_negsuc}
use libjit.Intrinsic.{result_ok, result_division_by_zero}
use libjit.Intrinsic.Unsigned.{add, add_ovf, sub_ovf, div, rem, neg, bit_not}

mod_once : (n m : ℕ) → m ≤ n → n < m + m → n % m ≡ n - m
mod_once n m ge lt = grind arith

-- The unsigned `add_ovf` stores the sum modulo `m` and returns 1 exactly if the sum is below `m`;
-- the unsigned `sub_ovf` returns 1 exactly if the second value is not greater than the first, and
-- then stores the difference, else the difference plus `m`.
pub add_sub_ovf_unsigned :
    (m a b : ℕ)
    → a < m
    → b < m
    → (add_ovf m a b ≡ (if ltb (a + b) m then a + b else a + b - m, flag (ltb (a + b) m)))
      × (sub_ovf m a b ≡ (if leb b a then a - b else a + m - b, flag (leb b a)))
unfolding add_ovf sub_ovf
add_sub_ovf_unsigned m a b ha hb = (
  ground (arith, mod-eq_of_lt {n = a + b} {m = m}, mod_once (a + b) m),
  ground (arith, mod-eq_of_lt {n = a + m - b} {m = m}, mod_once (a + m - b) m),
)

-- The unsigned `div` and `rem` store 0 and report a division by zero; by any other divisor they
-- succeed, and quotient times divisor plus remainder is the dividend, with the remainder smaller
-- than the divisor.
div-rem_unsigned :
    (a b : ℕ)
    → ((b ≡ 0)
        × (div a b ≡ (0, result_division_by_zero))
        × (rem a b ≡ (0, result_division_by_zero)))
      ⊎ (((div a b).1 ≡ result_ok)
          × ((rem a b).1 ≡ result_ok)
          × (b * (div a b).0 + (rem a b).0 ≡ a)
          × ((rem a b).0 < b))
unfolding div rem
div-rem_unsigned a zero = inl (refl, refl, refl)
div-rem_unsigned a (suc b) = inr (
  ground arith,
  ground arith,
  ground (arith, div-add-mod a (suc b)),
  ground (arith, mod-lt a {m = suc b}),
)

neg_value : (h a : ℕ) → 0 < h → a < 2 * h → neg h a ≡ (if a == 0 then 0 else 2 * h - a)
unfolding neg neg_ℤ signed
neg_value h a p lt = ground (
  arith,
  wrap_id h (pos 0),
  wrap_id h (negsuc (a - 1)),
  wrap_id h (pos (2 * h - a)),
  wrap_above h (2 * h - a),
  residue_pos (2 * h) 0,
  residue_pos (2 * h) (2 * h - a),
  residue_negsuc (2 * h) (a - 1),
  residue_negsuc (2 * h) (2 * h - 1 - (2 * h - a)),
)

-- The unsigned negation, done in the signed type, is the negation modulo 2 * h, and one more than
-- the complement.
pub neg_unsigned :
    (h a : ℕ)
    → 0 < h
    → a < 2 * h
    → (neg h a ≡ (2 * h - a) % (2 * h)) × (neg h a ≡ add (2 * h) (bit_not (2 * h) a) 1)
unfolding add bit_not
neg_unsigned h a p lt = (
  ground (arith, neg_value h a, mod-eq_of_lt {n = 2 * h - a} {m = 2 * h}, mod_once (2 * h) (2 * h)),
  ground (
    arith,
    neg_value h a,
    mod-eq_of_lt {n = 2 * h - 1 - a + 1} {m = 2 * h},
    mod_once (2 * h) (2 * h),
  ),
)
