-- ===== src/Intrinsic/Signed/Order.antt =====
-- Comparison, minimum, maximum, sign and absolute value of the signed types.
use libjit.Base.{ℕ, suc, ◌*◌, ◌<◌, ◌≡◌, arith, if◌then◌else◌, ◌⊎◌}
use libjit.Base.{◌↔◌, zero}
use libjit.Base.Int.{ℤ, pos, negsuc, ◌≤ℤ◌, ◌<ℤ◌, nat_abs, neg_ℤ, ◌-ℤ◌, ◌==ℤ◌}
use libjit.Word.{signed, Fits, min_value}
use libjit.Word.Laws.{residue_pos, residue_negsuc, wrap_id, wrap_above}
use libjit.Intrinsic.Signed.{eq, ne, lt, le, gt, ge, cmp, min, max, abs, neg, sign, bit_not}

-- The six tests and the three-way comparison of the signed types agree with the order of the
-- integers: each test returns 1 exactly if its relation holds, and `cmp` returns -1, 0 or 1 as the
-- first value is less than, equal to or greater than the second.
pub cmp_decides :
    (a b : ℤ)
    → ((lt a b ≡ pos 1) ↔ (a <ℤ b))
      × ((le a b ≡ pos 1) ↔ (a ≤ℤ b))
      × ((gt a b ≡ pos 1) ↔ (b <ℤ a))
      × ((ge a b ≡ pos 1) ↔ (b ≤ℤ a))
      × ((eq a b ≡ pos 1) ↔ (a ≡ b))
      × ((ne a b ≡ pos 0) ↔ (a ≡ b))
      × ((cmp a b ≡ negsuc 0) ↔ (a <ℤ b))
      × ((cmp a b ≡ pos 1) ↔ (b <ℤ a))
      × ((cmp a b ≡ pos 0) ↔ (a ≡ b))
unfolding lt le gt ge eq ne cmp
cmp_decides a b = ground arith

-- `min` and `max` of the signed types are the two arguments, the smaller one first: they bound
-- each argument, and each is one of them.
pub min-max_bounds :
    (a b : ℤ)
    → (min a b ≤ℤ a)
      × (min a b ≤ℤ b)
      × (a ≤ℤ max a b)
      × (b ≤ℤ max a b)
      × (((min a b ≡ a) × (max a b ≡ b)) ⊎ ((min a b ≡ b) × (max a b ≡ a)))
unfolding min max
min-max_bounds a b = ground arith

-- `abs` of a signed type is the distance from zero, except for the least value of the type, whose
-- negation wraps: that is returned unchanged. `sign` is the comparison with zero.
pub abs_lem :
    (h : ℕ) (a : ℤ)
    → 0 < h
    → Fits h a
    → (abs h a ≡ (if a ==ℤ min_value h then a else pos (nat_abs a))) × (sign a ≡ cmp a (pos 0))
unfolding abs neg neg_ℤ sign cmp
abs_lem h (pos a) p f = ground arith
abs_lem h (negsuc a) p f = ground (arith, wrap_id h (pos (suc a)), wrap_above h (suc a))

-- Negation in a signed type undoes itself, also where it wraps.
pub neg-neg : (h : ℕ) (a : ℤ) → 0 < h → Fits h a → neg h (neg h a) ≡ a
unfolding neg neg_ℤ
neg-neg h (pos zero) p f = ground (arith, wrap_id h (pos 0))
neg-neg h (pos (suc a)) p f = ground (arith, wrap_id h (pos (suc a)), wrap_id h (negsuc a))
neg-neg h (negsuc a) p f =
    ground (arith, wrap_id h (negsuc a), wrap_id h (pos (suc a)), wrap_above h (suc a))

-- The bitwise complement of a signed value `a` is exactly -a - 1.
pub bit_not-eq : (h : ℕ) (a : ℤ) → 0 < h → Fits h a → bit_not h a ≡ neg_ℤ a -ℤ pos 1
unfolding bit_not neg_ℤ ◌-ℤ◌ signed
bit_not-eq h (pos a) p f = ground (arith, residue_pos (2 * h) a)
bit_not-eq h (negsuc a) p f = ground (arith, residue_negsuc (2 * h) a)
