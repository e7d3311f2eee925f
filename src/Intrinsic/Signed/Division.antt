-- ===== src/Intrinsic/Signed/Division.antt =====
-- Quotient and remainder of the signed types.
use native.Mathlib.Nat.{div-add-mod, mod-lt, div-le_self}
use libjit.Base.{
  ℕ, suc, ◌+◌, ◌-◌, ◌*◌, ◌/◌, ◌%◌, ◌≤◌, ◌<◌, ◌≡◌, ◌≢◌, ◌⊎◌, inl, inr, zero, ap, Bool-cases, refl,
  arith, true, ◌&&◌,
}
use libjit.Base.Int.{ℤ, pos, negsuc, ◌+ℤ◌, ◌*ℤ◌, ◌≤ℤ◌, nat_abs, quot, rem as rem_ℤ, ◌==ℤ◌}
use libjit.Word.{Fits, min_value}
use libjit.Intrinsic.{result_ok, result_arithmetic, result_division_by_zero}
use libjit.Intrinsic.Signed.{div, rem}

-- The parts of a number divided.
div_parts : (a b : ℕ) → 0 < b → (b * (a / b) + a % b ≡ a) × (a % b < b) × (a / b ≤ a)
div_parts a b p = (div-add-mod a b, mod-lt a p, div-le_self a b)

-- The C quotient and remainder: the remainder has the sign of the dividend and is smaller than
-- the divisor.
quot-rem :
    (a b : ℤ)
    → b ≢ pos 0
    → (quot a b *ℤ b +ℤ rem_ℤ a b ≡ a)
      × (nat_abs (rem_ℤ a b) < nat_abs b)
      × (pos 0 ≤ℤ a → pos 0 ≤ℤ rem_ℤ a b)
      × (a ≤ℤ pos 0 → rem_ℤ a b ≤ℤ pos 0)
unfolding quot rem_ℤ ◌*ℤ◌ ◌+ℤ◌
quot-rem (pos a) (pos b) ne = ground (arith, div_parts a b)
quot-rem (pos a) (negsuc b) ne = ground (arith, div_parts a (suc b))
quot-rem (negsuc a) (pos b) ne = ground (arith, div_parts (suc a) b)
quot-rem (negsuc a) (negsuc b) ne = ground (arith, div_parts (suc a) (suc b))

halved : (a b : ℕ) → suc (suc b) * (a / suc (suc b)) ≤ a → 2 * (a / suc (suc b)) ≤ a
halved a b h = grind arith

quot-Fits :
    (h : ℕ) (a b : ℤ)
    → 0 < h
    → Fits h a
    → b ≢ pos 0
    → (b ≡ negsuc 0 → a ≢ min_value h)
    → Fits h (quot a b)
unfolding quot
quot-Fits h (pos a) (pos b) p f ne edge = ground (arith, div_parts a b)
quot-Fits h (pos a) (negsuc b) p f ne edge = ground (arith, div_parts a (suc b))
quot-Fits h (negsuc a) (pos b) p f ne edge = ground (arith, div_parts (suc a) b)
quot-Fits h (negsuc a) (negsuc zero) p f ne edge =
    let below : a ≢ h - 1 = λ e. edge refl (ap negsuc e) in ground (arith, div_parts (suc a) 1)
quot-Fits h (negsuc a) (negsuc (suc b)) p f ne edge = (omega arith, omega (arith, halved (suc a) b))

eq_of_==ℤ : (a b : ℤ) → (a ==ℤ b) ≡ true → a ≡ b
eq_of_==ℤ a b h = ground arith

-- A division of signed values in range: by zero, both `div` and `rem` store 0 and report it; the
-- least value by -1 is an arithmetic error; otherwise both report success, the quotient is in
-- range, quotient times divisor plus remainder is the dividend, and the remainder is smaller than
-- the divisor and on the dividend's side of zero.
pub div-rem :
    (h : ℕ) (a b : ℤ)
    → 0 < h
    → Fits h a
    → ((b ≡ pos 0)
        × (div h a b ≡ (pos 0, result_division_by_zero))
        × (rem h a b ≡ (pos 0, result_division_by_zero)))
      ⊎ (((b ≡ negsuc 0)
            × (a ≡ min_value h)
            × (div h a b ≡ (pos 0, result_arithmetic))
            × (rem h a b ≡ (pos 0, result_arithmetic)))
          ⊎ ((b ≢ pos 0)
              × ((div h a b).1 ≡ result_ok)
              × ((rem h a b).1 ≡ result_ok)
              × Fits h (div h a b).0
              × ((div h a b).0 *ℤ b +ℤ (rem h a b).0 ≡ a)
              × (nat_abs (rem h a b).0 < nat_abs b)
              × (pos 0 ≤ℤ a → pos 0 ≤ℤ (rem h a b).0)
              × (a ≤ℤ pos 0 → (rem h a b).0 ≤ℤ pos 0)))
unfolding div rem
div-rem h a b p f = elim (Bool-cases (b ==ℤ pos 0)) [
  | inl by_zero ↦ inl (eq_of_==ℤ b (pos 0) by_zero, rw by_zero, rw by_zero)
  | inr nonzero ↦ elim (Bool-cases (b ==ℤ negsuc 0 && a ==ℤ min_value h)) [
    | inl edge ↦ inr (inl (ground arith, ground arith, rw (nonzero, edge), rw (nonzero, edge)))
    | inr inside ↦
        let ne : b ≢ pos 0 = ground arith in
        let parts = quot-rem a b ne in
        rw (nonzero, inside)
          (inr (
            inr (
              ne,
              refl,
              refl,
              quot-Fits h a b p f ne (ground arith),
              parts.0,
              parts.1,
              parts.2,
              parts.3,
            )))
  ]
]
