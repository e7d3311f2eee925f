-- ===== src/Word/Laws.antt =====
-- Facts about conversion to a signed type, at every width.
use native.Mathlib.Nat.{mod-lt, mod-eq_of_lt}
use libjit.Base.{ℕ, ◌-◌, ◌*◌, ◌≤◌, ◌<◌, ◌≡◌, arith}
use libjit.Base.Int.{ℤ, pos, negsuc}
use libjit.Word.{residue, signed, wrap, Fits}

pub signed-Fits : (h r : ℕ) → r < 2 * h → Fits h (signed h r)
unfolding signed
signed-Fits h r lt = ground arith

pub residue-lt : (m : ℕ) (x : ℤ) → 0 < m → residue m x < m
unfolding residue
residue-lt m (pos n) p = mod-lt n p
residue-lt m (negsuc n) p = omega arith

pub wrap-Fits : (h : ℕ) (x : ℤ) → 0 < h → Fits h (wrap h x)
unfolding wrap
wrap-Fits h x p = signed-Fits h (residue (2 * h) x) (residue-lt (2 * h) x (omega arith))

pub residue_pos : (m n : ℕ) → n < m → residue m (pos n) ≡ n
unfolding residue
residue_pos m n lt = mod-eq_of_lt lt

pub residue_negsuc : (m n : ℕ) → n < m → residue m (negsuc n) ≡ m - 1 - n
unfolding residue
residue_negsuc m n lt = omega (arith, mod-eq_of_lt lt)

-- A value of the type is kept.
pub wrap_id : (h : ℕ) (x : ℤ) → Fits h x → wrap h x ≡ x
unfolding wrap signed
wrap_id h (pos n) f = ground (arith, residue_pos (2 * h) n)
wrap_id h (negsuc n) f = ground (arith, residue_negsuc (2 * h) n)

-- Just above the range the value comes back negative, just below it not.
pub wrap_above : (h n : ℕ) → h ≤ n → n < 2 * h → wrap h (pos n) ≡ negsuc (2 * h - 1 - n)
unfolding wrap signed
wrap_above h n ge lt = ground (arith, residue_pos (2 * h) n lt)

pub wrap_below : (h n : ℕ) → h ≤ n → n < 2 * h → wrap h (negsuc n) ≡ pos (2 * h - 1 - n)
unfolding wrap signed
wrap_below h n ge lt = ground (arith, residue_negsuc (2 * h) n lt)
