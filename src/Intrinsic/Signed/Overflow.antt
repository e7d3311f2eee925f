-- ===== src/Intrinsic/Signed/Overflow.antt =====
-- What the overflow tests of the signed types detect.
use libjit.Base.{ℕ, ◌+◌, ◌<◌, ◌≡◌, arith, Bool, ◌&&◌}
use libjit.Base.Int.{ℤ, pos, negsuc, ◌+ℤ◌, ◌-ℤ◌, ◌≤?◌}
use libjit.Word.{wrap, Fits, min_value, max_value, flag}
use libjit.Word.Laws.{wrap_id, wrap_above, wrap_below}
use libjit.Intrinsic.Signed.{add_ovf, sub_ovf}

-- Does the exact value lie in the range of the type?
abbrev pub in_range : ℕ → ℤ → Bool
in_range h x = min_value h ≤? x && x ≤? max_value h

-- `jit_int_add_ovf` and `jit_long_add_ovf` store the sum, wrapped, and return 1 exactly if the
-- exact sum of their two arguments lies in the range of the type.
pub add_ovf_lem :
    (h : ℕ) (a b : ℤ)
    → 0 < h
    → Fits h a
    → Fits h b
    → add_ovf h a b ≡ (wrap h (a +ℤ b), flag (in_range h (a +ℤ b)))
unfolding add_ovf ◌+ℤ◌
add_ovf_lem h (pos a) (pos b) p fa fb =
    ground (arith, wrap_id h (pos (a + b)), wrap_above h (a + b))
add_ovf_lem h (pos a) (negsuc b) p fa fb = ground arith
add_ovf_lem h (negsuc a) (pos b) p fa fb = ground arith
add_ovf_lem h (negsuc a) (negsuc b) p fa fb =
    ground (arith, wrap_id h (negsuc (a + b + 1)), wrap_below h (a + b + 1))

-- `jit_int_sub_ovf` and `jit_long_sub_ovf` store the difference, wrapped, and return 1 exactly if
-- the exact difference lies in the range of the type.
pub sub_ovf_lem :
    (h : ℕ) (a b : ℤ)
    → 0 < h
    → Fits h a
    → Fits h b
    → sub_ovf h a b ≡ (wrap h (a -ℤ b), flag (in_range h (a -ℤ b)))
unfolding sub_ovf ◌-ℤ◌
sub_ovf_lem h (pos a) (pos b) p fa fb = ground arith
sub_ovf_lem h (pos a) (negsuc b) p fa fb =
    ground (arith, wrap_id h (pos (a + b + 1)), wrap_above h (a + b + 1))
sub_ovf_lem h (negsuc a) (pos b) p fa fb =
    ground (arith, wrap_id h (negsuc (a + b)), wrap_below h (a + b))
sub_ovf_lem h (negsuc a) (negsuc b) p fa fb = ground arith
