-- ===== src/TypeLayout/Place.antt =====
-- One field placed: rounding up, and what the loop's body does to the totals.
use Prim.Native.Nat.{bit_or}
use native.Mathlib.Nat.{mod-lt, mod-eq_of_lt, div-add-mod, mul-mod_right}
use libjit.Base.{
  ℕ, ◌+◌, ◌-◌, ◌*◌, ◌/◌, ◌%◌, ◌^◌, ◌≤◌, ◌<◌, ◌≡◌, ◌≢◌, arith, Option, some, ◌==◌, Bool-cases, inl,
  inr,
}
use libjit.Base.Bits.{or_disjoint, and_low}
use libjit.TypeLayout.{align_up, clamp, visible_offset, offset_is_internal}

-- The next multiple of the alignment.
pub record RoundedUp (size align : ℕ) (result : Option ℕ) : Type 0 where
  pub next : ℕ
  pub succeeds : result ≡ some next
  pub multiple : next % align ≡ 0
  pub at_least : size ≤ next
  pub close : next < size + align

next_multiple : (size align : ℕ) → 0 < align → (size + (align - size % align)) % align ≡ 0
next_multiple size align p =
    let whole : size + (align - size % align) ≡ align * (size / align + 1) =
      grind (arith, div-add-mod size align, mod-lt size p) in
    rw whole (mul-mod_right align (size / align + 1))

pub align_up-RoundedUp :
    (size align : ℕ)
    → 0 < align
    → size + align ≤ 2 ^ 64
    → RoundedUp size align (align_up size align)
unfolding align_up
align_up-RoundedUp size align p fits = elim (Bool-cases (size % align == 0)) [
  | inl exact ↦ record {
    next = size;
    succeeds = ground arith;
    multiple = ground arith;
    at_least = omega arith;
    close = omega arith;
  }
  | inr inexact ↦
      let below : size % align < align = mod-lt size p in
      let partial : size % align ≢ 0 = ground arith in
      record {
        next = size + (align - size % align);
        succeeds = ground (arith, mod-eq_of_lt {n = size + (align - size % align)} {m = 2 ^ 64});
        multiple = next_multiple size align p;
        at_least = omega arith;
        close = omega arith;
      }
]

pub clamp_pos :
    (limit align : ℕ) → 0 < align → (0 < clamp limit align) × (clamp limit align ≤ align)
unfolding clamp
clamp_pos limit align p = ground arith

-- The offset of a field that is placed automatically, as the caller sees it.
pub visible_internal : (n : ℕ) → n < 2 ^ 63 → visible_offset (bit_or offset_is_internal n) ≡ n
unfolding visible_offset
visible_internal n lt =
    omega (arith, or_disjoint 63 1 n lt, and_low 63 (bit_or offset_is_internal n))
