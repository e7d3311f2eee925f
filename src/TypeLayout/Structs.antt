-- ===== src/TypeLayout/Structs.antt =====
-- The layout of a structure whose fields are placed automatically.
use Prim.Native.Nat.{bit_and, bit_or}
use mathlib.Core.Path.{subst}
use native.Mathlib.Nat.{mod-eq_of_lt}
use libjit.Base.{
  ℕ, ◌+◌, ◌-◌, ◌%◌, ◌^◌, ◌≤◌, ◌<◌, ◌≡◌, ◌≢◌, refl, arith, true, false, Option, some, List, [], ◌∷◌,
  ◌==◌,
}
use libjit.TypeLayout.{
  Header, Field, Totals, align_up, grow, clamp, place, place_all, start_totals, align_limit,
  record_totals, perform_layout, offset_is_internal, visible_offset, kind_struct,
  layout_explicit_size,
}
use libjit.TypeLayout.Place.{align_up-RoundedUp, clamp_pos, visible_internal}

-- Each field has an alignment, and its offset was never set by the caller.
abbrev pub AllAutomatic : List Field → Type 0
AllAutomatic [] = Unit {0}
AllAutomatic (f ∷ fs) =
    (0 < f.alignment) × ((bit_and f.offset offset_is_internal == 0) ≡ false) × AllAutomatic fs

-- The fields' sizes and alignments together, a bound on the structure's size.
abbrev pub room : List Field → ℕ
room [] = 0
room (f ∷ fs) = f.size + f.alignment + room fs

-- From `start` on, the fields lie one behind another up to `end`, each at a multiple of its
-- alignment, clamped to the limit.
abbrev pub InOrder : ℕ → ℕ → List Field → List ℕ → ℕ → Type 0
InOrder limit start [] [] end = start ≤ end
InOrder limit start [] (o ∷ os) end = ⊥
InOrder limit start (f ∷ fs) [] end = ⊥
InOrder limit start (f ∷ fs) (o ∷ os) end =
    (start ≤ visible_offset o)
    × (visible_offset o % clamp limit f.alignment ≡ 0)
    × InOrder limit (visible_offset o + f.size) fs os end

-- No field's clamped alignment is greater than `bound`.
abbrev pub AlignedWithin : ℕ → ℕ → List Field → Type 0
AlignedWithin limit bound [] = Unit {0}
AlignedWithin limit bound (f ∷ fs) =
    (clamp limit f.alignment ≤ bound) × AlignedWithin limit bound fs

pub record LaidOut (limit : ℕ) (totals : Totals) (fields : List Field)
    (result : Option (Totals × List ℕ)) : Type 0 where
  pub last : Totals
  pub offsets : List ℕ
  pub succeeds : result ≡ some (last, offsets)
  pub in_order : InOrder limit totals.size fields offsets last.size
  pub whole : last.max_size ≡ last.size
  pub bounded : last.size ≤ totals.size + room fields
  pub aligns : AlignedWithin limit last.max_align fields
  pub grows : totals.max_align ≤ last.max_align
  pub align_bound : last.max_align ≤ totals.max_align + room fields

grow_parts :
    (totals : Totals) (size align : ℕ)
    → totals.max_size ≤ size
    → let r = grow totals size size align in
      (r.size ≡ size)
      × (r.max_size ≡ size)
      × (totals.max_align ≤ r.max_align)
      × (align ≤ r.max_align)
      × (r.max_align ≤ totals.max_align + align)
unfolding grow
grow_parts totals size align h = ground arith

module _ (limit : ℕ) where
  InOrder-cons :
      (n next start : ℕ) (f : Field) (fs : List Field) (os : List ℕ) (end : ℕ)
      → n < 2 ^ 63
      → start ≤ n
      → n % clamp limit f.alignment ≡ 0
      → next ≡ n + f.size
      → InOrder limit next fs os end
      → InOrder limit start (f ∷ fs) (bit_or offset_is_internal n ∷ os) end
  InOrder-cons n next start f fs os end small behind multiple e tail =
      rw (visible_internal n small)
        (behind, multiple, subst (λ s. InOrder limit s fs os end) e tail)

  place_auto :
      (totals : Totals) (f : Field)
      → 0 < f.alignment
      → (bit_and f.offset offset_is_internal == 0) ≡ false
      → totals.size + (f.size + f.alignment) < 2 ^ 63
      → (start : ℕ) → align_up totals.size (clamp limit f.alignment) ≡ some start
      → start < totals.size + f.alignment
      → place true limit totals f
        ≡ some (
          grow totals (start + f.size) (start + f.size) (clamp limit f.alignment),
          bit_or offset_is_internal start,
        )
  unfolding place
  place_auto totals f p auto fits start e lt =
      rw (auto, e, mod-eq_of_lt {n = start + f.size} {m = 2 ^ 64} (omega arith))

  pub place_all-LaidOut :
      (fields : List Field) (totals : Totals)
      → AllAutomatic fields
      → totals.size + room fields < 2 ^ 63
      → totals.max_size ≡ totals.size
      → LaidOut limit totals fields (place_all true limit totals fields)
  unfolding place_all
  place_all-LaidOut [] totals auto fits e = record {
    last = totals;
    offsets = [];
    succeeds = refl;
    in_order = omega arith;
    whole = e;
    bounded = omega arith;
    aligns = tt;
    grows = omega arith;
    align_bound = omega arith;
  }
  place_all-LaidOut (f ∷ fs) totals (p, auto, rest) fits e =
      let c = clamp_pos limit f.alignment p in
      let up = align_up-RoundedUp totals.size (clamp limit f.alignment) c.0 (omega arith) in
      let here =
        place_auto totals f p auto (omega arith) up.next up.succeeds (omega (arith, up.close)) in
      let totals' : Totals =
        grow totals (up.next + f.size) (up.next + f.size) (clamp limit f.alignment) in
      let g =
        grow_parts totals (up.next + f.size) (clamp limit f.alignment)
          (omega (arith, up.at_least)) in
      let small : up.next < 2 ^ 63 = omega (arith, up.close) in
      let tail =
        place_all-LaidOut fs totals' rest (omega (arith, up.close, g)) (omega (arith, g)) in
      record {
        last = tail.last;
        offsets = bit_or offset_is_internal up.next ∷ tail.offsets;
        succeeds = rw (here, tail.succeeds);
        in_order =
            InOrder-cons up.next totals'.size totals.size f fs tail.offsets tail.last.size small
              up.at_least up.multiple g.0 tail.in_order;
        whole = tail.whole;
        bounded = omega (arith, tail.bounded, g, up.close);
        aligns = (omega (arith, tail.grows, g), tail.aligns);
        grows = omega (arith, tail.grows, g);
        align_bound = omega (arith, tail.align_bound, g);
      }

-- What `perform_layout` makes of a structure.
pub record StructLayout (type : Header) (fields : List Field) (result : Option (Header × List ℕ))
    : Type 0 where
  pub after : Header
  pub offsets : List ℕ
  pub max_align : ℕ
  pub succeeds : result ≡ some (after, offsets)
  pub in_order : InOrder (align_limit type) 0 fields offsets after.size
  pub aligns : AlignedWithin (align_limit type) max_align fields
  pub recorded : (max_align ≤ after.alignment) × (type.alignment ≤ after.alignment)
  pub padded : bit_and type.layout_flags layout_explicit_size ≡ 0 → after.size % max_align ≡ 0
  pub explicit : bit_and type.layout_flags layout_explicit_size ≢ 0 → type.size ≤ after.size

InOrder-mono :
    (limit start : ℕ) (fs : List Field) (os : List ℕ) (end end' : ℕ)
    → end ≤ end'
    → InOrder limit start fs os end
    → InOrder limit start fs os end'
InOrder-mono limit start [] [] end end' le h = omega arith
InOrder-mono limit start [] (o ∷ os) end end' le h = h
InOrder-mono limit start (f ∷ fs) [] end end' le h = h
InOrder-mono limit start (f ∷ fs) (o ∷ os) end end' le (a, b, rest) =
    (a, b, InOrder-mono limit (visible_offset o + f.size) fs os end end' le rest)

record_totals_parts :
    (type : Header) (max_size max_align : ℕ)
    → let r = record_totals type max_size max_align in
      (max_size ≤ r.size)
      × (max_align ≤ r.alignment)
      × (type.alignment ≤ r.alignment)
      × (bit_and type.layout_flags layout_explicit_size ≡ 0 → r.size ≡ max_size)
      × (bit_and type.layout_flags layout_explicit_size ≢ 0 → type.size ≤ r.size)
unfolding record_totals
record_totals_parts type max_size max_align = ground arith

-- A structure whose fields all have an alignment and are placed automatically, and which stays below
-- 2 ^ 63 bytes with every field's size and alignment counted, is laid out without a fault. Each field
-- lies at a multiple of its alignment, clamped to the limit, behind the one before it; the last one
-- ends within the structure's size. Without an explicit size that is a multiple of the greatest
-- alignment `max_align`, and with one it is not below the explicit size. The alignment that is
-- recorded is at least `max_align`, and at least the one that was there before.
pub struct_layout :
    (type : Header) (fields : List Field)
    → type.kind ≡ kind_struct
    → AllAutomatic fields
    → room fields < 2 ^ 63 - 1
    → StructLayout type fields (perform_layout type fields)
unfolding perform_layout
struct_layout type fields kind auto fits =
    let limit : ℕ = align_limit type in
    let laid = place_all-LaidOut limit fields start_totals auto (omega arith) refl in
    let up =
      align_up-RoundedUp laid.last.max_size laid.last.max_align (omega (arith, laid.grows))
        (omega (arith, laid.whole, laid.bounded, laid.align_bound)) in
    let parts = record_totals_parts type up.next laid.last.max_align in
    let is_struct : (type.kind == kind_struct) ≡ true = ground arith in
    record {
      after = record_totals type up.next laid.last.max_align;
      offsets = laid.offsets;
      max_align = laid.last.max_align;
      succeeds = rw (is_struct, laid.succeeds, up.succeeds);
      in_order =
          InOrder-mono limit 0 fields laid.offsets laid.last.size _
            (omega (arith, laid.whole, up.at_least, parts.0)) laid.in_order;
      aligns = laid.aligns;
      recorded = (parts.1, parts.2);
      padded = λ automatic. rw (parts.3 automatic) up.multiple;
      explicit = parts.4;
    }
