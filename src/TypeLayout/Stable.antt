-- ===== src/TypeLayout/Stable.antt =====
-- Laying a type out again changes nothing, so that the queries, which each lay it out, agree.
use Prim.Native.Nat.{bit_and, bit_or}
use libjit.Base.{
  ℕ, ◌≤◌, ◌≡◌, ◌≢◌, arith, Bool, true, false, some, List, [], ◌∷◌, ◌==◌, Bool-cases, Option-cases,
  inl, inr, ◌⊎◌,
}
use libjit.Base.Bits.{and-or_absorb_left}
use libjit.TypeLayout.Structs.{AlignedWithin}
use libjit.TypeLayout.{
  Header, Field, Totals, align_up, grow, clamp, place, place_all, start_totals, align_limit,
  record_totals, perform_layout, offset_is_internal, kind_struct,
}

-- The fields with new offsets.
abbrev pub with_offsets : List Field → List ℕ → List Field
with_offsets [] offsets = []
with_offsets (f ∷ fs) [] = f ∷ fs
with_offsets (f ∷ fs) (o ∷ offsets) = record f { offset = o } ∷ with_offsets fs offsets

still_internal : (n : ℕ) → (bit_and (bit_or offset_is_internal n) offset_is_internal == 0) ≡ false
still_internal n = ground (arith, and-or_absorb_left 64 offset_is_internal n)

-- The limits give this field one alignment.
abbrev SameClamp : ℕ → ℕ → Field → Type 0
SameClamp limit limit' f = clamp limit' f.alignment ≡ clamp limit f.alignment

place_again :
    (is_struct : Bool) (limit limit' : ℕ) (totals totals' : Totals) (f : Field) (o : ℕ)
    → SameClamp limit limit' f
    → place is_struct limit totals f ≡ some (totals', o)
    → place is_struct limit' totals (record f { offset = o }) ≡ some (totals', o)
unfolding place
place_again false limit limit' totals totals' f o same h = rw same h
place_again true limit limit' totals totals' f o same h =
    rw same (elim (Bool-cases (bit_and f.offset offset_is_internal == 0)) [
      | inl explicit ↦ ground arith
      | inr auto ↦ elim (Option-cases (align_up totals.size (clamp limit f.alignment))) [
        | inl fault ↦ ground arith
        | inr (start, e) ↦
            let set : o ≡ bit_or offset_is_internal start = ground arith in
            let kept : (bit_and o offset_is_internal == 0) ≡ false =
              rw set (still_internal start) in
            ground arith
      ]
    ])

abbrev AllSame : ℕ → ℕ → List Field → Type 0
AllSame limit limit' [] = Unit {0}
AllSame limit limit' (f ∷ fs) = SameClamp limit limit' f × AllSame limit limit' fs

-- Inversion of one round of the loop.
place_all-cons :
    (is_struct : Bool) (limit : ℕ) (totals last : Totals) (f : Field) (fs : List Field)
    (offsets : List ℕ)
    → place_all is_struct limit totals (f ∷ fs) ≡ some (last, offsets)
    → (mid : Totals) × (o : ℕ) × (os : List ℕ) × (place is_struct limit totals f ≡ some (mid, o))
      × (place_all is_struct limit mid fs ≡ some (last, os))
      × (offsets ≡ o ∷ os)
unfolding place_all
place_all-cons is_struct limit totals last f fs offsets h =
    elim (Option-cases (place is_struct limit totals f)) [
      | inl fault ↦ ground arith
      | inr ((mid, o), first) ↦ elim (Option-cases (place_all is_struct limit mid fs)) [
        | inl fault ↦ ground arith
        | inr ((end, os), tail) ↦ (mid, o, os, first, ground arith, ground arith)
      ]
    ]

place_all_again :
    (is_struct : Bool) (limit limit' : ℕ) (fs : List Field) (totals last : Totals)
    (offsets : List ℕ)
    → AllSame limit limit' fs
    → place_all is_struct limit totals fs ≡ some (last, offsets)
    → place_all is_struct limit' totals (with_offsets fs offsets) ≡ some (last, offsets)
unfolding place_all
place_all_again is_struct limit limit' [] totals last offsets same h = h
place_all_again is_struct limit limit' (f ∷ fs) totals last offsets (one, more) h =
    let (mid, o, os, first, tail, e) = place_all-cons is_struct limit totals last f fs offsets h in
    let again = place_again is_struct limit limit' totals mid f o one first in
    let rest = place_all_again is_struct limit limit' fs mid last os more tail in
    rw e (rw (again, rest))

-- What one round does to the greatest alignment.
abbrev MaxGrows : ℕ → Totals → Totals → Type 0
MaxGrows limit totals totals' =
    (totals.max_align ≤ totals'.max_align)
    × (limit ≢ 0 → totals.max_align ≤ limit → totals'.max_align ≤ limit)

clamp-le : (limit align : ℕ) → limit ≢ 0 → clamp limit align ≤ limit
unfolding clamp
clamp-le limit align ne = ground arith

place_max :
    (is_struct : Bool) (limit : ℕ) (totals totals' : Totals) (f : Field) (o : ℕ)
    → place is_struct limit totals f ≡ some (totals', o)
    → MaxGrows limit totals totals' × (clamp limit f.alignment ≤ totals'.max_align)
unfolding place grow
place_max false limit totals totals' f o h =
    elim (Option-cases (align_up f.size (clamp limit f.alignment))) [
      | inl fault ↦ ground arith
      | inr (extent, e) ↦ ground (arith, clamp-le limit f.alignment)
    ]
place_max true limit totals totals' f o h =
    elim (Bool-cases (bit_and f.offset offset_is_internal == 0)) [
      | inl explicit ↦ ground (arith, clamp-le limit f.alignment)
      | inr auto ↦ elim (Option-cases (align_up totals.size (clamp limit f.alignment))) [
        | inl fault ↦ ground arith
        | inr (start, e) ↦ ground (arith, clamp-le limit f.alignment)
      ]
    ]

place_all_max :
    (is_struct : Bool) (limit : ℕ) (fs : List Field) (totals last : Totals) (offsets : List ℕ)
    → place_all is_struct limit totals fs ≡ some (last, offsets)
    → MaxGrows limit totals last × AlignedWithin limit last.max_align fs
unfolding place_all
place_all_max is_struct limit [] totals last offsets h =
    let e : last ≡ totals = ground arith in rw e ((omega arith, λ ne le. le), tt)
place_all_max is_struct limit (f ∷ fs) totals last offsets h =
    let (mid, o, os, first, tail, e) = place_all-cons is_struct limit totals last f fs offsets h in
    let one = place_max is_struct limit totals mid f o first in
    let more = place_all_max is_struct limit fs mid last os tail in
    (
      (omega (arith, one.0.0, more.0.0), λ ne le. more.0.1 ne (one.0.1 ne le)),
      (omega (arith, one.1, more.0.0), more.1),
    )

all_same :
    (limit limit' bound : ℕ) (fs : List Field)
    → AlignedWithin limit bound fs
    → (limit' ≡ limit) ⊎ ((limit ≡ 0) × (bound ≤ limit'))
    → AllSame limit limit' fs
unfolding clamp
all_same limit limit' bound [] within choice = tt
all_same limit limit' bound (f ∷ fs) (one, more) choice =
    (ground arith, all_same limit limit' bound fs more choice)

limit_choice :
    (type : Header) (max_size max_align : ℕ)
    → (align_limit type ≢ 0 → 1 ≤ align_limit type → max_align ≤ align_limit type)
    → (align_limit (record_totals type max_size max_align) ≡ align_limit type)
      ⊎ ((align_limit type ≡ 0) × (max_align ≤ align_limit (record_totals type max_size max_align)))
unfolding align_limit record_totals
limit_choice type max_size max_align h = ground arith

record_totals_again :
    (type : Header) (max_size max_align : ℕ)
    → record_totals (record_totals type max_size max_align) max_size max_align
      ≡ record_totals type max_size max_align
unfolding record_totals
record_totals_again type max_size max_align = ground arith

-- Inversion of a layout that succeeds.
pub perform_layout_inv :
    (type after : Header) (fields : List Field) (offsets : List ℕ)
    → perform_layout type fields ≡ some (after, offsets)
    → (totals : Totals) × (max_size : ℕ) × (place_all
          (type.kind == kind_struct)
          (align_limit type)
          start_totals
          fields
        ≡ some (totals, offsets))
      × (align_up totals.max_size totals.max_align ≡ some max_size)
      × (after ≡ record_totals type max_size totals.max_align)
unfolding perform_layout
perform_layout_inv type after fields offsets h =
    elim (Option-cases
      (place_all (type.kind == kind_struct) (align_limit type) start_totals fields)) [
        | inl fault ↦ ground arith
        | inr ((totals, os), placed) ↦
            elim (Option-cases (align_up totals.max_size totals.max_align)) [
              | inl fault ↦ ground arith
              | inr (max_size, up) ↦ (totals, max_size, ground arith, up, ground arith)
            ]
      ]

-- Where `perform_layout` succeeds, doing it again on what it left succeeds with the same size, the
-- same alignment and the same offsets, whatever was set explicitly.
pub perform_layout_again :
    (type after : Header) (fields : List Field) (offsets : List ℕ)
    → perform_layout type fields ≡ some (after, offsets)
    → perform_layout after (with_offsets fields offsets) ≡ some (after, offsets)
unfolding perform_layout record_totals
perform_layout_again type after fields offsets h =
    let (totals, max_size, placed, up, e) = perform_layout_inv type after fields offsets h in
    let is_struct = type.kind == kind_struct in
    let limit : ℕ = align_limit type in
    let seen = place_all_max is_struct limit fields start_totals totals offsets placed in
    let same =
      all_same limit (align_limit (record_totals type max_size totals.max_align)) totals.max_align
        fields seen.1 (limit_choice type max_size totals.max_align seen.0.1) in
    let again =
      place_all_again is_struct limit (align_limit (record_totals type max_size totals.max_align))
        fields start_totals totals offsets same placed in
    rw e (rw (again, up, record_totals_again type max_size totals.max_align))
