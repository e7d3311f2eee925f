-- ===== src/Cache/Method/Regions.antt =====
-- The regions of a method that is being written lie end to end, whatever is done.
use mathlib.Core.Path.{subst}
use mathlib.Core.Option.{some-injective}
use libjit.Base.Maybe.{some≢none}
use libjit.Base.{
  Bool, ℕ, ◌+◌, ◌-◌, ◌≤◌, ◌<◌, ◌≡◌, ◌⊎◌, inl, inr, refl, arith, ◌||◌, none, some, List, [], ◌∷◌,
  ltb, leb, ◌==◌, if◌then◌else◌, sym, ◌∙◌, Bool-cases, Option-cases,
}
use libjit.Base.Int.{pos, sub_ℕ}
use libjit.Cache.{Posn, alloc, round_down}
use libjit.Cache.Alloc.{full_of_none, full_of_full}
use libjit.Cache.Debug.{Debug, write, finish}
use libjit.Cache.Debug.Written.{IsFull}
use libjit.Cache.Method.Takes.{
  take_none, take_one, Takes-kept, Takes-IsFull, Takes-grows, write-Takes, finish-Takes,
}
use native.Mathlib.Nat.{mod-lt}
use libjit.Cache.Method.{
  Region, Writing, region_size, move, open_region, new_region, with_cookie, set_cookie, align_code,
  mark_bytecode, new_writing, start_at, with_debug, close_region, close_method,
}

-- Regions that are not empty and lie end to end, from `start` to `stop`, the last one first.
abbrev pub Tiles : ℕ → List Region → ℕ → Type 0
Tiles start [] stop = start ≡ stop
Tiles start (region ∷ before) stop =
    (region.stop ≡ stop) × (region.start < region.stop) × Tiles start before region.start

-- The current region is open: it begins where the ones before it end, and not behind the code.
abbrev pub IsOpen : ℕ → List Region → ℕ → Type 0
IsOpen start [] ptr = ⊥
IsOpen start (region ∷ before) ptr = (region.start ≤ ptr) × Tiles start before region.start

-- What a method that is being written may go through: code is written, and the operations.
pub data Step (align : ℕ) : Writing → Writing → Type 0 where
  emit :
      (w : Writing)
      → (n : ℕ) → (w.debug.posn.ptr + n ≤ w.debug.posn.limit)
      → Step align w (move w (record w.debug.posn { ptr = w.debug.posn.ptr + n }))
  begin_region : (w : Writing) → (cookie : ℕ) → Step align w (new_region align w cookie)
  put_cookie : (w : Writing) → (cookie : ℕ) → Step align w (set_cookie w cookie)
  mark_offset : (w : Writing) → (offset : ℕ) → Step align w (mark_bytecode align w offset)
  pad :
      (jit_should_pad : Bool)
      → (w : Writing) → (boundary diff : ℕ)
      → Step align w (align_code jit_should_pad w boundary diff)

pub data Steps (align : ℕ) : Writing → Writing → Type 0 where
  no_more : (w : Writing) → Steps align w w
  one_more : (u v w : Writing) → Step align u v → Steps align v w → Steps align u w

-- The regions are in order, or there is no room left.
abbrev pub IsSound : ℕ → Writing → Type 0
IsSound start w = IsFull w.debug.posn ⊎ IsOpen start w.regions w.debug.posn.ptr

with_cookie-IsOpen :
    (c start ptr : ℕ) (regions : List Region)
    → IsOpen start regions ptr
    → IsOpen start (with_cookie c regions) ptr
with_cookie-IsOpen c start ptr [] h = h
with_cookie-IsOpen c start ptr (region ∷ before) h = h

IsOpen-further :
    (start : ℕ) (regions : List Region) (ptr ptr' : ℕ)
    → ptr ≤ ptr'
    → IsOpen start regions ptr
    → IsOpen start regions ptr'
IsOpen-further start [] ptr ptr' le h = h
IsOpen-further start (region ∷ before) ptr ptr' le (begins, tiles) = (omega arith, tiles)

round_up_ge : (align x : ℕ) → 0 < align → x ≤ round_down align (x + align - 1)
round_up_ge align x positive = omega (arith, mod-lt (x + align - 1) positive)

align_code-IsSound :
    (start : ℕ) (jit_should_pad : Bool) (w : Writing) (boundary diff : ℕ)
    → IsSound start w
    → IsSound start (align_code jit_should_pad w boundary diff)
unfolding align_code
align_code-IsSound start jit_should_pad w boundary diff h =
    let posn : Posn = w.debug.posn in
    let align' : ℕ = if leb boundary 1 then 1 else boundary in
    let next_at : ℕ = round_down align' (posn.ptr + align' - 1) in
    let ahead : posn.ptr ≤ next_at = round_up_ge align' posn.ptr (ground arith) in
    elim (Bool-cases (posn.ptr == next_at || leb diff (next_at - posn.ptr))) [
      | inl e ↦ rw (e, align_code) h
      | inr e ↦ elim (Bool-cases (ltb posn.limit next_at)) [
        | inl over ↦ rw (e, align_code, over) (inl (omega arith))
        | inr within ↦ elim (Bool-cases jit_should_pad) [
          | inl pads ↦ rw (e, align_code, within, pads) h
          | inr moves ↦
              rw (e, align_code, within, moves)
                (elim h [
                  | inl full ↦ inl (omega (arith, ahead, full))
                  | inr at ↦ inr (IsOpen-further start w.regions posn.ptr next_at ahead at)
                ])
        ]
      ]
    ]

open_region-IsSound :
    (start align : ℕ) (w : Writing) (c : ℕ) (regions : List Region)
    → IsFull w.debug.posn ⊎ IsOpen start regions w.debug.posn.ptr
    → w.regions ≡ regions
    → IsSound start (open_region align w c regions)
open_region-IsSound start align w c [] h e = elim h [
  | inl full ↦ inl full
  | inr nothing ↦ elim nothing [ ]
]
open_region-IsSound start align w c (r ∷ before) h e =
    let posn : Posn = w.debug.posn in
    let after : Posn = (alloc align posn region_size).0 in
    elim (Bool-cases (r.start == posn.ptr)) [
      | inl here ↦ rw here (elim h [ inl full ↦ inl full | inr at ↦ inr at ])
      | inr there ↦ elim (Option-cases ((alloc align posn region_size).1)) [
        | inl none_left ↦
            rw (there, none_left) (inl (full_of_none align region_size posn none_left))
        | inr (block, found) ↦
            elim (Takes-kept posn after
              (take_one posn after region_size (omega arith) (take_none after))) [
                | inl full ↦ rw (there, found) (inl full)
                | inr kept ↦ elim h [
                  | inl full ↦
                      rw (there, found)
                        (inl (full_of_full align region_size posn full (omega arith)))
                  | inr (begins, tiles) ↦
                      rw (there, found) (inr (omega (arith, kept), (refl, ground arith, tiles)))
                ]
              ]
      ]
    ]

mark_bytecode-IsSound :
    (start align : ℕ) (w : Writing) (offset : ℕ)
    → IsSound start w
    → IsSound start (mark_bytecode align w offset)
unfolding mark_bytecode
mark_bytecode-IsSound start align w offset h =
    let after : Debug = write align w.debug (pos offset) (sub_ℕ w.debug.posn.ptr w.start) in
    let takes = write-Takes align w.debug (pos offset) (sub_ℕ w.debug.posn.ptr w.start) in
    elim (Takes-kept w.debug.posn after.posn takes) [
      | inl full ↦ inl full
      | inr kept ↦ elim h [
        | inl full ↦ inl (Takes-IsFull w.debug.posn after.posn takes full)
        | inr at ↦ inr (subst (λ x. IsOpen start w.regions x) (sym kept) at)
      ]
    ]

pub Step-IsSound :
    (start align : ℕ) (v w : Writing) → Step align v w → IsSound start v → IsSound start w
unfolding new_region set_cookie
Step-IsSound start align v w (emit _ n room) h = elim h [
  | inl full ↦ inl (omega (arith, full))
  | inr at ↦
      inr (IsOpen-further start v.regions v.debug.posn.ptr (v.debug.posn.ptr + n) (omega arith) at)
]
Step-IsSound start align v w (begin_region _ c) h =
    open_region-IsSound start align v c v.regions h refl
Step-IsSound start align v w (put_cookie _ c) h = elim h [
  | inl full ↦ inl full
  | inr at ↦ inr (with_cookie-IsOpen c start v.debug.posn.ptr v.regions at)
]
Step-IsSound start align v w (mark_offset _ offset) h = mark_bytecode-IsSound start align v offset h
Step-IsSound start align v w (pad jit_should_pad _ boundary diff) h =
    align_code-IsSound start jit_should_pad v boundary diff h

pub Steps-IsSound :
    (start align : ℕ) (v w : Writing) → Steps align v w → IsSound start v → IsSound start w
Steps-IsSound start align v w (no_more _) h = h
Steps-IsSound start align v w (one_more _ u _ step steps) h =
    Steps-IsSound start align u w steps (Step-IsSound start align v u step h)

start_at-cases :
    (best align : ℕ) (posn : Posn) (method : ℕ)
    → ((start_at best posn align method).1 ≡ none)
      ⊎ ((start_at best posn align method).1
          ≡ some (new_writing (start_at best posn align method).0 method))
unfolding start_at
start_at-cases best align posn method =
    let ptr : ℕ = if ltb 1 align then round_down align (posn.ptr + align - 1) else posn.ptr in
    elim (Bool-cases (leb posn.limit ptr)) [
      | inl over ↦ inl (rw over refl)
      | inr room ↦ elim (Option-cases ((alloc best (record posn { ptr = ptr }) region_size).1)) [
        | inl none_left ↦ inl (rw (room, none_left) refl)
        | inr (block, found) ↦ inr (rw (room, found) refl)
      ]
    ]

-- The regions that go to the lookup tree, the last one first; only the last one may be empty.
abbrev pub Covers : ℕ → List Region → ℕ → Type 0
Covers start [] stop = ⊥
Covers start (r ∷ before) stop = (r.stop ≡ stop) × (r.start ≤ stop) × Tiles start before r.start

with_debug-Tiles :
    (blocks : List (List ℕ)) (start ptr : ℕ) (regions : List Region)
    → Tiles start regions ptr
    → Tiles start (with_debug blocks regions) ptr
with_debug-Tiles blocks start ptr [] h = h
with_debug-Tiles blocks start ptr (r ∷ before) (stop, lt, tiles) =
    (stop, lt, with_debug-Tiles blocks start r.start before tiles)

with_debug-Covers :
    (blocks : List (List ℕ)) (start ptr : ℕ) (regions : List Region)
    → Covers start regions ptr
    → Covers start (with_debug blocks regions) ptr
with_debug-Covers blocks start ptr [] h = h
with_debug-Covers blocks start ptr (r ∷ before) (stop, le, tiles) =
    (stop, le, with_debug-Tiles blocks start r.start before tiles)

close_region-Covers :
    (start ptr ptr' : ℕ) (regions : List Region)
    → ptr ≤ ptr'
    → IsOpen start regions ptr
    → Covers start (close_region ptr' regions) ptr'
close_region-Covers start ptr ptr' [] le h = h
close_region-Covers start ptr ptr' (r ∷ before) le (begins, tiles) = (refl, omega arith, tiles)

-- From the start of a method to its end, whatever the steps between were: if there is room left at the
-- end, the regions that go to the lookup tree lie end to end from the start of the method to where
-- the position stands in the end, and that is not before the end of the code.
pub Steps-Covers :
    (best align : ℕ) (posn : Posn) (method : ℕ) (v w : Writing)
    → (start_at best posn align method).1 ≡ some v
    → Steps best v w
    → w.debug.posn.ptr < w.debug.posn.limit
    → (w.debug.posn.ptr ≤ (close_method best w).0.ptr)
      × ((close_method best w).0.ptr ≤ (close_method best w).0.limit)
      × Covers v.start (close_method best w).1 (close_method best w).0.ptr
unfolding close_method
Steps-Covers best align posn method v w started steps room =
    let after : Posn = (start_at best posn align method).0 in
    elim (start_at-cases best align posn method) [
      | inl restart ↦ absurd (some≢none (sym started ∙ restart))
      | inr new ↦
          let same : v ≡ new_writing after method = some-injective _ _ (sym started ∙ new) in
          let sound : IsSound v.start w =
            Steps-IsSound v.start best v w steps
              (subst (λ x. IsSound x.start x) (sym same) (inr (omega arith, refl))) in
          let (up, apart) =
            Takes-grows w.debug.posn (finish best w.debug).posn (finish-Takes best w.debug)
              (omega arith) in
          elim sound [
            | inl full ↦ absurd (omega (arith, full, room))
            | inr at ↦ (
              up,
              apart,
              with_debug-Covers (finish best w.debug).blocks v.start (finish best w.debug).posn.ptr
                  (close_region (finish best w.debug).posn.ptr w.regions)
                  (close_region-Covers v.start w.debug.posn.ptr (finish best w.debug).posn.ptr
                    w.regions up at),
            )
          ]
    ]
