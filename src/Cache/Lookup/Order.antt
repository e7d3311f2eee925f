-- ===== src/Cache/Lookup/Order.antt =====
-- The lookup tree in order: what is found is what the list of regions holds.
use libjit.Base.{
  ℕ, ◌≤◌, ◌<◌, ◌≡◌, ◌⊎◌, inl, inr, refl, arith, Bool, true, false, Option, none, some, List, [],
  ◌∷◌, ◌++◌, ltb, leb, if◌then◌else◌, Bool-cases, ◌&&◌, ◌∙◌,
}
use libjit.Cache.Method.{Region}
use libjit.Cache.Lookup.{Tree, leaf, node, get_method, get_start_method}

-- The regions from the lowest address on.
abbrev pub regions_of : Tree → List Region
regions_of leaf = []
regions_of (node red left region right) = regions_of left ++ (region ∷ regions_of right)

-- The regions lie between `low` and `high` and do not overlap.
abbrev pub IsOrdered : ℕ → Tree → ℕ → Type 0
IsOrdered low leaf high = low ≤ high
IsOrdered low (node red left region right) high =
    IsOrdered low left region.start
    × (region.start ≤ region.stop)
    × IsOrdered region.stop right high

-- The first region of a list that the address is in.
abbrev pub region_at : List Region → ℕ → Option Region
region_at [] pc = none
region_at (r ∷ rs) pc = if leb r.start pc && ltb pc r.stop then some r else region_at rs pc

abbrev first_of : Option Region → Option Region → Option Region
first_of none b = b
first_of (some a) b = some a

abbrev pub method_of : Option Region → Option (ℕ × ℕ)
method_of none = none
method_of (some r) = some (r.method, r.cookie)

abbrev pub start_of : Option Region → Option ℕ
start_of none = none
start_of (some r) = some r.start

first_of-none : (a : Option Region) → first_of a none ≡ a
first_of-none none = refl
first_of-none (some a) = refl

region_at-append :
    (rs qs : List Region) (pc : ℕ)
    → region_at (rs ++ qs) pc ≡ first_of (region_at rs pc) (region_at qs pc)
region_at-append [] qs pc = refl
region_at-append (r ∷ rs) qs pc = elim (Bool-cases (leb r.start pc && ltb pc r.stop)) [
  | inl e ↦ rw e refl
  | inr e ↦ rw e (region_at-append rs qs pc)
]

IsOrdered-le : (low high : ℕ) (t : Tree) → IsOrdered low t high → low ≤ high
IsOrdered-le low high leaf h = h
IsOrdered-le low high (node red left r right) (hl, le, hr) =
    omega (arith, IsOrdered-le low r.start left hl, IsOrdered-le r.stop high right hr, le)

-- No region of the tree holds an address outside its bounds.
region_at-outside :
    (low high pc : ℕ) (t : Tree)
    → IsOrdered low t high
    → (pc < low) ⊎ (high ≤ pc)
    → region_at (regions_of t) pc ≡ none
region_at-outside low high pc leaf h out = refl
region_at-outside low high pc (node red left r right) (hl, le, hr) out =
    let first = IsOrdered-le low r.start left hl in
    let last = IsOrdered-le r.stop high right hr in
    let below =
      region_at-outside low r.start pc left hl
        (elim out [ inl a ↦ inl a | inr b ↦ inr (omega arith) ]) in
    let above =
      region_at-outside r.stop high pc right hr
        (elim out [ inl a ↦ inl (omega arith) | inr b ↦ inr b ]) in
    let here : (leb r.start pc && ltb pc r.stop) ≡ false = ground arith in
    region_at-append (regions_of left) (r ∷ regions_of right) pc ∙ rw (below, here, above) refl

-- Where a search through the regions of a node ends.
pub region_at-node :
    (low high pc : ℕ) (red : Bool) (left : Tree) (r : Region) (right : Tree)
    → IsOrdered low (node red left r right) high
    → (pc < r.start
        → region_at (regions_of (node red left r right)) pc ≡ region_at (regions_of left) pc)
      × (r.stop ≤ pc
          → region_at (regions_of (node red left r right)) pc ≡ region_at (regions_of right) pc)
      × (r.start ≤ pc → pc < r.stop → region_at (regions_of (node red left r right)) pc ≡ some r)
region_at-node low high pc red left r right (hl, le, hr) =
    let split = region_at-append (regions_of left) (r ∷ regions_of right) pc in
    (
      λ before.
          let here : (leb r.start pc && ltb pc r.stop) ≡ false = ground arith in
          let above = region_at-outside r.stop high pc right hr (inl (omega arith)) in
          split ∙ rw (here, above) (first_of-none (region_at (regions_of left) pc)),
      λ past.
          let here : (leb r.start pc && ltb pc r.stop) ≡ false = ground arith in
          let below = region_at-outside low r.start pc left hl (inr (omega arith)) in
          split ∙ rw (below, here) refl,
      λ from inside.
          let here : (leb r.start pc && ltb pc r.stop) ≡ true = ground arith in
          let below = region_at-outside low r.start pc left hl (inr (omega arith)) in
          split ∙ rw (below, here) refl,
    )

-- In a tree that is in order, `_jit_cache_get_method` finds the method and the cookie of the first
-- region in address order that holds the address, and `_jit_cache_get_start_method` finds its start;
-- they find nothing if no region holds it.
pub get_method-region_at :
    (low high pc : ℕ) (t : Tree)
    → IsOrdered low t high
    → (get_method t pc ≡ method_of (region_at (regions_of t) pc))
      × (get_start_method t pc ≡ start_of (region_at (regions_of t) pc))
unfolding get_method get_start_method
get_method-region_at low high pc leaf h = (refl, refl)
get_method-region_at low high pc (node red left r right) (hl, le, hr) =
    let (left_method, left_start) = get_method-region_at low r.start pc left hl in
    let (right_method, right_start) = get_method-region_at r.stop high pc right hr in
    let (at_left, at_right, at_region) = region_at-node low high pc red left r right (hl, le, hr) in
    elim (Bool-cases (ltb pc r.start)) [
      | inl before ↦ rw (before, at_left (ground arith)) (left_method, left_start)
      | inr from ↦ elim (Bool-cases (leb r.stop pc)) [
        | inl past ↦ rw (from, past, at_right (ground arith)) (right_method, right_start)
        | inr inside ↦ rw (from, inside, at_region (ground arith) (ground arith)) (refl, refl)
      ]
    ]
