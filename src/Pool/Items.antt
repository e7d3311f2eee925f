-- ===== src/Pool/Items.antt =====
-- The items of a pool lie apart, in its blocks.
use libjit.Base.{ℕ, ◌+◌, ◌*◌, ◌≤◌, ◌<◌, ◌≡◌, ◌⊎◌, inl, inr, arith, List, [], ◌∷◌, ◌++◌}
use native.Mathlib.Nat.{mul-le-mul_right}

-- Two places of that many bytes do not overlap.
abbrev pub Disjoint : ℕ → ℕ → ℕ → Type 0
Disjoint size a b = (a + size ≤ b) ⊎ (b + size ≤ a)

abbrev pub AllDisjoint : ℕ → ℕ → List ℕ → Type 0
AllDisjoint size a [] = Unit {0}
AllDisjoint size a (b ∷ bs) = Disjoint size a b × AllDisjoint size a bs

abbrev pub Apart : ℕ → List ℕ → Type 0
Apart size [] = Unit {0}
Apart size (a ∷ bs) = AllDisjoint size a bs × Apart size bs

-- An item lies in the part of a block that is in use; older blocks are in use as a whole.
abbrev pub InBlocks : ℕ → ℕ → ℕ → List ℕ → ℕ → Type 0
InBlocks size per_block in_last [] a = ⊥
InBlocks size per_block in_last (block ∷ blocks) a =
    ((block ≤ a) × (a + size ≤ block + in_last * size)) ⊎ InBlocks size per_block per_block blocks a

abbrev pub AllInBlocks : ℕ → ℕ → ℕ → List ℕ → List ℕ → Type 0
AllInBlocks size per_block in_last blocks [] = Unit {0}
AllInBlocks size per_block in_last blocks (a ∷ bs) =
    InBlocks size per_block in_last blocks a × AllInBlocks size per_block in_last blocks bs

Disjoint-sym : (size a b : ℕ) → Disjoint size a b → Disjoint size b a
Disjoint-sym size a b h = elim h [ inl lt ↦ inr lt | inr gt ↦ inl gt ]

AllDisjoint-split :
    (size a x : ℕ) (as' bs : List ℕ)
    → AllDisjoint size a (as' ++ (x ∷ bs))
    → Disjoint size a x × AllDisjoint size a (as' ++ bs)
AllDisjoint-split size a x [] bs h = h
AllDisjoint-split size a x (c ∷ as') bs (one, h) =
    let (here, others) = AllDisjoint-split size a x as' bs h in (here, (one, others))

AllDisjoint-join :
    (size a x : ℕ) (as' bs : List ℕ)
    → Disjoint size a x
    → AllDisjoint size a (as' ++ bs)
    → AllDisjoint size a (as' ++ (x ∷ bs))
AllDisjoint-join size a x [] bs here h = (here, h)
AllDisjoint-join size a x (c ∷ as') bs here (one, h) =
    (one, AllDisjoint-join size a x as' bs here h)

-- An item may be taken out of the middle, and put there.
pub Apart-front :
    (size x : ℕ) (as' bs : List ℕ) → Apart size (as' ++ (x ∷ bs)) → Apart size (x ∷ (as' ++ bs))
Apart-front size x [] bs h = h
Apart-front size x (c ∷ as') bs (away, h) =
    let (of_x, others) = Apart-front size x as' bs h in
    let (here, rest) = AllDisjoint-split size c x as' bs away in
    ((Disjoint-sym size c x here, of_x), (rest, others))

pub Apart-middle :
    (size x : ℕ) (as' bs : List ℕ) → Apart size (x ∷ (as' ++ bs)) → Apart size (as' ++ (x ∷ bs))
Apart-middle size x [] bs h = h
Apart-middle size x (c ∷ as') bs ((here, of_x), (rest, others)) = (
  AllDisjoint-join size c x as' bs (Disjoint-sym size x c here) rest,
  Apart-middle size x as' bs (of_x, others),
)

module _ (size per_block in_last : ℕ) (blocks : List ℕ) where
  pub AllInBlocks-front :
      (x : ℕ) (as' bs : List ℕ)
      → AllInBlocks size per_block in_last blocks (as' ++ (x ∷ bs))
      → AllInBlocks size per_block in_last blocks (x ∷ (as' ++ bs))
  AllInBlocks-front x [] bs h = h
  AllInBlocks-front x (c ∷ as') bs (one, h) =
      let (here, others) = AllInBlocks-front x as' bs h in (here, (one, others))

  pub AllInBlocks-middle :
      (x : ℕ) (as' bs : List ℕ)
      → AllInBlocks size per_block in_last blocks (x ∷ (as' ++ bs))
      → AllInBlocks size per_block in_last blocks (as' ++ (x ∷ bs))
  AllInBlocks-middle x [] bs h = h
  AllInBlocks-middle x (c ∷ as') bs (here, (one, others)) =
      (one, AllInBlocks-middle x as' bs (here, others))

-- Blocks of that many bytes do not overlap.
abbrev pub BlocksApart : ℕ → List ℕ → Type 0
BlocksApart bytes blocks = Apart bytes blocks

-- An item in a block has nothing to do with one in other blocks.
InBlocks-Disjoint :
    (size per_block x a block : ℕ) (blocks : List ℕ)
    → AllDisjoint (per_block * size) block blocks
    → block ≤ x
    → x + size ≤ block + per_block * size
    → InBlocks size per_block per_block blocks a
    → Disjoint size x a
InBlocks-Disjoint size per_block x a block [] apart from to h = elim h [ ]
InBlocks-Disjoint size per_block x a block (b ∷ blocks) (away, apart) from to h = elim h [
  | inl (low, high) ↦ elim away [
    | inl before ↦ inl (omega (arith, before, low, high, to))
    | inr behind ↦ inr (omega (arith, behind, low, high, from))
  ]
  | inr older ↦ InBlocks-Disjoint size per_block x a block blocks apart from to older
]

-- The place behind the items of the newest block is a new item, and apart from all others.
pub next_item :
    (size per_block in_last block : ℕ) (blocks items : List ℕ)
    → in_last < per_block
    → BlocksApart (per_block * size) (block ∷ blocks)
    → AllInBlocks size per_block in_last (block ∷ blocks) items
    → AllDisjoint size (block + in_last * size) items
      × AllInBlocks size per_block (in_last + 1) (block ∷ blocks) items
next_item size per_block in_last block blocks [] lt apart h = (record {}, record {})
next_item size per_block in_last block blocks (a ∷ items) lt (away, apart) (here, h) =
    let (others, kept) = next_item size per_block in_last block blocks items lt (away, apart) h in
    let more : (in_last + 1) * size ≡ in_last * size + size = omega arith in
    let fits : (in_last + 1) * size ≤ per_block * size = mul-le-mul_right size (omega arith) in
    elim here [
      | inl (low, high) ↦
          ((inr (omega (arith, high)), others), (inl (low, omega (arith, high, more)), kept))
      | inr older ↦ (
        (
          InBlocks-Disjoint size per_block (block + in_last * size) a block blocks away
              (omega arith) (omega (arith, more, fits)) older,
          others,
        ),
        (inr older, kept),
      )
    ]
