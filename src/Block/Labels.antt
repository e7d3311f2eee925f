-- ===== src/Block/Labels.antt =====
-- Labels and the blocks that they name.
use libjit.Base.{
  ℕ, zero, suc, ◌-◌, ◌*◌, ◌%◌, ◌^◌, ◌≤◌, ◌<◌, ◌≡◌, ◌≢◌, refl, arith, true, Option, none, some, List,
  [], ◌∷◌, ◌++◌, ltb, leb, ◌==◌, if◌then◌else◌, length, set, get_or, replicate, Bool-cases, inl,
  inr, ap, sym, ◌∙◌, length-append, length-replicate,
}
use native.Mathlib.Nat.{mod-eq_of_lt, pow-succ', mul_assoc}
use libjit.Word.{ulong_modulus}
use libjit.Block.{Builder, double_past, grown_size, record_label, from_label}

double_past-passes :
    (rounds label num : ℕ)
    → 0 < num
    → label < 2 ^ 63
    → label < num * 2 ^ rounds
    → label < double_past rounds label num
unfolding double_past
double_past-passes zero label num positive fits h = omega arith
double_past-passes (suc rounds) label num positive fits h = elim (Bool-cases (leb num label)) [
  | inl again ↦
      let small : num * 2 % ulong_modulus ≡ num * 2 = mod-eq_of_lt (ground arith) in
      let same : num * 2 ^ suc rounds ≡ num * 2 * 2 ^ rounds =
        rw (pow-succ' 2 rounds, mul_assoc num 2 (2 ^ rounds)) in
      let onward : label < double_past rounds label (num * 2) =
        double_past-passes rounds label (num * 2) (omega arith) fits (omega (arith, same)) in
      rw (again, small) onward
  | inr done ↦ rw (done) (ground arith)
]

grown_size-passes : (max label : ℕ) → label < 2 ^ 63 → label < grown_size max label
unfolding grown_size
grown_size-passes max label fits =
    double_past-passes 64 label (if ltb max 64 then 64 else max) (ground arith) fits (ground arith)

double_past-small :
    (rounds label num : ℕ) → label < 2 ^ 60 → num < 2 ^ 61 → double_past rounds label num < 2 ^ 61
unfolding double_past
double_past-small zero label num fits h = h
double_past-small (suc rounds) label num fits h = elim (Bool-cases (leb num label)) [
  | inl again ↦
      let next : num * 2 % ulong_modulus < 2 ^ 61 = ground arith in
      rw again (double_past-small rounds label (num * 2 % ulong_modulus) fits next)
  | inr done ↦ rw done h
]

-- The size of the table in bytes does not wrap.
table_fits :
    (max label : ℕ)
    → label < 2 ^ 60
    → max ≤ label
    → (grown_size max label * 8 % ulong_modulus == grown_size max label * 8) ≡ true
unfolding grown_size
table_fits max label fits grows =
    let small : grown_size max label < 2 ^ 61 =
      double_past-small 64 label (if ltb max 64 then 64 else max) fits (ground arith) in
    ground (arith, small)

module _ {ℓ} {A : Type ℓ} where
  get_or-append : (xs : List A) (k i : ℕ) (d : A) → get_or (xs ++ replicate k d) i d ≡ get_or xs i d
  get_or-append [] zero i d = refl
  get_or-append [] (suc k) zero d = refl
  get_or-append [] (suc k) (suc i) d = get_or-append [] k i d
  get_or-append (x ∷ xs) k zero d = refl
  get_or-append (x ∷ xs) k (suc i) d = get_or-append xs k i d

  get_or-beyond : (xs : List A) (i : ℕ) (d : A) → length xs ≤ i → get_or xs i d ≡ d
  get_or-beyond [] i d h = refl
  get_or-beyond (x ∷ xs) zero d h = absurd (omega arith)
  get_or-beyond (x ∷ xs) (suc i) d h = get_or-beyond xs i d (omega arith)

  get_or-set_self : (xs : List A) (i : ℕ) (v d : A) → i < length xs → get_or (set xs i v) i d ≡ v
  get_or-set_self [] i v d h = absurd (omega arith)
  get_or-set_self (x ∷ xs) zero v d h = refl
  get_or-set_self (x ∷ xs) (suc i) v d h = get_or-set_self xs i v d (omega arith)

  get_or-set_ne :
      (xs : List A) (i j : ℕ) (v d : A) → i ≢ j → get_or (set xs i v) j d ≡ get_or xs j d
  get_or-set_ne [] i j v d h = refl
  get_or-set_ne (x ∷ xs) zero zero v d h = absurd (h refl)
  get_or-set_ne (x ∷ xs) zero (suc j) v d h = refl
  get_or-set_ne (x ∷ xs) (suc i) zero v d h = refl
  get_or-set_ne (x ∷ xs) (suc i) (suc j) v d h = get_or-set_ne xs i j v d (λ e. h (ap suc e))

-- The table beyond its end has no block.
pub from_label-eq :
    (builder : Builder) (label : ℕ)
    → from_label builder label ≡ get_or builder.label_blocks label none
unfolding from_label
from_label-eq builder label = elim (Bool-cases (ltb label (length builder.label_blocks))) [
  | inl within ↦ rw within
  | inr beyond ↦ rw (beyond, get_or-beyond builder.label_blocks label none (ground arith))
]

-- A table that is long enough, and agrees with the builder's.
record Table (builder : Builder) (label : ℕ) (table : List (Option ℕ)) : Type 0 where
  long : label < length table
  agrees : (other : ℕ) → get_or table other none ≡ get_or builder.label_blocks other none

-- What recording a block for a label leaves: the label names the block, every other label what it
-- named before, and nothing else is touched.
pub record Records (builder : Builder) (label block : ℕ) (result : Option (Option Builder))
    : Type 0 where
  pub after : Builder
  pub succeeds : result ≡ some (some after)
  pub here : from_label after label ≡ some block
  pub elsewhere : (other : ℕ) → label ≢ other → from_label after other ≡ from_label builder other
  pub blocks : after.blocks ≡ builder.blocks
  pub insns : after.insns ≡ builder.insns

stored :
    (builder : Builder) (label block : ℕ) (table : List (Option ℕ))
    (result : Option (Option Builder))
    → Table builder label table
    → result ≡ some (some (record builder { label_blocks = set table label (some block) }))
    → Records builder label block result
stored builder label block table result ok e = record {
  after = record builder { label_blocks = set table label (some block) };
  succeeds = e;
  here =
      from_label-eq (record builder { label_blocks = set table label (some block) }) label
      ∙ get_or-set_self table label (some block) none ok.long;
  elsewhere = λ other ne.
      from_label-eq (record builder { label_blocks = set table label (some block) }) other
      ∙ get_or-set_ne table label other (some block) none ne
      ∙ ok.agrees other
      ∙ sym (from_label-eq builder other);
  blocks = refl;
  insns = refl;
}

-- Where memory can be had, `_jit_block_record_label` succeeds for every label below 2 ^ 60, however
-- far beyond the table it lies: the label then names the block, and every other label what it named
-- before.
pub record_label-Records :
    (builder : Builder) (label block : ℕ)
    → label < 2 ^ 60
    → Records builder label block (record_label true builder label block)
unfolding record_label
record_label-Records builder label block fits =
    let table = builder.label_blocks in
    let size : ℕ = grown_size (length table) label in
    elim (Bool-cases (leb (length table) label)) [
      | inl outside ↦
          stored builder label block (table ++ replicate (size - length table) none) _
            (record {
              long = omega (
                arith,
                grown_size-passes (length table) label (omega (arith, fits)),
                length-append table (replicate {A = Option ℕ} (size - length table) none),
                length-replicate {A = Option ℕ} (size - length table) none,
              );
              agrees = λ other. get_or-append table (size - length table) other none;
            })
            (let whole = table_fits (length table) label fits (ground arith) in
              rw (outside, whole) refl)
      | inr inside ↦
          stored builder label block table _
            (record { long = ground arith; agrees = λ other. refl }) (rw inside refl)
    ]
