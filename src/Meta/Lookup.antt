-- ===== src/Meta/Lookup.antt =====
-- Metadata lists as maps from types to values.
use libjit.Base.{
  ℕ, ◌≡◌, ◌∙◌, ◌||◌, inl, inr, refl, Bool, true, false, ◌&&◌, Option, none, some, List, [], ◌∷◌,
  ◌==◌, if◌then◌else◌, arith, Bool-cases,
}
use libjit.Base.Int.{ℤ, ◌==ℤ◌}
use libjit.Word.{flag}
use libjit.Meta.{Node, Event, set_existing, set, get, free, run_free}

abbrev pub has : List Node → ℤ → Bool
has [] type = false
has (n ∷ list) type = if n.type ==ℤ type then true else has list type

-- No two nodes have one type.
abbrev pub Distinct : List Node → Type 0
Distinct [] = Unit {0}
Distinct (n ∷ list) = (has list n.type ≡ false) × Distinct list

-- The search finds a node exactly if there is one, and then the list is a map with the new value.
pub record Replaced (list list' : List Node) (type : ℤ) (payload : ℕ) : Type 0 where
  pub value : (other : ℤ) → get list' other ≡ (if type ==ℤ other then payload else get list other)
  pub same : (other : ℤ) → has list' other ≡ has list other
  pub distinct : Distinct list → Distinct list'

set_existing-none :
    (list : List Node) (type : ℤ) (payload : ℕ) (f : Option ℕ)
    → has list type ≡ false
    → set_existing list type payload f ≡ none
unfolding set_existing
set_existing-none [] type payload f h = refl
set_existing-none (n ∷ list) type payload f h =
    ground (arith, set_existing-none list type payload f)

set_existing-some :
    (list : List Node) (type : ℤ) (payload : ℕ) (f : Option ℕ)
    → has list type ≡ true
    → (list' : List Node) × (events : List Event) × (set_existing list type payload f
        ≡ some (list', events))
      × Replaced list list' type payload
unfolding set_existing get
set_existing-some [] type payload f h = cc
set_existing-some (n ∷ list) type payload f h = elim (Bool-cases (n.type ==ℤ type)) [
  | inl hit ↦ elim (Bool-cases (payload == n.payload)) [
    | inl old ↦ (
      n ∷ list,
      [],
      rw (hit, old),
      record { value = λ other. ground arith; same = λ other. refl; distinct = λ d. d },
    )
    | inr new ↦ (
      record n { payload = payload; free_data = f } ∷ list,
      run_free n.free_data n.payload,
      rw (hit, new),
      record { value = λ other. ground arith; same = λ other. refl; distinct = λ d. d },
    )
  ]
  | inr miss ↦
      let (list', events, e, r) = set_existing-some list type payload f (ground arith) in
      (
        n ∷ list',
        events,
        rw (miss, e),
        record {
          value = λ other. ground (arith, r.value other);
          same = λ other. ground (arith, r.same other);
          distinct = λ (fresh, d). (r.same n.type ∙ fresh, r.distinct d);
        },
      )
]

-- `jit_meta_set` returns 1 exactly if the type is in the list or a node can be allocated. If it
-- does, the type's value is the new one; every other value, and on failure all of them, stay as they
-- were. A list without two nodes of one type stays so.
pub get-set :
    (allocates : Bool) (list : List Node) (type : ℤ) (payload : ℕ) (f owner : Option ℕ)
    → let r = set allocates list type payload f owner in
      let done = allocates || has list type in
      (r.1 ≡ flag done)
      × ((other : ℤ) → get r.0 other ≡ (if done && type ==ℤ other then payload else get list other))
      × (Distinct list → Distinct r.0)
unfolding set get
get-set allocates list type payload f owner = elim (Bool-cases (has list type)) [
  | inl present ↦
      let (list', events, e, r) = set_existing-some list type payload f present in
      let always : (allocates || has list type) ≡ true = ground arith in
      rw (e, always, set) (refl, r.value, r.distinct)
  | inr absent ↦
      rw (set_existing-none list type payload f absent, set)
        (ground arith, λ other. ground arith, ground arith)
]

has-free :
    (list : List Node) (type other : ℤ)
    → has list other ≡ false
    → has (free list type).0 other ≡ false
unfolding free
has-free [] type other h = refl
has-free (n ∷ list) type other h = ground (arith, has-free list type other)

get_absent : (list : List Node) (type : ℤ) → has list type ≡ false → get list type ≡ 0
unfolding get
get_absent [] type h = refl
get_absent (n ∷ list) type h = ground (arith, get_absent list type)

eq_of_==ℤ : (a b : ℤ) → (a ==ℤ b) ≡ true → a ≡ b
eq_of_==ℤ a b h = ground arith

-- In a list without two nodes of one type `jit_meta_free` forgets the value of its type, keeps
-- every other, and leaves such a list.
pub get-free :
    (list : List Node) (type : ℤ)
    → Distinct list
    → ((other : ℤ) → get (free list type).0 other ≡ (if type ==ℤ other then 0 else get list other))
      × Distinct (free list type).0
unfolding free get
get-free [] type d = (λ other. ground arith, tt)
get-free (n ∷ list) type (fresh, d) = elim (Bool-cases (n.type ==ℤ type)) [
  | inl hit ↦ rw hit (λ other. ground (arith, eq_of_==ℤ n.type other, get_absent list n.type), d)
  | inr miss ↦
      let (values, kept) = get-free list type d in
      rw miss (λ other. ground (arith, values other), (has-free list type n.type fresh, kept))
]
