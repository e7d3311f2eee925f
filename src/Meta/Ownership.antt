-- ===== src/Meta/Ownership.antt =====
-- The user's values are freed once: what each operation hands to the user's functions, and what
-- the list still owes, are together what came in.
use mathlib.Core.Path.{subst}
use mathlib.Core.List.{Perm, perm_append_comm, append-nil, append_assoc}
use mathlib.Core.List.Perm
use libjit.Base.{
  ℕ, ◌≡◌, refl, inl, inr, Bool, not, Option, none, some, List, [], ◌∷◌, ◌++◌, ◌==◌, if◌then◌else◌,
  arith, Bool-cases, Option-cases,
}
use libjit.Base.Int.{ℤ, ◌==ℤ◌}
use libjit.Meta.{
  Node, Event, call, pool_dealloc, free_block, set_existing, set, free, destroy, run_free, release,
}

-- The calls of the user's functions among the events.
abbrev pub calls : List Event → List (ℕ × ℕ)
calls [] = []
calls (call f payload ∷ events) = (f, payload) ∷ calls events
calls (pool_dealloc owner ∷ events) = calls events
calls (free_block ∷ events) = calls events

-- The calls that one value is owed, and all that a list owes.
abbrev pub owed_one : Option ℕ → ℕ → List (ℕ × ℕ)
owed_one none payload = []
owed_one (some f) payload = (f, payload) ∷ []

abbrev pub owed : List Node → List (ℕ × ℕ)
owed [] = []
owed (n ∷ list) = owed_one n.free_data n.payload ++ owed list

-- Does `jit_meta_set` take the new value over? Not if the type has the same value already.
abbrev pub takes : Bool → List Node → ℤ → ℕ → Bool
takes allocates [] type payload = allocates
takes allocates (n ∷ list) type payload =
    if n.type ==ℤ type then not (payload == n.payload) else takes allocates list type payload

calls-append : (xs ys : List Event) → calls (xs ++ ys) ≡ calls xs ++ calls ys
calls-append [] ys = refl
calls-append (call f payload ∷ xs) ys = rw (calls-append xs ys)
calls-append (pool_dealloc owner ∷ xs) ys = calls-append xs ys
calls-append (free_block ∷ xs) ys = calls-append xs ys

calls-run_free : (f : Option ℕ) (payload : ℕ) → calls (run_free f payload) ≡ owed_one f payload
calls-run_free none payload = refl
calls-run_free (some f) payload = refl

calls-release : (owner : Option ℕ) → calls (release owner) ≡ []
calls-release none = refl
calls-release (some owner) = refl

-- `jit_meta_destroy` makes exactly the calls that the list owes, in the order of the list.
pub calls-destroy : (list : List Node) → calls (destroy list) ≡ owed list
unfolding destroy
calls-destroy [] = refl
calls-destroy (n ∷ list) = simp (calls-append, calls-run_free, calls-release, calls-destroy list)

perm_exchange {ℓ} : {A : Type ℓ} (xs ys zs : List A) → Perm (xs ++ (ys ++ zs)) (ys ++ (xs ++ zs))
perm_exchange xs ys zs =
    rw (← append_assoc xs ys zs, ← append_assoc ys xs zs)
      (Perm.append_right zs (perm_append_comm xs ys))

-- `jit_meta_free` makes the calls that the removed node is owed: with what the list owes afterwards
-- they are what it owed before.
pub calls-free :
    (list : List Node) (type : ℤ)
    → Perm (calls (free list type).1 ++ owed (free list type).0) (owed list)
unfolding free
calls-free [] type = Perm.refl []
calls-free (n ∷ list) type = elim (Bool-cases (n.type ==ℤ type)) [
  | inl hit ↦ rw hit (simp (calls-append, calls-run_free, calls-release, append-nil) (Perm.refl _))
  | inr miss ↦ rw miss (
      Perm.trans
        (perm_exchange (calls (free list type).1) (owed_one n.free_data n.payload)
          (owed (free list type).0))
        (Perm.append_left (owed_one n.free_data n.payload) (calls-free list type)))
]

abbrev Outcome : Type 0
Outcome = List Node × List Event

abbrev Owes : Outcome → List (ℕ × ℕ) → Type 0
Owes (list, events) total = Perm (calls events ++ owed list) total

-- What there is to be paid when the new value has come in.
abbrev due : Bool → List Node → ℤ → ℕ → Option ℕ → List (ℕ × ℕ)
due allocates list type payload f =
    owed list ++ (if takes allocates list type payload then owed_one f payload else [])

set_existing_owed :
    (allocates : Bool) (list : List Node) (type : ℤ) (payload : ℕ) (f : Option ℕ) (r : Outcome)
    → set_existing list type payload f ≡ some r
    → Owes r (due allocates list type payload f)
unfolding set_existing
set_existing_owed allocates [] type payload f r h = cc
set_existing_owed allocates (n ∷ list) type payload f r h = elim (Bool-cases (n.type ==ℤ type)) [
  | inl hit ↦ elim (Bool-cases (payload == n.payload)) [
    | inl old ↦
        let same : ◌≡◌ {A = Outcome} (n ∷ list, []) r = ground arith in
        subst (λ o. Owes o (due allocates (n ∷ list) type payload f)) same
          (rw (hit, old, append-nil) (Perm.refl _))
    | inr new ↦
        let same : ◌≡◌ {A = Outcome}
            (record n { payload = payload; free_data = f } ∷ list, run_free n.free_data n.payload)
            r =
          ground arith in
        subst (λ o. Owes o (due allocates (n ∷ list) type payload f)) same
          (rw (hit, new, calls-run_free n.free_data n.payload, append_assoc)
            (Perm.append_left (owed_one n.free_data n.payload)
              (perm_append_comm (owed_one f payload) (owed list))))
  ]
  | inr miss ↦ elim (Option-cases (set_existing list type payload f)) [
    | inl none_left ↦ ground arith
    | inr ((l, e), found) ↦
        let same : ◌≡◌ {A = Outcome} (n ∷ l, e) r = ground arith in
        subst (λ o. Owes o (due allocates (n ∷ list) type payload f)) same
          (rw (miss, append_assoc)
            (Perm.trans (perm_exchange (calls e) (owed_one n.free_data n.payload) (owed l)) (
              Perm.append_left (owed_one n.free_data n.payload)
                (set_existing_owed allocates list type payload f (l, e) found))))
  ]
]

takes_absent :
    (allocates : Bool) (list : List Node) (type : ℤ) (payload : ℕ) (f : Option ℕ)
    → set_existing list type payload f ≡ none
    → takes allocates list type payload ≡ allocates
unfolding set_existing
takes_absent allocates [] type payload f h = refl
takes_absent allocates (n ∷ list) type payload f h =
    ground (arith, takes_absent allocates list type payload f)

-- `jit_meta_set` makes the calls that a replaced value is owed: with what the list owes afterwards
-- they are what the list owed before, and what the new value is owed if it is taken over. That is
-- not the case if the type has the same value already, or if a new node is needed and cannot be had.
pub calls-set :
    (allocates : Bool) (list : List Node) (type : ℤ) (payload : ℕ) (f owner : Option ℕ)
    → let r = set allocates list type payload f owner in
      Perm
        (calls r.2 ++ owed r.0)
        (owed list ++ (if takes allocates list type payload then owed_one f payload else []))
unfolding set
calls-set allocates list type payload f owner =
    elim (Option-cases (set_existing list type payload f)) [
      | inr (r, found) ↦ rw (found, set) (set_existing_owed allocates list type payload f r found)
      | inl absent ↦
          rw (absent, takes_absent allocates list type payload f absent, set)
            (elim (Bool-cases allocates) [
              | inl can ↦ rw can (perm_append_comm (owed_one f payload) (owed list))
              | inr cannot ↦ rw (cannot, append-nil) (Perm.refl _)
            ])
    ]
