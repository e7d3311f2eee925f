-- ===== src/Live/Elimination.antt =====
-- Discarding instructions whose results are not used leaves what a block does.
use libjit.Base.{ℕ, ◌≡◌, Bool, true, Option, none, some, List, [], ◌∷◌, ◌==◌, if◌then◌else◌}
use libjit.Base.Maybe.{◌>>=◌}
use libjit.Live.{Values, Insn, op_nop}
use libjit.Live.Needed.{target, needed}

-- What is read of an instruction: its operands' contents.
abbrev pub Event {ℓ} : Type ℓ → Type ℓ
Event A = ℕ × Option A × Option A × Option A

abbrev pub content {ℓ} : {A : Type ℓ} → (ℕ → A) → Bool → Option ℕ → Option A
content env other none = none
content env other (some x) = if other then none else some (env x)

abbrev update {ℓ} : {A : Type ℓ} → (ℕ → A) → ℕ → A → ℕ → A
update env x a = λ y. if y == x then a else env y

abbrev event {ℓ} : {A : Type ℓ} → (ℕ → A) → Insn → Event A
event env i = (
  i.opcode,
  content env i.dest_other i.dest,
  content env i.value1_other i.value1,
  content env i.value2_other i.value2,
)

-- A run of a block; `none` is a run that ends with an exception. An instruction with a target computes it from
-- its operands and the effects so far, or throws; any other one has an effect, which depends on its
-- operands, and may throw behind it. `values` tells constants from variables.
abbrev pub run {ℓ} :
    {A : Type ℓ}
    → (List (Event A) → ℕ → Option A → Option A → Option A)
    → (List (Event A) → Bool)
    → Values
    → List (Event A)
    → (ℕ → A)
    → List Insn
    → Option ((ℕ → A) × List (Event A))
run {A = A} compute throws values past env [] = some (env, past)
run {A = A} compute throws values past env (i ∷ insns) =
    let go = λ (p : List (Event A)) (e : ℕ → A). run compute throws values p e insns in
    if i.opcode == op_nop then go past env else elim (target values i) [
      | none ↦ if throws (event env i ∷ past) then none else go (event env i ∷ past) env
      | some d ↦ (do
        a ←
            compute past i.opcode (content env i.value1_other i.value1)
              (content env i.value2_other i.value2)
        go past (update env d a))
    ]

abbrev pub Agree {ℓ} : {A : Type ℓ} → Values → (ℕ → A) → (ℕ → A) → Type ℓ
Agree values env env' = (x : ℕ) → needed values x ≡ true → env x ≡ env' x

module _ {ℓ} {A : Type ℓ} (compute : List (Event A) → ℕ → Option A → Option A → Option A)
    (throws : List (Event A) → Bool) (values : Values) where
  -- A block runs to its end from these contents on, with the effects of `end`, and leaves the contents of `end`
  -- in the values that are needed there.
  abbrev pub EndsAs : List (Event A) → (ℕ → A) → List Insn → (ℕ → A) × List (Event A) → Type ℓ
  EndsAs past env insns end =
      (end' : (ℕ → A) × List (Event A)) × (run compute throws values past env insns ≡ some end')
      × (end.1 ≡ end'.1)
      × Agree values end.0 end'.0

  abbrev SameRuns : List (Event A) → (ℕ → A) → List Insn → (ℕ → A) → List Insn → Type ℓ
  SameRuns past env insns env' insns' =
      (end : (ℕ → A) × List (Event A))
      → run compute throws values past env insns ≡ some end
      → EndsAs past env' insns' end
