-- ===== src/Live/Needed.antt =====
-- Which values are needed before an instruction, and what becomes of it.
use mathlib.Core.Path.{subst}
use libjit.Base.{
  ℕ, ◌≡◌, ◌≢◌, ◌⊎◌, inl, inr, refl, arith, Bool, true, false, not, ◌&&◌, ◌||◌, Option, none, some,
  ◌==◌, if◌then◌else◌, Bool-cases, Option-cases, ap, sym, ◌∙◌,
}
use mathlib.Core.Option.{some-injective}
use libjit.Base.Maybe.{some≢none}
use libjit.Live.{Values, Insn, op_nop, operand, put_bits, put_dest, visit}

-- The value that an instruction computes, if it has no other effect.
abbrev pub target : Values → Insn → Option ℕ
target values i = if i.dest_is_value then none else operand values i.dest_other i.dest

pub true≢false : true ≢ false
true≢false e = cc

-- A constant, or used later, or live at the end.
abbrev pub needed : Values → ℕ → Bool
needed values x = (values x).is_constant || ((values x).live || (values x).next_use)

abbrev pub SameConstants : Values → Values → Type 0
SameConstants v w = (x : ℕ) → (w x).is_constant ≡ (v x).is_constant

put_bits-constants : (v : Values) (o : Option ℕ) (bit : Bool) → SameConstants v (put_bits v o bit)
put_bits-constants v none bit x = refl
put_bits-constants v (some d) bit x = elim (Bool-cases (x == d)) [
  | inl e ↦ let same : x ≡ d = ground arith in rw (e, same) refl
  | inr e ↦ rw e refl
]

-- What was needed stays needed when a value is used.
put_bits-needed :
    (v : Values) (o : Option ℕ) (x : ℕ) → needed v x ≡ true → needed (put_bits v o true) x ≡ true
put_bits-needed v none x h = h
put_bits-needed v (some d) x h = elim (Bool-cases (x == d)) [
  | inl e ↦ rw e (ground arith)
  | inr e ↦ rw e h
]

-- An operand that is used is needed.
pub operand-needed :
    (v w : Values) (other : Bool) (x : ℕ)
    → SameConstants v w
    → other ≡ false
    → needed (put_bits w (operand v other (some x)) true) x ≡ true
operand-needed v w other x same e = elim (Bool-cases ((v x).is_constant)) [
  | inl c ↦ let cw : (w x).is_constant ≡ true = same x ∙ c in rw (e, c, cw) refl
  | inr c ↦ let itself : (x == x) ≡ true = ground arith in rw (e, c, itself) (ground arith)
]

operand-same :
    (v w : Values) (other : Bool) (o : Option ℕ)
    → SameConstants v w
    → operand w other o ≡ operand v other o
operand-same v w other none same = refl
operand-same v w other (some x) same = rw (same x) refl

pub target-same : (v w : Values) (i : Insn) → SameConstants v w → target w i ≡ target v i
target-same v w i same = rw (operand-same v w i.dest_other i.dest same) refl

-- An instruction that is kept: its operands are needed before it, and what was needed behind it and is not
-- computed by it.
pub record Kept (v w : Values) (i : Insn) : Type 0 where
  pub constants : SameConstants v w
  pub first : (x : ℕ) → i.value1 ≡ some x → i.value1_other ≡ false → needed w x ≡ true
  pub second : (x : ℕ) → i.value2 ≡ some x → i.value2_other ≡ false → needed w x ≡ true
  pub whole :
      target v i ≡ none → (x : ℕ) → i.dest ≡ some x → i.dest_other ≡ false → needed w x ≡ true
  pub others : (x : ℕ) → (target v i ≡ some x → ⊥) → needed v x ≡ true → needed w x ≡ true

-- The destination's part of it.
record Put (v w : Values) (i : Insn) : Type 0 where
  pub constants : SameConstants v w
  pub whole :
      target v i ≡ none → (x : ℕ) → i.dest ≡ some x → i.dest_other ≡ false → needed w x ≡ true
  pub others : (x : ℕ) → (target v i ≡ some x → ⊥) → needed v x ≡ true → needed w x ≡ true

Put-Kept :
    (v w : Values) (i : Insn)
    → Put v w i
    → Kept v
        (put_bits
          (put_bits w (operand v i.value1_other i.value1) true)
          (operand v i.value2_other i.value2)
          true)
        i
Put-Kept v w i p =
    let o1 : Option ℕ = operand v i.value1_other i.value1 in
    let o2 : Option ℕ = operand v i.value2_other i.value2 in
    let w1 : Values = put_bits w o1 true in
    let same1 : SameConstants v w1 = λ x. put_bits-constants w o1 true x ∙ p.constants x in
    let up : (x : ℕ) → needed w x ≡ true → needed (put_bits w1 o2 true) x ≡ true =
      λ x h. put_bits-needed w1 o2 x (put_bits-needed w o1 x h) in
    record {
      constants = λ x. put_bits-constants w1 o2 true x ∙ same1 x;
      first = λ x e plain. put_bits-needed w1 o2 x (
          subst (λ o. needed (put_bits w (operand v i.value1_other o) true) x ≡ true) (sym e)
            (operand-needed v w i.value1_other x p.constants plain));
      second = λ x e plain.
          subst (λ o. needed (put_bits w1 (operand v i.value2_other o) true) x ≡ true) (sym e)
            (operand-needed v w1 i.value2_other x same1 plain);
      whole = λ none_there x e plain. up x (p.whole none_there x e plain);
      others = λ x not_it h. up x (p.others x not_it h);
    }

operand-variable :
    (v : Values) (other : Bool) (o : Option ℕ) (d : ℕ)
    → operand v other o ≡ some d
    → (v d).is_constant ≡ false
operand-variable v other none d e = absurd (some≢none (sym e))
operand-variable v other (some x) d e = elim (Bool-cases other) [
  | inl b ↦ absurd (some≢none (sym e ∙ rw b refl))
  | inr b ↦ elim (Bool-cases ((v x).is_constant)) [
    | inl c ↦ absurd (some≢none (sym e ∙ rw (b, c) refl))
    | inr c ↦
        subst (λ y. (v y).is_constant ≡ false) (some-injective _ _ (sym (rw (b, c) refl) ∙ e)) c
  ]
]

operand-constant :
    (v : Values) (other : Bool) (o : Option ℕ) (x : ℕ)
    → operand v other o ≡ none
    → o ≡ some x
    → other ≡ false
    → needed v x ≡ true
operand-constant v other none x e at plain = absurd (some≢none (sym at))
operand-constant v other (some y) x e at plain = elim (Bool-cases ((v y).is_constant)) [
  | inl c ↦ subst (λ z. needed v z ≡ true) (some-injective _ _ at) (rw c refl)
  | inr c ↦
      let found : operand v other (some y) ≡ some y = rw (plain, c) refl in
      absurd (some≢none (sym found ∙ e))
]

-- What becomes of the destination.
put_dest-cases :
    (v : Values) (i : Insn)
    → ((put_dest v i.dest_is_value (operand v i.dest_other i.dest) ≡ none)
        × ((d : ℕ) × (target v i ≡ some d) × (needed v d ≡ false)))
      ⊎ ((w : Values) × (put_dest v i.dest_is_value (operand v i.dest_other i.dest) ≡ some w)
          × Put v w i)
put_dest-cases v i = elim (Option-cases (operand v i.dest_other i.dest)) [
  | inl e ↦ inr (
    v,
    rw e refl,
    record {
      constants = λ x. refl;
      whole = λ none_there x at plain. operand-constant v i.dest_other i.dest x e at plain;
      others = λ x not_it h. h;
    },
  )
  | inr (d, e) ↦ elim (Bool-cases i.dest_is_value) [
    | inl b ↦ inr (
      put_bits v (some d) true,
      rw (e, b) refl,
      record {
        constants = put_bits-constants v (some d) true;
        whole = λ none_there x at plain.
            subst (λ o. needed (put_bits v o true) x ≡ true)
              (ap (operand v i.dest_other) (sym at) ∙ e)
              (operand-needed v v i.dest_other x (λ y. refl) plain);
        others = λ x not_it h. put_bits-needed v (some d) x h;
      },
    )
    | inr b ↦
        let computes : target v i ≡ some d = rw (b, e) refl in
        let variable : (v d).is_constant ≡ false = operand-variable v i.dest_other i.dest d e in
        elim (Bool-cases (not (v d).next_use && not (v d).live)) [
          | inl unused ↦
              inl (rw (e, b, unused) refl, (d, computes, ground (arith, variable, unused)))
          | inr used ↦ inr (
            put_bits v (some d) false,
            rw (e, b, used) refl,
            record {
              constants = put_bits-constants v (some d) false;
              whole = λ none_there x at plain. absurd (some≢none (sym computes ∙ none_there));
              others = λ x not_it h. elim (Bool-cases (x == d)) [
                | inl here ↦
                    let same : x ≡ d = ground arith in
                    absurd (not_it (computes ∙ ap some (sym same)))
                | inr there ↦ rw there h
              ];
            },
          )
        ]
  ]
]

-- What becomes of an instruction.
unfoldable pub Visited : Values → Insn → Values × Insn → Type 0
Visited v i (w, j) =
    ((w ≡ v) × (j ≡ i) × ((i.opcode == op_nop) ≡ true))
    ⊎ (((w ≡ v)
          × (j.opcode ≡ op_nop)
          × ((i.opcode == op_nop) ≡ false)
          × ((d : ℕ) × (target v i ≡ some d) × (needed v d ≡ false)))
        ⊎ (Kept v w i × (j ≡ record i { marks = j.marks }) × ((i.opcode == op_nop) ≡ false)))

pub visit-Visited : (v : Values) (i : Insn) → Visited v i (visit v i)
unfolding visit Visited
visit-Visited v i = elim (Bool-cases (i.opcode == op_nop)) [
  | inl nop ↦ rw (visit, nop) (inl (refl, refl, refl))
  | inr op ↦ elim (put_dest-cases v i) [
    | inl (discarded, unused) ↦ rw (visit, op, discarded) (inr (inl (refl, refl, refl, unused)))
    | inr (w, kept, p) ↦ rw (visit, op, kept) (inr (inr (Put-Kept v w i p, refl, refl)))
  ]
]

pub Visited-constants :
    (v : Values) (i : Insn) (w : Values) (j : Insn) → Visited v i (w, j) → SameConstants v w
unfolding Visited
Visited-constants v i w j visited x = elim visited [
  | inl (ew, ej, nop) ↦ ap (λ (u : Values). (u x).is_constant) ew
  | inr other ↦ elim other [
    | inl (ew, nop, op, unused) ↦ ap (λ (u : Values). (u x).is_constant) ew
    | inr (k, ej, op) ↦ k.constants x
  ]
]
