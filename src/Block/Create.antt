-- ===== src/Block/Create.antt =====
-- New blocks and new instructions.
use libjit.Base.{
  ℕ, zero, suc, ◌+◌, ◌-◌, ◌*◌, ◌%◌, ◌^◌, ◌≤◌, ◌<◌, ◌≡◌, ◌≢◌, ◌⊎◌, refl, arith, true, false, Option,
  none, some, List, [], ◌∷◌, ◌++◌, ltb, leb, ◌==◌, if◌then◌else◌, length, get_elem?, set,
  get_elem?-set_self, get_elem?-set_ne, lt_of_get_elem?, Bool-cases, inl, inr, sym, ap, ◌∙◌,
}
use mathlib.Core.Path.{subst}
use libjit.Word.{ulong_modulus}
use libjit.Block.{
  Block, Insn, Builder, label_undefined, new_block, append_block, from_label, create, add_insn,
  get_last,
}
use libjit.Block.Labels.{Records, record_label-Records, from_label-eq}
use libjit.Block.Peephole.Follows.{Labelled}

module _ {ℓ} {A : Type ℓ} where
  get_elem?-append_last :
      (xs : List A) (x y : A) (i : ℕ)
      → get_elem? (xs ++ (x ∷ [])) i ≡ some y
      → (get_elem? xs i ≡ some y) ⊎ ((i ≡ length xs) × (x ≡ y))
  get_elem?-append_last [] x y zero h = inr (refl, cc)
  get_elem?-append_last [] x y (suc i) h = inl h
  get_elem?-append_last (z ∷ xs) x y zero h = inl h
  get_elem?-append_last (z ∷ xs) x y (suc i) h = elim (get_elem?-append_last xs x y i h) [
    | inl old ↦ inl old
    | inr (e, new) ↦ inr (ap suc e, new)
  ]

  get_elem?-append_new : (xs : List A) (x : A) → get_elem? (xs ++ (x ∷ [])) (length xs) ≡ some x
  get_elem?-append_new [] x = refl
  get_elem?-append_new (y ∷ xs) x = get_elem?-append_new xs x

-- The label that a block gets, and the builder that it is taken from.
abbrev pub label_of : Builder → ℕ → ℕ
label_of builder label = if label == label_undefined then builder.next_label else label

-- What creating a block that gets the label `mine` leaves, where it succeeds.
pub record Creates (builder : Builder) (mine : ℕ) (result : Option (Builder × Option ℕ × Option ℕ))
    : Type 0 where
  pub after : Builder
  pub succeeds : result ≡ some (after, some mine, some (length builder.blocks))
  pub named : from_label after mine ≡ some (length builder.blocks)
  pub labelled : Labelled builder → Labelled after

appended-Labelled :
    (builder recorded : Builder) (label : ℕ)
    → recorded.blocks ≡ builder.blocks
    → recorded.insns ≡ builder.insns
    → from_label builder label ≡ none
    → from_label recorded label ≡ some (length builder.blocks)
    → ((other : ℕ) → label ≢ other → from_label recorded other ≡ from_label builder other)
    → Labelled builder
    → Labelled (append_block recorded label)
unfolding from_label
appended-Labelled builder recorded label blocks insns unused here elsewhere labelled = record {
  names = λ i block at known.
      elim (get_elem?-append_last recorded.blocks (new_block recorded label) block i at) [
        | inl old ↦
            let before : from_label builder block.label ≡ some i =
              labelled.names i block (ap (λ x. get_elem? x i) (sym blocks) ∙ old) known in
            let other : label ≢ block.label =
              λ e. ground (arith, sym unused ∙ ap (from_label builder) e ∙ before) in
            from_label-eq (append_block recorded label) block.label
            ∙ sym (from_label-eq recorded block.label)
            ∙ elsewhere block.label other
            ∙ before
        | inr (last, new) ↦
            from_label-eq (append_block recorded label) block.label
            ∙ sym (from_label-eq recorded block.label)
            ∙ ap (λ x. from_label recorded x.label) (sym new)
            ∙ here
            ∙ ap (λ x. some (length x)) (sym blocks)
            ∙ ap some (sym last)
      ];
  branches = λ i insn at br. labelled.branches i insn (ap (λ x. get_elem? x i) (sym insns) ∙ at) br;
}

created-Creates :
    (builder : Builder) (mine next : ℕ) (result : Option (Option Builder))
    → from_label builder mine ≡ none
    → (r : Records (record builder { next_label = next }) mine (length builder.blocks) result)
    → Creates builder mine
        (some (append_block r.after mine, some mine, some (length builder.blocks)))
created-Creates builder mine next result unused r = record {
  after = append_block r.after mine;
  succeeds = refl;
  named =
      from_label-eq (append_block r.after mine) mine ∙ sym (from_label-eq r.after mine) ∙ r.here;
  labelled = appended-Labelled builder r.after mine r.blocks r.insns unused r.here (λ other ne.
      r.elsewhere other ne
      ∙ from_label-eq (record builder { next_label = next }) other
      ∙ sym (from_label-eq builder other));
}

create-fresh :
    (builder : Builder) (label : ℕ)
    → (label == label_undefined) ≡ true
    → builder.next_label < 2 ^ 60
    → from_label builder builder.next_label ≡ none
    → Creates builder builder.next_label (create true true builder (some label))
unfolding create
create-fresh builder label fresh fits unused =
    let next : ℕ = (builder.next_label + 1) % ulong_modulus in
    let r =
      record_label-Records (record builder { next_label = next }) builder.next_label
        (length builder.blocks) fits in
    rw (fresh, r.succeeds, fresh) (created-Creates builder builder.next_label next _ unused r)

create-given :
    (builder : Builder) (label : ℕ)
    → (label == label_undefined) ≡ false
    → label < 2 ^ 60
    → from_label builder label ≡ none
    → Creates builder label (create true true builder (some label))
unfolding create
create-given builder label given fits unused =
    let r = record_label-Records builder label (length builder.blocks) fits in
    rw (given, r.succeeds, given) (created-Creates builder label builder.next_label _ unused r)

-- Where memory can be had, `_jit_block_create` with a label below 2 ^ 60 that names no block yet, or with an
-- undefined one in place of which the next free label is taken, below 2 ^ 60 too, appends a block that the label then
-- names. If the label of each block named that block before, it does so afterwards.
pub create-Creates :
    (builder : Builder) (label : ℕ)
    → label_of builder label < 2 ^ 60
    → from_label builder (label_of builder label) ≡ none
    → Creates builder (label_of builder label) (create true true builder (some label))
create-Creates builder label fits unused = elim (Bool-cases (label == label_undefined)) [
  | inl fresh ↦
      let taken : label_of builder label ≡ builder.next_label = rw fresh refl in
      rw taken (
        create-fresh builder label fresh (subst (λ x. x < 2 ^ 60) taken fits)
          (ap (from_label builder) (sym taken) ∙ unused))
  | inr given ↦
      let taken : label_of builder label ≡ label = rw given refl in
      rw taken (
        create-given builder label given (subst (λ x. x < 2 ^ 60) taken fits)
          (ap (from_label builder) (sym taken) ∙ unused))
]

-- Where memory can be had, `_jit_block_add_insn` makes the instruction the last one of its block,
-- whether the array has to grow or not, and leaves every other block as it was.
pub add_insn-get_last :
    (builder : Builder) (i : ℕ) (block : Block) (insn : Insn)
    → get_elem? builder.blocks i ≡ some block
    → block.first_insn ≤ length builder.insns
    → (after : Builder) × (block' : Block) × (add_insn true true builder i insn
        ≡ some (after, true))
      × (get_elem? after.blocks i ≡ some block')
      × (get_last after block' ≡ some (some insn))
      × ((j : ℕ) → i ≢ j → get_elem? after.blocks j ≡ get_elem? builder.blocks j)
unfolding add_insn get_last
add_insn-get_last builder i block insn here order =
    let count : ℕ = length builder.insns in
    let block' : Block = record block { end_insn = suc count } in
    let within : ltb block.first_insn (suc count) ≡ true = ground arith in
    let less : suc count - 1 ≡ count = omega arith in
    (
      record builder {
        blocks = set builder.blocks i block';
        insns = builder.insns ++ (insn ∷ []);
        max_insns =
            if leb builder.max_insns count
            then (if ltb (builder.max_insns * 2) 64 then 64 else builder.max_insns * 2)
            else builder.max_insns;
      },
      block',
      elim (Bool-cases (leb builder.max_insns count)) [
        | inl full ↦ rw (here, full) refl
        | inr room ↦ rw (here, room) refl
      ],
      get_elem?-set_self builder.blocks i block' (lt_of_get_elem? builder.blocks i here),
      rw (within, less, get_elem?-append_new builder.insns insn) refl,
      λ j ne. get_elem?-set_ne builder.blocks block' ne,
    )
