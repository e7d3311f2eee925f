-- ===== src/Block/Peephole/Threads.antt =====
-- Threading of branches: where the label leads to that a branch is given.
use libjit.Base.{
  ℕ, zero, suc, ◌≡◌, refl, arith, false, none, some, List, [], ◌∷◌, ltb, ◌==◌, get_elem?, drop,
  Bool-cases, Option-cases, inl, inr, sym, ap, ◌∙◌,
}
use libjit.Block.{Block, Builder, op_br, is_empty_or_dead, from_label}
use libjit.Block.Peephole.{skip_empty, follow, thread}
use libjit.Block.Peephole.Paths.{step, Runs, Runs-here, Runs-same, Runs-step, Runs-Runs}
use libjit.Block.Peephole.Follows.{drop-cons, step_empty, step_branch}

module _ (builder : Builder) where
  skip_empty-Runs :
      (next : List Block) (i j : ℕ)
      → drop i builder.blocks ≡ next
      → skip_empty next i ≡ some j
      → Runs builder i j
        × (block : Block) × (get_elem? builder.blocks j ≡ some block)
        × (is_empty_or_dead block ≡ false)
  unfolding skip_empty
  skip_empty-Runs [] i j at h = absurd (ground arith)
  skip_empty-Runs (block ∷ next) i j at h =
      let (here, behind) = drop-cons builder.blocks i block next at in
      elim (Bool-cases (is_empty_or_dead block)) [
        | inl empty ↦
            let (runs, stop, there, full) = skip_empty-Runs next (suc i) j behind (ground arith) in
            (Runs-Runs (Runs-step (step_empty builder i block here empty)) runs, stop, there, full)
        | inr full ↦
            let same : i ≡ j = ground arith in
            (Runs-same same, block, ap (get_elem? builder.blocks) (sym same) ∙ here, full)
      ]

  -- Control that branches to `label` comes to a branch to `label'`.
  record Links (label label' : ℕ) : Type 0 where
    start : ℕ
    middle : ℕ
    named : from_label builder label ≡ some start
    runs : Runs builder start middle
    branch : step builder middle ≡ from_label builder label'

  follow-Links : (label label' : ℕ) → follow builder label ≡ some (some label') → Links label label'
  unfolding follow
  follow-Links label label' h = elim (Option-cases (from_label builder label)) [
    | inl nowhere ↦ absurd (ground arith)
    | inr (start, named) ↦ elim (Option-cases (skip_empty (drop start builder.blocks) start)) [
      | inl end ↦ absurd (ground arith)
      | inr (j, skips) ↦
          let (runs, block, here, full) =
            skip_empty-Runs (drop start builder.blocks) start j refl skips in
          elim (Bool-cases (ltb (suc block.first_insn) block.end_insn)) [
            | inl several ↦ absurd (ground arith)
            | inr single ↦ elim (Option-cases (get_elem? builder.insns block.first_insn)) [
              | inl fault ↦ absurd (ground arith)
              | inr (insn, first) ↦ elim (Bool-cases (insn.opcode == op_br)) [
                | inr other_op ↦ absurd (ground arith)
                | inl br ↦
                    let dest : insn.dest ≡ label' = ground arith in
                    record {
                      start = start;
                      middle = j;
                      named = named;
                      runs = runs;
                      branch =
                          step_branch builder j block insn here full single first br
                          ∙ ap (from_label builder) dest;
                    }
              ]
            ]
          ]
    ]
  ]

  -- Threading a branch keeps where it leads: if the new label names a block, so did the old one, and
  -- control that branches to the old label comes to that block without any effect on the way.
  pub thread-Runs :
      (own count label label' target : ℕ)
      → thread builder own count label ≡ some label'
      → from_label builder label' ≡ some target
      → (start : ℕ) × (from_label builder label ≡ some start) × Runs builder start target
  unfolding thread
  thread-Runs own zero label label' target h named =
      (target, ap (from_label builder) (ground arith) ∙ named, Runs-here target)
  thread-Runs own (suc count) label label' target h named = elim (Bool-cases (label == own)) [
    | inl self ↦ (target, ap (from_label builder) (ground arith) ∙ named, Runs-here target)
    | inr other ↦ elim (Option-cases (follow builder label)) [
      | inl fault ↦ absurd (ground arith)
      | inr (none, e) ↦ (target, ap (from_label builder) (ground arith) ∙ named, Runs-here target)
      | inr (some next, e) ↦
          let link = follow-Links label next e in
          let (start, there, runs) =
            thread-Runs own count next label' target (ground arith) named in
          (
            link.start,
            link.named,
            Runs-Runs link.runs (Runs-Runs (Runs-step (link.branch ∙ there)) runs),
          )
    ]
  ]
