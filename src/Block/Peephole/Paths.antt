-- ===== src/Block/Peephole/Paths.antt =====
-- Control between blocks: what the rewriting of branches keeps.
use libjit.Base.{
  ℕ, zero, suc, ◌+◌, ◌-◌, ◌≡◌, ◌⊎◌, refl, arith, Option, none, some, leb, ◌==◌, Bool, not, ◌&&◌,
  ◌||◌, if◌then◌else◌, get_elem?, Bool-cases, Option-cases, inl, inr, sym, ap, ◌∙◌,
}
use libjit.Base.Maybe.{◌>>=◌}
use libjit.Block.{Block, Builder, op_br, from_label}

-- The block has no instructions.
abbrev pub has_no_code : Block → Bool
has_no_code block = block.end_insn - block.first_insn == 0

-- No code is generated for the block, since it is entered neither way (jit/jit-function.c leaves it out).
abbrev pub is_discarded : Block → Bool
is_discarded block = not block.entered_via_top && not block.entered_via_branch

-- Where control goes from block `i` without any effect: from a block without instructions or one that is
-- discarded to the next one, and from a block of one instruction, an unconditional branch, to the
-- block that its label names. Any other block does something, and has no such step.
abbrev pub step_of : Builder → ℕ → Block → Option ℕ
step_of builder i block =
    if has_no_code block || is_discarded block
    then some (suc i)
    else if block.end_insn - block.first_insn == 1
    then (do
      insn ← get_elem? builder.insns block.first_insn
      if insn.opcode == op_br then from_label builder insn.dest else none)
    else none

unfoldable pub step : Builder → ℕ → Option ℕ
step builder i = do block ← get_elem? builder.blocks i; step_of builder i block

-- Where control is after `n` such steps from block `i`.
unfoldable pub run : Builder → ℕ → ℕ → Option ℕ
run builder zero i = some i
run builder (suc n) i = do j ← step builder i; run builder n j

-- Control passes from block `i` to block `j` without any effect on the way.
pub record Runs (builder : Builder) (i j : ℕ) : Type 0 where
  pub steps : ℕ
  pub lands : run builder steps i ≡ some j

-- Control comes from `i` and from `j` to one block.
pub record Joins (builder : Builder) (i j : ℕ) : Type 0 where
  pub meet : ℕ
  pub left : Runs builder i meet
  pub right : Runs builder j meet

run-run :
    (builder : Builder) (n m i j : ℕ)
    → run builder n i ≡ some j
    → run builder (n + m) i ≡ run builder m j
unfolding run
run-run builder zero m i j h = grind arith
run-run builder (suc n) m i j h =
    let e : suc n + m ≡ suc (n + m) = omega arith in
    elim (Option-cases (step builder i)) [
      | inl stuck ↦ absurd (ground arith)
      | inr (j', moves) ↦
          let h' : run builder n j' ≡ some j = ground arith in
          rw (e, moves) (run-run builder n m j' j h')
    ]

module _ {builder : Builder} where
  pub Runs-here : (i : ℕ) → Runs builder i i
  unfolding run
  Runs-here i = record { steps = 0; lands = refl }

  pub Runs-same : {i j : ℕ} → i ≡ j → Runs builder i j
  unfolding run
  Runs-same e = record { steps = 0; lands = ap some e }

  pub Runs-step : {i j : ℕ} → step builder i ≡ some j → Runs builder i j
  unfolding run
  Runs-step e = record { steps = 1; lands = rw e refl }

  pub Runs-Runs : {i j k : ℕ} → Runs builder i j → Runs builder j k → Runs builder i k
  Runs-Runs {i = i} {j = j} p q = record {
    steps = p.steps + q.steps;
    lands = run-run builder p.steps q.steps i j p.lands ∙ q.lands;
  }

  -- Control is deterministic, so of two places that it passes, one comes first.
  one_first :
      {i j k : ℕ} → Runs builder i j → Runs builder i k → Runs builder j k ⊎ Runs builder k j
  one_first {i = i} {j = j} {k = k} p q = elim (Bool-cases (leb p.steps q.steps)) [
    | inl le ↦
        let e : p.steps + (q.steps - p.steps) ≡ q.steps = ground arith in
        inl (record {
          steps = q.steps - p.steps;
          lands =
              sym (run-run builder p.steps (q.steps - p.steps) i j p.lands)
              ∙ ap (λ x. run builder x i) e
              ∙ q.lands;
        })
    | inr gt ↦
        let e : q.steps + (p.steps - q.steps) ≡ p.steps = ground arith in
        inr (record {
          steps = p.steps - q.steps;
          lands =
              sym (run-run builder q.steps (p.steps - q.steps) i k q.lands)
              ∙ ap (λ x. run builder x i) e
              ∙ p.lands;
        })
  ]

  pub Joins-here : (i : ℕ) → Joins builder i i
  Joins-here i = record { meet = i; left = Runs-here i; right = Runs-here i }

  pub Joins-sym : {i j : ℕ} → Joins builder i j → Joins builder j i
  Joins-sym p = record { meet = p.meet; left = p.right; right = p.left }

  pub Joins-Joins : {i j k : ℕ} → Joins builder i j → Joins builder j k → Joins builder i k
  Joins-Joins p q = elim (one_first p.right q.left) [
    | inl first ↦ record { meet = q.meet; left = Runs-Runs p.left first; right = q.right }
    | inr second ↦ record { meet = p.meet; left = p.left; right = Runs-Runs q.right second }
  ]

  pub Joins-step : {i j k : ℕ} → step builder i ≡ some j → Joins builder j k → Joins builder i k
  Joins-step e p = record { meet = p.meet; left = Runs-Runs (Runs-step e) p.left; right = p.right }
