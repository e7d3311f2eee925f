-- ===== src/Block/Peephole/Follows.antt =====
-- Branches to the code that follows: `block_branches_to_next`, in terms of the blocks that control
-- passes.
use libjit.Base.{
  ◌||◌, false, ℕ, zero, suc, ◌≡◌, ◌≢◌, refl, arith, true, false, some, List, [], ◌∷◌, ltb, ◌==◌,
  get_elem?, get_elem?-set_ne, set, ◌-◌, drop, ◌∙◌,
}
use libjit.Block.{
  Block, Insn, Builder, op_br, is_empty_or_dead, branches_to_next, from_label, label_undefined,
}
use libjit.Block.Peephole.{remove_branch}
use libjit.Block.Peephole.Paths.{has_no_code, is_discarded, step, Joins}

-- The first of the blocks from position `i` on is block `i`.
pub drop-cons :
    (xs : List Block) (i : ℕ) (x : Block) (next : List Block)
    → drop i xs ≡ x ∷ next
    → (get_elem? xs i ≡ some x) × (drop (suc i) xs ≡ next)
drop-cons [] zero x next h = absurd (ground arith)
drop-cons [] (suc i) x next h = absurd (ground arith)
drop-cons (y ∷ xs) zero x next h = (cc, cc)
drop-cons (y ∷ xs) (suc i) x next h = drop-cons xs i x next h

-- The label of a block names that block, and every unconditional branch has a label.
pub record Labelled (builder : Builder) : Type 0 where
  pub names :
      (i : ℕ) (block : Block)
      → get_elem? builder.blocks i ≡ some block
      → block.label ≢ label_undefined
      → from_label builder block.label ≡ some i
  pub branches :
      (i : ℕ) (insn : Insn)
      → get_elem? builder.insns i ≡ some insn
      → (insn.opcode == op_br) ≡ true
      → insn.dest ≢ label_undefined

-- The test of the code is that of the steps.
empty_passes :
    (block : Block)
    → is_empty_or_dead block ≡ true
    → (has_no_code block || is_discarded block) ≡ true
unfolding is_empty_or_dead
empty_passes block h = ground arith

full_stays :
    (block : Block)
    → is_empty_or_dead block ≡ false
    → ltb (suc block.first_insn) block.end_insn ≡ false
    → ((has_no_code block || is_discarded block) ≡ false)
      × ((block.end_insn - block.first_insn == 1) ≡ true)
unfolding is_empty_or_dead
full_stays block h single = ground arith

module _ (builder : Builder) where
  pub step_empty :
      (i : ℕ) (block : Block)
      → get_elem? builder.blocks i ≡ some block
      → is_empty_or_dead block ≡ true
      → step builder i ≡ some (suc i)
  unfolding step
  step_empty i block here empty =
      let passes : (has_no_code block || is_discarded block) ≡ true = empty_passes block empty in
      rw (here, passes) refl

  pub step_branch :
      (i : ℕ) (block : Block) (insn : Insn)
      → get_elem? builder.blocks i ≡ some block
      → is_empty_or_dead block ≡ false
      → ltb (suc block.first_insn) block.end_insn ≡ false
      → get_elem? builder.insns block.first_insn ≡ some insn
      → (insn.opcode == op_br) ≡ true
      → step builder i ≡ from_label builder insn.dest
  unfolding step
  step_branch i block insn here full single first br =
      let (does, one) = full_stays block full single in rw (here, does, one, first, br) refl

-- A block with the label, to which control comes as it does from block `i`.
pub record Reached (builder : Builder) (i label : ℕ) : Type 0 where
  pub target : ℕ
  pub named : from_label builder label ≡ some target
  pub meets : Joins builder i target

removal :
    (builder : Builder) (i label : ℕ) (block : Block) (behind : List Block)
    → drop (suc i) builder.blocks ≡ behind
    → branches_to_next builder.insns behind label ≡ some true
    → (after : Builder) × (remove_branch builder i block ≡ some after)
      × ((j : ℕ) → i ≢ j → suc i ≢ j → get_elem? after.blocks j ≡ get_elem? builder.blocks j)
unfolding remove_branch branches_to_next
removal builder i label block [] at h = absurd (ground arith)
removal builder i label block (next ∷ behind) at h =
    let (here, rest) = drop-cons builder.blocks (suc i) next behind at in
    let shorter : Block = record block { end_insn = block.end_insn - 1; ends_in_dead = false } in
    let entered : Block = record next { entered_via_top = true } in
    (
      record builder { blocks = set (set builder.blocks i shorter) (suc i) entered },
      rw here refl,
      λ j ne ne'.
          get_elem?-set_ne (set builder.blocks i shorter) entered ne'
          ∙ get_elem?-set_ne builder.blocks shorter ne,
    )

-- Where `block_branches_to_next` says of block `i` that its branch does not matter, there is a next
-- block, so that removing the branch does not go through a null pointer; the removal leaves every
-- block but these two as it was.
pub remove_branch-succeeds :
    (builder : Builder) (i label : ℕ) (block : Block)
    → branches_to_next builder.insns (drop (suc i) builder.blocks) label ≡ some true
    → (after : Builder) × (remove_branch builder i block ≡ some after)
      × ((j : ℕ) → i ≢ j → suc i ≢ j → get_elem? after.blocks j ≡ get_elem? builder.blocks j)
remove_branch-succeeds builder i label block h =
    removal builder i label block (drop (suc i) builder.blocks) refl h
