-- ===== src/Block/Peephole.antt =====
-- jit/jit-block.c: `_jit_block_peephole_branch`, which shortens chains of branches and removes a
-- branch to the code that follows it.
pub mod Paths
pub mod Follows
pub mod Threads
use libjit.Base.{
  ℕ, zero, suc, ◌+◌, ◌-◌, Bool, true, false, not, ◌&&◌, ◌||◌, Option, none, some, List, [], ◌∷◌,
  ltb, leb, ◌==◌, if◌then◌else◌, length, get_elem?, set, drop,
}
use libjit.Base.Maybe.{◌>>=◌}
use libjit.Block.{
  Block, Insn, Builder, op_br, op_br_nfge_inv, is_empty_or_dead, branches_to_next, from_label,
  get_last,
}

-- `while(new_block != 0 && block_is_empty_or_dead(new_block)) new_block = new_block->next;`, on the
-- blocks from position `i` on.
unfoldable pub skip_empty : List Block → ℕ → Option ℕ
skip_empty [] i = none
skip_empty (block ∷ next) i =
    let rest = skip_empty next (suc i) in if is_empty_or_dead block then rest else some i

-- One round of the loop that threads branches: the label that the code at `label` branches on to,
-- `none` inside if it does something else.
unfoldable pub follow : Builder → ℕ → Option (Option ℕ)
follow builder label = elim (from_label builder label) [
  | none ↦ some none
  | some start ↦ elim (skip_empty (drop start builder.blocks) start) [
    | none ↦ some none
    | some i ↦ (do
      block ← get_elem? builder.blocks i
      if ltb (suc block.first_insn) block.end_insn then some none else (do
        insn ← get_elem? builder.insns block.first_insn
        if not (insn.opcode == op_br) then some none else some (some insn.dest)))
  ]
]

-- The loop, which stops at the label `own` of the block itself, or after `count` links.
unfoldable pub thread : Builder → ℕ → ℕ → ℕ → Option ℕ
thread builder own zero label = some label
thread builder own (suc count) label =
    let onward = thread builder own count in
    if label == own then some label else (do
      next ← follow builder label
      elim next [ none ↦ some label | some label' ↦ onward label' ])

-- The branch at the end of block `i` is removed; the next block is entered from the top.
unfoldable pub remove_branch : Builder → ℕ → Block → Option Builder
remove_branch builder i block = do
  next ← get_elem? builder.blocks (suc i)
  some (record builder {
    blocks =
        set
          (set builder.blocks i
            (record block { end_insn = block.end_insn - 1; ends_in_dead = false }))
          (suc i) (record next { entered_via_top = true });
  })

-- `_jit_block_peephole_branch` on block `i`.
unfoldable pub peephole_branch : Builder → ℕ → Option Builder
peephole_branch builder i = do
  block ← get_elem? builder.blocks i
  last ← get_last builder block
  elim last [
    | none ↦ some builder
    | some insn ↦
        if ltb insn.opcode op_br || ltb op_br_nfge_inv insn.opcode then some builder else (do
          label ← thread builder block.label 32 insn.dest
          let threaded = record builder {
            insns = set builder.insns (block.end_insn - 1) (record insn { dest = label });
          }
          follows ← branches_to_next threaded.insns (drop (suc i) builder.blocks) label
          if follows then remove_branch threaded i block else some threaded)
  ]
