-- ===== src/Tests/Blocks.antt =====
-- The theorems on blocks, at concrete values.
use libjit.Base.{ℕ, ◌≡◌, refl, arith, Bool, true, false, none, some, [], ◌∷◌}
use mathlib.Core.List.{reverse}
use libjit.Base.Int.{pos}
use libjit.Block.Dead.{DeadEnd, current_is_dead, dead_from, current_is_dead-DeadEnd}
use libjit.Block.{
  Block, Insn, Builder, op_br, label_undefined, from_label, create, get_last, branches_to_next,
  is_empty_or_dead,
}
use libjit.Block.Create.{Creates, create-Creates}
use libjit.Block.Peephole.{skip_empty, follow, thread, remove_branch, peephole_branch}
use libjit.Block.Peephole.Paths.{Runs}
use libjit.Block.Peephole.Threads.{thread-Runs}

abbrev block_of : ℕ → ℕ → ℕ → Bool → Block
block_of label first end dead = record {
  label = label;
  first_insn = first;
  end_insn = end;
  entered_via_top = true;
  entered_via_branch = true;
  ends_in_dead = dead;
}

abbrev insn_of : ℕ → ℕ → Insn
insn_of opcode dest = record { opcode = opcode; dest = dest }

-- A block that branches to a branch to the last block, with only an empty block and that branch in
-- between.
abbrev chain : Builder
chain = record {
  blocks =
      block_of 1 0 2 true ∷ block_of 2 2 2 false ∷ block_of 3 2 3 true ∷ block_of 4 3 4 false ∷ [];
  insns = insn_of 1 0 ∷ insn_of op_br 3 ∷ insn_of op_br 4 ∷ insn_of 1 0 ∷ [];
  max_insns = 64;
  label_blocks = none ∷ some 0 ∷ some 1 ∷ some 2 ∷ some 3 ∷ [];
  next_label = 5;
}

thread_run : thread chain 1 32 3 ≡ some 4
unfolding thread follow skip_empty is_empty_or_dead from_label
thread_run = refl

last_label_run : from_label chain 4 ≡ some 3
unfolding from_label
last_label_run = refl

-- The branch is threaded, and then removed.
peephole_run :
    peephole_branch chain 0
    ≡ some (record chain {
      blocks =
          block_of 1 0 1 false
          ∷ block_of 2 2 2 false
          ∷ block_of 3 2 3 true
          ∷ block_of 4 3 4 false
          ∷ [];
      insns = insn_of 1 0 ∷ insn_of op_br 4 ∷ insn_of op_br 4 ∷ insn_of 1 0 ∷ [];
    })
unfolding peephole_branch get_last thread follow skip_empty is_empty_or_dead from_label
    branches_to_next remove_branch
peephole_run = refl

unused_label_run : from_label chain 5 ≡ none
unfolding from_label
unused_label_run = refl

create-Creates_example : Creates chain 5 (create true true chain (some label_undefined))
create-Creates_example = create-Creates chain label_undefined (omega arith) unused_label_run

thread-Runs_example : (start : ℕ) × (from_label chain 3 ≡ some start) × Runs chain start 3
thread-Runs_example = thread-Runs chain 1 32 3 4 3 thread_run last_label_run

-- The last block of the chain does something, and is entered.
current_is_dead-DeadEnd_example :
    (current_is_dead chain ≡ pos 1 → DeadEnd (reverse chain.blocks))
    × (DeadEnd (reverse chain.blocks) → current_is_dead chain ≡ pos 1)
current_is_dead-DeadEnd_example = current_is_dead-DeadEnd chain

current_is_dead_run : current_is_dead chain ≡ pos 0
unfolding current_is_dead dead_from
current_is_dead_run = refl
