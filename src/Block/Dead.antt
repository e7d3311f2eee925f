-- ===== src/Block/Dead.antt =====
-- jit/jit-block.c: whether the current point of a function can be reached.
use mathlib.Core.List.{reverse}
use libjit.Base.{
  ◌≡◌, refl, arith, Bool, true, not, ◌&&◌, ◌||◌, List, [], ◌∷◌, ◌++◌, ltb, if◌then◌else◌,
  Bool-cases, inl, inr, ap, ◌∙◌,
}
use libjit.Base.Int.{ℤ, pos}
use libjit.Word.{flag}
use libjit.Block.{Block, Builder}

unfoldable pub is_reachable : Block → ℤ
is_reachable block = flag (block.entered_via_top || block.entered_via_branch)

-- The loop of `jit_block_current_is_dead`, over the blocks from the last to the first.
unfoldable pub dead_from : List Block → ℤ
dead_from [] = pos 0
dead_from (block ∷ prev) =
    let rest = dead_from prev in
    if block.ends_in_dead
    then pos 1
    else if not block.entered_via_top && not block.entered_via_branch
    then pos 1
    else if block.entered_via_branch
    then pos 0
    else if not (ltb block.first_insn block.end_insn)
    then rest
    else pos 0

unfoldable pub current_is_dead : Builder → ℤ
current_is_dead builder = dead_from (reverse builder.blocks)

-- A block that control cannot leave through its end.
abbrev pub stops : Block → Bool
stops block = block.ends_in_dead || (not block.entered_via_top && not block.entered_via_branch)

-- A block that control can come to only from the one before it, and that has no instruction.
abbrev pub passes : Block → Bool
passes block =
    not block.ends_in_dead
    && (block.entered_via_top && not block.entered_via_branch)
    && not (ltb block.first_insn block.end_insn)

abbrev pub AllPass : List Block → Type 0
AllPass [] = Unit {0}
AllPass (block ∷ blocks) = (passes block ≡ true) × AllPass blocks

-- Behind the last of the blocks that stops control, there are only empty blocks that nothing
-- branches to. The blocks are listed from the last to the first.
pub record DeadEnd (blocks : List Block) : Type 0 where
  pub behind : List Block
  pub end : Block
  pub before : List Block
  pub split : blocks ≡ behind ++ (end ∷ before)
  pub only_empty : AllPass behind
  pub stopped : stops end ≡ true

dead_from-DeadEnd : (blocks : List Block) → dead_from blocks ≡ pos 1 → DeadEnd blocks
unfolding dead_from
dead_from-DeadEnd [] h = absurd (ground arith)
dead_from-DeadEnd (block ∷ prev) h = elim (Bool-cases (stops block)) [
  | inl stop ↦ record {
    behind = [];
    end = block;
    before = prev;
    split = refl;
    only_empty = tt;
    stopped = stop;
  }
  | inr onward ↦
      let r = dead_from-DeadEnd prev (ground arith) in
      record {
        behind = block ∷ r.behind;
        end = r.end;
        before = r.before;
        split = ap (λ x. block ∷ x) r.split;
        only_empty = (ground arith, r.only_empty);
        stopped = r.stopped;
      }
]

passed-dead :
    (behind before : List Block) (end : Block)
    → AllPass behind
    → stops end ≡ true
    → dead_from (behind ++ (end ∷ before)) ≡ pos 1
unfolding dead_from
passed-dead [] before end all stop = ground arith
passed-dead (block ∷ behind) before end (pass, all) stop =
    ground (arith, passed-dead behind before end all stop)

-- `jit_block_current_is_dead` returns 1 exactly if some block ends in dead code or is never entered,
-- and all blocks behind it are empty, entered from the top only, and do not end in dead code.
pub current_is_dead-DeadEnd :
    (builder : Builder)
    → (current_is_dead builder ≡ pos 1 → DeadEnd (reverse builder.blocks))
      × (DeadEnd (reverse builder.blocks) → current_is_dead builder ≡ pos 1)
unfolding current_is_dead
current_is_dead-DeadEnd builder = (
  dead_from-DeadEnd (reverse builder.blocks),
  λ d. ap dead_from d.split ∙ passed-dead d.behind d.before d.end d.only_empty d.stopped,
)
