-- ===== src/Block.antt =====
-- jit/jit-block.c: the blocks of a function that is being built, their labels, and the rewriting of
-- branches. Blocks are the list in the order of creation, and a block is known by its position
-- in it: the `next` and `prev` pointers are the neighbouring positions. Metadata, addresses and the
-- memory pool of the instructions are left out. `none` is a read or write outside an array.
pub mod Labels
pub mod Create
pub mod Dead
pub mod Peephole
use libjit.Base.{
  ℕ, zero, suc, ◌+◌, ◌-◌, ◌*◌, ◌%◌, ◌^◌, Bool, true, false, not, ◌&&◌, ◌||◌, Option, none, some,
  List, [], ◌∷◌, ◌++◌, ltb, leb, ◌==◌, if◌then◌else◌, length, get_elem?, set, get_or, replicate,
}
use libjit.Base.Maybe.{◌>>=◌}
use libjit.Word.{ulong_modulus}

-- `jit_label_undefined`
abbrev pub label_undefined : ℕ
label_undefined = 2 ^ 32 - 1

abbrev pub op_br : ℕ
op_br = 0x63

abbrev pub op_br_nfge_inv : ℕ
op_br_nfge_inv = 0x9F

-- `end_insn` is `last_insn + 1`, since `last_insn` is -1 for an empty block at the start.
pub record Block : Type 0 where
  pub label : ℕ
  pub first_insn : ℕ
  pub end_insn : ℕ
  pub entered_via_top : Bool
  pub entered_via_branch : Bool
  pub ends_in_dead : Bool

-- An instruction; `dest` is the label of a branch.
pub record Insn : Type 0 where
  pub opcode : ℕ
  pub dest : ℕ

-- `insns` are the instructions in use; `label_blocks` has `max_label_blocks` entries.
pub record Builder : Type 0 where
  pub blocks : List Block
  pub insns : List Insn
  pub max_insns : ℕ
  pub label_blocks : List (Option ℕ)
  pub next_label : ℕ

-- `while(num <= label) num *= 2;`, with `rounds` rounds at most.
unfoldable pub double_past : ℕ → ℕ → ℕ → ℕ
double_past zero label num = num
double_past (suc rounds) label num =
    let next = double_past rounds label (num * 2 % ulong_modulus) in
    if leb num label then next else num

-- The table's new size. The loop runs 64 rounds at most for a label below 2 ^ 63.
unfoldable pub grown_size : ℕ → ℕ → ℕ
grown_size max label = double_past 64 label (if ltb max 64 then 64 else max)

-- `_jit_block_record_label`; `realloc` says whether the memory can be had. The inner `none` is the failure
-- that it reports. `num * sizeof(jit_block_t)` wraps, and then the new entries are written behind the
-- memory that is asked for.
unfoldable pub record_label : Bool → Builder → ℕ → ℕ → Option (Option Builder)
record_label realloc builder label block =
    let max = length builder.label_blocks in
    let num = grown_size max label in
    if leb max label
    then (if not realloc
        then some none
        else if not (num * 8 % ulong_modulus == num * 8)
        then none
        else (let blocks = builder.label_blocks ++ replicate (num - max) none in
            some (some (record builder { label_blocks = set blocks label (some block) }))))
    else some (some (record builder { label_blocks = set builder.label_blocks label (some block) }))

unfoldable pub from_label : Builder → ℕ → Option ℕ
from_label builder label =
    if ltb label (length builder.label_blocks) then get_or builder.label_blocks label none else none

abbrev pub new_block : Builder → ℕ → Block
new_block builder label = record {
  label = label;
  first_insn = length builder.insns;
  end_insn = length builder.insns;
  entered_via_top = false;
  entered_via_branch = false;
  ends_in_dead = false;
}

abbrev pub append_block : Builder → ℕ → Builder
append_block builder label = record builder {
  blocks = builder.blocks ++ (new_block builder label ∷ []);
}

-- `_jit_block_create`, for the label that `*label` holds, or for a null pointer: the builder, the
-- label afterwards, and the position of the new block. `calloc` and `realloc` say whether memory
-- can be had.
unfoldable pub create : Bool → Bool → Builder → Option ℕ → Option (Builder × Option ℕ × Option ℕ)
create calloc realloc builder none =
    if calloc
    then some (append_block builder label_undefined, none, some (length builder.blocks))
    else some (builder, none, none)
create calloc realloc builder (some label) =
    let fresh = label == label_undefined in
    let label' = if fresh then builder.next_label else label in
    let builder' =
      if fresh
      then record builder { next_label = (builder.next_label + 1) % ulong_modulus }
      else builder in
    if calloc
    then (elim (record_label realloc builder' label' (length builder.blocks)) [
      | none ↦ none
      | some none ↦ some (builder', some label', none)
      | some (some recorded) ↦
          some (append_block recorded label', some label', some (length builder.blocks))
    ])
    else some (builder, some label, none)

-- `_jit_block_add_insn` on block `i`, with the instruction as the caller fills it in; `alloc` and
-- `realloc` say whether memory can be had. The second result says whether there is an instruction.
unfoldable pub add_insn : Bool → Bool → Builder → ℕ → Insn → Option (Builder × Bool)
add_insn alloc realloc builder i insn = do
  block ← get_elem? builder.blocks i
  let count = length builder.insns
  let full = leb builder.max_insns count
  if not alloc || (full && not realloc)
      then some (builder, false)
      else some (
        record builder {
          blocks = set builder.blocks i (record block { end_insn = suc count });
          insns = builder.insns ++ (insn ∷ []);
          max_insns =
              if full
              then (if ltb (builder.max_insns * 2) 64 then 64 else builder.max_insns * 2)
              else builder.max_insns;
        },
        true,
      )

-- `_jit_block_get_last`; the last instruction of a block is at `end_insn - 1`.
unfoldable pub get_last : Builder → Block → Option (Option Insn)
get_last builder block =
    if ltb block.first_insn block.end_insn
    then (do insn ← get_elem? builder.insns (block.end_insn - 1); some (some insn))
    else some none

-- `block_is_empty_or_dead`
unfoldable pub is_empty_or_dead : Block → Bool
is_empty_or_dead block =
    if leb block.end_insn block.first_insn
    then true
    else not block.entered_via_top && not block.entered_via_branch

-- `block_branches_to_next`, on the blocks behind the block.
unfoldable pub branches_to_next : List Insn → List Block → ℕ → Option Bool
branches_to_next insns [] label = some false
branches_to_next insns (block ∷ next) label =
    let rest = branches_to_next insns next in
    if block.label == label
    then some true
    else if is_empty_or_dead block
    then rest label
    else if ltb (suc block.first_insn) block.end_insn
    then some false
    else (do
      insn ← get_elem? insns block.first_insn
      if not (insn.opcode == op_br)
          then some false
          else (do onward ← rest insn.dest; if onward then rest label else some false))
