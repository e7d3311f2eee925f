-- ===== src/Pool.antt =====
-- jit/jit-pool.c: memory pools for the nodes of functions. An item that is given back holds the pointer to
-- the next free one in its first word. The heap is what the words of 8 bytes hold that begin at the
-- addresses; 0 is the null pointer. `torn` is what the words hold afterwards that overlap in part with
-- what is written.
pub mod Items
pub mod Valid
pub mod Alloc
pub mod Steps
use libjit.Base.{
  ℕ, zero, suc, ◌+◌, ◌-◌, ◌*◌, ◌/◌, Bool, true, false, ◌&&◌, Option, none, some, List, [], ◌∷◌,
  ◌++◌, ltb, leb, ◌==◌, if◌then◌else◌,
}

-- `jit_memory_pool`; `blocks` holds the addresses of the data of the blocks, the newest one first.
pub record Pool : Type 0 where
  pub elem_size : ℕ
  pub elems_per_block : ℕ
  pub elems_in_last : ℕ
  pub blocks : List ℕ
  pub free_list : ℕ

abbrev pub Heap : Type 0
Heap = ℕ → ℕ

abbrev pub store : Heap → Heap → ℕ → ℕ → Heap
store torn heap address value = λ a.
    if a == address
    then value
    else if ltb a (address + 8) && ltb address (a + 8)
    then torn a
    else heap a

-- `jit_memzero`, and what `jit_calloc` does.
abbrev pub zero_range : Heap → Heap → ℕ → ℕ → Heap
zero_range torn heap address size = λ a.
    if leb address a && leb (a + 8) (address + size)
    then 0
    else if ltb a (address + size) && ltb address (a + 8)
    then torn a
    else heap a

-- `_jit_memory_pool_init`
unfoldable pub init : ℕ → Pool
init elem_size = record {
  elem_size = elem_size;
  elems_per_block = 4000 / elem_size;
  elems_in_last = 4000 / elem_size;
  blocks = [];
  free_list = 0;
}

-- The end of `_jit_memory_pool_alloc`; `none` is an access through a null pointer.
abbrev pub take_from : Pool → Heap → List ℕ → Option (Pool × Heap × ℕ)
take_from pool heap [] = none
take_from pool heap (block ∷ blocks) = some (
  record pool { elems_in_last = pool.elems_in_last + 1 },
  heap,
  block + pool.elems_in_last * pool.elem_size,
)

-- `_jit_memory_pool_alloc`; `calloc` is the data of the block that `jit_calloc` gives, or 0.
unfoldable pub alloc : Heap → ℕ → Pool → Heap → Option (Pool × Heap × ℕ)
alloc torn calloc pool heap =
    if pool.free_list == 0
    then (if leb pool.elems_per_block pool.elems_in_last
        then (if calloc == 0
            then some (pool, heap, 0)
            else take_from (record pool { blocks = calloc ∷ pool.blocks; elems_in_last = 0 })
                (zero_range torn heap calloc (pool.elem_size * pool.elems_per_block))
                (calloc ∷ pool.blocks))
        else take_from pool heap pool.blocks)
    else let item = pool.free_list in
      some (record pool { free_list = heap item }, zero_range torn heap item pool.elem_size, item)

-- `_jit_memory_pool_dealloc`
unfoldable pub dealloc : Heap → Pool → Heap → ℕ → Pool × Heap
dealloc torn pool heap item =
    (record pool { free_list = item }, store torn heap item pool.free_list)

-- The calls for the items of a block, the last one first.
abbrev pub count_down : ℕ → ℕ → ℕ → List ℕ
count_down size block zero = []
count_down size block (suc n) = (block + n * size) ∷ count_down size block n

abbrev pub release_blocks : ℕ → ℕ → ℕ → List ℕ → List ℕ
release_blocks size per_block in_last [] = []
release_blocks size per_block in_last (block ∷ blocks) =
    count_down size block in_last ++ release_blocks size per_block per_block blocks

abbrev nothing_in : List ℕ → Bool
nothing_in [] = true
nothing_in (block ∷ blocks) = false

-- `_jit_memory_pool_free` with a function: the pool, and the items that the function is called for.
unfoldable pub free : Pool → Pool × List ℕ
free pool = (
  record pool {
    elems_in_last = if nothing_in pool.blocks then pool.elems_in_last else pool.elems_per_block;
    blocks = [];
    free_list = 0;
  },
  release_blocks pool.elem_size pool.elems_per_block pool.elems_in_last pool.blocks,
)
