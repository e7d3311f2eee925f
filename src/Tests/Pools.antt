-- ===== src/Tests/Pools.antt =====
-- The theorems on memory pools, at concrete values.
use mathlib.Core.List.{Perm}
use libjit.Base.{inl, inr, ℕ, ◌≡◌, refl, arith, some, List, [], ◌∷◌, ◌++◌}
use libjit.Pool.{Heap, zero_range, init, alloc, dealloc, free}
use libjit.Pool.Items.{Apart}
use libjit.Pool.Valid.{State, after_dealloc}
use libjit.Pool.Alloc.{Allocated, IsFresh}
use libjit.Pool.Steps.{
  take_item, give_back, Steps, no_more, one_more, start, Steps-free, Steps-alloc,
}

abbrev dirty_memory : Heap
dirty_memory = λ address. 77

-- A pool for items of 1000 bytes, four in a block, after the first item was taken.
abbrev one_item : State
one_item = record {
  pool = record {
    elem_size = 1000;
    elems_per_block = 4;
    elems_in_last = 1;
    blocks = 50000 ∷ [];
    free_list = 0;
  };
  heap = zero_range dirty_memory dirty_memory 50000 4000;
  live = 50000 ∷ [];
}

one_item_run :
    alloc dirty_memory 50000 (init 1000) dirty_memory ≡ some (one_item.pool, one_item.heap, 50000)
unfolding alloc init
one_item_run = refl

abbrev two_items : State
two_items = record {
  pool = record one_item.pool { elems_in_last = 2 };
  heap = one_item.heap;
  live = 51000 ∷ (50000 ∷ []);
}

two_items_run :
    alloc dirty_memory 0 one_item.pool one_item.heap ≡ some (two_items.pool, two_items.heap, 51000)
unfolding alloc
two_items_run = refl

abbrev given_back : State
given_back = after_dealloc dirty_memory two_items 50000 (51000 ∷ [])

to_given_back : Steps (start 1000 dirty_memory) given_back
unfolding init
to_given_back =
    one_more (start 1000 dirty_memory) one_item given_back
      (take_item dirty_memory (start 1000 dirty_memory) 50000 50000 one_item.pool one_item.heap
        (record {}) one_item_run (λ e. omega (arith, e)))
      (one_more one_item two_items given_back
        (take_item dirty_memory one_item 0 51000 two_items.pool two_items.heap
          (inl (omega arith), record {}) two_items_run (λ e. omega (arith, e)))
        (one_more two_items given_back given_back
          (give_back dirty_memory two_items 50000 (51000 ∷ []) [] refl) (no_more given_back)))

Steps-free_example :
    (unused : List ℕ) × Apart given_back.pool.elem_size (unused ++ (51000 ∷ []))
    × Perm (unused ++ (51000 ∷ [])) (free given_back.pool).1
    × ((free given_back.pool).0.blocks ≡ [])
    × ((free given_back.pool).0.free_list ≡ 0)
Steps-free_example =
    Steps-free 1000 dirty_memory given_back (omega arith) (omega arith) to_given_back

second_block-IsFresh : IsFresh 60000 given_back
unfolding dealloc
second_block-IsFresh = (inr (omega arith), record {})

Steps-alloc_example :
    Allocated given_back (alloc dirty_memory 60000 given_back.pool given_back.heap)
Steps-alloc_example =
    Steps-alloc 1000 dirty_memory dirty_memory given_back 60000 (omega arith) (omega arith)
      to_given_back second_block-IsFresh

-- The item that was given back is the next that is handed out.
reused_run : given_back.pool.free_list ≡ 50000
unfolding dealloc
reused_run = refl
