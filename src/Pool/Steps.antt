-- ===== src/Pool/Steps.antt =====
-- The life of a pool: from its start, through any number of allocations, writes and releases, to its end.
use mathlib.Core.Path.{subst}
use mathlib.Core.List.{Perm}
use mathlib.Core.List.Perm
use native.Mathlib.Nat.{le-div_iff_mul-le}
use libjit.Base.{ℕ, ◌+◌, ◌≤◌, ◌≡◌, ◌≢◌, inl, inr, refl, arith, some, List, [], ◌∷◌, ◌++◌}
use libjit.Pool.{Pool, Heap, store, init, alloc, free}
use libjit.Pool.Items.{Apart}
use libjit.Pool.Valid.{State, IsValid, after_dealloc, dealloc-IsValid, store-IsValid}
use libjit.Pool.Alloc.{Allocated, IsFresh, alloc-Allocated}

-- What may be done with a pool: an item is taken, one in use is given back, or a word of one in use is
-- written.
pub data Step : State → State → Type 0 where
  take_item :
      (torn : Heap)
      → (s : State) → (calloc item : ℕ) → (pool : Pool) → (heap : Heap) → IsFresh calloc s
      → alloc torn calloc s.pool s.heap ≡ some (pool, heap, item)
      → item ≢ 0
      → Step s (record { pool = pool; heap = heap; live = item ∷ s.live })
  give_back :
      (torn : Heap)
      → (s : State) → (item : ℕ) → (before after : List ℕ) → s.live ≡ before ++ (item ∷ after)
      → Step s (after_dealloc torn s item (before ++ after))
  write_item :
      (torn : Heap)
      → (s : State) → (item address value : ℕ) → (before after : List ℕ)
      → s.live ≡ before ++ (item ∷ after)
      → item ≤ address
      → address + 8 ≤ item + s.pool.elem_size
      → Step s (record s { heap = store torn s.heap address value })

pub data Steps : State → State → Type 0 where
  no_more : (s : State) → Steps s s
  one_more : (s t u : State) → Step s t → Steps t u → Steps s u

taken_IsValid :
    (s : State) (pool : Pool) (heap : Heap) (item : ℕ)
    → item ≢ 0
    → Allocated s (some (pool, heap, item))
    → IsValid (record { pool = pool; heap = heap; live = item ∷ s.live })
taken_IsValid s pool heap item some_item h = elim h [
  | inl (null, same) ↦ absurd (some_item null)
  | inr (nonzero, v) ↦ v
]

Step-IsValid : (s t : State) → Step s t → IsValid s → IsValid t
Step-IsValid s _ (take_item torn _ calloc item pool heap fresh e some_item) v =
    taken_IsValid s pool heap item some_item
      (subst (Allocated s) e (alloc-Allocated torn calloc s v fresh))
Step-IsValid s _ (give_back torn _ item before after e) v =
    dealloc-IsValid torn s item before after e v
Step-IsValid s _ (write_item torn _ item address value before after e low high) v =
    store-IsValid torn s item address value before after e low high v

Steps-IsValid : (s t : State) → Steps s t → IsValid s → IsValid t
Steps-IsValid s t (no_more _) v = v
Steps-IsValid s t (one_more _ u _ step steps) v = Steps-IsValid u t steps (Step-IsValid s u step v)

abbrev pub start : ℕ → Heap → State
start elem_size heap = record { pool = init elem_size; heap = heap; live = [] }

init-IsValid :
    (elem_size : ℕ) (heap : Heap)
    → 8 ≤ elem_size
    → elem_size ≤ 4000
    → IsValid (start elem_size heap)
unfolding init
init-IsValid elem_size heap positive small =
    let (_, at_least) =
      le-div_iff_mul-le {k = elem_size} {x = 1} {y = 4000} (omega (arith, positive)) in
    record {
      unused = [];
      chain = refl;
      apart = record {};
      within = record {};
      blocks = record {};
      nonnull = record {};
      opened = inl refl;
      bounded = omega arith;
      some_size = positive;
      some_items = at_least (omega (arith, small));
      all = Perm.refl [];
    }

-- From the start of a pool for elements of 8 to 4000 bytes, whatever is done: the items in use lie apart from
-- each other and from the free ones, and at the end the function that frees them is called once for
-- every item that was handed out, whether in use or given back, and the pool is empty.
pub Steps-free :
    (elem_size : ℕ) (heap : Heap) (s : State)
    → 8 ≤ elem_size
    → elem_size ≤ 4000
    → Steps (start elem_size heap) s
    → (unused : List ℕ) × Apart s.pool.elem_size (unused ++ s.live)
      × Perm (unused ++ s.live) (free s.pool).1
      × ((free s.pool).0.blocks ≡ [])
      × ((free s.pool).0.free_list ≡ 0)
unfolding free
Steps-free elem_size heap s positive small steps =
    let v =
      Steps-IsValid (start elem_size heap) s steps (init-IsValid elem_size heap positive small) in
    (v.unused, v.apart, v.all, refl, refl)

-- In every state that a pool for elements of 8 to 4000 bytes gets to, `_jit_memory_pool_alloc` follows no null pointer, and gives a null
-- pointer or an item that overlaps none of those in use; a new block lies apart from the others.
pub Steps-alloc :
    (elem_size : ℕ) (torn heap : Heap) (s : State) (calloc : ℕ)
    → 8 ≤ elem_size
    → elem_size ≤ 4000
    → Steps (start elem_size heap) s
    → IsFresh calloc s
    → Allocated s (alloc torn calloc s.pool s.heap)
Steps-alloc elem_size torn heap s calloc positive small steps fresh =
    alloc-Allocated torn calloc s
      (Steps-IsValid (start elem_size heap) s steps (init-IsValid elem_size heap positive small))
      fresh
