-- ===== src/Meta.antt =====
-- jit/jit-meta.c: the lists of user-supplied metadata that contexts, functions and blocks carry.
-- A list is the nodes in the order of their `next` pointers. Calls of the user's functions and
-- releases of node memory are returned as events, in the order in which they are made.
pub mod Lookup
pub mod Ownership
use libjit.Base.{ℕ, ◌+◌, Bool, Option, none, some, List, [], ◌∷◌, ◌++◌, ◌==◌, if◌then◌else◌}
use libjit.Base.Int.{ℤ, pos, ◌==ℤ◌}

-- `free_data` is the user's function, by a number of its own; `pool_owner` is the function whose
-- builder's memory pool holds the node, if it is no block of its own.
pub record Node : Type 0 where
  pub type : ℤ
  pub payload : ℕ
  pub free_data : Option ℕ
  pub pool_owner : Option ℕ

pub data Event : Type 0 where
  call : (function argument : ℕ) → Event
  pool_dealloc : (owner : ℕ) → Event
  free_block : Event

-- `if(free_data) (*free_data)(data)`
abbrev pub run_free : Option ℕ → ℕ → List Event
run_free none payload = []
run_free (some f) payload = call f payload ∷ []

-- The node goes back to the pool or to the heap.
abbrev pub release : Option ℕ → List Event
release none = free_block ∷ []
release (some owner) = pool_dealloc owner ∷ []

-- The search of `jit_meta_set`: `none` if no node has the type.
unfoldable pub set_existing : List Node → ℤ → ℕ → Option ℕ → Option (List Node × List Event)
set_existing [] type payload free_data = none
set_existing (current ∷ next) type payload free_data =
    let rest = set_existing next type payload free_data in
    if current.type ==ℤ type
    then (if payload == current.payload
        then some (current ∷ next, [])
        else some (
          record current { payload = payload; free_data = free_data } ∷ next,
          run_free current.free_data current.payload,
        ))
    else elim rest [ none ↦ none | some (list, events) ↦ some (current ∷ list, events) ]

-- `jit_meta_set`; `allocates` says whether the memory for a new node can be had.
unfoldable pub set : Bool → List Node → ℤ → ℕ → Option ℕ → Option ℕ → List Node × ℤ × List Event
set allocates list type payload free_data pool_owner =
    elim (set_existing list type payload free_data) [
      | some (list', events) ↦ (list', pos 1, events)
      | none ↦
          if allocates
          then (
            record {
              type = type;
              payload = payload;
              free_data = free_data;
              pool_owner = pool_owner;
            }
                ∷ list,
            pos 1,
            [],
          )
          else (list, pos 0, [])
    ]

-- `jit_meta_get`; 0 is the null pointer.
unfoldable pub get : List Node → ℤ → ℕ
get [] type = 0
get (list ∷ next) type = if list.type ==ℤ type then list.payload else get next type

-- `jit_meta_free`
unfoldable pub free : List Node → ℤ → List Node × List Event
free [] type = ([], [])
free (current ∷ next) type =
    let (list, events) = free next type in
    if current.type ==ℤ type
    then (next, run_free current.free_data current.payload ++ release current.pool_owner)
    else (current ∷ list, events)

-- `jit_meta_destroy`; the list's head is left as it was, and is not used again.
unfoldable pub destroy : List Node → List Event
destroy [] = []
destroy (current ∷ next) =
    run_free current.free_data current.payload ++ (release current.pool_owner ++ destroy next)

-- `_jit_meta_free_one`
unfoldable pub free_one : Node → List Event
free_one current = run_free current.free_data current.payload
