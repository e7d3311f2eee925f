-- ===== src/Cache/Lookup.antt =====
-- jit/jit-cache.c, the queries of the lookup tree: the red-black tree of the method regions, as it
-- stands once the regions are in it. A leaf is `nil`; insertion is not modelled.
pub mod Order
pub mod Methods
use libjit.Base.{
  ℕ, zero, suc, ◌+◌, ◌-◌, ◌≤◌, ◌<◌, Bool, true, false, not, ◌&&◌, ◌||◌, Option, none, some, List,
  [], ◌∷◌, ◌++◌, ltb, leb, ◌==◌, if◌then◌else◌, set, length,
}
use libjit.Base.Maybe.{◌>>=◌}
use libjit.Cache.Method.{Region}

-- `red` is the lowest bit of `left`.
pub data Tree : Type 0 where
  leaf : Tree
  node : (red : Bool) → (left : Tree) → (region : Region) → (right : Tree) → Tree

-- `_jit_cache_get_method`: the method and the cookie, or a null pointer.
unfoldable pub get_method : Tree → ℕ → Option (ℕ × ℕ)
get_method leaf pc = none
get_method (node red left region right) pc =
    let below = get_method left pc in
    let above = get_method right pc in
    if ltb pc region.start
    then below
    else if leb region.stop pc
    then above
    else some (region.method, region.cookie)

-- `_jit_cache_get_start_method`
unfoldable pub get_start_method : Tree → ℕ → Option ℕ
get_start_method leaf pc = none
get_start_method (node red left region right) pc =
    let below = get_start_method left pc in
    let above = get_start_method right pc in
    if ltb pc region.start then below else if leb region.stop pc then above else some region.start

-- `CountMethods`: the number, and `prev` afterwards.
unfoldable pub count_methods : Tree → ℕ → ℕ × ℕ
count_methods leaf prev = (0, prev)
count_methods (node red left region right) prev =
    let (num, prev') = count_methods left prev in
    let counts = not (region.method == 0) && not (region.method == prev') in
    let num' = if counts then num + 1 else num in
    let prev'' = if counts then region.method else prev' in
    let (more, last) = count_methods right prev'' in (num' + more, last)

-- A pointer is written to a block; `none` is a write outside the block.
abbrev pub write_at : List ℕ → ℕ → ℕ → Option (List ℕ)
write_at list i method = if ltb i (length list) then some (set list i method) else none

-- `FillMethodList` with the list from index `from` on: the number, the list and `prev` afterwards.
unfoldable pub fill_method_list : List ℕ → ℕ → Tree → ℕ → Option (ℕ × List ℕ × ℕ)
fill_method_list list from leaf prev = some (0, list, prev)
fill_method_list list from (node red left region right) prev = do
  below ← fill_method_list list from left prev
  let counts = not (region.method == 0) && not (region.method == below.2)
  list' ← if counts then write_at below.1 (from + below.0) region.method else some below.1
  let num = if counts then below.0 + 1 else below.0
  above ← fill_method_list list' (from + num) right (if counts then region.method else below.2)
  some (num + above.0, above.1, above.2)

-- `_jit_cache_get_method_list`: `malloc` gives a block of that many pointers, or none. The inner `none` is
-- a null pointer, the outer one a write outside the block.
unfoldable pub get_method_list : (ℕ → Option (List ℕ)) → Tree → Option (Option (List ℕ))
get_method_list malloc tree =
    let (num, _) = count_methods tree 0 in
    elim (malloc (num + 1)) [
      | none ↦ some none
      | some list ↦ (do
        filled ← fill_method_list list 0 tree 0
        ended ← write_at filled.1 num 0
        some (some ended))
    ]
