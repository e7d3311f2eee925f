-- ===== src/Cache/Query.antt =====
-- jit/jit-cache.c, the queries of debug information, from the lookup tree to the offset:
-- `_jit_cache_get_native` and `_jit_cache_get_bytecode`.
use mathlib.Core.Path.{subst}
use libjit.Base.{
  ℕ, suc, ◌<◌, ◌≡◌, inl, inr, refl, arith, Bool, Option, none, some, List, [], ltb, leb,
  if◌then◌else◌, length, map, Bool-cases, ap, sym, ◌∙◌,
}
use libjit.Cache.{Posn}
use libjit.Cache.Encoding.{Reader}
use libjit.Cache.Debug.{Iter, init_iter, get_native_loop, get_bytecode_loop, no_offset}
use libjit.Cache.Debug.Iterate.{Pair, AllSmall, Yields, native_of, swap_pair, queries-Yields}
use libjit.Cache.Debug.Readback.{close_debug, debug_roundtrip}
use libjit.Cache.Method.{Region}
use libjit.Cache.Lookup.{Tree, leaf, node}
use libjit.Cache.Lookup.Order.{IsOrdered, regions_of, region_at, region_at-node}

-- `InitDebugIter`, where `reader` is whatever the iterator held before.
unfoldable pub init_debug_iter : Tree → ℕ → Reader → Iter
init_debug_iter leaf start reader = record { list = []; reader = reader }
init_debug_iter (node red left region right) start reader =
    let below = init_debug_iter left start reader in
    let above = init_debug_iter right start reader in
    if ltb start region.start
    then below
    else if leb region.stop start
    then above
    else init_iter region.debug reader

-- `_jit_cache_get_native`, with at most so many rounds of its loop.
unfoldable pub get_native : ℕ → Tree → Reader → ℕ → ℕ → Bool → Option ℕ
get_native rounds tree reader start offset exact =
    get_native_loop rounds (init_debug_iter tree start reader) offset exact no_offset

-- `_jit_cache_get_bytecode`
unfoldable pub get_bytecode : ℕ → Tree → Reader → ℕ → ℕ → Bool → Option ℕ
get_bytecode rounds tree reader start offset exact =
    get_bytecode_loop rounds (init_debug_iter tree start reader) offset exact no_offset

abbrev iter_of : Option Region → Reader → Iter
iter_of none reader = record { list = []; reader = reader }
iter_of (some region) reader = init_iter region.debug reader

init_debug_iter-region_at :
    (low high start : ℕ) (reader : Reader) (t : Tree)
    → IsOrdered low t high
    → init_debug_iter t start reader ≡ iter_of (region_at (regions_of t) start) reader
unfolding init_debug_iter
init_debug_iter-region_at low high start reader leaf h = refl
init_debug_iter-region_at low high start reader (node red left r right) (hl, le, hr) =
    let lower = init_debug_iter-region_at low r.start start reader left hl in
    let upper = init_debug_iter-region_at r.stop high start reader right hr in
    let (at_left, at_right, at_region) =
      region_at-node low high start red left r right (hl, le, hr) in
    elim (Bool-cases (ltb start r.start)) [
      | inl before ↦ rw (before, at_left (ground arith)) lower
      | inr from ↦ elim (Bool-cases (leb r.stop start)) [
        | inl past ↦ rw (from, past, at_right (ground arith)) upper
        | inr inside ↦ rw (from, inside, at_region (ground arith) (ground arith)) refl
      ]
    ]

-- In a tree that is in order, where the region at an address has the debug information that was
-- written for `ps`, both queries end after at most one round more than there are pairs, and find what is
-- in `ps`: the native offset of the first pair with the bytecode offset, or of the last pair before
-- the first one that lies behind it, and the other way round.
pub get_native-region_at :
    (low high start : ℕ) (reader : Reader) (t : Tree) (r : Region) (align : ℕ) (posn : Posn)
    (ps : List Pair) (offset : ℕ) (exact : Bool)
    → IsOrdered low t high
    → region_at (regions_of t) start ≡ some r
    → r.debug ≡ (close_debug align posn ps).blocks
    → AllSmall ps
    → (close_debug align posn ps).posn.ptr < (close_debug align posn ps).posn.limit
    → (get_native (suc (length ps)) t reader start offset exact
        ≡ some (native_of ps offset exact no_offset))
      × (get_bytecode (suc (length ps)) t reader start offset exact
          ≡ some (native_of (map swap_pair ps) offset exact no_offset))
unfolding get_native get_bytecode
get_native-region_at low high start reader t r align posn ps offset exact ordered found blocks small
      room =
    let here : init_debug_iter t start reader
        ≡ init_iter (close_debug align posn ps).blocks reader =
      init_debug_iter-region_at low high start reader t ordered
      ∙ ap (λ x. iter_of x reader) found
      ∙ ap (λ x. init_iter x reader) blocks in
    queries-Yields ps (init_debug_iter t start reader) offset exact no_offset
      (subst (λ x. Yields x ps) (sym here) (debug_roundtrip align posn ps reader small room))
