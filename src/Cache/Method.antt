-- ===== src/Cache/Method.antt =====
-- jit/jit-cache.c, a method that is being written: its regions, its code and its debug information.
-- Code bytes are not kept; what writes them moves `ptr`.
pub mod Takes
pub mod Cookies
pub mod Regions
use libjit.Base.{
  ℕ, zero, suc, ◌+◌, ◌-◌, ◌*◌, ◌%◌, ◌^◌, ◌≤◌, ◌<◌, Bool, true, false, not, ◌&&◌, ◌||◌, Option, none,
  some, List, [], ◌∷◌, ltb, leb, ◌==◌, if◌then◌else◌,
}
use libjit.Base.Int.{ℤ, pos, sub_ℕ}
use libjit.Cache.{Posn, alloc, round_down}
use libjit.Cache.Debug.{Debug, write, finish}

-- `struct jit_cache_method` without the links: `debug` holds the data of the blocks from
-- `method->debug` on.
pub record Region : Type 0 where
  pub method : ℕ
  pub cookie : ℕ
  pub start : ℕ
  pub stop : ℕ
  pub debug : List (List ℕ)

-- `sizeof(struct jit_cache_method)`
abbrev pub region_size : ℕ
region_size = 56

-- The part of `struct jit_cache` that belongs to the current method: `regions` are the regions from
-- `method` on, which `right` links to the one before, and `debug` holds the position.
pub record Writing : Type 0 where
  pub regions : List Region
  pub start : ℕ
  pub debug : Debug

abbrev pub move : Writing → Posn → Writing
move w posn = record w { debug = record w.debug { posn = posn } }

abbrev pub new_node : ℕ → ℕ → ℕ → Region
new_node method cookie start = record {
  method = method;
  cookie = cookie;
  start = start;
  stop = start;
  debug = [];
}

-- `_jit_cache_new_region`, where the regions are as given.
abbrev pub open_region : ℕ → Writing → ℕ → List Region → Writing
open_region align w cookie [] = w
open_region align w cookie (region ∷ before) =
    let ptr = w.debug.posn.ptr in
    if region.start == ptr
    then record w { regions = record region { cookie = cookie } ∷ before }
    else let closed = record region { stop = ptr } in
      let (posn, block) = alloc align w.debug.posn region_size in
      elim block [
        | none ↦ record (move w posn) { regions = closed ∷ before }
        | some _ ↦ record (move w posn) {
          regions = new_node region.method cookie ptr ∷ (closed ∷ before);
        }
      ]

-- `_jit_cache_new_region`
unfoldable pub new_region : ℕ → Writing → ℕ → Writing
new_region align w cookie = open_region align w cookie w.regions

abbrev pub with_cookie : ℕ → List Region → List Region
with_cookie cookie [] = []
with_cookie cookie (region ∷ before) = record region { cookie = cookie } ∷ before

-- `_jit_cache_set_cookie`
unfoldable pub set_cookie : Writing → ℕ → Writing
set_cookie w cookie = record w { regions = with_cookie cookie w.regions }

-- `_jit_cache_align`; `align` is a power of two, or at most 1. Where `jit_should_pad` is defined, the bytes
-- up to the boundary are filled by `_jit_pad_buffer`, and the position stays.
unfoldable pub align_code : (jit_should_pad : Bool) → Writing → ℕ → ℕ → Writing
align_code jit_should_pad w align diff =
    let posn = w.debug.posn in
    let align' = if leb align 1 then 1 else align in
    let next = round_down align' (posn.ptr + align' - 1) in
    if posn.ptr == next || leb diff (next - posn.ptr)
    then w
    else if ltb posn.limit next
    then move w (record posn { ptr = posn.limit })
    else if jit_should_pad
    then w
    else move w (record posn { ptr = next })

-- `_jit_cache_mark_bytecode`
unfoldable pub mark_bytecode : ℕ → Writing → ℕ → Writing
mark_bytecode align w offset = record w {
  debug = write align w.debug (pos offset) (sub_ℕ w.debug.posn.ptr w.start);
}

-- What a method starts with.
abbrev pub new_writing : Posn → ℕ → Writing
new_writing posn method = record {
  regions = new_node method 0 posn.ptr ∷ [];
  start = posn.ptr;
  debug = record { buffer = []; blocks = []; posn = posn };
}

-- The lines of `_jit_cache_start_method` from the alignment of the start on: `none` is
-- `JIT_CACHE_RESTART`, with the position that is left.
unfoldable pub start_at : ℕ → Posn → ℕ → ℕ → Posn × Option Writing
start_at best_align posn align method =
    let ptr = if ltb 1 align then round_down align (posn.ptr + align - 1) else posn.ptr in
    if leb posn.limit ptr
    then (record posn { ptr = posn.limit }, none)
    else let (posn', block) = alloc best_align (record posn { ptr = ptr }) region_size in
      elim block [ none ↦ (posn', none) | some _ ↦ (posn', some (new_writing posn' method)) ]

abbrev pub with_debug : List (List ℕ) → List Region → List Region
with_debug blocks [] = []
with_debug blocks (region ∷ before) = record region { debug = blocks } ∷ with_debug blocks before

abbrev pub close_region : ℕ → List Region → List Region
close_region ptr [] = []
close_region ptr (region ∷ before) = record region { stop = ptr } ∷ before

-- The lines of `_jit_cache_end_method` for a method that there was room for: the position that is left,
-- and the regions that go to the lookup tree, in this order.
unfoldable pub close_method : ℕ → Writing → Posn × List Region
close_method align w =
    let debug = finish align w.debug in
    (debug.posn, with_debug debug.blocks (close_region debug.posn.ptr w.regions))
