-- ===== src/Cache.antt =====
-- jit/jit-cache.c: the cache of native code. `Encoding` is the byte format of debug information,
-- `Debug` the blocks of it that methods have, `Method` what is written, `Lookup` the tree of method
-- regions, `Pages` the pages, `Query` the queries from the tree on, and this file the positions that
-- code is written at. Addresses are numbers; 0 is the null pointer.
pub mod Encoding
pub mod Alloc
pub mod Debug
pub mod Method
pub mod Lookup
pub mod Pages
pub mod Query
use libjit.Base.{
  ℕ, ◌+◌, ◌-◌, ◌*◌, ◌/◌, ◌%◌, Bool, true, false, not, ◌&&◌, ◌||◌, Option, none, some, ltb, leb,
  ◌==◌, if◌then◌else◌,
}

-- `jit_cache_posn`: code is written upwards from `ptr`, and blocks are taken downwards from
-- `limit`.
pub record Posn : Type 0 where
  pub ptr : ℕ
  pub limit : ℕ

-- `address & ~(align - 1)`, for an `align` that is a power of two.
abbrev pub round_down : ℕ → ℕ → ℕ
round_down align address = address - address % align

-- `_jit_cache_alloc`; `align` is `JIT_BEST_ALIGNMENT`.
unfoldable pub alloc : ℕ → Posn → ℕ → Posn × Option ℕ
alloc align posn size =
    if ltb (posn.limit - posn.ptr) size
    then (record posn { ptr = posn.limit }, none)
    else let ptr = round_down align (posn.limit - size) in
      if ltb ptr posn.ptr
      then (record posn { ptr = posn.limit }, none)
      else (record posn { limit = ptr }, some ptr)
