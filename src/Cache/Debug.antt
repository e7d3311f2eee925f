-- ===== src/Cache/Debug.antt =====
-- jit/jit-cache.c, the debug information of a method: pairs of a bytecode offset and a native
-- offset. They are collected in `debugData`, and flushed to blocks that the cache provides.
pub mod Iterate
pub mod Written
pub mod Readback
pub mod Bounds
use libjit.Base.{
  ℕ, zero, suc, ◌+◌, ◌-◌, ◌*◌, ◌^◌, Bool, true, false, not, ◌&&◌, ◌||◌, Option, none, some, List,
  [], ◌∷◌, ◌++◌, ltb, leb, ◌==◌, if◌then◌else◌, length,
}
use libjit.Base.Int.{ℤ, pos, negsuc, ◌==ℤ◌}
use libjit.Cache.{Posn, alloc}
use libjit.Cache.Encoding.{Reader, compress_int, uncompress_int}
use libjit.Base.Maybe.{◌>>=◌}
use libjit.Word.{residue, ulong_modulus}

-- `JIT_CACHE_DEBUG_SIZE`
abbrev pub debug_size : ℕ
debug_size = 64

-- `sizeof(struct jit_cache_debug)`, a pointer.
abbrev pub header_size : ℕ
header_size = 8

-- `buffer` is `debugData` up to `debugLen`; `blocks` holds the data of the blocks from `firstDebug`
-- to `lastDebug`.
pub record Debug : Type 0 where
  pub buffer : List ℕ
  pub blocks : List (List ℕ)
  pub posn : Posn

-- `FlushCacheDebug`
unfoldable pub flush : ℕ → Debug → Debug
flush align debug =
    let (posn, block) = alloc align debug.posn (header_size + length debug.buffer) in
    elim block [
      | none ↦ record debug { buffer = []; posn = posn }
      | some _ ↦ record { buffer = []; blocks = debug.blocks ++ (debug.buffer ∷ []); posn = posn }
    ]

-- `WriteCacheDebug`
unfoldable pub write : ℕ → Debug → ℤ → ℤ → Debug
write align debug offset native_offset =
    let buffer = (debug.buffer ++ compress_int offset) ++ compress_int native_offset in
    if ltb debug_size (length buffer + 5 * 2 + 1)
    then flush align (record debug { buffer = buffer ++ compress_int (negsuc 1) })
    else record debug { buffer = buffer }

-- The end of the debug information in `_jit_cache_end_method`.
unfoldable pub finish : ℕ → Debug → Debug
finish align debug =
    if length debug.blocks == 0 && length debug.buffer == 0
    then debug
    else let written = write align debug (negsuc 0) (negsuc 0) in
      if length written.buffer == 0 then written else flush align written

-- The iterator: the blocks from the current one on, and the reader in the current one.
pub record Iter : Type 0 where
  pub list : List (List ℕ)
  pub reader : Reader

-- The reader at the start of a block, which always takes the block to be 64 bytes long.
abbrev pub start_block : List (List ℕ) → Reader → Reader
start_block [] reader = reader
start_block (block ∷ list) reader = record { bytes = block; len = debug_size; error = false }

-- `GetNextDebug`: the pair, if there is one more.
unfoldable pub get_next : List (List ℕ) → Reader → Option (Iter × Option (ℕ × ℕ))
get_next [] reader = some (record { list = []; reader = reader }, none)
get_next (block ∷ list) reader =
    let onward = λ (r : Reader). get_next list (start_block list r) in
    (do
      (value, reader') ← uncompress_int reader
      if value ==ℤ negsuc 0
          then some (record { list = block ∷ list; reader = reader' }, none)
          else if not (value ==ℤ negsuc 1)
          then (do
            (native, reader'') ← uncompress_int reader'
            some (
              record { list = block ∷ list; reader = reader'' },
              some (residue ulong_modulus value, residue ulong_modulus native),
            ))
          else onward reader')

-- `JIT_CACHE_NO_OFFSET`
abbrev pub no_offset : ℕ
no_offset = 2 ^ 64 - 1

-- The loop of `_jit_cache_get_native`, with `rounds` rounds at most; `none` is a fault, or that the
-- rounds are used up.
unfoldable pub get_native_loop : ℕ → Iter → ℕ → Bool → ℕ → Option ℕ
get_native_loop zero iter offset exact prev = none
get_native_loop (suc rounds) iter offset exact prev =
    let onward = λ (i : Iter) (p : ℕ). get_native_loop rounds i offset exact p in
    (do
      (iter', pair) ← get_next iter.list iter.reader
      elim pair [
        | none ↦ some (if exact then no_offset else prev)
        | some (ofs, native_ofs) ↦
            if exact && ofs == offset
            then some native_ofs
            else if not exact && ltb offset ofs
            then some prev
            else onward iter' native_ofs
      ])

-- The loop of `_jit_cache_get_bytecode`.
unfoldable pub get_bytecode_loop : ℕ → Iter → ℕ → Bool → ℕ → Option ℕ
get_bytecode_loop zero iter offset exact prev = none
get_bytecode_loop (suc rounds) iter offset exact prev =
    let onward = λ (i : Iter) (p : ℕ). get_bytecode_loop rounds i offset exact p in
    (do
      (iter', pair) ← get_next iter.list iter.reader
      elim pair [
        | none ↦ some (if exact then no_offset else prev)
        | some (ofs, native_ofs) ↦
            if exact && native_ofs == offset
            then some ofs
            else if not exact && ltb offset native_ofs
            then some prev
            else onward iter' ofs
      ])

-- `InitDebugIter`, where the method has been found: `reader` is whatever the iterator held before.
abbrev pub init_iter : List (List ℕ) → Reader → Iter
init_iter blocks reader = record { list = blocks; reader = start_block blocks reader }
