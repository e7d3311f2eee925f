-- ===== src/Tests/Cache.antt =====
-- The theorems on the code cache, at concrete values.
use libjit.Base.{
  ℕ, ◌+◌, ◌^◌, ◌<◌, ◌≤◌, ◌≡◌, ◌≢◌, ◌⊎◌, refl, arith, false, none, some, List, [], ◌∷◌, ◌++◌, length,
  map,
}
use libjit.Base.Int.{pos, negsuc}
use libjit.Cache.{Posn, alloc}
use libjit.Cache.Alloc.{Taken, alloc_cases}
use libjit.Cache.Encoding.{Reader, compress_int}
use libjit.Cache.Encoding.Roundtrip.{Reads, compress_int-Reads, wide_misread}
use libjit.Cache.Debug.{
  no_offset, Debug, flush, finish, write, init_iter, debug_size, get_native_loop, get_bytecode_loop,
}
use libjit.Cache.Debug.Bounds.{write-InBounds}
use libjit.Cache.Debug.Iterate.{Pair, Yields, AllSmall, native_of, swap_pair, queries-Yields}
use libjit.Cache.Debug.Written.{write_all}
use libjit.Cache.Method.{Region}
use libjit.Cache.Lookup.{leaf, node}
use libjit.Cache.Query.{get_native, get_bytecode, get_native-region_at}
use libjit.Cache.Debug.Readback.{close_debug, debug_roundtrip}

compress_int-Reads_example : Reads (compress_int (negsuc 8191)) (negsuc 8191)
compress_int-Reads_example = compress_int-Reads (negsuc 8191) (omega arith, omega arith)

wide_misread_example :
    Reads (compress_int (pos (2 ^ 28))) (pos (2 ^ 29)) × (pos (2 ^ 29) ≢ pos (2 ^ 28))
wide_misread_example = wide_misread (pos (2 ^ 28)) (λ fits. ground arith) (omega arith, omega arith)

abbrev area : Posn
area = record { ptr = 1000; limit = 1203 }

alloc_cases_example :
    ((block : ℕ) × ((alloc 16 area 56).1 ≡ some block)
      × Taken 16 area (alloc 16 area 56).0 56 block)
    ⊎ (((alloc 16 area 56).1 ≡ none)
        × ((alloc 16 area 56).0 ≡ record { ptr = 1203; limit = 1203 })
        × (1203 < 1000 + 56 + 16))
alloc_cases_example = alloc_cases 16 56 area (omega arith) (omega arith)

-- The debug information is almost full.
abbrev half_full : Debug
half_full = record { buffer = 1 ∷ 2 ∷ 3 ∷ 4 ∷ []; blocks = []; posn = area }

write-InBounds_example :
    (length (
        ((half_full.buffer ++ compress_int (pos 70)) ++ compress_int (pos 9000))
        ++ compress_int (negsuc 1))
      ≤ debug_size)
    × (length (write 16 half_full (pos 70) (pos 9000)).buffer + 11 ≤ debug_size)
write-InBounds_example = write-InBounds 16 half_full (pos 70) (pos 9000) (omega arith)

abbrev offsets : List Pair
offsets = (0, 4) ∷ (3, 90) ∷ (7, 9000) ∷ []

abbrev no_reader : Reader
no_reader = record { bytes = []; len = 0; error = false }

area_room : (close_debug 16 area offsets).posn.ptr < (close_debug 16 area offsets).posn.limit
unfolding write_all write finish flush alloc compress_int
area_room = omega arith

offsets-AllSmall : AllSmall offsets
offsets-AllSmall =
    (omega arith, omega arith, (omega arith, omega arith, (omega arith, omega arith, record {})))

offsets-Yields : Yields (init_iter (close_debug 16 area offsets).blocks no_reader) offsets
offsets-Yields = debug_roundtrip 16 area offsets no_reader offsets-AllSmall area_room

debug_roundtrip_example : Yields (init_iter (close_debug 16 area offsets).blocks no_reader) offsets
debug_roundtrip_example = debug_roundtrip 16 area offsets no_reader offsets-AllSmall area_room

queries-Yields_example :
    (get_native_loop 4 (init_iter (close_debug 16 area offsets).blocks no_reader) 5 false 0
      ≡ some (native_of offsets 5 false 0))
    × (get_bytecode_loop 4 (init_iter (close_debug 16 area offsets).blocks no_reader) 5 false 0
        ≡ some (native_of (map swap_pair offsets) 5 false 0))
queries-Yields_example =
    queries-Yields offsets (init_iter (close_debug 16 area offsets).blocks no_reader) 5 false 0
      offsets-Yields

-- A tree with one method, which has this debug information.
abbrev one_method : Region
one_method = record {
  method = 7;
  cookie = 0;
  start = 4112;
  stop = 4212;
  debug = (close_debug 16 area offsets).blocks;
}

get_native-region_at_example :
    (get_native 4 (node false leaf one_method leaf) no_reader 4112 5 false
      ≡ some (native_of offsets 5 false no_offset))
    × (get_bytecode 4 (node false leaf one_method leaf) no_reader 4112 5 false
        ≡ some (native_of (map swap_pair offsets) 5 false no_offset))
get_native-region_at_example =
    get_native-region_at 0 8192 4112 no_reader (node false leaf one_method leaf) one_method 16 area
      offsets 5 false (omega arith, omega arith, omega arith) refl refl offsets-AllSmall area_room

-- The native offset for bytecode offset 5, by hand.
native_of_run : native_of offsets 5 false no_offset ≡ 90
native_of_run = refl
