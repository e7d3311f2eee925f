-- ===== src/Cache/Debug/Bounds.antt =====
-- The buffer for debug information, `debugData`, is never written past its end.
use libjit.Base.{
  ℕ, ◌+◌, ◌*◌, ◌≤◌, arith, List, ◌++◌, ltb, length, length-append, Bool-cases, inl, inr,
}
use libjit.Base.Int.{ℤ, negsuc}
use libjit.Cache.Encoding.{compress_int}
use libjit.Cache.Debug.{Debug, write, debug_size}
use libjit.Cache.Debug.Written.{flush_empty, length_marks, length_pair}

-- What `WriteCacheDebug` puts into the buffer of 64 bytes, the mark at its end included, fits in if it had
-- room for one pair and a mark, and it has room for them again afterwards.
pub write-InBounds :
    (align : ℕ) (debug : Debug) (offset native_offset : ℤ)
    → length debug.buffer + 11 ≤ debug_size
    → (length (
          ((debug.buffer ++ compress_int offset) ++ compress_int native_offset)
          ++ compress_int (negsuc 1))
        ≤ debug_size)
      × (length (write align debug offset native_offset).buffer + 11 ≤ debug_size)
unfolding write
write-InBounds align debug offset native_offset room =
    let buffer : List ℕ = (debug.buffer ++ compress_int offset) ++ compress_int native_offset in
    let mark : List ℕ = compress_int (negsuc 1) in
    let (one, _) = length_marks in
    let grown = length_pair debug.buffer offset native_offset in
    (
      omega (arith, grown, one, length-append buffer mark),
      elim (Bool-cases (ltb debug_size (length buffer + 5 * 2 + 1))) [
        | inl over ↦
            rw (over, write, flush_empty align (record debug { buffer = buffer ++ mark }))
              (omega arith)
        | inr within ↦ rw (within, write) (ground arith)
      ],
    )
