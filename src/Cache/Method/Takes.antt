-- ===== src/Cache/Method/Takes.antt =====
-- jit/jit-cache.c, what the operations on a position take: blocks, one after the other.
use libjit.Base.{
  ℕ, ◌+◌, ◌-◌, ◌*◌, ◌≤◌, ◌<◌, ◌≡◌, ◌⊎◌, inl, inr, refl, arith, ◌&&◌, List, ◌++◌, ltb, ◌==◌, length,
  ◌∙◌, Bool-cases, Option-cases,
}
use libjit.Base.Int.{ℤ, negsuc}
use libjit.Cache.{Posn, alloc, round_down}
use libjit.Cache.Alloc.{full_of_full}
use libjit.Cache.Encoding.{compress_int}
use libjit.Cache.Debug.{Debug, write, finish, flush, debug_size, header_size}
use libjit.Cache.Debug.Written.{IsFull}

-- `after` is what is left when blocks were taken, or were found to be too big.
pub data Takes (align : ℕ) : Posn → Posn → Type 0 where
  take_none : (posn : Posn) → Takes align posn posn
  take_one :
      (posn after : Posn)
      → (size : ℕ) → 0 < size
      → Takes align (alloc align posn size).0 after
      → Takes align posn after

Takes-trans : {align : ℕ} (a b c : Posn) → Takes align a b → Takes align b c → Takes align a c
Takes-trans a b c (take_none _) h = h
Takes-trans a b c (take_one _ _ size p t) h =
    take_one a c size p (Takes-trans (alloc _ a size).0 b c t h)

flush-Takes : (align : ℕ) (debug : Debug) → Takes align debug.posn (flush align debug).posn
unfolding flush
flush-Takes align debug =
    let size : ℕ = header_size + length debug.buffer in
    let taken = (alloc align debug.posn size).0 in
    let one : Takes align debug.posn taken =
      take_one debug.posn taken size (omega arith) (take_none taken) in
    elim (Option-cases ((alloc align debug.posn size).1)) [
      | inl none_left ↦ rw (none_left, flush) one
      | inr (block, e) ↦ rw (e, flush) one
    ]

pub write-Takes :
    (align : ℕ) (debug : Debug) (o n : ℤ) → Takes align debug.posn (write align debug o n).posn
unfolding write
write-Takes align debug o n =
    let buffer : List ℕ = (debug.buffer ++ compress_int o) ++ compress_int n in
    elim (Bool-cases (ltb debug_size (length buffer + 5 * 2 + 1))) [
      | inl over ↦
          rw (over, write)
            (flush-Takes align (record debug { buffer = buffer ++ compress_int (negsuc 1) }))
      | inr within ↦ rw (within, write) (take_none debug.posn)
    ]

pub finish-Takes : (align : ℕ) (debug : Debug) → Takes align debug.posn (finish align debug).posn
unfolding finish
finish-Takes align debug =
    let written = write align debug (negsuc 0) (negsuc 0) in
    let first = write-Takes align debug (negsuc 0) (negsuc 0) in
    elim (Bool-cases (length debug.blocks == 0 && length debug.buffer == 0)) [
      | inl e ↦ rw (e, finish) (take_none debug.posn)
      | inr e ↦ elim (Bool-cases (length written.buffer == 0)) [
        | inl f ↦ rw (e, f, finish) first
        | inr f ↦
            rw (e, f, finish)
              (Takes-trans debug.posn written.posn (flush align written).posn first
                (flush-Takes align written))
      ]
    ]

-- A cache that is full stays full.
pub Takes-IsFull :
    {align : ℕ} (before after : Posn) → Takes align before after → IsFull before → IsFull after
Takes-IsFull a b (take_none _) full = full
Takes-IsFull {align} a b (take_one _ _ size p t) full =
    Takes-IsFull (alloc align a size).0 b t (full_of_full align size a full p)

alloc-kept :
    (align size : ℕ) (posn : Posn)
    → IsFull (alloc align posn size).0 ⊎ ((alloc align posn size).0.ptr ≡ posn.ptr)
unfolding alloc
alloc-kept align size posn = elim (Bool-cases (ltb (posn.limit - posn.ptr) size)) [
  | inl large ↦ inl (rw (large, alloc) (omega arith))
  | inr fits ↦ elim (Bool-cases (ltb (round_down align (posn.limit - size)) posn.ptr)) [
    | inl below ↦ inl (rw (fits, alloc, below) (omega arith))
    | inr above ↦ inr (rw (fits, alloc, above) refl)
  ]
]

-- The code stays where it is, or the cache is full.
pub Takes-kept :
    {align : ℕ} (before after : Posn)
    → Takes align before after
    → IsFull after ⊎ (after.ptr ≡ before.ptr)
Takes-kept a b (take_none _) = inr refl
Takes-kept {align} a b (take_one _ _ size p t) =
    let taken : Posn = (alloc align a size).0 in
    elim (alloc-kept align size a) [
      | inl full ↦ inl (Takes-IsFull taken b t full)
      | inr here ↦ elim (Takes-kept taken b t) [
        | inl full ↦ inl full
        | inr same ↦ inr (same ∙ here)
      ]
    ]

alloc_grows :
    (align size : ℕ) (posn : Posn)
    → posn.ptr ≤ posn.limit
    → (posn.ptr ≤ (alloc align posn size).0.ptr)
      × ((alloc align posn size).0.ptr ≤ (alloc align posn size).0.limit)
unfolding alloc
alloc_grows align size posn ordered = ground arith

-- The code is never given up, and the blocks never reach it.
pub Takes-grows :
    {align : ℕ} (before after : Posn)
    → Takes align before after
    → before.ptr ≤ before.limit
    → (before.ptr ≤ after.ptr) × (after.ptr ≤ after.limit)
Takes-grows a b (take_none _) ordered = (omega arith, ordered)
Takes-grows {align} a b (take_one _ _ size p t) ordered =
    let (up, still) = alloc_grows align size a ordered in
    let (up', still') = Takes-grows (alloc align a size).0 b t still in (omega arith, still')
