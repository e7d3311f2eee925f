-- ===== src/Cache/Alloc.antt =====
-- jit/jit-cache.c, memory that is taken from a position: `_jit_cache_alloc`.
use libjit.Base.{
  ℕ, ◌+◌, ◌-◌, ◌%◌, ◌≤◌, ◌<◌, ◌≡◌, ◌⊎◌, refl, arith, none, some, ltb, Bool-cases, inl, inr,
}
use libjit.Cache.{Posn, alloc, round_down}
use native.Mathlib.Nat.{mod-lt, mod-le}

-- Where a block of `size` bytes was found, it is aligned, it lies between the code and the limit,
-- and the limit is moved down to it, so that no later block and no code overlaps it.
pub record Taken (align : ℕ) (posn after : Posn) (size block : ℕ) : Type 0 where
  pub aligned : block % align ≡ 0
  pub above : posn.ptr ≤ block
  pub within : block + size ≤ posn.limit
  pub limit : after.limit ≡ block
  pub ptr : after.ptr ≡ posn.ptr

round_down-aligned : (align x : ℕ) → 0 < align → round_down align x % align ≡ 0
round_down-aligned align x positive = grind arith

-- `_jit_cache_alloc` either takes a block, or there was none: then the position is marked full,
-- which happens only if less than the size and one alignment more was left.
pub alloc_cases :
    (align size : ℕ) (posn : Posn)
    → 0 < align
    → posn.ptr ≤ posn.limit
    → ((block : ℕ) × ((alloc align posn size).1 ≡ some block)
        × Taken align posn (alloc align posn size).0 size block)
      ⊎ (((alloc align posn size).1 ≡ none)
          × ((alloc align posn size).0 ≡ record { ptr = posn.limit; limit = posn.limit })
          × (posn.limit < posn.ptr + size + align))
unfolding alloc
alloc_cases align size posn positive ordered =
    let top : ℕ = posn.limit - size in
    let small : top % align < align = mod-lt top positive in
    let part : top % align ≤ top = mod-le top align in
    elim (Bool-cases (ltb (posn.limit - posn.ptr) size)) [
      | inl large ↦ inr (rw large (refl, refl, ground arith))
      | inr fits ↦ elim (Bool-cases (ltb (round_down align top) posn.ptr)) [
        | inl below ↦ inr (rw (fits, below) (refl, refl, ground arith))
        | inr block ↦ inl (
          round_down align top,
          rw (fits, block) refl,
          rw (fits, block)
              (record {
                aligned = round_down-aligned align top positive;
                above = ground arith;
                within = ground arith;
                limit = refl;
                ptr = refl;
              }),
        )
      ]
    ]

pub full_of_none :
    (align size : ℕ) (posn : Posn)
    → (alloc align posn size).1 ≡ none
    → (alloc align posn size).0.limit ≤ (alloc align posn size).0.ptr
unfolding alloc
full_of_none align size posn h = ground arith

pub full_of_full :
    (align size : ℕ) (posn : Posn)
    → posn.limit ≤ posn.ptr
    → 0 < size
    → (alloc align posn size).0.limit ≤ (alloc align posn size).0.ptr
unfolding alloc
full_of_full align size posn full positive = ground arith
