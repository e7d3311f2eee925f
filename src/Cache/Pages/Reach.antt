-- ===== src/Cache/Pages/Reach.antt =====
-- The caches that the operations lead to, and how much memory they hold.
use native.Mathlib.Nat.{div-mul-le_self, mul-le-mul_right}
use mathlib.Core.Path.{subst}
use libjit.Base.{
  ℕ, ◌-◌, ◌*◌, ◌/◌, ◌≤◌, ◌<◌, ◌≡◌, ◌⊎◌, inl, inr, refl, arith, Bool, false, Option, none, some, ltb,
  leb, ◌==◌, if◌then◌else◌, Bool-cases, sym, ◌∙◌,
}
use mathlib.Core.Option.{some-injective}
use libjit.Base.Maybe.{some≢none}
use libjit.Base.Int.{ℤ, pos}
use libjit.Cache.{Posn, round_down}
use libjit.Cache.Method.{Writing, close_method}
use libjit.Cache.Pages.{
  Pages, alloc_page, page_limit, rounded_page_size, or_default, default_max_page_factor, no_pages,
  create, start_method, end_method, take_top, alloc_no_method,
}
use libjit.Cache.Pages.Limit.{used, IsAccounted, IsValid, alloc_page-IsValid, release-IsValid}

within_limit : (u k : ℕ) (left : Option ℕ) → IsAccounted (some k) u left → u ≤ k
within_limit u k none h = elim h [ ]
within_limit u k (some left) h = omega (arith, h)

nothing_used : (limit : Option ℕ) → IsAccounted limit 0 limit
nothing_used none = record {}
nothing_used (some limit) = omega arith

accounted-le :
    (u n size : ℕ) (left : Option ℕ)
    → 0 < n
    → IsAccounted (page_limit (pos n) size) u left
    → u ≤ (if ltb (n / size) 1 then 1 else n / size)
accounted-le u n size left positive h =
    let some_limit : (n == 0) ≡ false = ground arith in
    let limit : page_limit (pos n) size ≡ some (if ltb (n / size) 1 then 1 else n / size) =
      rw some_limit refl in
    within_limit u (if ltb (n / size) 1 then 1 else n / size) left
      (subst (λ x. IsAccounted x u left) limit h)

module _ (best exec_page_size : ℕ) (limit cache_page_size max_page_factor : ℤ) where
  -- What becomes of the pages of a cache. What the system gives, or that it gives nothing, may differ
  -- from call to call.
  pub data Reaches : Pages → Type 0 where
    created :
        (malloc_exec : ℕ → ℕ)
        → (realloc : ℕ → Bool) → (cache : Pages)
        → create malloc_exec realloc exec_page_size limit cache_page_size max_page_factor
          ≡ some cache
        → Reaches cache
    method_started :
        (malloc_exec : ℕ → ℕ)
        → (realloc : ℕ → Bool) → (cache : Pages) → (page_factor align method : ℕ) → Reaches cache
        → Reaches (start_method malloc_exec realloc best cache page_factor align method).0
    method_ended :
        (cache : Pages) → (w : Writing) → Reaches cache → Reaches (end_method best cache w).0
    block_taken :
        (malloc_exec : ℕ → ℕ)
        → (realloc : ℕ → Bool) → (cache : Pages) → (size align : ℕ) → Reaches cache
        → Reaches (alloc_no_method malloc_exec realloc cache size align).0

  abbrev size : ℕ
  size = rounded_page_size exec_page_size cache_page_size

  abbrev Kept : Pages → Type 0
  Kept cache = IsValid (page_limit limit size) size cache

  moved-Kept :
      (cache : Pages) (from to : ℕ)
      → Kept cache
      → Kept (record cache { free_start = from; free_end = to })
  moved-Kept cache from to v = record {
    accounted = v.accounted;
    listed = v.listed;
    sized = v.sized;
    factors = v.factors;
  }

  create-Kept :
      (malloc_exec : ℕ → ℕ) (realloc : ℕ → Bool) (cache : Pages)
      → create malloc_exec realloc exec_page_size limit cache_page_size max_page_factor ≡ some cache
      → Kept cache
  unfolding create
  create-Kept malloc_exec realloc cache e =
      let most : ℕ = or_default max_page_factor default_max_page_factor in
      let empty : Pages = no_pages size most (page_limit limit size) in
      let first : Pages = alloc_page malloc_exec realloc empty (pos 0) in
      let v : Kept empty = record {
        accounted = nothing_used (page_limit limit size);
        listed = omega arith;
        sized = refl;
        factors = record {};
      } in
      let kept : Kept first =
        alloc_page-IsValid malloc_exec realloc (page_limit limit size) size empty (pos 0) v in
      elim (Bool-cases (first.free_start == 0)) [
        | inl none_left ↦ absurd (some≢none (sym e ∙ rw (create, none_left) refl))
        | inr room ↦ subst Kept (some-injective _ _ (sym (rw (create, room) refl) ∙ e)) kept
      ]

  start_method-Kept :
      (malloc_exec : ℕ → ℕ) (realloc : ℕ → Bool) (cache : Pages) (page_factor align method : ℕ)
      → Kept cache
      → Kept (start_method malloc_exec realloc best cache page_factor align method).0
  unfolding start_method
  start_method-Kept malloc_exec realloc cache page_factor align method v =
      let cache' : Pages =
        if ltb 0 page_factor
        then alloc_page malloc_exec realloc cache (pos page_factor)
        else cache in
      let kept : Kept cache' = elim (Bool-cases (ltb 0 page_factor)) [
        | inl new ↦ rw new (
            alloc_page-IsValid malloc_exec realloc (page_limit limit size) size cache
              (pos page_factor) v)
        | inr old ↦ rw old v
      ] in
      elim (Bool-cases (cache'.free_start == 0)) [
        | inl full ↦ rw (start_method, full) kept
        | inr room ↦ rw (start_method, room) kept
      ]

  end_method-Kept : (cache : Pages) (w : Writing) → Kept cache → Kept (end_method best cache w).0
  unfolding end_method
  end_method-Kept cache w v =
      let posn : Posn = (close_method best w).0 in
      elim (Bool-cases (leb w.debug.posn.limit w.debug.posn.ptr)) [
        | inl full ↦ rw (full, end_method) (release-IsValid (page_limit limit size) size cache v)
        | inr room ↦ rw (room, end_method) (moved-Kept cache posn.ptr posn.limit v)
      ]

  take_top-Kept :
      (cache : Pages) (bytes align : ℕ) → Kept cache → Kept (take_top cache bytes align).0
  take_top-Kept cache bytes align v =
      let ptr : ℕ = round_down align (cache.free_end - bytes) in
      elim (Bool-cases (ltb ptr cache.free_start)) [
        | inl below ↦ rw below v
        | inr fits ↦ rw fits (moved-Kept cache cache.free_start ptr v)
      ]

  alloc_no_method-Kept :
      (malloc_exec : ℕ → ℕ) (realloc : ℕ → Bool) (cache : Pages) (bytes align : ℕ)
      → Kept cache
      → Kept (alloc_no_method malloc_exec realloc cache bytes align).0
  unfolding alloc_no_method
  alloc_no_method-Kept malloc_exec realloc cache bytes align v =
      let cache' : Pages = alloc_page malloc_exec realloc cache (pos 0) in
      let v' =
        alloc_page-IsValid malloc_exec realloc (page_limit limit size) size cache (pos 0) v in
      elim (Bool-cases (ltb (cache.free_end - cache.free_start) bytes)) [
        | inl short ↦ elim (Bool-cases (ltb (cache'.free_end - cache'.free_start) bytes)) [
          | inl short' ↦ rw (short, short', alloc_no_method) v'
          | inr room ↦ rw (short, room, alloc_no_method) (take_top-Kept cache' bytes align v')
        ]
        | inr room ↦ rw (room, alloc_no_method) (take_top-Kept cache bytes align v)
      ]

  -- Whatever is done to a cache, and whatever memory the system gives for each step, the sizes of its pages and what is left of its limit add up to the
  -- limit, the list of pages has room for them, and no page is larger than the largest allowed.
  pub Reaches-IsValid : (cache : Pages) → Reaches cache → Kept cache
  Reaches-IsValid cache (created malloc_exec realloc _ e) = create-Kept malloc_exec realloc cache e
  Reaches-IsValid _ (method_started malloc_exec realloc cache factor align method r) =
      start_method-Kept malloc_exec realloc cache factor align method (Reaches-IsValid cache r)
  Reaches-IsValid _ (method_ended cache w r) = end_method-Kept cache w (Reaches-IsValid cache r)
  Reaches-IsValid _ (block_taken malloc_exec realloc cache bytes align r) =
      alloc_no_method-Kept malloc_exec realloc cache bytes align (Reaches-IsValid cache r)

-- A cache that is created with a limit of `n` bytes never holds more than `n` bytes of pages, or else
-- it holds a single page of the smallest size.
pub Reaches-limit :
    (best exec_page_size n : ℕ) (cache_page_size max_page_factor : ℤ) (cache : Pages)
    → 0 < n
    → Reaches best exec_page_size (pos n) cache_page_size max_page_factor cache
    → (used cache.pages * cache.page_size ≤ n) ⊎ (used cache.pages ≤ 1)
Reaches-limit best exec_page_size n cache_page_size max_page_factor cache positive r =
    let v = Reaches-IsValid best exec_page_size (pos n) cache_page_size max_page_factor cache r in
    let size : ℕ = rounded_page_size exec_page_size cache_page_size in
    let no_more : used cache.pages ≤ (if ltb (n / size) 1 then 1 else n / size) =
      accounted-le (used cache.pages) n size cache.pages_left positive v.accounted in
    elim (Bool-cases (ltb (n / size) 1)) [
      | inl one ↦ inr (ground (arith, no_more))
      | inr several ↦
          let le : used cache.pages ≤ n / size = ground (arith, no_more) in
          let bytes : used cache.pages * cache.page_size ≤ n / size * size =
            subst (λ x. used cache.pages * x ≤ n / size * size) (sym v.sized)
              (mul-le-mul_right size le) in
          inl (omega (arith, bytes, div-mul-le_self n size))
    ]
