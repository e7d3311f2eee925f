-- ===== src/Cache/Pages/Restart.antt =====
-- A page that turns out to be too small is given back.
use mathlib.Core.Path.{subst}
use libjit.Base.{
  ℕ, ◌+◌, ◌*◌, ◌%◌, ◌^◌, ◌≤◌, ◌<◌, ◌≡◌, ◌≢◌, ◌⊎◌, inl, inr, refl, arith, Bool, true, false, Option,
  none, some, List, ltb, leb, ◌==◌, length, Bool-cases, ap, sym, ◌∙◌,
}
use libjit.Base.Int.{ℤ, pos, ◌+ℤ◌}
use libjit.Word.{residue, wrap, int_half, uint_modulus, ulong_modulus}
use libjit.Word.Laws.{residue_pos, wrap_id}
use native.Mathlib.Nat.{mod-eq_of_lt}
use libjit.Cache.Method.{Region, Writing}
use libjit.Cache.Pages.{
  Pages, fail_alloc, at_least_one, is_short, grown_list, spend, add_page, alloc_page, start_method,
  release, give_back, end_method,
}

-- `AllocCachePage` leaves no free region, or adds a page that the limit has room for.
pub alloc_page-cases :
    (malloc_exec : ℕ → ℕ) (realloc : ℕ → Bool) (cache : Pages) (factor : ℤ)
    → (alloc_page malloc_exec realloc cache factor ≡ fail_alloc cache)
      ⊎ ((num : ℕ) × (is_short cache.pages_left (at_least_one factor) ≡ false)
          × (alloc_page malloc_exec realloc cache factor
              ≡ add_page
                  (record cache { max_num_pages = num })
                  (malloc_exec ((cache.page_size * at_least_one factor) % uint_modulus))
                  (at_least_one factor)))
unfolding alloc_page
alloc_page-cases malloc_exec realloc cache factor =
    let factor' : ℕ = at_least_one factor in
    let ptr : ℕ = malloc_exec ((cache.page_size * factor') % uint_modulus) in
    let num : ℕ = grown_list (length cache.pages) cache.pages_left factor' in
    elim (Bool-cases (ltb cache.max_page_factor factor')) [
      | inl big ↦ inl (rw (big, alloc_page) refl)
      | inr most ↦ elim (Bool-cases (is_short cache.pages_left factor')) [
        | inl short ↦ inl (rw (most, short, alloc_page) refl)
        | inr enough ↦ elim (Bool-cases (ptr == 0)) [
          | inl null ↦ inl (rw (most, enough, null, alloc_page) refl)
          | inr found ↦ elim (Bool-cases (length cache.pages == cache.max_num_pages)) [
            | inl all ↦ elim (Bool-cases (realloc num)) [
              | inl grown ↦ inr (num, enough, rw (most, enough, found, all, grown, alloc_page) refl)
              | inr no_memory ↦ inl (rw (most, enough, found, all, no_memory, alloc_page) refl)
            ]
            | inr room ↦
                inr (cache.max_num_pages, enough, rw (most, enough, found, room, alloc_page) refl)
          ]
        ]
      ]
    ]

-- A restart, with the pages and the limit of that cache.
abbrev pub RestartFrom : Pages → Pages × Option (List Region) → Type 0
RestartFrom cache (after, regions) =
    (regions ≡ none)
    × (after.pages ≡ cache.pages)
    × (after.pages_left ≡ cache.pages_left)
    × (after.free_start ≡ 0)

page_end :
    (ptr bytes : ℕ)
    → bytes < 2 ^ 31
    → ptr + bytes < 2 ^ 64
    → residue ulong_modulus (pos ptr +ℤ wrap int_half (pos bytes)) ≡ ptr + bytes
unfolding ◌+ℤ◌
page_end ptr bytes small fits =
    let kept : wrap int_half (pos bytes) ≡ pos bytes = wrap_id int_half (pos bytes) (omega arith) in
    let sum : pos ptr +ℤ pos bytes ≡ pos (ptr + bytes) = ground arith in
    ap (λ x. residue ulong_modulus (pos ptr +ℤ x)) kept
    ∙ ap (λ x. residue ulong_modulus x) sum
    ∙ residue_pos ulong_modulus (ptr + bytes) fits

give_back-spend :
    (left : Option ℕ) (factor : ℕ)
    → is_short left factor ≡ false
    → give_back (spend left factor) factor ≡ left
give_back-spend none factor enough = refl
give_back-spend (some left) factor enough = ap some (ground arith)

release-add_page :
    (cache : Pages) (ptr factor : ℕ)
    → is_short cache.pages_left factor ≡ false
    → cache.page_size * factor < 2 ^ 31
    → ptr + cache.page_size * factor < 2 ^ 64
    → release (add_page cache ptr factor) ≡ fail_alloc cache
unfolding release
release-add_page cache ptr factor enough small fits =
    let whole = page_end ptr (cache.page_size * factor) small fits in
    let start : (ptr == ptr) ≡ true = ground arith in
    let stop : (residue ulong_modulus (pos ptr +ℤ wrap int_half (pos (cache.page_size * factor)))
          == ptr + cache.page_size * factor)
        ≡ true =
      ground (arith, whole) in
    rw (start, stop, give_back-spend cache.pages_left factor enough) refl

start_method-pages :
    (malloc_exec : ℕ → ℕ) (realloc : ℕ → Bool) (best : ℕ) (cache : Pages)
    (page_factor align method : ℕ)
    → 0 < page_factor
    → (start_method malloc_exec realloc best cache page_factor align method).0
      ≡ alloc_page malloc_exec realloc cache (pos page_factor)
unfolding start_method
start_method-pages malloc_exec realloc best cache page_factor align method positive =
    let new : ltb 0 page_factor ≡ true = ground arith in
    elim (Bool-cases ((alloc_page malloc_exec realloc cache (pos page_factor)).free_start == 0)) [
      | inl full ↦ rw (start_method, new, full) refl
      | inr room ↦ rw (start_method, new, room) refl
    ]

-- If a method was started with a new page, and it turned out not to fit in, `_jit_cache_end_method` asks
-- for a restart and gives the page back: the pages and what is left of the limit are those from
-- before, and there is no free region. The page is smaller than 2 GB, and lies in the memory.
pub end_method-restart :
    (malloc_exec : ℕ → ℕ) (realloc : ℕ → Bool) (best : ℕ) (cache : Pages)
    (page_factor align method : ℕ) (w : Writing)
    → 0 < page_factor
    → cache.page_size * page_factor < 2 ^ 31
    → ((bytes : ℕ) → bytes < 2 ^ 32 → malloc_exec bytes + bytes < 2 ^ 64)
    → (start_method malloc_exec realloc best cache page_factor align method).0.free_start ≢ 0
    → w.debug.posn.limit ≤ w.debug.posn.ptr
    → RestartFrom cache
        (end_method best (start_method malloc_exec realloc best cache page_factor align method).0 w)
unfolding end_method
end_method-restart malloc_exec realloc best cache page_factor align method w positive small fits
      room full =
    let factor' : ℕ = at_least_one (pos page_factor) in
    let same : factor' ≡ page_factor = ground arith in
    let bytes : ℕ = (cache.page_size * factor') % uint_modulus in
    let fitting : cache.page_size * factor' < 2 ^ 31 =
      subst (λ x. cache.page_size * x < 2 ^ 31) (sym same) small in
    let whole : bytes ≡ cache.page_size * factor' = mod-eq_of_lt (omega (arith, fitting)) in
    let begun =
      start_method-pages malloc_exec realloc best cache page_factor align method positive in
    elim (alloc_page-cases malloc_exec realloc cache (pos page_factor)) [
      | inl failed ↦ absurd (room (ap (λ x. x.free_start) (begun ∙ failed)))
      | inr (num, enough, added) ↦
          let listed : Pages = record cache { max_num_pages = num } in
          let back : release
                (start_method malloc_exec realloc best cache page_factor align method).0
              ≡ fail_alloc listed =
            ap release (begun ∙ added)
            ∙ release-add_page listed (malloc_exec bytes) factor' enough fitting (
                subst (λ x. malloc_exec bytes + x < 2 ^ 64) whole
                  (fits bytes (omega (arith, whole, fitting)))) in
          let over : leb w.debug.posn.limit w.debug.posn.ptr ≡ true = ground arith in
          rw (over, end_method)
            (refl, ap (λ x. x.pages) back, ap (λ x. x.pages_left) back, ap (λ x. x.free_start) back)
    ]
