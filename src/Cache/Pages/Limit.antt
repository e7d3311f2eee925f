-- ===== src/Cache/Pages/Limit.antt =====
-- The limit on the pages of a cache.
use libjit.Base.{
  ℕ, ◌+◌, ◌*◌, ◌%◌, ◌≤◌, ◌<◌, ◌≡◌, arith, Bool, false, ◌&&◌, Option, none, some, List, [], ◌∷◌, ltb,
  ◌==◌, length, Bool-cases, inl, inr,
}
use libjit.Base.Int.{ℤ}
use libjit.Word.{uint_modulus}
use libjit.Cache.Pages.{
  Page, Pages, fail_alloc, at_least_one, is_short, grown_list, spend, add_page, alloc_page,
  list_page, release, release_from, give_back,
}

-- The size of the pages together, in units of the page size.
abbrev pub used : List Page → ℕ
used [] = 0
used (p ∷ pages) = p.factor + used pages

-- With a limit, what is used and what is left make up the limit.
abbrev pub IsAccounted : Option ℕ → ℕ → Option ℕ → Type 0
IsAccounted none n none = Unit {0}
IsAccounted none n (some left) = ⊥
IsAccounted (some limit) n none = ⊥
IsAccounted (some limit) n (some left) = n + left ≡ limit

abbrev pub AllFactors : ℕ → List Page → Type 0
AllFactors most [] = Unit {0}
AllFactors most (p ∷ pages) = (1 ≤ p.factor) × (p.factor ≤ most) × AllFactors most pages

pub record IsValid (limit : Option ℕ) (size : ℕ) (cache : Pages) : Type 0 where
  pub accounted : IsAccounted limit (used cache.pages) cache.pages_left
  pub listed : length cache.pages ≤ cache.max_num_pages
  pub sized : cache.page_size ≡ size
  pub factors : AllFactors cache.max_page_factor cache.pages

fail_alloc-IsValid :
    (limit : Option ℕ) (size : ℕ) (cache : Pages)
    → IsValid limit size cache
    → IsValid limit size (fail_alloc cache)
fail_alloc-IsValid limit size cache v = record {
  accounted = v.accounted;
  listed = v.listed;
  sized = v.sized;
  factors = v.factors;
}

spend-IsAccounted :
    (limit left : Option ℕ) (n factor : ℕ)
    → 1 ≤ factor
    → is_short left factor ≡ false
    → IsAccounted limit n left
    → IsAccounted limit (factor + n) (spend left factor)
spend-IsAccounted none none n factor one enough h = h
spend-IsAccounted (some limit) (some left) n factor one enough h = ground arith
spend-IsAccounted none (some left) n factor one enough h = elim h [ ]
spend-IsAccounted (some limit) none n factor one enough h = elim h [ ]

add_page-IsValid :
    (limit : Option ℕ) (size : ℕ) (cache : Pages) (ptr factor : ℕ)
    → 1 ≤ factor
    → factor ≤ cache.max_page_factor
    → is_short cache.pages_left factor ≡ false
    → length cache.pages < cache.max_num_pages
    → IsValid limit size cache
    → IsValid limit size (add_page cache ptr factor)
add_page-IsValid limit size cache ptr factor one most enough room v = record {
  accounted =
      spend-IsAccounted limit cache.pages_left (used cache.pages) factor one enough v.accounted;
  listed = omega (arith, room);
  sized = v.sized;
  factors = (one, most, v.factors);
}

at_least_one-positive : (factor : ℤ) → 1 ≤ at_least_one factor
at_least_one-positive factor = ground arith

grown_list-gt :
    (num factor : ℕ) (left : Option ℕ)
    → is_short left factor ≡ false
    → num < grown_list num left factor
grown_list-gt num factor none enough = ground arith
grown_list-gt num factor (some left) enough = ground arith

list_page-IsValid :
    (realloc : ℕ → Bool) (limit : Option ℕ) (size : ℕ) (cache : Pages) (ptr factor : ℕ)
    → 1 ≤ factor
    → factor ≤ cache.max_page_factor
    → is_short cache.pages_left factor ≡ false
    → IsValid limit size cache
    → IsValid limit size (list_page realloc cache ptr factor)
list_page-IsValid realloc limit size cache ptr factor one most enough v =
    let num : ℕ = grown_list (length cache.pages) cache.pages_left factor in
    let more = grown_list-gt (length cache.pages) factor cache.pages_left enough in
    elim (Bool-cases (length cache.pages == cache.max_num_pages)) [
      | inl all ↦ elim (Bool-cases (realloc num)) [
        | inl grown ↦
            rw (all, grown)
              (add_page-IsValid limit size (record cache { max_num_pages = num }) ptr factor one
                most enough more
                (record {
                  accounted = v.accounted;
                  listed = omega arith;
                  sized = v.sized;
                  factors = v.factors;
                }))
        | inr no_memory ↦ rw (all, no_memory) (fail_alloc-IsValid limit size cache v)
      ]
      | inr room ↦ rw room (
          add_page-IsValid limit size cache ptr factor one most enough (ground (arith, v.listed)) v)
    ]

pub alloc_page-IsValid :
    (malloc_exec : ℕ → ℕ) (realloc : ℕ → Bool) (limit : Option ℕ) (size : ℕ) (cache : Pages)
    (factor : ℤ)
    → IsValid limit size cache
    → IsValid limit size (alloc_page malloc_exec realloc cache factor)
unfolding alloc_page
alloc_page-IsValid malloc_exec realloc limit size cache factor v =
    let factor' : ℕ = at_least_one factor in
    let ptr : ℕ = malloc_exec ((cache.page_size * factor') % uint_modulus) in
    let failed = fail_alloc-IsValid limit size cache v in
    elim (Bool-cases (ltb cache.max_page_factor factor')) [
      | inl big ↦ rw (big, alloc_page) failed
      | inr most ↦ elim (Bool-cases (is_short cache.pages_left factor')) [
        | inl short ↦ rw (most, short, alloc_page) failed
        | inr enough ↦ elim (Bool-cases (ptr == 0)) [
          | inl null ↦ rw (most, enough, null, alloc_page) failed
          | inr found ↦
              rw (most, enough, found, alloc_page)
                (list_page-IsValid realloc limit size cache ptr factor'
                  (at_least_one-positive factor) (ground arith) enough v)
        ]
      ]
    ]

give_back-IsAccounted :
    (limit left : Option ℕ) (n factor : ℕ)
    → IsAccounted limit (factor + n) left
    → IsAccounted limit n (give_back left factor)
give_back-IsAccounted none none n factor h = h
give_back-IsAccounted (some limit) (some left) n factor h = omega (arith, h)
give_back-IsAccounted none (some left) n factor h = elim h [ ]
give_back-IsAccounted (some limit) none n factor h = elim h [ ]

release_from-IsValid :
    (limit : Option ℕ) (size : ℕ) (cache : Pages) (pages : List Page)
    → IsValid limit size cache
    → IsAccounted limit (used pages) cache.pages_left
    → length pages ≤ cache.max_num_pages
    → AllFactors cache.max_page_factor pages
    → IsValid limit size (release_from cache pages)
release_from-IsValid limit size cache [] v accounted listed factors = v
release_from-IsValid limit size cache (p ∷ pages) v accounted listed (one, most, factors) =
    elim (Bool-cases (
      cache.free_start == p.page
      && cache.free_end == cache.free_start + cache.page_size * p.factor)) [
        | inl fresh ↦ rw fresh (record {
          accounted = give_back-IsAccounted limit cache.pages_left (used pages) p.factor accounted;
          listed = omega arith;
          sized = v.sized;
          factors = factors;
        })
        | inr partly ↦ rw partly v
      ]

pub release-IsValid :
    (limit : Option ℕ) (size : ℕ) (cache : Pages)
    → IsValid limit size cache
    → IsValid limit size (release cache)
unfolding release
release-IsValid limit size cache v =
    release_from-IsValid limit size cache cache.pages v v.accounted v.listed v.factors
