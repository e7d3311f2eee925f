-- ===== src/Cache/Pages.antt =====
-- jit/jit-cache.c, the pages of the cache, and the start and the end of a method in them.
pub mod Limit
pub mod Reach
pub mod Restart
use libjit.Base.{
  ℕ, zero, suc, ◌+◌, ◌-◌, ◌*◌, ◌/◌, ◌%◌, ◌^◌, ◌≤◌, ◌<◌, Bool, true, false, not, ◌&&◌, ◌||◌, Option,
  none, some, List, [], ◌∷◌, ltb, leb, ◌==◌, if◌then◌else◌, length,
}
use libjit.Base.Int.{ℤ, pos, negsuc, ◌+ℤ◌, sub_ℕ}
use libjit.Word.{residue, wrap, int_half, uint_modulus, ulong_modulus}
use libjit.Cache.{Posn, round_down}
use libjit.Cache.Method.{Region, Writing, start_at, close_method}

-- `struct jit_cache_page`
pub record Page : Type 0 where
  pub page : ℕ
  pub factor : ℕ

-- The part of `struct jit_cache` that is about pages. `pages` has the `numPages` pages, the newest one
-- first; `pages_left` is `none` where `pagesLeft` is -1, for a cache without a limit.
pub record Pages : Type 0 where
  pub pages : List Page
  pub max_num_pages : ℕ
  pub page_size : ℕ
  pub max_page_factor : ℕ
  pub free_start : ℕ
  pub free_end : ℕ
  pub pages_left : Option ℕ

abbrev pub fail_alloc : Pages → Pages
fail_alloc cache = record cache { free_start = 0; free_end = 0 }

-- The factor, which is at least 1.
abbrev pub at_least_one : ℤ → ℕ
at_least_one (negsuc n) = 1
at_least_one (pos n) = if n == 0 then 1 else n

abbrev pub is_short : Option ℕ → ℕ → Bool
is_short none factor = false
is_short (some left) factor = ltb left factor

-- The size that the page list grows to.
abbrev pub grown_list : ℕ → Option ℕ → ℕ → ℕ
grown_list num_pages none factor = if num_pages == 0 then 16 else num_pages * 2
grown_list num_pages (some left) factor =
    let num = if num_pages == 0 then 16 else num_pages * 2 in
    if ltb 0 left && ltb (num_pages + left - factor + 1) num
    then num_pages + left - factor + 1
    else num

abbrev pub spend : Option ℕ → ℕ → Option ℕ
spend none factor = none
spend (some left) factor = some (if ltb 0 left then left - factor else left)

-- A page in use; the size is an `int`.
abbrev pub add_page : Pages → ℕ → ℕ → Pages
add_page cache ptr factor = record cache {
  pages = record { page = ptr; factor = factor } ∷ cache.pages;
  pages_left = spend cache.pages_left factor;
  free_start = ptr;
  free_end = residue ulong_modulus (pos ptr +ℤ wrap int_half (pos (cache.page_size * factor)));
}

-- The page goes to the list, which grows first if it is full.
abbrev pub list_page : (ℕ → Bool) → Pages → ℕ → ℕ → Pages
list_page realloc cache ptr factor =
    let num = grown_list (length cache.pages) cache.pages_left factor in
    if length cache.pages == cache.max_num_pages
    then (if realloc num
        then add_page (record cache { max_num_pages = num }) ptr factor
        else fail_alloc cache)
    else add_page cache ptr factor

-- `AllocCachePage`: `malloc_exec` is `jit_malloc_exec`, which gives 0 if there is no memory, and
-- `realloc` says if `jit_realloc` gives a list of that many pages.
unfoldable pub alloc_page : (ℕ → ℕ) → (ℕ → Bool) → Pages → ℤ → Pages
alloc_page malloc_exec realloc cache factor =
    let factor' = at_least_one factor in
    let ptr = malloc_exec ((cache.page_size * factor') % uint_modulus) in
    if ltb cache.max_page_factor factor'
    then fail_alloc cache
    else if is_short cache.pages_left factor'
    then fail_alloc cache
    else if ptr == 0
    then fail_alloc cache
    else list_page realloc cache ptr factor'

-- `JIT_CACHE_PAGE_SIZE` and `JIT_CACHE_MAX_PAGE_FACTOR`
abbrev pub default_page_size : ℕ
default_page_size = 64 * 1024

abbrev pub default_max_page_factor : ℕ
default_max_page_factor = 1024

abbrev pub or_default : ℤ → ℕ → ℕ
or_default (negsuc n) default = default
or_default (pos n) default = if n == 0 then default else n

-- The size of a page: at least that of an executable page, of which it is a multiple.
abbrev pub rounded_page_size : ℕ → ℤ → ℕ
rounded_page_size exec_page_size cache_page_size =
    let size = or_default cache_page_size default_page_size in
    if ltb size exec_page_size then exec_page_size else (size / exec_page_size) * exec_page_size

abbrev pub page_limit : ℤ → ℕ → Option ℕ
page_limit (negsuc n) size = none
page_limit (pos n) size = if n == 0 then none else some (if ltb (n / size) 1 then 1 else n / size)

-- The pages of a cache that has none yet.
abbrev pub no_pages : ℕ → ℕ → Option ℕ → Pages
no_pages size max_page_factor limit = record {
  pages = [];
  max_num_pages = 0;
  page_size = size;
  max_page_factor = max_page_factor;
  free_start = 0;
  free_end = 0;
  pages_left = limit;
}

-- `_jit_cache_create`, the pages of the new cache; there is none if there is no memory for a page.
unfoldable pub create : (ℕ → ℕ) → (ℕ → Bool) → ℕ → ℤ → ℤ → ℤ → Option Pages
create malloc_exec realloc exec_page_size limit cache_page_size max_page_factor =
    let size = rounded_page_size exec_page_size cache_page_size in
    let most = or_default max_page_factor default_max_page_factor in
    let cache =
      alloc_page malloc_exec realloc (no_pages size most (page_limit limit size)) (pos 0) in
    if cache.free_start == 0 then none else some cache

-- `_jit_cache_is_full`
abbrev pub is_full : Pages → Option Posn → Bool
is_full cache none = cache.free_start == 0
is_full cache (some posn) = cache.free_start == 0 || leb posn.limit posn.ptr

-- What `_jit_cache_start_method` returns: `JIT_CACHE_OK`, `JIT_CACHE_RESTART`, `JIT_CACHE_TOO_BIG`.
pub data Start : Type 0 where
  ok : Writing → Start
  restart : Posn → Start
  too_big : Start

abbrev pub started : Posn × Option Writing → Start
started (posn, none) = restart posn
started (posn, some w) = ok w

-- `_jit_cache_start_method`
unfoldable pub start_method : (ℕ → ℕ) → (ℕ → Bool) → ℕ → Pages → ℕ → ℕ → ℕ → Pages × Start
start_method malloc_exec realloc best_align cache page_factor align method =
    let cache' =
      if ltb 0 page_factor then alloc_page malloc_exec realloc cache (pos page_factor) else cache in
    if cache'.free_start == 0 then (cache', too_big) else (
      cache',
      started (
          start_at best_align (record { ptr = cache'.free_start; limit = cache'.free_end }) align
            method),
    )

abbrev pub give_back : Option ℕ → ℕ → Option ℕ
give_back none factor = none
give_back (some left) factor = some (left + factor)

-- The page that was new is given up, in `_jit_cache_end_method`; the pages are as given.
abbrev pub release_from : Pages → List Page → Pages
release_from cache [] = cache
release_from cache (last ∷ pages) =
    if cache.free_start == last.page
      && cache.free_end == cache.free_start + cache.page_size * last.factor
    then record cache {
      pages = pages;
      pages_left = give_back cache.pages_left last.factor;
      free_start = 0;
      free_end = 0;
    }
    else cache

unfoldable pub release : Pages → Pages
release cache = release_from cache cache.pages

-- `_jit_cache_end_method`: `none` is `JIT_CACHE_RESTART`; else there are the regions that go to the lookup
-- tree.
unfoldable pub end_method : ℕ → Pages → Writing → Pages × Option (List Region)
end_method best_align cache w =
    if leb w.debug.posn.limit w.debug.posn.ptr
    then (release cache, none)
    else let (posn, regions) = close_method best_align w in
      (record cache { free_start = posn.ptr; free_end = posn.limit }, some regions)

-- The lines of `_jit_cache_alloc_no_method` after a page was allocated.
abbrev pub take_top : Pages → ℕ → ℕ → Pages × Option ℕ
take_top cache size align =
    let ptr = round_down align (cache.free_end - size) in
    if ltb ptr cache.free_start then (cache, none) else (record cache { free_end = ptr }, some ptr)

-- `_jit_cache_alloc_no_method`
unfoldable pub alloc_no_method : (ℕ → ℕ) → (ℕ → Bool) → Pages → ℕ → ℕ → Pages × Option ℕ
alloc_no_method malloc_exec realloc cache size align =
    let cache' = alloc_page malloc_exec realloc cache (pos 0) in
    if ltb (cache.free_end - cache.free_start) size
    then (if ltb (cache'.free_end - cache'.free_start) size
        then (cache', none)
        else take_top cache' size align)
    else take_top cache size align

-- `_jit_cache_get_size`, which counts every page as one of the smallest size.
unfoldable pub get_size : Pages → ℕ
get_size cache =
    residue ulong_modulus
      (sub_ℕ (length cache.pages * cache.page_size) (cache.free_end - cache.free_start))
