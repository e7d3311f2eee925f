-- ===== src/Tests/Methods.antt =====
-- The theorems on the methods and the pages of the code cache, at concrete values.
use libjit.Base.{
  ℕ, ◌+◌, ◌-◌, ◌*◌, ◌^◌, ◌<◌, ◌≤◌, ◌≡◌, ◌⊎◌, refl, arith, Bool, true, false, Option, none, some,
  List, [], ◌∷◌, ◌++◌, length, replicate, length-replicate,
}
use mathlib.Core.Path.{subst}
use mathlib.Core.Option.{some-injective}
use libjit.Word.{residue, wrap, signed}
use libjit.Base.Int.{pos, ◌+ℤ◌}
use libjit.Cache.{Posn, alloc}
use libjit.Cache.Method.{Region, Writing, new_writing, new_region, start_at, close_method}
use libjit.Cache.Method.Regions.{Steps, emit, begin_region, no_more, one_more, Covers, Steps-Covers}
use libjit.Cache.Lookup.{Tree, leaf, node, get_method, get_start_method, get_method_list}
use libjit.Cache.Lookup.Order.{region_at, regions_of, method_of, start_of, get_method-region_at}
use libjit.Cache.Lookup.Methods.{distinct, get_method_list-distinct}
use libjit.Cache.Pages.{get_size, Pages, alloc_page, create, start_method, end_method}
use libjit.Cache.Pages.Limit.{IsValid, used}
use libjit.Cache.Pages.Reach.{Reaches, created, method_started, Reaches-IsValid, Reaches-limit}
use libjit.Cache.Pages.Restart.{RestartFrom, end_method-restart}

abbrev first_posn : Posn
first_posn = record { ptr = 4100; limit = 8192 }

-- A method that starts at 4112, below its information block at 8128.
abbrev begun : Writing
begun = new_writing (record { ptr = 4112; limit = 8128 }) 7

begun_run : (start_at 16 first_posn 16 7).1 ≡ some begun
unfolding start_at alloc
begun_run = refl

abbrev with_code : Writing
with_code = record begun {
  debug = record begun.debug { posn = record { ptr = 4212; limit = 8128 } };
}

to_region : Steps 16 begun (new_region 16 with_code 5)
to_region = one_more begun with_code (new_region 16 with_code 5) (emit begun 100 (omega arith)) (
    one_more with_code (new_region 16 with_code 5) (new_region 16 with_code 5)
      (begin_region with_code 5) (no_more (new_region 16 with_code 5)))

with_region_room :
    (new_region 16 with_code 5).debug.posn.ptr < (new_region 16 with_code 5).debug.posn.limit
unfolding new_region alloc
with_region_room = omega arith

Steps-Covers_example :
    ((new_region 16 with_code 5).debug.posn.ptr
      ≤ (close_method 16 (new_region 16 with_code 5)).0.ptr)
    × ((close_method 16 (new_region 16 with_code 5)).0.ptr
        ≤ (close_method 16 (new_region 16 with_code 5)).0.limit)
    × Covers 4112
        (close_method 16 (new_region 16 with_code 5)).1
        (close_method 16 (new_region 16 with_code 5)).0.ptr
Steps-Covers_example =
    Steps-Covers 16 16 first_posn 7 begun (new_region 16 with_code 5) begun_run to_region
      with_region_room

abbrev region_of : ℕ → ℕ → ℕ → ℕ → Region
region_of method cookie start stop = record {
  method = method;
  cookie = cookie;
  start = start;
  stop = stop;
  debug = [];
}

abbrev three_regions : Tree
three_regions =
    node false (node true leaf (region_of 7 0 4112 4212) leaf) (region_of 7 5 4212 4300)
      (node true leaf (region_of 8 0 4304 4400) leaf)

get_method-region_at_example :
    (get_method three_regions 4250 ≡ method_of (region_at (regions_of three_regions) 4250))
    × (get_start_method three_regions 4250 ≡ start_of (region_at (regions_of three_regions) 4250))
get_method-region_at_example =
    get_method-region_at 4096 8192 4250 three_regions (
      (omega arith, omega arith, omega arith),
      omega arith,
      (omega arith, omega arith, omega arith),
    )

abbrev dirty : ℕ → Option (List ℕ)
dirty n = some (replicate n 99)

dirty_sized : (n : ℕ) (list : List ℕ) → dirty n ≡ some list → length list ≡ n
dirty_sized n list e = subst (λ x. length x ≡ n) (some-injective _ _ e) (length-replicate n 99)

get_method_list-distinct_example :
    ((get_method_list dirty three_regions ≡ some none)
      × (dirty (length (distinct (regions_of three_regions) 0) + 1) ≡ none))
    ⊎ (get_method_list dirty three_regions
        ≡ some (some (distinct (regions_of three_regions) 0 ++ (0 ∷ []))))
get_method_list-distinct_example = get_method_list-distinct dirty three_regions dirty_sized

-- Executable memory at 2 ^ 20, as much as is asked for.
abbrev at_a_place : ℕ → ℕ
at_a_place bytes = 2 ^ 20

-- The next time, it is elsewhere.
abbrev at_another : ℕ → ℕ
at_another bytes = 2 ^ 21

abbrev no_lack : ℕ → Bool
no_lack num = true

-- A cache for 200000 bytes, with pages of 64 kB.
abbrev small_cache : Pages
small_cache = record {
  pages = record { page = 2 ^ 20; factor = 1 } ∷ [];
  max_num_pages = 3;
  page_size = 65536;
  max_page_factor = 1024;
  free_start = 2 ^ 20;
  free_end = 2 ^ 20 + 65536;
  pages_left = some 2;
}

small_cache_run : create at_a_place no_lack 4096 (pos 200000) (pos 0) (pos 0) ≡ some small_cache
unfolding create alloc_page residue wrap signed ◌+ℤ◌
small_cache_run = refl

small_cache-Reaches :
    Reaches 16 4096
      (pos 200000)
      (pos 0)
      (pos 0)
      (start_method at_another no_lack 16 small_cache 1 16 7).0
small_cache-Reaches =
    method_started at_another no_lack small_cache 1 16 7
      (created at_a_place no_lack small_cache small_cache_run)

Reaches-IsValid_example :
    IsValid (some 3) 65536 (start_method at_another no_lack 16 small_cache 1 16 7).0
Reaches-IsValid_example =
    Reaches-IsValid 16 4096 (pos 200000) (pos 0) (pos 0)
      (start_method at_another no_lack 16 small_cache 1 16 7).0 small_cache-Reaches

Reaches-limit_example :
    (used (start_method at_another no_lack 16 small_cache 1 16 7).0.pages
        * (start_method at_another no_lack 16 small_cache 1 16 7).0.page_size
      ≤ 200000)
    ⊎ (used (start_method at_another no_lack 16 small_cache 1 16 7).0.pages ≤ 1)
Reaches-limit_example =
    Reaches-limit 16 4096 200000 (pos 0) (pos 0)
      (start_method at_another no_lack 16 small_cache 1 16 7).0 (omega arith) small_cache-Reaches

new_page_run : (start_method at_a_place no_lack 16 small_cache 2 16 7).0.free_start ≡ 2 ^ 20
unfolding start_method alloc_page start_at alloc
new_page_run = refl

-- A method for which there was no room.
abbrev full_method : Writing
full_method = new_writing (record { ptr = 1179648; limit = 1179648 }) 7

end_method-restart_example :
    RestartFrom small_cache
      (end_method 16 (start_method at_a_place no_lack 16 small_cache 2 16 7).0 full_method)
end_method-restart_example =
    end_method-restart at_a_place no_lack 16 small_cache 2 16 7 full_method (omega arith)
      (omega arith) (λ bytes small. omega arith) (λ e. ground (arith, new_page_run)) (omega arith)

-- One page of twice the size, of which nothing is used: the size of the code wraps around.
get_size_run :
    get_size (record small_cache {
      pages = record { page = 2 ^ 20; factor = 2 } ∷ [];
      free_end = 2 ^ 20 + 131072;
    })
    ≡ 2 ^ 64 - 65536
unfolding get_size residue
get_size_run = refl
