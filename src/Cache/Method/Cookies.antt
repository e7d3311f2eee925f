-- ===== src/Cache/Method/Cookies.antt =====
-- Which cookie an address of a method has, while the method is being written.
use libjit.Base.{
  ℕ, ◌≤◌, ◌<◌, ◌≡◌, inl, inr, arith, Option, none, some, List, [], ◌∷◌, leb, ◌==◌, if◌then◌else◌,
  Bool-cases, Option-cases,
}
use libjit.Cache.{Posn, alloc}
use libjit.Cache.Alloc.{full_of_none}
use libjit.Cache.Method.{
  Region, Writing, region_size, open_region, new_region, with_cookie, set_cookie,
}
use libjit.Cache.Method.Regions.{IsOpen}

-- The cookie of the last region that begins at or before the address.
abbrev pub cookie_at : List Region → ℕ → Option ℕ
cookie_at [] pc = none
cookie_at (r ∷ before) pc = if leb r.start pc then some r.cookie else cookie_at before pc

open_region-cookie_at :
    (align start : ℕ) (w : Writing) (cookie pc : ℕ) (regions : List Region)
    → IsOpen start regions w.debug.posn.ptr
    → (open_region align w cookie regions).debug.posn.ptr
      < (open_region align w cookie regions).debug.posn.limit
    → cookie_at (open_region align w cookie regions).regions pc
      ≡ (if leb w.debug.posn.ptr pc then some cookie else cookie_at regions pc)
open_region-cookie_at align start w cookie pc [] at room = elim at [ ]
open_region-cookie_at align start w cookie pc (r ∷ before) (begins, tiles) room =
    let posn : Posn = w.debug.posn in
    elim (Bool-cases (r.start == posn.ptr)) [
      | inl here ↦ let same : r.start ≡ posn.ptr = ground arith in ground (arith, here, same)
      | inr there ↦ elim (Option-cases ((alloc align posn region_size).1)) [
        | inl none_left ↦
            let opened : Posn = (open_region align w cookie (r ∷ before)).debug.posn in
            let full : opened.limit ≤ opened.ptr =
              rw (there, none_left) (full_of_none align region_size posn none_left) in
            absurd (omega (arith, full, room))
        | inr (block, found) ↦ rw (there, found) (ground arith)
      ]
    ]

with_cookie-cookie_at :
    (cookie pc : ℕ) (start ptr : ℕ) (regions : List Region)
    → IsOpen start regions ptr
    → ptr ≤ pc
    → cookie_at (with_cookie cookie regions) pc ≡ some cookie
with_cookie-cookie_at cookie pc start ptr [] at le = elim at [ ]
with_cookie-cookie_at cookie pc start ptr (r ∷ before) (begins, tiles) le = ground arith

-- While the regions of a method lie end to end, a new region gives its cookie to the addresses from the
-- position on and leaves that of all others, if there is room left after it; and setting the cookie
-- gives it to the addresses from the position on.
new_region-cookie_at :
    (align start : ℕ) (w : Writing) (cookie pc : ℕ)
    → IsOpen start w.regions w.debug.posn.ptr
    → (new_region align w cookie).debug.posn.ptr < (new_region align w cookie).debug.posn.limit
    → (cookie_at (new_region align w cookie).regions pc
        ≡ (if leb w.debug.posn.ptr pc then some cookie else cookie_at w.regions pc))
      × (w.debug.posn.ptr ≤ pc → cookie_at (set_cookie w cookie).regions pc ≡ some cookie)
unfolding new_region set_cookie
new_region-cookie_at align start w cookie pc at room = (
  open_region-cookie_at align start w cookie pc w.regions at room,
  λ le. with_cookie-cookie_at cookie pc start w.debug.posn.ptr w.regions at le,
)
