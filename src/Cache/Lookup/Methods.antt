-- ===== src/Cache/Lookup/Methods.antt =====
-- The list of the methods that are in the lookup tree.
use mathlib.Core.List.{append_assoc}
use libjit.Base.{
  ltb, true, suc, ℕ, ◌+◌, ◌≡◌, refl, arith, Bool, not, ◌&&◌, Option, none, some, List, [], ◌∷◌,
  ◌++◌, ◌==◌, if◌then◌else◌, Bool-cases, length, length-append, set, ap, sym, ◌∙◌, ◌⊎◌, inl, inr,
  Option-cases,
}
use libjit.Base.Maybe.{◌>>=◌, some≢none}
use libjit.Cache.Method.{Region}
use libjit.Cache.Lookup.{
  Tree, leaf, node, count_methods, fill_method_list, get_method_list, write_at,
}
use libjit.Cache.Lookup.Order.{regions_of}

abbrev counts : Region → ℕ → Bool
counts r prev = not (r.method == 0) && not (r.method == prev)

-- The methods of regions, where neighbours that are equal count once, and a null method not at all.
abbrev pub distinct : List Region → ℕ → List ℕ
distinct [] prev = []
distinct (r ∷ rs) prev = if counts r prev then r.method ∷ distinct rs r.method else distinct rs prev

abbrev last_method : List Region → ℕ → ℕ
last_method [] prev = prev
last_method (r ∷ rs) prev = if counts r prev then last_method rs r.method else last_method rs prev

-- Values written one after the other.
abbrev overwrite : List ℕ → ℕ → List ℕ → Option (List ℕ)
overwrite list from [] = some list
overwrite list from (m ∷ ms) = do list' ← write_at list from m; overwrite list' (from + 1) ms

distinct-append :
    (rs qs : List Region) (prev : ℕ)
    → (distinct (rs ++ qs) prev ≡ distinct rs prev ++ distinct qs (last_method rs prev))
      × (last_method (rs ++ qs) prev ≡ last_method qs (last_method rs prev))
distinct-append [] qs prev = (refl, refl)
distinct-append (r ∷ rs) qs prev =
    let (ms, last) = distinct-append rs qs r.method in
    let (ms', last') = distinct-append rs qs prev in
    elim (Bool-cases (counts r prev)) [
      | inl e ↦ rw e (ap (λ x. r.method ∷ x) ms, last)
      | inr e ↦ rw e (ms', last')
    ]

overwrite-append :
    (ms ns : List ℕ) (list : List ℕ) (from : ℕ)
    → overwrite list from (ms ++ ns)
      ≡ (do list' ← overwrite list from ms; overwrite list' (from + length ms) ns)
overwrite-append [] ns list from = ap (λ x. overwrite list x ns) (omega arith)
overwrite-append (m ∷ ms) ns list from = elim (Option-cases (write_at list from m)) [
  | inl outside ↦ rw outside refl
  | inr (list', within) ↦
      let e : from + 1 + length ms ≡ from + suc (length ms) = omega arith in
      rw within (
        overwrite-append ms ns list' (from + 1)
        ∙ ap (λ x. do l ← overwrite list' (from + 1) ms; overwrite l x ns) e)
]

set-behind :
    (pre : List ℕ) (x : ℕ) (rest : List ℕ) (m : ℕ)
    → set (pre ++ (x ∷ rest)) (length pre) m ≡ pre ++ (m ∷ rest)
set-behind [] x rest m = refl
set-behind (p ∷ pre) x rest m = ap (λ l. p ∷ l) (set-behind pre x rest m)

-- A list that is written from end to end holds just what was written.
overwrite_all :
    (ms pre rest : List ℕ)
    → length rest ≡ length ms
    → overwrite (pre ++ rest) (length pre) ms ≡ some (pre ++ ms)
overwrite_all [] pre [] e = refl
overwrite_all [] pre (x ∷ rest) e = absurd (omega (arith, e))
overwrite_all (m ∷ ms) pre [] e = absurd (omega (arith, e))
overwrite_all (m ∷ ms) pre (x ∷ rest) e =
    let moved : length (pre ++ (m ∷ [])) ≡ length pre + 1 = length-append pre (m ∷ []) in
    let within : ltb (length pre) (length (pre ++ (x ∷ rest))) ≡ true =
      ground (arith, length-append pre (x ∷ rest)) in
    let one : set (pre ++ (x ∷ rest)) (length pre) m ≡ (pre ++ (m ∷ [])) ++ rest =
      set-behind pre x rest m ∙ sym (append_assoc pre (m ∷ []) rest) in
    rw within (
      ap (λ l. overwrite l (length pre + 1) ms) one
      ∙ ap (λ n. overwrite ((pre ++ (m ∷ [])) ++ rest) n ms) (sym moved)
      ∙ overwrite_all ms (pre ++ (m ∷ [])) rest (omega (arith, e))
      ∙ ap some (append_assoc pre (m ∷ []) ms))

count_methods-distinct :
    (t : Tree) (prev : ℕ)
    → count_methods t prev
      ≡ (length (distinct (regions_of t) prev), last_method (regions_of t) prev)
unfolding count_methods
count_methods-distinct leaf prev = refl
count_methods-distinct (node red left r right) prev =
    let before : ℕ = last_method (regions_of left) prev in
    let one = count_methods-distinct left prev in
    let (ms, last) = distinct-append (regions_of left) (r ∷ regions_of right) prev in
    let long =
      length-append (distinct (regions_of left) prev) (distinct (r ∷ regions_of right) before) in
    elim (Bool-cases (counts r before)) [
      | inl e ↦
          let two = count_methods-distinct right r.method in
          rw (one, e, two, ms, last, long, e)
            (ap (λ x. (x, last_method (regions_of right) r.method)) (omega arith))
      | inr e ↦
          let two = count_methods-distinct right before in rw (one, e, two, ms, last, long, e) refl
    ]

triple :
    {a b d e : ℕ} {l k : List ℕ}
    → a ≡ b
    → l ≡ k
    → d ≡ e
    → ◌≡◌ {A = ℕ × List ℕ × ℕ} (a, l, d) (b, k, e)
triple p q r = cc

-- The null pointer behind the list.
ended_lem :
    (list : List ℕ) (n : ℕ) (whole : List ℕ)
    → overwrite list n (0 ∷ []) ≡ some whole
    → (do ended ← write_at list n 0; some (some ended)) ≡ some (some whole)
ended_lem list n whole h = elim (Option-cases (write_at list n 0)) [
  | inl outside ↦ absurd (some≢none (sym h ∙ rw outside refl))
  | inr (ended, within) ↦ rw within (ap some (sym (rw within refl) ∙ h))
]

-- What is filled in, where all of it is written inside the block.
abbrev filled_with : Option (List ℕ) → ℕ → ℕ → Option (ℕ × List ℕ × ℕ)
filled_with written num last = do list ← written; some (num, list, last)

fill_right :
    (written : Option (List ℕ)) (num more whole last : ℕ)
    → num + more ≡ whole
    → (do above ← filled_with written more last; some (num + above.0, above.1, above.2))
      ≡ filled_with written whole last
fill_right none num more whole last e = refl
fill_right (some list) num more whole last e = ap some (triple e refl refl)

fill_method_list-distinct :
    (t : Tree) (list : List ℕ) (from prev : ℕ)
    → fill_method_list list from t prev
      ≡ filled_with
          (overwrite list from (distinct (regions_of t) prev))
          (length (distinct (regions_of t) prev))
          (last_method (regions_of t) prev)
unfolding fill_method_list
fill_method_list-distinct leaf list from prev = refl
fill_method_list-distinct (node red left r right) list from prev =
    let before : ℕ = last_method (regions_of left) prev in
    let first : List ℕ = distinct (regions_of left) prev in
    let at : ℕ = from + length first in
    let one = fill_method_list-distinct left list from prev in
    let (ms, last) = distinct-append (regions_of left) (r ∷ regions_of right) prev in
    let split = overwrite-append first (distinct (r ∷ regions_of right) before) list from in
    let long = length-append first (distinct (r ∷ regions_of right) before) in
    elim (Option-cases (overwrite list from first)) [
      | inl outside ↦ rw (one, outside, ms, split, outside) refl
      | inr (list', written) ↦ elim (Bool-cases (counts r before)) [
        | inr e ↦
            let two = fill_method_list-distinct right list' at before in
            rw (one, written, e, two, ms, last, long, split, written, e)
              (fill_right (overwrite list' at (distinct (regions_of right) before)) (length first) _
                _ _ refl)
        | inl e ↦ elim (Option-cases (write_at list' at r.method)) [
          | inl outside ↦ rw (one, written, e, outside, ms, split, written, e, outside) refl
          | inr (list'', here) ↦
              let behind : List ℕ = distinct (regions_of right) r.method in
              let two =
                fill_method_list-distinct right list'' (from + (length first + 1)) r.method in
              let next : from + (length first + 1) ≡ at + 1 = omega arith in
              rw (one, written, e, here, two, ms, last, long, split, written, e, here, next)
                (fill_right (overwrite list'' (at + 1) behind) (length first + 1) _ _ _
                  (omega arith))
        ]
      ]
    ]

-- `_jit_cache_get_method_list` gives the methods of the regions in address order, neighbours of the same
-- method once, and a null pointer behind them, and it writes nothing outside the block that it asks
-- for; without a block it gives nothing.
pub get_method_list-distinct :
    (malloc : ℕ → Option (List ℕ)) (t : Tree)
    → ((n : ℕ) (list : List ℕ) → malloc n ≡ some list → length list ≡ n)
    → ((get_method_list malloc t ≡ some none)
        × (malloc (length (distinct (regions_of t) 0) + 1) ≡ none))
      ⊎ (get_method_list malloc t ≡ some (some (distinct (regions_of t) 0 ++ (0 ∷ []))))
unfolding get_method_list
get_method_list-distinct malloc t sized =
    let ms : List ℕ = distinct (regions_of t) 0 in
    elim (Option-cases (malloc (length ms + 1))) [
      | inl none_left ↦
          inl (rw (get_method_list, count_methods-distinct t 0, none_left) refl, none_left)
      | inr (list, found) ↦
          let whole : overwrite list 0 (ms ++ (0 ∷ [])) ≡ some (ms ++ (0 ∷ [])) =
            overwrite_all (ms ++ (0 ∷ [])) [] list
              (sized (length ms + 1) list found ∙ sym (length-append ms (0 ∷ []))) in
          let start : length ms ≡ 0 + length ms = omega arith in
          let two = sym (overwrite-append ms (0 ∷ []) list 0) ∙ whole in
          inr (elim (Option-cases (overwrite list 0 ms)) [
            | inl outside ↦ absurd (ground (arith, two, outside))
            | inr (list', written) ↦
                rw
                  (
                    get_method_list,
                    count_methods-distinct t 0,
                    found,
                    fill_method_list-distinct t list 0 0,
                    written,
                    count_methods-distinct t 0,
                  )
                  (ended_lem list' (length ms) (ms ++ (0 ∷ []))
                    (ap (λ n. overwrite list' n (0 ∷ [])) start ∙ sym (rw written refl) ∙ two))
          ])
    ]
