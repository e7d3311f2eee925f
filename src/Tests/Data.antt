-- ===== src/Tests/Data.antt =====
-- The theorems on bitsets and metadata, at concrete values.
use mathlib.Core.List.{Perm}
use libjit.Base.{◌≡◌, refl, arith, true, none, some, List, [], ◌∷◌, ◌++◌, if◌then◌else◌}
use libjit.Base.Int.{ℤ, pos, ◌==ℤ◌}
use libjit.Bitset.{Bitset, set_bit, test_bit, clear, empty, add, sub, copy, equal}
use libjit.Bitset.Bit.{Holds, lowest_bit_lost}
use libjit.Bitset.Overrun.{bitset_of, fresh, whole_overrun}
use libjit.Meta.{Node, set, get}
use libjit.Meta.Lookup.{Distinct, get-set}
use libjit.Meta.Ownership.{calls, owed, calls-set}

abbrev two_words : Bitset
two_words = record { size = pos 128; bits = some (5 ∷ 0 ∷ []) }

two_words-Holds : Holds two_words 70 0 (5 ∷ 0 ∷ [])
two_words-Holds = record { allocated = refl; holds = refl }

two_words-Holds_lowest : Holds two_words 64 0 (5 ∷ 0 ∷ [])
two_words-Holds_lowest = record { allocated = refl; holds = refl }

lowest_bit_lost_example :
    (set_bit two_words 64 ≡ some two_words) × (test_bit two_words 64 ≡ some (pos 0))
lowest_bit_lost_example = lowest_bit_lost two_words 64 0 (5 ∷ 0 ∷ []) two_words-Holds_lowest refl

whole_overrun_example :
    (clear (bitset_of 3 (5 ∷ [])) ≡ none)
    × (add (bitset_of 3 (5 ∷ [])) (bitset_of 3 (2 ∷ [])) ≡ none)
    × (sub (bitset_of 3 (5 ∷ [])) (bitset_of 3 (2 ∷ [])) ≡ none)
    × (copy (bitset_of 3 (5 ∷ [])) (bitset_of 3 (2 ∷ [])) ≡ none)
    × (equal (bitset_of 3 (5 ∷ [])) (bitset_of 3 (5 ∷ [])) ≡ none)
    × (empty (fresh 3) ≡ none)
whole_overrun_example = whole_overrun 3 (5 ∷ []) (2 ∷ []) (omega arith) (omega arith)

-- Two values: one with a function to free it and a node of its own, one in a memory pool.
abbrev two_nodes : List Node
two_nodes =
    record { type = pos 7; payload = 100; free_data = some 1; pool_owner = none }
    ∷ record { type = pos 9; payload = 200; free_data = some 2; pool_owner = some 4 }
    ∷ []

get-set_example :
    ((set true two_nodes (pos 9) 300 none none).1 ≡ pos 1)
    × ((other : ℤ)
        → get (set true two_nodes (pos 9) 300 none none).0 other
          ≡ (if pos 9 ==ℤ other then 300 else get two_nodes other))
    × (Distinct two_nodes → Distinct (set true two_nodes (pos 9) 300 none none).0)
get-set_example = get-set true two_nodes (pos 9) 300 none none

calls-set_example :
    Perm
      (calls (set true two_nodes (pos 9) 300 (some 3) none).2
        ++ owed (set true two_nodes (pos 9) 300 (some 3) none).0)
      ((1, 100) ∷ (2, 200) ∷ (3, 300) ∷ [])
calls-set_example = calls-set true two_nodes (pos 9) 300 (some 3) none
