-- ===== src/Bitset/Overrun.antt =====
-- The loops over a bitset count its bits, while its array counts words.
use Prim.Native.Nat.{bit_and, bit_or}
use libjit.Base.{
  ℕ, zero, suc, ◌+◌, ◌-◌, ◌/◌, ◌^◌, ◌≤◌, ◌<◌, ◌≡◌, true, false, Option, none, some, List, ◌==◌,
  length, get_elem?, arith, length-set, get_elem?-none, replicate, length-replicate,
  get_elem?-replicate, Option-cases, Bool-cases, lt_of_get_elem?, inl, inr,
}
use libjit.Base.Int.{ℤ, pos}
use libjit.Bitset.{
  Bitset, allocate, store, for_words, clear, empty_loop, empty, add_word, sub_word, add, sub,
  copy_loop, copy, equal_loop, equal,
}

within :
    (body : ℕ → List ℕ → Option (List ℕ))
    → ((i : ℕ) (ws : List ℕ) → length ws ≤ i → body i ws ≡ none)
    → (i : ℕ) (words ws : List ℕ) → body i words ≡ some ws
    → i < length words
within body stops i words ws step = ground (arith, stops i words)

-- A body that faults past the end and keeps the length makes the loop fault.
for_words_overrun :
    (body : ℕ → List ℕ → Option (List ℕ))
    → ((i : ℕ) (ws : List ℕ) → length ws ≤ i → body i ws ≡ none)
    → ((i : ℕ) (ws ws' : List ℕ) → body i ws ≡ some ws' → length ws' ≡ length ws)
    → (left i : ℕ) (words : List ℕ) → length words < i + left
    → i ≤ length words
    → for_words body left i words ≡ none
unfolding for_words
for_words_overrun body stops keeps zero i words lt le = absurd (omega arith)
for_words_overrun body stops keeps (suc left) i words lt le = elim (Option-cases (body i words)) [
  | inl fault ↦ rw fault
  | inr (ws, step) ↦
      let same : length ws ≡ length words = keeps i words ws step in
      let inside : i < length words = within body stops i words ws step in
      rw step (for_words_overrun body stops keeps left (i + 1) ws (omega arith) (omega arith))
]

store-length : (ws ws' : List ℕ) (i v : ℕ) → store ws i v ≡ some ws' → length ws' ≡ length ws
store-length ws ws' i v h = ground (arith, length-set ws i v)

clear_word-stops : (i : ℕ) (ws : List ℕ) → length ws ≤ i → store ws i 0 ≡ none
clear_word-stops i ws h = ground arith

clear_word-length : (i : ℕ) (ws ws' : List ℕ) → store ws i 0 ≡ some ws' → length ws' ≡ length ws
clear_word-length i ws ws' h = store-length ws ws' i 0 h

module _ (src : List ℕ) where
  add_word-stops : (i : ℕ) (ws : List ℕ) → length ws ≤ i → add_word src i ws ≡ none
  unfolding add_word
  add_word-stops i ws h = elim (Option-cases (get_elem? src i)) [
    | inl e ↦ rw e
    | inr (s, e) ↦ rw (e, get_elem?-none ws i h)
  ]

  add_word-length :
      (i : ℕ) (ws ws' : List ℕ) → add_word src i ws ≡ some ws' → length ws' ≡ length ws
  unfolding add_word
  add_word-length i ws ws' h = elim (Option-cases (get_elem? src i)) [
    | inl e ↦ ground arith
    | inr (s, e) ↦ elim (Option-cases (get_elem? ws i)) [
      | inl e' ↦ ground arith
      | inr (d, e') ↦ ground (arith, length-set ws i (bit_or d s))
    ]
  ]

  sub_word-stops : (i : ℕ) (ws : List ℕ) → length ws ≤ i → sub_word src i ws ≡ none
  unfolding sub_word
  sub_word-stops i ws h = elim (Option-cases (get_elem? src i)) [
    | inl e ↦ rw e
    | inr (s, e) ↦ rw (e, get_elem?-none ws i h)
  ]

  sub_word-length :
      (i : ℕ) (ws ws' : List ℕ) → sub_word src i ws ≡ some ws' → length ws' ≡ length ws
  unfolding sub_word
  sub_word-length i ws ws' h = elim (Option-cases (get_elem? src i)) [
    | inl e ↦ ground arith
    | inr (s, e) ↦ elim (Option-cases (get_elem? ws i)) [
      | inl e' ↦ ground arith
      | inr (d, e') ↦ ground (arith, length-set ws i (bit_and d (2 ^ 64 - 1 - s)))
    ]
  ]

-- Loops over `k` zero words that are to make more than `k` rounds.
abbrev zeros : ℕ → List ℕ
zeros k = replicate k 0

zeros_at : (k i : ℕ) → i < k → get_elem? (zeros k) i ≡ some 0
zeros_at k i h = get_elem?-replicate k i 0 h

zeros-length : (k : ℕ) → length (zeros k) ≡ k
zeros-length k = length-replicate k 0

empty_loop_overrun : (k left i : ℕ) → k < i + left → i ≤ k → empty_loop left i (zeros k) ≡ none
unfolding empty_loop
empty_loop_overrun k zero i lt le = absurd (omega arith)
empty_loop_overrun k (suc left) i lt le = ground (
  arith,
  zeros_at k i,
  get_elem?-none (zeros k) i,
  zeros-length k,
  empty_loop_overrun k left (i + 1),
)

equal_loop_overrun :
    (words : List ℕ) (left i : ℕ)
    → length words < i + left
    → i ≤ length words
    → equal_loop left i words words ≡ none
unfolding equal_loop
equal_loop_overrun words zero i lt le = absurd (omega arith)
equal_loop_overrun words (suc left) i lt le = elim (Option-cases (get_elem? words i)) [
  | inl fault ↦ rw fault
  | inr (word, found) ↦
      let inside : i < length words = lt_of_get_elem? words i found in
      let same : (word == word) ≡ true = ground arith in
      rw (found, same) (equal_loop_overrun words left (i + 1) (omega arith) (omega arith))
]

copy_loop_overrun :
    (src words : List ℕ) (left i : ℕ) (changed : ℤ)
    → length words < i + left
    → i ≤ length words
    → copy_loop src left i words changed ≡ none
unfolding copy_loop
copy_loop_overrun src words zero i changed lt le = absurd (omega arith)
copy_loop_overrun src words (suc left) i changed lt le = elim (Option-cases (get_elem? src i)) [
  | inl fault ↦ rw fault
  | inr (s, from) ↦ elim (Option-cases (get_elem? words i)) [
    | inl fault ↦ rw (from, fault)
    | inr (d, found) ↦
        let inside : i < length words = lt_of_get_elem? words i found in
        elim (Bool-cases (d == s)) [
          | inl same ↦
              rw (from, found, same)
                (copy_loop_overrun src words left (i + 1) changed (omega arith) (omega arith))
          | inr differs ↦ elim (Option-cases (store words i s)) [
            | inl fault ↦ rw (from, found, differs, fault)
            | inr (words', stored) ↦
                let kept : length words' ≡ length words = store-length words words' i s stored in
                rw (from, found, differs, stored)
                  (copy_loop_overrun src words' left (i + 1) (pos 1) (omega arith) (omega arith))
          ]
        ]
  ]
]

-- A bitset of `n` bits over an array of words.
abbrev pub bitset_of : ℕ → List ℕ → Bitset
bitset_of n words = record { size = pos n; bits = some words }

-- The bitset that `_jit_bitset_allocate` makes.
abbrev pub fresh : ℕ → Bitset
fresh n = (allocate true (pos n)).0

fresh-eq : (n : ℕ) → 2 ≤ n → fresh n ≡ bitset_of n (zeros ((n + 63) / 64))
unfolding allocate
fresh-eq n h = ground arith

-- A bitset of two bits or more has an array of `(n + 63) / 64` words. Whatever the words are, clearing it, adding
-- another one to it, subtracting that or copying it reads or writes outside the arrays, and so does
-- comparing it with an equal one. So does the test for emptiness on a bitset just allocated, which is
-- empty.
pub whole_overrun :
    (n : ℕ) (words source : List ℕ)
    → 2 ≤ n
    → length words ≡ (n + 63) / 64
    → (clear (bitset_of n words) ≡ none)
      × (add (bitset_of n words) (bitset_of n source) ≡ none)
      × (sub (bitset_of n words) (bitset_of n source) ≡ none)
      × (copy (bitset_of n words) (bitset_of n source) ≡ none)
      × (equal (bitset_of n words) (bitset_of n words) ≡ none)
      × (empty (fresh n) ≡ none)
unfolding allocate clear empty add sub copy equal
whole_overrun n words source h sized =
    let rounds : (n == 0) ≡ false = ground arith in
    let long : length words < 0 + n = omega arith in
    rw (fresh-eq n h, rounds)
      (
        rw (
            for_words_overrun (λ i ws. store ws i 0) clear_word-stops clear_word-length n 0 words
              long (omega arith)),
        rw (
            for_words_overrun (add_word source) (add_word-stops source) (add_word-length source) n 0
              words long (omega arith)),
        rw (
            for_words_overrun (sub_word source) (sub_word-stops source) (sub_word-length source) n 0
              words long (omega arith)),
        rw (copy_loop_overrun source words n 0 (pos 0) long (omega arith)),
        equal_loop_overrun words n 0 long (omega arith),
        empty_loop_overrun ((n + 63) / 64) n 0 (omega arith) (omega arith),
      )
