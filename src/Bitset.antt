-- ===== src/Bitset.antt =====
-- jit/jit-bitset.c and jit/jit-bitset.h, on a machine whose `unsigned long` has 64 bits.
-- `none` is a read or write outside the array of words, or through a null `bits`.
pub mod Bit
pub mod Overrun
use Prim.Native.Nat.{bit_and, bit_or}
use libjit.Base.{
  ℕ, zero, suc, ◌+◌, ◌-◌, ◌/◌, ◌%◌, ◌^◌, Bool, true, false, not, Option, none, some, List, ltb,
  ◌==◌, if◌then◌else◌, length, get_elem?, set, replicate,
}
use libjit.Base.Int.{ℤ, pos, pos_part, ◌<?◌}
use libjit.Base.Maybe.{◌>>=◌}
use libjit.Word.{flag}

abbrev pub word_bits : ℕ
word_bits = 64

pub record Bitset : Type 0 where
  pub size : ℤ
  pub bits : Option (List ℕ)

-- A store to `words[i]`.
abbrev pub store : List ℕ → ℕ → ℕ → Option (List ℕ)
store words i value = if ltb i (length words) then some (set words i value) else none

unfoldable pub init : Bitset → Bitset
init bs = record { size = pos 0; bits = none }

-- `calloc` says whether `jit_calloc` finds the memory. The results are the bitset, the function's
-- own result, and whether `bs` itself was handed to `jit_free`.
unfoldable pub allocate : Bool → ℤ → Bitset × ℤ × Bool
allocate calloc size =
    if pos 0 <? size
    then (if calloc
        then (
          record {
            size = size;
            bits = some (replicate ((pos_part size + word_bits - 1) / word_bits) 0);
          },
          pos 1,
          false,
        )
        else (record { size = size; bits = none }, pos 0, true))
    else (record { size = size; bits = none }, pos 1, false)

unfoldable pub is_allocated : Bitset → ℤ
is_allocated bs = elim bs.bits [ none ↦ pos 0 | some _ ↦ pos 1 ]

unfoldable pub free : Bitset → Bitset
free bs = elim bs.bits [ none ↦ bs | some _ ↦ record { size = pos 0; bits = none } ]

-- Bit numbers are not negative.
unfoldable pub set_bit : Bitset → ℕ → Option Bitset
set_bit bs bit = do
  words ← bs.bits
  word ← get_elem? words (bit / word_bits)
  words' ← store words (bit / word_bits) (bit_or word (bit % word_bits))
  some (record bs { bits = some words' })

unfoldable pub clear_bit : Bitset → ℕ → Option Bitset
clear_bit bs bit = do
  words ← bs.bits
  word ← get_elem? words (bit / word_bits)
  words' ← store words (bit / word_bits) (bit_and word (2 ^ 64 - 1 - bit % word_bits))
  some (record bs { bits = some words' })

unfoldable pub test_bit : Bitset → ℕ → Option ℤ
test_bit bs bit = do
  words ← bs.bits
  word ← get_elem? words (bit / word_bits)
  some (flag (not (bit_and word (bit % word_bits) == 0)))

-- `for(i = 0; i < size; i++)` over a body that rewrites one word; the first number is the rounds
-- left, the second is `i`.
unfoldable pub for_words : (ℕ → List ℕ → Option (List ℕ)) → ℕ → ℕ → List ℕ → Option (List ℕ)
for_words body zero i words = some words
for_words body (suc left) i words = body i words >>= λ words'. for_words body left (i + 1) words'

unfoldable pub clear : Bitset → Option Bitset
clear bs =
    let rounds = pos_part bs.size in
    if rounds == 0 then some bs else do
      words ← bs.bits
      words' ← for_words (λ i ws. store ws i 0) rounds 0 words
      some (record bs { bits = some words' })

unfoldable pub empty_loop : ℕ → ℕ → List ℕ → Option ℤ
empty_loop zero i words = some (pos 1)
empty_loop (suc left) i words =
    let rest = empty_loop left (i + 1) words in
    do word ← get_elem? words i; if word == 0 then rest else some (pos 0)

unfoldable pub empty : Bitset → Option ℤ
empty bs =
    let rounds = pos_part bs.size in
    if rounds == 0 then some (pos 1) else do words ← bs.bits; empty_loop rounds 0 words

-- One round of `add` and of `sub`: the source's words stand first.
unfoldable pub add_word : List ℕ → ℕ → List ℕ → Option (List ℕ)
add_word src i words = do s ← get_elem? src i; d ← get_elem? words i; store words i (bit_or d s)

unfoldable pub sub_word : List ℕ → ℕ → List ℕ → Option (List ℕ)
sub_word src i words = do
  s ← get_elem? src i
  d ← get_elem? words i
  store words i (bit_and d (2 ^ 64 - 1 - s))

unfoldable pub add : Bitset → Bitset → Option Bitset
add dest src =
    let rounds = pos_part dest.size in
    if rounds == 0 then some dest else do
      words ← dest.bits
      source ← src.bits
      words' ← for_words (add_word source) rounds 0 words
      some (record dest { bits = some words' })

unfoldable pub sub : Bitset → Bitset → Option Bitset
sub dest src =
    let rounds = pos_part dest.size in
    if rounds == 0 then some dest else do
      words ← dest.bits
      source ← src.bits
      words' ← for_words (sub_word source) rounds 0 words
      some (record dest { bits = some words' })

unfoldable pub copy_loop : List ℕ → ℕ → ℕ → List ℕ → ℤ → Option (List ℕ × ℤ)
copy_loop src zero i words changed = some (words, changed)
copy_loop src (suc left) i words changed = do
  s ← get_elem? src i
  d ← get_elem? words i
  words' ← if d == s then some words else store words i s
  copy_loop src left (i + 1) words' (if d == s then changed else pos 1)

unfoldable pub copy : Bitset → Bitset → Option (Bitset × ℤ)
copy dest src =
    let rounds = pos_part dest.size in
    if rounds == 0 then some (dest, pos 0) else do
      words ← dest.bits
      source ← src.bits
      (words', changed) ← copy_loop source rounds 0 words (pos 0)
      some (record dest { bits = some words' }, changed)

unfoldable pub equal_loop : ℕ → ℕ → List ℕ → List ℕ → Option ℤ
equal_loop zero i words1 words2 = some (pos 1)
equal_loop (suc left) i words1 words2 =
    let rest = equal_loop left (i + 1) words1 words2 in
    do a ← get_elem? words1 i; b ← get_elem? words2 i; if a == b then rest else some (pos 0)

unfoldable pub equal : Bitset → Bitset → Option ℤ
equal bs1 bs2 =
    let rounds = pos_part bs1.size in
    if rounds == 0
    then some (pos 1)
    else do words1 ← bs1.bits; words2 ← bs2.bits; equal_loop rounds 0 words1 words2
