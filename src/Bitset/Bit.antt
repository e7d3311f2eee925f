-- ===== src/Bitset/Bit.antt =====
-- Single bits: what setting and clearing a bit number does to later tests.
use Prim.Native.Nat.{bit_and, bit_or}
use libjit.Base.{
  ℕ, ◌-◌, ◌/◌, ◌%◌, ◌^◌, ◌≡◌, ◌≢◌, refl, not, Option, some, List, ◌==◌, get_elem?, set, arith,
  get_elem?-set_self, get_elem?-set_ne, lt_of_get_elem?, set_same, ◌∙◌, sym,
}
use libjit.Base.Int.{ℤ, pos}
use libjit.Base.Bits.{and-zero, or-zero, and-or_absorb, and-and_complement}
use libjit.Word.{flag}
use libjit.Bitset.{Bitset, set_bit, clear_bit, test_bit, word_bits}

-- The bitset's array, whose word for `bit` is `word`.
pub record Holds (bs : Bitset) (bit word : ℕ) (words : List ℕ) : Type 0 where
  pub allocated : bs.bits ≡ some words
  pub holds : get_elem? words (bit / word_bits) ≡ some word

set_bit_lem :
    (bs : Bitset) (bit word : ℕ) (words : List ℕ)
    → Holds bs bit word words
    → set_bit bs bit
      ≡ some (record bs { bits = some (set words (bit / 64) (bit_or word (bit % 64))) })
unfolding set_bit
set_bit_lem bs bit word words h = ground (arith, lt_of_get_elem? words (bit / 64) h.holds)

clear_bit_lem :
    (bs : Bitset) (bit word : ℕ) (words : List ℕ)
    → Holds bs bit word words
    → clear_bit bs bit
      ≡ some
          (record bs { bits = some (set words (bit / 64) (bit_and word (2 ^ 64 - 1 - bit % 64))) })
unfolding clear_bit
clear_bit_lem bs bit word words h = ground (arith, lt_of_get_elem? words (bit / 64) h.holds)

test_bit_lem :
    (bs : Bitset) (bit word : ℕ) (words : List ℕ)
    → Holds bs bit word words
    → test_bit bs bit ≡ some (flag (not (bit_and word (bit % 64) == 0)))
unfolding test_bit
test_bit_lem bs bit word words h = ground arith

Holds-set :
    (bs : Bitset) (bit word new : ℕ) (words : List ℕ)
    → Holds bs bit word words
    → Holds
        (record bs { bits = some (set words (bit / 64) new) })
        bit
        new
        (set words (bit / 64) new)
Holds-set bs bit word new words h = record {
  allocated = refl;
  holds = get_elem?-set_self words (bit / 64) new (lt_of_get_elem? words (bit / 64) h.holds);
}

-- The state that a bit operation leaves, and the answers of `test_bit` there: `answer` at the bit
-- itself, and what it was before at each bit of another word.
pub record Leaves (bs : Bitset) (bit : ℕ) (answer : ℤ) (result : Option Bitset) : Type 0 where
  pub after : Bitset
  pub succeeds : result ≡ some after
  pub here : test_bit after bit ≡ some answer
  pub elsewhere : (j : ℕ) → j / 64 ≢ bit / 64 → test_bit after j ≡ test_bit bs j

elsewhere-set :
    (bs : Bitset) (bit word new j : ℕ) (words : List ℕ)
    → Holds bs bit word words
    → j / 64 ≢ bit / 64
    → test_bit (record bs { bits = some (set words (bit / 64) new) }) j ≡ test_bit bs j
unfolding test_bit
elsewhere-set bs bit word new j words h ne =
    rw (h.allocated, get_elem?-set_ne words {i = bit / 64} {j = j / 64} new (λ e. ne (sym e)))

-- Where the array has a word for `bit` and `bit` is no multiple of 64, `_jit_bitset_set_bit` succeeds,
-- `_jit_bitset_test_bit` then answers 1 for that bit, and as before for all bits of other words.
pub set_bit-Leaves :
    (bs : Bitset) (bit word : ℕ) (words : List ℕ)
    → Holds bs bit word words
    → bit % 64 ≢ 0
    → Leaves bs bit (pos 1) (set_bit bs bit)
set_bit-Leaves bs bit word words h ne =
    let new = bit_or word (bit % 64) in
    record {
      after = record bs { bits = some (set words (bit / 64) new) };
      succeeds = set_bit_lem bs bit word words h;
      here =
          test_bit_lem _ bit new (set words (bit / 64) new) (Holds-set bs bit word new words h)
          ∙ ground (arith, and-or_absorb 6 word (bit % 64) (omega arith));
      elsewhere = λ j other. elsewhere-set bs bit word new j words h other;
    }

-- Where the array has a word for `bit`, `_jit_bitset_clear_bit` succeeds, `_jit_bitset_test_bit` then
-- answers 0 for that bit, and as before for all bits of other words.
pub clear_bit-Leaves :
    (bs : Bitset) (bit word : ℕ) (words : List ℕ)
    → Holds bs bit word words
    → Leaves bs bit (pos 0) (clear_bit bs bit)
clear_bit-Leaves bs bit word words h =
    let new = bit_and word (2 ^ 64 - 1 - bit % 64) in
    record {
      after = record bs { bits = some (set words (bit / 64) new) };
      succeeds = clear_bit_lem bs bit word words h;
      here =
          test_bit_lem _ bit new (set words (bit / 64) new) (Holds-set bs bit word new words h)
          ∙ ground (arith, and-and_complement 64 word (bit % 64) (omega arith));
      elsewhere = λ j other. elsewhere-set bs bit word new j words h other;
    }

-- A bit whose number is a multiple of 64 cannot be put into a bitset: `_jit_bitset_set_bit`
-- succeeds and changes nothing, and `_jit_bitset_test_bit` answers 0 for it.
pub lowest_bit_lost :
    (bs : Bitset) (bit word : ℕ) (words : List ℕ)
    → Holds bs bit word words
    → bit % 64 ≡ 0
    → (set_bit bs bit ≡ some bs) × (test_bit bs bit ≡ some (pos 0))
lowest_bit_lost bs bit word words h low = (
  set_bit_lem bs bit word words h ∙ ground (arith, or-zero word, set_same words (bit / 64) h.holds),
  test_bit_lem bs bit word words h ∙ ground (arith, and-zero word),
)
