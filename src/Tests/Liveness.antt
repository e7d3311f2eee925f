-- ===== src/Tests/Liveness.antt =====
-- The theorem on liveness, at a concrete block.
use libjit.Base.{
  Bool, if◌then◌else◌, ℕ, ◌+◌, ◌≡◌, refl, false, Option, none, some, List, [], ◌∷◌, ◌==◌,
}
use libjit.Live.{Values, Marks, Insn, op_nop, visit, compute_liveness}
use libjit.Live.Elimination.{Event}

-- Only value 3 is live at the end.
abbrev at_end : Values
at_end = λ x. record { is_constant = x == 9; live = x == 3; next_use = false }

abbrev no_marks : Marks
no_marks = record {
  dest_live = false;
  dest_next_use = false;
  value1_live = false;
  value1_next_use = false;
  value2_live = false;
  value2_next_use = false;
}

abbrev binary : ℕ → ℕ → ℕ → ℕ → Insn
binary opcode dest value1 value2 = record {
  opcode = opcode;
  dest_other = false;
  value1_other = false;
  value2_other = false;
  dest_is_value = false;
  marks = no_marks;
  dest = some dest;
  value1 = some value1;
  value2 = some value2;
}

-- The second instruction computes a value that nothing uses.
abbrev block : List Insn
block = binary 5 2 1 9 ∷ binary 6 4 1 2 ∷ binary 7 3 2 1 ∷ []

abbrev sum : List (Event ℕ) → ℕ → Option ℕ → Option ℕ → Option ℕ
sum past opcode none b = some opcode
sum past opcode (some a) none = some (opcode + a)
sum past opcode (some a) (some b) = some (opcode + a + b)

abbrev contents : ℕ → ℕ
contents = λ x. x + 10

abbrev never : List (Event ℕ) → Bool
never past = false

-- The values 2, 4 and 3 are computed.
abbrev at_the_end : (ℕ → ℕ) × List (Event ℕ)
at_the_end =
    (λ x. if x == 3 then 53 else if x == 4 then 52 else if x == 2 then 35 else contents x, [])

opcodes : List Insn → List ℕ
opcodes [] = []
opcodes (i ∷ insns) = i.opcode ∷ opcodes insns

opcodes_run : opcodes (compute_liveness at_end block).1 ≡ 5 ∷ (op_nop ∷ (7 ∷ []))
unfolding compute_liveness visit opcodes
opcodes_run = refl
