-- ===== src/Interp/Answers.antt =====
-- What a piece of code comes to: a value, or an exception.
use libjit.Base.{ℕ, ◌%◌, Option, none, some}
use libjit.Base.Int.{ℤ}
use libjit.Word.{residue, uint_modulus, ulong_modulus}
use libjit.Intrinsic.{result_overflow}
use libjit.Item.{Kind, long, ulong, cast}
use libjit.Interp.{Outcome, next, builtin}

pub data Answer : Type 0 where
  answer : ℤ → Answer
  raises : ℤ → Answer

-- Where nothing is given, overflow is reported.
abbrev pub answered : Option ℤ → Answer
answered none = raises result_overflow
answered (some y) = answer y

-- To go on with the value.
abbrev pub and_then : Answer → (ℤ → Answer) → Answer
and_then (raises e) f = raises e
and_then (answer y) f = f y

-- The value as one of the type.
abbrev pub cast_answer : Kind → Answer → Answer
cast_answer kind (raises e) = raises e
cast_answer kind (answer y) = answer (cast kind y)

-- The bytes that a value of the type has in a register.
abbrev pub width : Kind → ℕ
width long = ulong_modulus
width ulong = ulong_modulus
width kind = uint_modulus

-- The bytes of the result that count.
abbrev pub low_bytes : ℕ → Outcome → Outcome
low_bytes w (builtin exception) = builtin exception
low_bytes w (next r0) = next (r0 % w)

abbrev pub outcome_of : ℕ → Answer → Outcome
outcome_of w (raises e) = builtin e
outcome_of w (answer y) = next (residue w y)
