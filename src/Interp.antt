-- ===== src/Interp.antt =====
-- jit/jit-interp.c, the interpreter: what its opcodes on integers do, in a child module for each
-- section of the opcodes. `Interp/Code` is jit/jit-rules-interp.c, the code that is generated for an
-- instruction, and what running it does.
pub mod Answers
pub mod Convert
pub mod Arith
pub mod Bitwise
pub mod Compare
pub mod Code
use libjit.Base.{ℕ, if◌then◌else◌}
use libjit.Base.Int.{ℤ, ◌<?◌}
use libjit.Intrinsic.{result_ok}
use libjit.Item.{put_int, put_uint, put_long, put_ulong}

-- What an opcode does: it goes on, with these contents of register 0, or it reports an exception.
pub data Outcome : Type 0 where
  next : ℕ → Outcome
  builtin : ℤ → Outcome

-- `VM_BUILTIN`, for a function that has put its result into register 0.
abbrev pub vm_builtin : ℕ → ℤ → Outcome
vm_builtin r0 value = if value <? result_ok then builtin value else next r0

-- Then the result and the status of a function are given.
abbrev pub checked_int : ℕ → ℤ × ℤ → Outcome
checked_int r0 (value, status) = vm_builtin (put_int r0 value) status

abbrev pub checked_uint : ℕ → ℕ × ℤ → Outcome
checked_uint r0 (value, status) = vm_builtin (put_uint r0 value) status

abbrev pub checked_long : ℕ → ℤ × ℤ → Outcome
checked_long r0 (value, status) = vm_builtin (put_long r0 value) status

abbrev pub checked_ulong : ℕ → ℕ × ℤ → Outcome
checked_ulong r0 (value, status) = vm_builtin (put_ulong r0 value) status
