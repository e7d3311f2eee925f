-- ===== src/Insn/Convert/Rows.antt =====
-- The tables of `jit_insn_convert` hold what each conversion needs.
use libjit.Base.{◌≡◌, arith, Bool, true, false}
use libjit.Base.Int.{ℤ, pos, negsuc}
use libjit.Word.{residue, signed, wrap}
use libjit.Item.{Kind, sbyte, ubyte, short, ushort, int, uint, long, ulong, cast, holds, converted}
use libjit.Item.Laws.{every_kind, both}
use libjit.Interp.Code.Places.{holds-promote_int}
use libjit.Insn.{convert_info}
use libjit.Insn.Tables.{table_of}
use libjit.Insn.Convert.Chains.{chain_value}

abbrev Gives : Kind → ℤ → Bool → Kind → Type 0
Gives from x check to = chain_value (convert_info to from check) x ≡ converted to check x

abbrev Both : Kind → ℤ → Kind → Type 0
Both from x to = Gives from x true to × Gives from x false to

abbrev ToAll : Kind → Type 0
ToAll from =
    (x : ℤ)
    → holds from x ≡ true
    → Both from x sbyte
      × Both from x ubyte
      × Both from x short
      × Both from x ushort
      × Both from x int
      × Both from x uint
      × Both from x long
      × Both from x ulong

from_int : ToAll int
unfolding table_of cast holds wrap residue signed
from_int (pos n) range = (
  (ground arith, ground arith),
  (ground arith, ground arith),
  (ground arith, ground arith),
  (ground arith, ground arith),
  (ground arith, ground arith),
  (ground arith, ground arith),
  (ground arith, ground arith),
  (ground arith, ground arith),
)
from_int (negsuc n) range = (
  (ground arith, ground arith),
  (ground arith, ground arith),
  (ground arith, ground arith),
  (ground arith, ground arith),
  (ground arith, ground arith),
  (ground arith, ground arith),
  (ground arith, ground arith),
  (ground arith, ground arith),
)

from_uint : ToAll uint
unfolding table_of cast holds wrap residue signed
from_uint (pos n) range = (
  (ground arith, ground arith),
  (ground arith, ground arith),
  (ground arith, ground arith),
  (ground arith, ground arith),
  (ground arith, ground arith),
  (ground arith, ground arith),
  (ground arith, ground arith),
  (ground arith, ground arith),
)
from_uint (negsuc n) range = (
  (ground arith, ground arith),
  (ground arith, ground arith),
  (ground arith, ground arith),
  (ground arith, ground arith),
  (ground arith, ground arith),
  (ground arith, ground arith),
  (ground arith, ground arith),
  (ground arith, ground arith),
)

from_long : ToAll long
unfolding table_of cast holds wrap residue signed
from_long (pos n) range = (
  (ground arith, ground arith),
  (ground arith, ground arith),
  (ground arith, ground arith),
  (ground arith, ground arith),
  (ground arith, ground arith),
  (ground arith, ground arith),
  (ground arith, ground arith),
  (ground arith, ground arith),
)
from_long (negsuc n) range = (
  (ground arith, ground arith),
  (ground arith, ground arith),
  (ground arith, ground arith),
  (ground arith, ground arith),
  (ground arith, ground arith),
  (ground arith, ground arith),
  (ground arith, ground arith),
  (ground arith, ground arith),
)

from_ulong : ToAll ulong
unfolding table_of cast holds wrap residue signed
from_ulong (pos n) range = (
  (ground arith, ground arith),
  (ground arith, ground arith),
  (ground arith, ground arith),
  (ground arith, ground arith),
  (ground arith, ground arith),
  (ground arith, ground arith),
  (ground arith, ground arith),
  (ground arith, ground arith),
)
from_ulong (negsuc n) range = (
  (ground arith, ground arith),
  (ground arith, ground arith),
  (ground arith, ground arith),
  (ground arith, ground arith),
  (ground arith, ground arith),
  (ground arith, ground arith),
  (ground arith, ground arith),
  (ground arith, ground arith),
)

from_all : (from : Kind) (x : ℤ) → holds from x ≡ true → (to : Kind) → Both from x to
from_all sbyte x range = every_kind (Both sbyte x) (from_int x (holds-promote_int sbyte x range))
from_all ubyte x range = every_kind (Both ubyte x) (from_uint x (holds-promote_int ubyte x range))
from_all short x range = every_kind (Both short x) (from_int x (holds-promote_int short x range))
from_all ushort x range =
    every_kind (Both ushort x) (from_uint x (holds-promote_int ushort x range))
from_all int x range = every_kind (Both int x) (from_int x range)
from_all uint x range = every_kind (Both uint x) (from_uint x range)
from_all long x range = every_kind (Both long x) (from_long x range)
from_all ulong x range = every_kind (Both ulong x) (from_ulong x range)

-- A row of the tables gives what the conversion should give.
pub convert_info-converted :
    (to from : Kind) (check : Bool) (x : ℤ) → holds from x ≡ true → Gives from x check to
convert_info-converted to from check x range =
    both (λ b. Gives from x b to) (from_all from x range to) check
