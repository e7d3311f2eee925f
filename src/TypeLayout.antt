-- ===== src/TypeLayout.antt =====
-- jit/jit-type.c, the layout of structures and unions: `perform_layout` over the sizes and
-- alignments of the fields. The numbers are those of a machine with 64-bit pointers.
-- `none` is a division by zero. The types that the fields have are in `TypeTree`.
pub mod Place
pub mod Structs
pub mod Stable
pub mod Explicit
use Prim.Native.Nat.{bit_and, bit_or}
use libjit.Base.{
  ℕ, ◌+◌, ◌-◌, ◌%◌, ◌^◌, Bool, true, false, not, ◌&&◌, ◌||◌, Option, none, some, List, [], ◌∷◌, ltb,
  ◌==◌, if◌then◌else◌,
}
use libjit.Base.Int.{ℤ, negsuc, ◌==ℤ◌}
use libjit.Base.Maybe.{◌>>=◌}
use libjit.Word.{residue, ulong_modulus}

-- The flags of `layout_flags`.
abbrev pub layout_needed : ℕ
layout_needed = 1

abbrev pub layout_explicit_size : ℕ
layout_explicit_size = 2

abbrev pub layout_explicit_align : ℕ
layout_explicit_align = 4

abbrev pub offset_is_internal : ℕ
offset_is_internal = 2 ^ 63

abbrev pub offset_not_set : ℕ
offset_not_set = 2 ^ 64 - 1

abbrev pub kind_struct : ℕ
kind_struct = 14

abbrev pub kind_union : ℕ
kind_union = 15

abbrev pub kind_signature : ℕ
kind_signature = 16

abbrev pub kind_ptr : ℕ
kind_ptr = 17

abbrev pub kind_first_tagged : ℕ
kind_first_tagged = 32

-- The fields of `struct _jit_type` that the layout reads and writes.
pub record Header : Type 0 where
  pub kind : ℕ
  pub is_fixed : Bool
  pub layout_flags : ℕ
  pub size : ℕ
  pub alignment : ℕ

-- A component, by the size and the alignment of its type.
pub record Field : Type 0 where
  pub size : ℕ
  pub alignment : ℕ
  pub offset : ℕ

-- The variables `size`, `maxSize` and `maxAlign`.
pub record Totals : Type 0 where
  pub size : ℕ
  pub max_size : ℕ
  pub max_align : ℕ

-- `if((size % align) != 0) size += align - (size % align);`
unfoldable pub align_up : ℕ → ℕ → Option ℕ
align_up size align =
    if align == 0
    then none
    else if size % align == 0
    then some size
    else some ((size + (align - size % align)) % ulong_modulus)

-- The end of the loop's body: the greatest size and alignment so far.
unfoldable pub grow : Totals → ℕ → ℕ → ℕ → Totals
grow totals size extent align = record {
  size = size;
  max_size = if ltb totals.max_size extent then extent else totals.max_size;
  max_align = if ltb totals.max_align align then align else totals.max_align;
}

unfoldable pub clamp : ℕ → ℕ → ℕ
clamp limit align = if not (limit == 0) && ltb limit align then limit else align

-- The body of the loop over the fields, for a structure or a union: the totals and the field's
-- offset afterwards.
unfoldable pub place : Bool → ℕ → Totals → Field → Option (Totals × ℕ)
place is_struct align_limit totals field =
    let align = clamp align_limit field.alignment in
    if is_struct
    then (if not (bit_and field.offset offset_is_internal == 0)
        then (do
          start ← align_up totals.size align
          let size = (start + field.size) % ulong_modulus
          some (grow totals size size align, bit_or offset_is_internal start))
        else let size = (field.offset + field.size) % ulong_modulus in
          some (grow totals size size align, field.offset))
    else (do
      extent ← align_up field.size align
      some (grow totals totals.size extent align, bit_or offset_is_internal 0))

unfoldable pub place_all : Bool → ℕ → Totals → List Field → Option (Totals × List ℕ)
place_all is_struct align_limit totals [] = some (totals, [])
place_all is_struct align_limit totals (field ∷ fields) = do
  (totals', offset) ← place is_struct align_limit totals field
  (last, offsets) ← place_all is_struct align_limit totals' fields
  some (last, offset ∷ offsets)

abbrev pub start_totals : Totals
start_totals = record { size = 0; max_size = 0; max_align = 1 }

-- `JIT_ALIGN_OVERRIDES` is defined by every back end.
unfoldable pub align_limit : Header → ℕ
align_limit type =
    if not (bit_and type.layout_flags layout_explicit_align == 0) then type.alignment else 0

-- The size and the alignment that are recorded at the end.
unfoldable pub record_totals : Header → ℕ → ℕ → Header
record_totals type max_size max_align = record type {
  size =
      if not (bit_and type.layout_flags layout_explicit_size == 0)
      then (if ltb type.size max_size then max_size else type.size)
      else max_size;
  alignment = if ltb type.alignment max_align then max_align else type.alignment;
}

-- The new header and the fields' new offsets.
unfoldable pub perform_layout : Header → List Field → Option (Header × List ℕ)
perform_layout type fields = do
  (totals, offsets) ← place_all (type.kind == kind_struct) (align_limit type) start_totals fields
  max_size ← align_up totals.max_size totals.max_align
  some (record_totals type max_size totals.max_align, offsets)

unfoldable pub set_both : Header → ℤ → ℤ → Header
set_both type size alignment = record type {
  size = residue ulong_modulus size;
  alignment = residue ulong_modulus alignment;
  layout_flags =
      let sized =
        if size ==ℤ negsuc 0
        then type.layout_flags
        else bit_or type.layout_flags layout_explicit_size in
      let both = if alignment ==ℤ negsuc 0 then sized else bit_or sized layout_explicit_align in
      bit_or both layout_needed;
}

-- `jit_type_set_size_and_alignment`, for a type that is not null.
unfoldable pub set_size_and_alignment : Header → ℤ → ℤ → Header
unfolding set_both
set_size_and_alignment type size alignment =
    if type.kind == kind_struct || type.kind == kind_union
    then set_both type size alignment
    else type

-- `jit_type_get_offset` masks the internal bit off.
unfoldable pub visible_offset : ℕ → ℕ
visible_offset offset = bit_and offset (2 ^ 63 - 1)
