-- ===== src/TypeTree.antt =====
-- jit/jit-type.c, type descriptors and the queries on them. A descriptor is a tree: its header, the
-- type that it points to, returns or tags (`sub_type`), and its components. Reference counts and
-- field names are left out. `none` is a division by zero in the layout.
-- The pre-defined descriptors of the primitive types are the only fixed ones, so the source's
-- comparison with their addresses is a test of `is_fixed` and `kind`.
pub mod Queries
pub mod Measure
pub mod Normalize
use libjit.Base.{
  ℕ, zero, suc, ◌+◌, ◌-◌, ◌%◌, ◌^◌, Bool, true, false, not, ◌&&◌, ◌||◌, Option, none, some, List,
  [], ◌∷◌, leb, ◌==◌, if◌then◌else◌,
}
use Prim.Native.Nat.{bit_and}
use libjit.Base.Int.{ℤ, pos, negsuc, ◌==ℤ◌}
use libjit.Base.Maybe.{◌>>=◌}
use libjit.Word.{flag}
use libjit.TypeLayout.{
  Header, Field, perform_layout, kind_struct, kind_union, kind_signature, kind_ptr,
  kind_first_tagged, layout_needed, visible_offset,
}

abbrev pub kind_sbyte : ℕ
kind_sbyte = 1

abbrev pub kind_ubyte : ℕ
kind_ubyte = 2

abbrev pub kind_short : ℕ
kind_short = 3

abbrev pub kind_ushort : ℕ
kind_ushort = 4

abbrev pub kind_int : ℕ
kind_int = 5

abbrev pub kind_uint : ℕ
kind_uint = 6

abbrev pub kind_nint : ℕ
kind_nint = 7

abbrev pub kind_nuint : ℕ
kind_nuint = 8

abbrev pub kind_long : ℕ
kind_long = 9

abbrev pub kind_ulong : ℕ
kind_ulong = 10

abbrev pub kind_float32 : ℕ
kind_float32 = 11

abbrev pub kind_float64 : ℕ
kind_float64 = 12

abbrev pub kind_nfloat : ℕ
kind_nfloat = 13

-- `null` is the null pointer.
mutual
  pub data TypeDesc : Type 0 where
    null : TypeDesc
    node : Header → TypeDesc → Components → TypeDesc

  pub data Components : Type 0 where
    nil : Components
    cons : TypeDesc → (offset : ℕ) → Components → Components

-- The pre-defined descriptor of a primitive type, which is aligned to its size.
abbrev pub primitive : ℕ → ℕ → TypeDesc
primitive kind size =
    node (record { kind = kind; is_fixed = true; layout_flags = 0; size = size; alignment = size })
      null nil

-- Writes the components' offsets.
unfoldable pub store_offsets : Components → List ℕ → Components
store_offsets nil offsets = nil
store_offsets (cons type offset rest) [] = cons type offset rest
store_offsets (cons type offset rest) (o ∷ offsets) = cons type o (store_offsets rest offsets)

-- `jit_type_get_size`, then `jit_type_get_alignment`: the type afterwards, its size and its
-- alignment. Both lay the type out if that is needed, and one layout stands for the two. In
-- `measure_fields` the types of the components are measured in turn.
unfoldable mutual
  pub measure : TypeDesc → Option (TypeDesc × ℕ × ℕ)
  measure null = some (null, 0, 0)
  measure (node type sub_type components) =
      let tagged = measure sub_type in
      let fields = measure_fields components in
      if leb kind_first_tagged type.kind
      then (do (sub', size, alignment) ← tagged; some (node type sub' components, size, alignment))
      else if not (bit_and type.layout_flags layout_needed == 0)
      then (do
        (components', sizes) ← fields
        (type', offsets) ← perform_layout type sizes
        some (
          node type' sub_type (store_offsets components' offsets),
          if type.kind == kind_signature then 8 else type'.size,
          type'.alignment,
        ))
      else some (
        node type sub_type components,
        if type.kind == kind_signature then 8 else type.size,
        type.alignment,
      )

  pub measure_fields : Components → Option (Components × List Field)
  measure_fields nil = some (nil, [])
  measure_fields (cons type offset rest) = do
    (type', size, alignment) ← measure type
    (rest', sizes) ← measure_fields rest
    some (
      cons type' offset rest',
      record { size = size; alignment = alignment; offset = offset } ∷ sizes,
    )
