-- ===== src/TypeTree/Queries.antt =====
-- jit/jit-type.c, the queries on type descriptors: sizes, fields, parameters, kinds, tags, and the
-- normal form of a type.
use libjit.Base.{
  ℕ, zero, suc, ◌+◌, ◌-◌, ◌%◌, ◌^◌, Bool, not, ◌&&◌, ◌||◌, Option, some, leb, ◌==◌, if◌then◌else◌,
}
use libjit.Base.Int.{ℤ, pos, negsuc, ◌==ℤ◌}
use libjit.Base.Maybe.{◌>>=◌}
use libjit.Word.{flag}
use libjit.TypeLayout.{
  Header, kind_struct, kind_union, kind_signature, kind_ptr, kind_first_tagged, visible_offset,
}
use libjit.TypeTree.{
  TypeDesc, Components, null, node, nil, cons, measure, primitive, kind_sbyte, kind_ubyte,
  kind_short, kind_ushort, kind_int, kind_uint, kind_nint, kind_nuint, kind_long, kind_ulong,
  kind_float32, kind_float64, kind_nfloat,
}

-- A signature has the size of a pointer, and is not laid out for it.
unfoldable pub get_size : TypeDesc → Option ℕ
get_size null = some 0
get_size (node type sub components) =
    let of_sub = get_size sub in
    if type.kind == kind_signature
    then some 8
    else if leb kind_first_tagged type.kind
    then of_sub
    else (do (after, size, alignment) ← measure (node type sub components); some size)

unfoldable pub get_alignment : TypeDesc → Option ℕ
get_alignment type = do (after, size, alignment) ← measure type; some alignment

unfoldable pub num_components : Components → ℕ
num_components nil = 0
num_components (cons type offset rest) = suc (num_components rest)

unfoldable pub component_type : Components → ℕ → TypeDesc
component_type nil i = null
component_type (cons type offset rest) zero = type
component_type (cons type offset rest) (suc i) = component_type rest i

unfoldable pub component_offset : Components → ℕ → ℕ
component_offset nil i = 0
component_offset (cons type offset rest) zero = offset
component_offset (cons type offset rest) (suc i) = component_offset rest i

abbrev pub is_composite : ℕ → Bool
is_composite kind = kind == kind_struct || kind == kind_union

unfoldable pub num_fields : TypeDesc → ℕ
num_fields null = 0
num_fields (node type sub components) =
    if not (is_composite type.kind) then 0 else num_components components

unfoldable pub get_field : TypeDesc → ℕ → TypeDesc
get_field null i = null
get_field (node type sub components) i =
    if leb (num_components components) i
    then null
    else if is_composite type.kind
    then component_type components i
    else null

-- The offset that the caller sees.
unfoldable pub offset_in : TypeDesc → ℕ → ℕ
offset_in null i = 0
offset_in (node type sub components) i = visible_offset (component_offset components i)

-- The offset as it is after the layout, if one is needed.
unfoldable pub get_offset : TypeDesc → ℕ → Option ℕ
get_offset null i = some 0
get_offset (node type sub components) i =
    if leb (num_components components) i || not (is_composite type.kind) then some 0 else (do
      (after, size, alignment) ← measure (node type sub components)
      some (offset_in after i))

unfoldable pub num_params : TypeDesc → ℕ
num_params null = 0
num_params (node type sub components) =
    if type.kind == kind_signature then num_components components else 0

unfoldable pub get_return : TypeDesc → TypeDesc
get_return null = null
get_return (node type sub components) = if type.kind == kind_signature then sub else null

unfoldable pub get_param : TypeDesc → ℕ → TypeDesc
get_param null i = null
get_param (node type sub components) i =
    if leb (num_components components) i
    then null
    else if type.kind == kind_signature
    then component_type components i
    else null

unfoldable pub get_ref : TypeDesc → TypeDesc
get_ref null = null
get_ref (node type sub components) = if type.kind == kind_ptr then sub else null

unfoldable pub get_tagged_type : TypeDesc → TypeDesc
get_tagged_type null = null
get_tagged_type (node type sub components) = if leb kind_first_tagged type.kind then sub else null

unfoldable pub get_tagged_kind : TypeDesc → ℤ
get_tagged_kind null = negsuc 0
get_tagged_kind (node type sub components) =
    if leb kind_first_tagged type.kind then pos (type.kind - kind_first_tagged) else negsuc 0

unfoldable pub get_kind : TypeDesc → ℤ
get_kind null = negsuc 0
get_kind (node type sub components) = pos type.kind

unfoldable pub is_primitive : TypeDesc → ℤ
is_primitive null = pos 0
is_primitive (node type sub components) = flag (leb type.kind kind_nfloat)

unfoldable pub is_struct : TypeDesc → ℤ
is_struct null = pos 0
is_struct (node type sub components) = flag (type.kind == kind_struct)

unfoldable pub is_union : TypeDesc → ℤ
is_union null = pos 0
is_union (node type sub components) = flag (type.kind == kind_union)

unfoldable pub is_signature : TypeDesc → ℤ
is_signature null = pos 0
is_signature (node type sub components) = flag (type.kind == kind_signature)

unfoldable pub is_pointer : TypeDesc → ℤ
is_pointer null = pos 0
is_pointer (node type sub components) = flag (type.kind == kind_ptr)

unfoldable pub is_tagged : TypeDesc → ℤ
is_tagged null = pos 0
is_tagged (node type sub components) = flag (leb kind_first_tagged type.kind)

unfoldable pub remove_tags : TypeDesc → TypeDesc
remove_tags null = null
remove_tags (node type sub components) =
    let inner = remove_tags sub in
    if leb kind_first_tagged type.kind then inner else node type sub components

-- The comparison with the address of a pre-defined descriptor.
abbrev pub is_predefined : Header → ℕ → Bool
is_predefined type kind = type.is_fixed && type.kind == kind

-- `nfloat_size` is `sizeof(jit_nfloat)`; native integers have 64 bits.
unfoldable pub normal_form : ℕ → TypeDesc → TypeDesc
normal_form nfloat_size null = null
normal_form nfloat_size (node type sub components) =
    if is_predefined type kind_nint || type.kind == kind_ptr || type.kind == kind_signature
    then primitive kind_long 8
    else if is_predefined type kind_nuint
    then primitive kind_ulong 8
    else if is_predefined type kind_nfloat
    then (if nfloat_size == 8
        then primitive kind_float64 8
        else if nfloat_size == 4
        then primitive kind_float32 4
        else node type sub components)
    else node type sub components

unfoldable pub normalize : ℕ → TypeDesc → TypeDesc
normalize nfloat_size type = normal_form nfloat_size (remove_tags type)

unfoldable pub promote_int : TypeDesc → TypeDesc
promote_int null = null
promote_int (node type sub components) =
    if is_predefined type kind_sbyte || is_predefined type kind_short
    then primitive kind_int 4
    else if is_predefined type kind_ubyte || is_predefined type kind_ushort
    then primitive kind_uint 4
    else node type sub components

-- `return_in_reg size` is the bit of `_jit_apply_return_in_reg` for a size from 1 to 64.
unfoldable pub return_via_pointer : (return_in_reg : ℕ → Bool) → ℕ → TypeDesc → Option ℤ
return_via_pointer return_in_reg nfloat_size type =
    let normal = normalize nfloat_size type in
    if is_struct normal ==ℤ pos 0 && is_union normal ==ℤ pos 0 then some (pos 0) else (do
      size ← get_size normal
      some (
          flag (
            not
              (leb 1 (size % 2 ^ 32) && leb (size % 2 ^ 32) 64 && return_in_reg (size % 2 ^ 32)))))

unfoldable pub has_tag : TypeDesc → ℕ → ℤ
has_tag null kind = pos 0
has_tag (node type sub components) kind =
    let rest = has_tag sub kind in
    if leb kind_first_tagged type.kind
    then (if type.kind == kind_first_tagged + kind then pos 1 else rest)
    else pos 0
