-- ===== src/Tests/Types.antt =====
-- The theorems on type layout and type descriptors, at concrete values.
use libjit.Base.{ℕ, ◌≡◌, ◌≤◌, ◌-◌, ◌+◌, ◌^◌, refl, arith, false, some, List, [], ◌∷◌, inl}
use libjit.Base.Int.{pos, negsuc}
use libjit.TypeLayout.{
  Header, Field, perform_layout, place_all, place, align_up, clamp, align_limit, grow,
  record_totals, set_both, set_size_and_alignment, kind_struct, layout_needed, offset_not_set,
  offset_is_internal, kind_first_tagged,
}
use libjit.Word.{residue}
use libjit.TypeLayout.Structs.{StructLayout, struct_layout}
use libjit.TypeLayout.Stable.{with_offsets, perform_layout_again}
use libjit.TypeLayout.Explicit.{alignment_not_computed}
use libjit.TypeTree.{
  TypeDesc, node, nil, cons, null, primitive, measure, store_offsets, kind_sbyte, kind_int,
  kind_long, kind_nint,
}
use libjit.TypeTree.Queries.{
  get_size, remove_tags, normalize, normal_form, is_tagged, is_pointer, is_signature,
}
use libjit.TypeTree.Measure.{measure_again}
use libjit.TypeTree.Normalize.{normalize_lem}

-- struct { char; int; long }, not laid out yet.
abbrev new_struct : Header
new_struct = record {
  kind = kind_struct;
  is_fixed = false;
  layout_flags = layout_needed;
  size = 0;
  alignment = 0;
}

abbrev laid_struct : Header
laid_struct = record new_struct { size = 16; alignment = 8 }

abbrev three_fields : List Field
three_fields =
    record { size = 1; alignment = 1; offset = offset_not_set }
    ∷ record { size = 4; alignment = 4; offset = offset_not_set }
    ∷ record { size = 8; alignment = 8; offset = offset_not_set }
    ∷ []

abbrev three_offsets : List ℕ
three_offsets = 2 ^ 63 ∷ (2 ^ 63 + 4) ∷ (2 ^ 63 + 8) ∷ []

layout_run : perform_layout new_struct three_fields ≡ some (laid_struct, three_offsets)
unfolding perform_layout place_all place align_up clamp align_limit grow record_totals
layout_run = refl

struct_layout_example :
    StructLayout new_struct three_fields (perform_layout new_struct three_fields)
struct_layout_example =
    struct_layout new_struct three_fields refl
      (omega arith, refl, (omega arith, refl, (omega arith, refl, tt))) (omega arith)

perform_layout_again_example :
    perform_layout laid_struct (with_offsets three_fields three_offsets)
    ≡ some (laid_struct, three_offsets)
perform_layout_again_example =
    perform_layout_again new_struct laid_struct three_fields three_offsets layout_run

alignment_not_computed_run :
    perform_layout (set_size_and_alignment new_struct (negsuc 0) (negsuc 0)) three_fields
    ≡ some (record new_struct { size = 16; alignment = 2 ^ 64 - 1 }, three_offsets)
unfolding perform_layout place_all place align_up clamp align_limit grow record_totals
    set_size_and_alignment set_both residue
alignment_not_computed_run = refl

alignment_not_computed_example : 2 ^ 64 - 1 ≤ 2 ^ 64 - 1
alignment_not_computed_example =
    alignment_not_computed new_struct (record new_struct { size = 16; alignment = 2 ^ 64 - 1 })
      (negsuc 0) three_fields three_offsets (inl refl) alignment_not_computed_run

-- A structure that holds an integer and a tagged structure.
abbrev tagged : TypeDesc → TypeDesc
tagged sub =
    node
      (record {
        kind = kind_first_tagged + 5;
        is_fixed = false;
        layout_flags = 0;
        size = 0;
        alignment = 0;
      })
      sub nil

abbrev inner : ℕ → ℕ → TypeDesc
inner size offset =
    node (record new_struct { size = size; alignment = size }) null
      (cons (primitive kind_int 4) offset nil)

abbrev outer : TypeDesc
outer = node new_struct null (
    cons (primitive kind_sbyte 1) offset_not_set
      (cons (tagged (inner 0 offset_not_set)) offset_not_set nil))

abbrev outer_laid : TypeDesc
outer_laid =
    node (record new_struct { size = 8; alignment = 4 }) null
      (cons (primitive kind_sbyte 1) offset_is_internal
        (cons (tagged (inner 4 offset_is_internal)) (2 ^ 63 + 4) nil))

measure_run : measure outer ≡ some (outer_laid, 8, 4)
unfolding measure store_offsets perform_layout place_all place align_up clamp align_limit grow
    record_totals
measure_run = refl

measure_again_example : measure outer_laid ≡ some (outer_laid, 8, 4)
measure_again_example = measure_again outer outer_laid 8 4 measure_run

abbrev tagged_nint : TypeDesc
tagged_nint = tagged (tagged (primitive kind_nint 8))

normalize_run : normalize 16 tagged_nint ≡ primitive kind_long 8
unfolding normalize normal_form remove_tags
normalize_run = refl

normalize_lem_example :
    (get_size (normalize 16 tagged_nint) ≡ get_size tagged_nint)
    × (is_tagged (normalize 16 tagged_nint) ≡ pos 0)
    × (is_pointer (normalize 16 tagged_nint) ≡ pos 0)
    × (is_signature (normalize 16 tagged_nint) ≡ pos 0)
    × (normalize 16 (normalize 16 tagged_nint) ≡ normalize 16 tagged_nint)
unfolding remove_tags
normalize_lem_example =
    normalize_lem 16 tagged_nint
      (λ e. (refl, refl), λ e. (refl, refl), λ e. (refl, refl), λ e. absurd (ground (arith, e)))
