-- ===== src/TypeLayout/Explicit.antt =====
-- What `jit_type_set_size_and_alignment` leaves for the layout to compute.
use libjit.Base.{ℕ, ◌-◌, ◌^◌, ◌≤◌, ◌≡◌, ◌⊎◌, arith, some, List, ◌==◌, ◌||◌, true}
use libjit.Base.Int.{ℤ, negsuc}
use libjit.Word.{residue}
use libjit.TypeLayout.{
  Header, Field, perform_layout, set_size_and_alignment, kind_struct, kind_union, record_totals,
}
use libjit.TypeLayout.Stable.{perform_layout_inv}

-- An alignment of -1 set on a structure or union is not computed by the next layout, as it is meant
-- to be: whatever the fields, a layout that succeeds leaves an alignment of 2 ^ 64 - 1 or more.
pub alignment_not_computed :
    (type after : Header) (size : ℤ) (fields : List Field) (offsets : List ℕ)
    → (type.kind ≡ kind_struct) ⊎ (type.kind ≡ kind_union)
    → perform_layout (set_size_and_alignment type size (negsuc 0)) fields ≡ some (after, offsets)
    → 2 ^ 64 - 1 ≤ after.alignment
unfolding set_size_and_alignment residue record_totals
alignment_not_computed type after size fields offsets kind h =
    let (totals, max_size, placed, up, e) = perform_layout_inv _ after fields offsets h in
    let chosen : ((type.kind == kind_struct) || (type.kind == kind_union)) ≡ true = ground arith in
    ground (arith, chosen, e)
