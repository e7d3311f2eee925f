-- ===== src/TypeTree/Measure.antt =====
-- The queries of size and alignment lay a type out, and settle it.
use libjit.Base.Maybe.{some≢none}
use libjit.Base.{
  ℕ, ◌≡◌, refl, arith, false, some, List, [], ◌∷◌, leb, ◌==◌, if◌then◌else◌, Bool-cases,
  Option-cases, inl, inr,
}
use Prim.Native.Nat.{bit_and}
use mathlib.Core.Path.{subst, sym, ◌∙◌}
use mathlib.Core.Option.{some-injective}
use libjit.TypeLayout.{
  Header, Field, perform_layout, kind_signature, kind_first_tagged, layout_needed, record_totals,
}
use libjit.TypeLayout.Stable.{with_offsets, perform_layout_inv, perform_layout_again}
use libjit.TypeTree.{
  TypeDesc, Components, null, node, nil, cons, measure, measure_fields, store_offsets,
}

store_again :
    (cs : Components) (offsets : List ℕ)
    → store_offsets (store_offsets cs offsets) offsets ≡ store_offsets cs offsets
unfolding store_offsets
store_again nil offsets = refl
store_again (cons type offset rest) [] = refl
store_again (cons type offset rest) (o ∷ offsets) = rw (store_again rest offsets)

-- The layout leaves the kind and the flags of a type.
layout_keeps :
    (type after : Header) (fields : List Field) (offsets : List ℕ)
    → perform_layout type fields ≡ some (after, offsets)
    → (after.kind ≡ type.kind) × (after.layout_flags ≡ type.layout_flags)
unfolding record_totals
layout_keeps type after fields offsets h =
    let (totals, max_size, placed, up, e) = perform_layout_inv type after fields offsets h in
    rw e (refl, refl)

-- The result of a query, named by an equation.
settle : {x y : TypeDesc × ℕ × ℕ} → some x ≡ some y → measure x.0 ≡ some x → measure y.0 ≡ some y
settle e h = subst (λ r. measure r.0 ≡ some r) (some-injective _ _ e) h

settle_fields :
    (offsets : List ℕ) {x y : Components × List Field}
    → some x ≡ some y
    → measure_fields (store_offsets x.0 offsets)
      ≡ some (store_offsets x.0 offsets, with_offsets x.1 offsets)
    → measure_fields (store_offsets y.0 offsets)
      ≡ some (store_offsets y.0 offsets, with_offsets y.1 offsets)
settle_fields offsets e h =
    subst
      (λ r.
        measure_fields (store_offsets r.0 offsets)
        ≡ some (store_offsets r.0 offsets, with_offsets r.1 offsets))
      (some-injective _ _ e) h

-- A structure or union whose fields are settled is settled by its own layout.
laid_out_again :
    (type after : Header) (sub : TypeDesc) (cs : Components) (sizes : List Field) (offsets : List ℕ)
    → leb kind_first_tagged type.kind ≡ false
    → (bit_and type.layout_flags layout_needed == 0) ≡ false
    → perform_layout type sizes ≡ some (after, offsets)
    → measure_fields (store_offsets cs offsets)
      ≡ some (store_offsets cs offsets, with_offsets sizes offsets)
    → measure (node after sub (store_offsets cs offsets))
      ≡ some (
        node after sub (store_offsets cs offsets),
        if type.kind == kind_signature then 8 else after.size,
        after.alignment,
      )
unfolding measure
laid_out_again type after sub cs sizes offsets plain needed laid fields =
    let keeps = layout_keeps type after sizes offsets laid in
    let again = perform_layout_again type after sizes offsets laid in
    ground (arith, keeps, again, fields, store_again cs offsets)

store_nil : (cs : Components) → store_offsets cs [] ≡ cs
unfolding store_offsets
store_nil nil = refl
store_nil (cons type offset rest) = refl

with_nil : (fs : List Field) → with_offsets fs [] ≡ fs
with_nil [] = refl
with_nil (f ∷ fs) = refl

-- The first component keeps its settled type, whatever offset it is given.
store_cons :
    (t : TypeDesc) (offset s a : ℕ) (r : Components) (fs : List Field) (offsets : List ℕ)
    → measure t ≡ some (t, s, a)
    → ((os : List ℕ)
        → measure_fields (store_offsets r os) ≡ some (store_offsets r os, with_offsets fs os))
    → let here = record { size = s; alignment = a; offset = offset } ∷ fs in
      measure_fields (store_offsets (cons t offset r) offsets)
      ≡ some (store_offsets (cons t offset r) offsets, with_offsets here offsets)
unfolding measure_fields store_offsets
store_cons t offset s a r fs [] one more =
    let tail : measure_fields r ≡ some (r, fs) = rw (store_nil r, with_nil fs) at (more []) in
    rw (one, tail)
store_cons t offset s a r fs (o ∷ offsets) one more = rw (one, more offsets)

mutual
  unfolding measure measure_fields store_offsets

  again :
      (t t' : TypeDesc) (size alignment : ℕ)
      → measure t ≡ some (t', size, alignment)
      → measure t' ≡ some (t', size, alignment)
  again null t' size alignment h = settle {x = (null, 0, 0)} h refl
  again (node type sub components) t' size alignment h =
      elim (Bool-cases (leb kind_first_tagged type.kind)) [
        | inl tagged ↦ elim (Option-cases (measure sub)) [
          | inl fault ↦ absurd (some≢none (sym h ∙ rw (tagged, fault)))
          | inr ((sub', s, a), inner) ↦
              let rest = again sub sub' s a inner in
              settle {x = (node type sub' components, s, a)} (sym (rw (tagged, inner)) ∙ h)
                (rw (tagged, rest))
        ]
        | inr plain ↦ elim (Bool-cases (bit_and type.layout_flags layout_needed == 0)) [
          | inl ready ↦
              let same : measure (node type sub components)
                  ≡ some (
                    node type sub components,
                    (if type.kind == kind_signature then 8 else type.size),
                    type.alignment,
                  ) =
                rw (plain, ready) in
              settle (sym same ∙ h) same
          | inr needed ↦ elim (Option-cases (measure_fields components)) [
            | inl fault ↦ absurd (some≢none (sym h ∙ rw (plain, needed, fault)))
            | inr ((cs, sizes), fields) ↦ elim (Option-cases (perform_layout type sizes)) [
              | inl fault ↦ absurd (some≢none (sym h ∙ rw (plain, needed, fields, fault)))
              | inr ((after, offsets), laid) ↦ settle (sym (rw (plain, needed, fields, laid)) ∙ h) (
                  laid_out_again type after sub cs sizes offsets plain needed laid
                    (fields_again components cs sizes offsets fields))
            ]
          ]
        ]
      ]

  fields_again :
      (cs cs' : Components) (sizes : List Field) (offsets : List ℕ)
      → measure_fields cs ≡ some (cs', sizes)
      → measure_fields (store_offsets cs' offsets)
        ≡ some (store_offsets cs' offsets, with_offsets sizes offsets)
  fields_again nil cs' sizes offsets h = settle_fields offsets {x = (nil, [])} h refl
  fields_again (cons type offset rest) cs' sizes offsets h = elim (Option-cases (measure type)) [
    | inl fault ↦ absurd (some≢none (sym h ∙ rw fault))
    | inr ((t, s, a), first) ↦ elim (Option-cases (measure_fields rest)) [
      | inl fault ↦ absurd (some≢none (sym h ∙ rw (first, fault)))
      | inr ((r, fs), more) ↦
          let one = again type t s a first in
          settle_fields offsets
            {x = (cons t offset r, record { size = s; alignment = a; offset = offset } ∷ fs)}
            (sym (rw (first, more)) ∙ h)
            (store_cons t offset s a r fs offsets one (λ os. fields_again rest r fs os more))
    ]
  ]

-- Where the size and the alignment of a type can be queried, the query leaves a type on which it
-- gives the same size and alignment again and changes nothing more, at any depth of nested types.
pub measure_again :
    (type after : TypeDesc) (size alignment : ℕ)
    → measure type ≡ some (after, size, alignment)
    → measure after ≡ some (after, size, alignment)
measure_again type after size alignment h = again type after size alignment h
