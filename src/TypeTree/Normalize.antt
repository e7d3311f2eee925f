-- ===== src/TypeTree/Normalize.antt =====
-- Tags and the normal form of a type.
use libjit.Base.{
  ℕ, ◌≡◌, ◌<◌, ◌∙◌, refl, arith, true, false, some, leb, ◌==◌, if◌then◌else◌, Bool-cases,
  Option-cases, inl, inr, sym,
}
use Prim.Native.Nat.{bit_and}
use libjit.Base.Int.{pos}
use libjit.TypeLayout.{Header, kind_ptr, kind_signature, kind_first_tagged, layout_needed}
use libjit.TypeTree.{
  TypeDesc, Components, null, node, measure, kind_nint, kind_nuint, kind_nfloat, kind_long,
  kind_ulong, kind_float64, kind_float32, primitive,
}
use libjit.TypeTree.Queries.{
  get_size, get_alignment, remove_tags, normal_form, normalize, is_tagged, is_predefined,
  is_pointer, is_signature,
}

module _ (type : Header) (sub : TypeDesc) (components : Components) where
  remove_tagged :
      leb kind_first_tagged type.kind ≡ true
      → remove_tags (node type sub components) ≡ remove_tags sub
  unfolding remove_tags
  remove_tagged h = rw h

  remove_plain :
      leb kind_first_tagged type.kind ≡ false
      → remove_tags (node type sub components) ≡ node type sub components
  unfolding remove_tags
  remove_plain h = rw h

  size_tagged :
      leb kind_first_tagged type.kind ≡ true
      → (get_size (node type sub components) ≡ get_size sub)
        × (get_alignment (node type sub components) ≡ get_alignment sub)
  unfolding get_size get_alignment measure
  size_tagged h =
      let other : (type.kind == kind_signature) ≡ false = ground arith in
      elim (Option-cases (measure sub)) [
        | inl fault ↦ rw (other, h, fault) (refl, refl)
        | inr (r, e) ↦ rw (other, h, e) (refl, refl)
      ]

  plain_tag : leb kind_first_tagged type.kind ≡ false → is_tagged (node type sub components) ≡ pos 0
  unfolding is_tagged
  plain_tag h = rw h

remove_tags_null : remove_tags null ≡ null
unfolding remove_tags
remove_tags_null = refl

-- Stripping the tags off a type leaves a type without tags, which has the size and the alignment
-- that the tagged type is reported to have.
pub remove_tags_lem :
    (type : TypeDesc)
    → (is_tagged (remove_tags type) ≡ pos 0)
      × (get_size (remove_tags type) ≡ get_size type)
      × (get_alignment (remove_tags type) ≡ get_alignment type)
unfolding is_tagged
remove_tags_lem null = rw remove_tags_null (refl, refl, refl)
remove_tags_lem (node type sub components) = elim (Bool-cases (leb kind_first_tagged type.kind)) [
  | inl tagged ↦
      let rest = remove_tags_lem sub in
      let sizes = size_tagged type sub components tagged in
      rw (remove_tagged type sub components tagged)
        (rest.0, rest.1 ∙ sym sizes.0, rest.2 ∙ sym sizes.1)
  | inr plain ↦
      rw (remove_plain type sub components plain) (plain_tag type sub components plain, refl, refl)
]

-- The descriptors of the types with a native size are as the library makes them: pointers, and the
-- pre-defined native integers, have 8 bytes and need no layout; the native float has `nfloat_size`.
abbrev pub HasNativeSizes : ℕ → TypeDesc → Type 0
HasNativeSizes nfloat_size null = Unit {0}
HasNativeSizes nfloat_size (node type sub components) =
    let HasSize : ℕ → Type 0 =
      λ size. (bit_and type.layout_flags layout_needed ≡ 0) × (type.size ≡ size) in
    (type.kind ≡ kind_ptr → HasSize 8)
    × (is_predefined type kind_nint ≡ true → HasSize 8)
    × (is_predefined type kind_nuint ≡ true → HasSize 8)
    × (is_predefined type kind_nfloat ≡ true → HasSize nfloat_size)

primitive_size : (kind size : ℕ) → kind < 14 → get_size (primitive kind size) ≡ some size
unfolding get_size measure
primitive_size kind size lt = ground arith

plain_size :
    (type : Header) (sub : TypeDesc) (components : Components)
    → is_tagged (node type sub components) ≡ pos 0
    → bit_and type.layout_flags layout_needed ≡ 0
    → get_size (node type sub components)
      ≡ some (if type.kind == kind_signature then 8 else type.size)
unfolding is_tagged get_size measure
plain_size type sub components bare ready = ground arith

signature_size :
    (type : Header) (sub : TypeDesc) (components : Components)
    → (type.kind == kind_signature) ≡ true
    → get_size (node type sub components) ≡ some 8
unfolding get_size
signature_size type sub components is = rw is

normal_form_size :
    (nfloat_size : ℕ) (type : TypeDesc)
    → is_tagged type ≡ pos 0
    → HasNativeSizes nfloat_size type
    → get_size (normal_form nfloat_size type) ≡ get_size type
unfolding normal_form
normal_form_size nfloat_size null bare native = refl
normal_form_size nfloat_size (node type sub components) bare native = ground (
  arith,
  plain_size type sub components,
  signature_size type sub components,
  primitive_size kind_long 8,
  primitive_size kind_ulong 8,
  primitive_size kind_float64 8,
  primitive_size kind_float32 4,
)

-- No descriptor in normal form is tagged, a pointer or a signature; it is its own normal form.
normal_form_kind :
    (nfloat_size : ℕ) (type : TypeDesc)
    → is_tagged type ≡ pos 0
    → let r = normal_form nfloat_size type in
      (is_tagged r ≡ pos 0)
      × (is_pointer r ≡ pos 0)
      × (is_signature r ≡ pos 0)
      × (normal_form nfloat_size r ≡ r)
unfolding normal_form is_tagged is_pointer is_signature
normal_form_kind nfloat_size null bare = (refl, refl, refl, refl)
normal_form_kind nfloat_size (node type sub components) bare = ground arith

remove_tags_bare : (type : TypeDesc) → is_tagged type ≡ pos 0 → remove_tags type ≡ type
unfolding is_tagged remove_tags
remove_tags_bare null bare = refl
remove_tags_bare (node type sub components) bare = ground arith

-- A normalised type has the size of the type itself, where the types with a native size are
-- described as the library does; it is neither tagged, nor a pointer, nor a signature, and normalising
-- it again changes nothing.
pub normalize_lem :
    (nfloat_size : ℕ) (type : TypeDesc)
    → HasNativeSizes nfloat_size (remove_tags type)
    → (get_size (normalize nfloat_size type) ≡ get_size type)
      × (is_tagged (normalize nfloat_size type) ≡ pos 0)
      × (is_pointer (normalize nfloat_size type) ≡ pos 0)
      × (is_signature (normalize nfloat_size type) ≡ pos 0)
      × (normalize nfloat_size (normalize nfloat_size type) ≡ normalize nfloat_size type)
unfolding normalize
normalize_lem nfloat_size type native =
    let bare = remove_tags_lem type in
    let kind = normal_form_kind nfloat_size (remove_tags type) bare.0 in
    (
      normal_form_size nfloat_size (remove_tags type) bare.0 native ∙ bare.1,
      kind.0,
      kind.1,
      kind.2,
      rw (remove_tags_bare (normal_form nfloat_size (remove_tags type)) kind.0) kind.3,
    )
