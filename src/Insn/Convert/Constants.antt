-- ===== src/Insn/Convert/Constants.antt =====
-- Constants that `jit_insn_convert` converts by itself.
use mathlib.Core.Option.{map as map_option, some-injective}
use libjit.Base.{
  Bool-cases, ◌&&◌, not, ℕ, ◌≡◌, inl, inr, refl, sym, ap, ◌∙◌, arith, Bool, Option, none, some,
}
use libjit.Base.Int.{ℤ, pos, negsuc}
use libjit.Base.Maybe.{some≢none, ◌>>=◌}
use mathlib.Core.Path.{subst}
use libjit.Word.{residue, signed, wrap}
use libjit.Item.{holds, Kind, int_value, long_value, put, cast, converted}
use libjit.Item.Laws.{every_kind}
use libjit.Value.{
  Constant, Value, constant, temporary, type_of, promote_int, get_constant, create_constant,
  constant_convert, convert_item,
}
use libjit.Value.Exact.{convert_item-converted}
use libjit.Interp.Code.Places.{content, IsProper}
use libjit.Interp.Code.Runs.{IsPlaced}
use libjit.Insn.{convert_constant}

get_constant_type :
    (kind : Kind) (address : ℤ) (un : ℕ) → (get_constant kind address un).type ≡ kind
unfolding get_constant
get_constant_type kind address un =
    every_kind (λ k. (get_constant k address un).type ≡ k)
      (refl, refl, refl, refl, refl, refl, refl, refl) kind

-- What is read from a constant.
get_constant-cast :
    (kind : Kind) (address : ℤ) (un : ℕ)
    → cast (promote_int kind) (pos (get_constant kind address un).un)
      ≡ cast (promote_int kind) address
unfolding get_constant put cast wrap residue signed
get_constant-cast kind (pos n) un =
    every_kind
      (λ k.
        cast (promote_int k) (pos (get_constant k (pos n) un).un) ≡ cast (promote_int k) (pos n))
      (
        ground arith,
        ground arith,
        ground arith,
        ground arith,
        ground arith,
        ground arith,
        ground arith,
        ground arith,
      )
      kind
get_constant-cast kind (negsuc n) un =
    every_kind
      (λ k.
        cast (promote_int k) (pos (get_constant k (negsuc n) un).un)
        ≡ cast (promote_int k) (negsuc n))
      (
        ground arith,
        ground arith,
        ground arith,
        ground arith,
        ground arith,
        ground arith,
        ground arith,
        ground arith,
      )
      kind

-- What is made of an item that holds a value of the type.
abbrev Created : ℕ → ℤ → Kind → Type 0
Created un x kind =
    cast (promote_int kind) (pos un) ≡ cast kind x
    → IsProper (create_constant kind un)
      × ((frame : ℕ → ℕ) → content frame (create_constant kind un) ≡ cast kind x)
      × (type_of (create_constant kind un) ≡ kind)

created : (kind : Kind) (un : ℕ) (x : ℤ) → Created un x kind
unfolding create_constant int_value long_value cast wrap residue signed IsProper content
created kind un (pos n) =
    every_kind (Created un (pos n))
      (
        λ h. (ground arith, λ f. ground arith, refl),
        λ h. (ground arith, λ f. ground arith, refl),
        λ h. (ground arith, λ f. ground arith, refl),
        λ h. (ground arith, λ f. ground arith, refl),
        λ h. (ground arith, λ f. ground arith, refl),
        λ h. (ground arith, λ f. ground arith, refl),
        λ h. (ground arith, λ f. ground arith, refl),
        λ h. (ground arith, λ f. ground arith, refl),
      )
      kind
created kind un (negsuc n) =
    every_kind (Created un (negsuc n))
      (
        λ h. (ground arith, λ f. ground arith, refl),
        λ h. (ground arith, λ f. ground arith, refl),
        λ h. (ground arith, λ f. ground arith, refl),
        λ h. (ground arith, λ f. ground arith, refl),
        λ h. (ground arith, λ f. ground arith, refl),
        λ h. (ground arith, λ f. ground arith, refl),
        λ h. (ground arith, λ f. ground arith, refl),
        λ h. (ground arith, λ f. ground arith, refl),
      )
      kind

taken :
    (o : Option ℕ) (type : Kind) (result : Value)
    → ((o >>= λ u. some (record { type = type; un = u })) >>= λ (c : Constant).
        some (create_constant c.type c.un))
      ≡ some result
    → (u : ℕ) × (o ≡ some u) × (create_constant type u ≡ result)
taken none type result e = absurd (some≢none (sym e))
taken (some u) type result e = (u, refl, some-injective _ _ e)

converted-some :
    (type : Kind) (check : Bool) (x y : ℤ) → converted type check x ≡ some y → y ≡ cast type x
converted-some type check x y e = elim (Bool-cases (check && not (holds type x))) [
  | inl b ↦ absurd (some≢none (sym e ∙ rw b refl))
  | inr b ↦ some-injective _ _ (sym e ∙ rw b refl)
]

create_constant-IsPlaced : (kind : Kind) (un size : ℕ) → IsPlaced size (create_constant kind un)
unfolding create_constant
create_constant-IsPlaced kind un size =
    every_kind (λ k. IsPlaced size (create_constant k un)) (tt, tt, tt, tt, tt, tt, tt, tt) kind

-- A constant that is converted now is the converted value.
pub convert_constant_lem :
    (un : ℕ) (value : Value) (type : Kind) (check : Bool) (result : Value)
    → IsProper value
    → convert_constant un value type check ≡ some result
    → ((frame : ℕ → ℕ) → converted type check (content frame value) ≡ some (content frame result))
      × IsProper result
      × (type_of result ≡ type)
unfolding constant_convert content IsProper
convert_constant_lem un (temporary kind offset) type check result proper e =
    absurd (some≢none (sym e))
convert_constant_lem un (constant kind address) type check result proper e =
    let c : Constant = get_constant kind address un in
    let (u, found, made) =
      taken (convert_item type (promote_int c.type) check c.un c.un) type result e in
    let read : cast (promote_int c.type) (pos c.un) ≡ cast kind address =
      ap (λ k. cast (promote_int k) (pos c.un)) (get_constant_type kind address un)
      ∙ get_constant-cast kind address un
      ∙ proper in
    let exact : converted type check (cast kind address) ≡ some (cast (promote_int type) (pos u)) =
      sym (
        sym (ap (map_option (λ (n : ℕ). cast (promote_int type) (pos n))) found)
        ∙ convert_item-converted type c.type check c.un c.un
        ∙ ap (converted type check) read) in
    let fits =
      converted-some type check (cast kind address) (cast (promote_int type) (pos u)) exact in
    let (result_proper, result_content, result_type) = created type u (cast kind address) fits in
    (
      λ frame. exact ∙ ap some (fits ∙ sym (result_content frame) ∙ ap (content frame) made),
      subst IsProper made result_proper,
      ap type_of (sym made) ∙ result_type,
    )

pub convert_constant-IsPlaced :
    (un : ℕ) (value : Value) (type : Kind) (check : Bool) (result : Value)
    → convert_constant un value type check ≡ some result
    → (size : ℕ) → IsPlaced size result
unfolding constant_convert
convert_constant-IsPlaced un (temporary kind offset) type check result e size =
    absurd (some≢none (sym e))
convert_constant-IsPlaced un (constant kind address) type check result e size =
    let c : Constant = get_constant kind address un in
    let (u, found, made) =
      taken (convert_item type (promote_int c.type) check c.un c.un) type result e in
    subst (IsPlaced size) made (create_constant-IsPlaced type u size)
