-- ===== src/Interp/Code/Places.antt =====
-- What the operands of an instruction hold, and what loads and stores do with it.
use libjit.Base.{ℕ, ◌%◌, ◌≡◌, arith, true}
use libjit.Base.Int.{ℤ, pos, negsuc}
use libjit.Word.{residue, signed, wrap}
use libjit.Item.{Kind, int_value, long_value, put, cast, holds}
use libjit.Item.Laws.{every_kind}
use libjit.Value.{Value, constant, temporary, type_of, promote_int}
use libjit.Interp.Answers.{width}
use libjit.Interp.Code.{load_constant, load_local, store_local, load_value}

-- What a value holds.
unfoldable pub content : (ℕ → ℕ) → Value → ℤ
content frame (constant kind address) = cast kind address
content frame (temporary kind offset) = cast kind (pos (frame offset))

-- A constant of 8 or 16 bits is a value of its type. Nothing is asked of another value.
unfoldable pub IsProper : Value → Type 0
IsProper (constant kind address) = cast (promote_int kind) address ≡ cast kind address
IsProper (temporary kind offset) = Unit

pub holds-cast : (kind : Kind) (x : ℤ) → holds kind (cast kind x) ≡ true
unfolding holds cast wrap residue signed
holds-cast kind (pos n) =
    every_kind (λ k. holds k (cast k (pos n)) ≡ true)
      (
        ground arith,
        ground arith,
        ground arith,
        ground arith,
        ground arith,
        ground arith,
        ground arith,
        ground arith,
      )
      kind
holds-cast kind (negsuc n) =
    every_kind (λ k. holds k (cast k (negsuc n)) ≡ true)
      (
        ground arith,
        ground arith,
        ground arith,
        ground arith,
        ground arith,
        ground arith,
        ground arith,
        ground arith,
      )
      kind

pub content-holds :
    (frame : ℕ → ℕ) (value : Value) → holds (type_of value) (content frame value) ≡ true
unfolding content
content-holds frame (constant kind address) = holds-cast kind address
content-holds frame (temporary kind offset) = holds-cast kind (pos (frame offset))

cast-cast : (kind : Kind) (x : ℤ) → cast kind (cast kind x) ≡ cast kind x
unfolding cast wrap residue signed
cast-cast kind (pos n) =
    every_kind (λ k. cast k (cast k (pos n)) ≡ cast k (pos n))
      (
        ground arith,
        ground arith,
        ground arith,
        ground arith,
        ground arith,
        ground arith,
        ground arith,
        ground arith,
      )
      kind
cast-cast kind (negsuc n) =
    every_kind (λ k. cast k (cast k (negsuc n)) ≡ cast k (negsuc n))
      (
        ground arith,
        ground arith,
        ground arith,
        ground arith,
        ground arith,
        ground arith,
        ground arith,
        ground arith,
      )
      kind

pub content-cast :
    (frame : ℕ → ℕ) (value : Value)
    → cast (type_of value) (content frame value) ≡ content frame value
unfolding content
content-cast frame (constant kind address) = cast-cast kind address
content-cast frame (temporary kind offset) = cast-cast kind (pos (frame offset))

-- A value of a type is one of the promoted type.
pub holds-promote_int :
    (kind : Kind) (x : ℤ) → holds kind x ≡ true → holds (promote_int kind) x ≡ true
unfolding holds
holds-promote_int kind x =
    every_kind (λ k. holds k x ≡ true → holds (promote_int k) x ≡ true)
      (
        λ h. ground arith,
        λ h. ground arith,
        λ h. ground arith,
        λ h. ground arith,
        λ h. h,
        λ h. h,
        λ h. h,
        λ h. h,
      )
      kind

load_constant_lem :
    (register : ℕ) (kind : Kind) (address : ℤ)
    → cast (promote_int kind) address ≡ cast kind address
    → load_constant register kind address % width kind ≡ residue (width kind) (cast kind address)
unfolding load_constant put cast wrap residue signed
load_constant_lem register kind (pos n) =
    every_kind
      (λ k.
        cast (promote_int k) (pos n) ≡ cast k (pos n)
        → load_constant register k (pos n) % width k ≡ residue (width k) (cast k (pos n)))
      (
        λ h. ground arith,
        λ h. ground arith,
        λ h. ground arith,
        λ h. ground arith,
        λ h. ground arith,
        λ h. ground arith,
        λ h. ground arith,
        λ h. ground arith,
      )
      kind
load_constant_lem register kind (negsuc n) =
    every_kind
      (λ k.
        cast (promote_int k) (negsuc n) ≡ cast k (negsuc n)
        → load_constant register k (negsuc n) % width k ≡ residue (width k) (cast k (negsuc n)))
      (
        λ h. ground arith,
        λ h. ground arith,
        λ h. ground arith,
        λ h. ground arith,
        λ h. ground arith,
        λ h. ground arith,
        λ h. ground arith,
        λ h. ground arith,
      )
      kind

load_local_lem :
    (register : ℕ) (kind : Kind) (item : ℕ)
    → load_local register kind item % width kind ≡ residue (width kind) (cast kind (pos item))
unfolding load_local int_value long_value put cast wrap residue signed
load_local_lem register kind item =
    every_kind (λ k. load_local register k item % width k ≡ residue (width k) (cast k (pos item)))
      (
        ground arith,
        ground arith,
        ground arith,
        ground arith,
        ground arith,
        ground arith,
        ground arith,
        ground arith,
      )
      kind

-- A load puts what the value holds into the register.
pub load_value_lem :
    (frame : ℕ → ℕ) (register : ℕ) (value : Value)
    → IsProper value
    → load_value frame register value % width (type_of value)
      ≡ residue (width (type_of value)) (content frame value)
unfolding content IsProper
load_value_lem frame register (constant kind address) proper =
    load_constant_lem register kind address proper
load_value_lem frame register (temporary kind offset) proper =
    load_local_lem register kind (frame offset)

-- A store converts what is in register 0 to the type of the variable.
pub store_local_lem :
    (item : ℕ) (kind : Kind) (r0 : ℕ) (y : ℤ)
    → r0 % width kind ≡ residue (width kind) y
    → cast kind (pos (store_local item kind r0)) ≡ cast kind y
unfolding store_local int_value long_value put cast wrap residue signed
store_local_lem item kind r0 (pos n) =
    every_kind
      (λ k.
        r0 % width k ≡ residue (width k) (pos n)
        → cast k (pos (store_local item k r0)) ≡ cast k (pos n))
      (
        λ h. ground arith,
        λ h. ground arith,
        λ h. ground arith,
        λ h. ground arith,
        λ h. ground arith,
        λ h. ground arith,
        λ h. ground arith,
        λ h. ground arith,
      )
      kind
store_local_lem item kind r0 (negsuc n) =
    every_kind
      (λ k.
        r0 % width k ≡ residue (width k) (negsuc n)
        → cast k (pos (store_local item k r0)) ≡ cast k (negsuc n))
      (
        λ h. ground arith,
        λ h. ground arith,
        λ h. ground arith,
        λ h. ground arith,
        λ h. ground arith,
        λ h. ground arith,
        λ h. ground arith,
        λ h. ground arith,
      )
      kind
