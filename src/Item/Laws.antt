-- ===== src/Item/Laws.antt =====
-- What is read from an item after a write.
use mathlib.Core.Bool.{and-eq-true_iff}
use libjit.Base.{ℕ, ◌≡◌, refl, arith, Bool, true, false, ◌&&◌}
use libjit.Base.Int.{ℤ, pos, negsuc}
use libjit.Word.{residue, signed, wrap}
use libjit.Item.{
  Kind, sbyte, ubyte, short, ushort, int, uint, long, ulong, same_kind, put, cast, put_byte,
  put_int,
}

-- Casting what was written to a type that is not wider.
pub cast-put_byte :
    (item : ℕ) (x : ℤ)
    → (cast sbyte (pos (put_byte item x)) ≡ cast sbyte x)
      × (cast ubyte (pos (put_byte item x)) ≡ cast ubyte x)
unfolding put cast residue wrap signed
cast-put_byte item (pos n) = (ground arith, ground arith)
cast-put_byte item (negsuc n) = (ground arith, ground arith)

pub cast-put_int :
    (item : ℕ) (x : ℤ)
    → (cast sbyte (pos (put_int item x)) ≡ cast sbyte x)
      × (cast ubyte (pos (put_int item x)) ≡ cast ubyte x)
      × (cast short (pos (put_int item x)) ≡ cast short x)
      × (cast ushort (pos (put_int item x)) ≡ cast ushort x)
      × (cast int (pos (put_int item x)) ≡ cast int x)
      × (cast uint (pos (put_int item x)) ≡ cast uint x)
unfolding put cast residue wrap signed
cast-put_int item (pos n) =
    (ground arith, ground arith, ground arith, ground arith, ground arith, ground arith)
cast-put_int item (negsuc n) =
    (ground arith, ground arith, ground arith, ground arith, ground arith, ground arith)

-- To prove a fact of every type, or of both values of a test, in one tuple.
pub every_kind {ℓ} :
    (P : Kind → Type ℓ)
    → P sbyte × P ubyte × P short × P ushort × P int × P uint × P long × P ulong
    → (kind : Kind) → P kind
every_kind P (a, b, c, d, e, f, g, h) sbyte = a
every_kind P (a, b, c, d, e, f, g, h) ubyte = b
every_kind P (a, b, c, d, e, f, g, h) short = c
every_kind P (a, b, c, d, e, f, g, h) ushort = d
every_kind P (a, b, c, d, e, f, g, h) int = e
every_kind P (a, b, c, d, e, f, g, h) uint = f
every_kind P (a, b, c, d, e, f, g, h) long = g
every_kind P (a, b, c, d, e, f, g, h) ulong = h

pub both {ℓ} : (P : Bool → Type ℓ) → P true × P false → (b : Bool) → P b
both P (t, f) true = t
both P (t, f) false = f

pub same_kind_lem : (a b : Kind) → same_kind a b ≡ true → a ≡ b
same_kind_lem sbyte sbyte h = refl
same_kind_lem ubyte ubyte h = refl
same_kind_lem short short h = refl
same_kind_lem ushort ushort h = refl
same_kind_lem int int h = refl
same_kind_lem uint uint h = refl
same_kind_lem long long h = refl
same_kind_lem ulong ulong h = refl
same_kind_lem a b h = cc

-- To check every type by computing.
abbrev pub all_kinds : (Kind → Bool) → Bool
all_kinds p = p sbyte && p ubyte && p short && p ushort && p int && p uint && p long && p ulong

pub all_kinds_lem : (p : Kind → Bool) → all_kinds p ≡ true → (kind : Kind) → p kind ≡ true
all_kinds_lem p h sbyte = ground arith
all_kinds_lem p h ubyte = ground arith
all_kinds_lem p h short = ground arith
all_kinds_lem p h ushort = ground arith
all_kinds_lem p h int = ground arith
all_kinds_lem p h uint = ground arith
all_kinds_lem p h long = ground arith
all_kinds_lem p h ulong = ground arith

-- The same for two types and a test.
pub all_conversions :
    (p : Kind → Kind → Bool → Bool)
    → all_kinds (λ from. all_kinds (λ to. p from to true && p from to false)) ≡ true
    → (from to : Kind) (check : Bool) → p from to check ≡ true
all_conversions p h from to check =
    let at : (p from to true && p from to false) ≡ true =
      all_kinds_lem (λ k. p from k true && p from k false)
        (all_kinds_lem (λ j. all_kinds (λ k. p j k true && p j k false)) h from) to in
    both (λ b. p from to b ≡ true) ((and-eq-true_iff _ _).0 at) check
