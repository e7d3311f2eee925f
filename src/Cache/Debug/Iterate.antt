-- ===== src/Cache/Debug/Iterate.antt =====
-- Reading debug information: what the iterator yields, and what the queries make of it.
use mathlib.Core.Path.{subst}
use mathlib.Core.List.{append_assoc}
use libjit.Base.{
  ℕ, suc, ◌+◌, ◌-◌, ◌^◌, ◌≤◌, ◌<◌, ◌≡◌, refl, arith, Bool, false, none, some, List, [], ◌∷◌, ◌++◌,
  ltb, ◌==◌, if◌then◌else◌, length, length-append, map, ap, ◌∙◌,
}
use libjit.Base.Int.{pos, negsuc}
use libjit.Word.{ulong_modulus}
use libjit.Word.Laws.{residue_pos}
use libjit.Cache.Encoding.{Reader, compress_int}
use libjit.Cache.Encoding.Roundtrip.{compress_int-Reads}
use libjit.Cache.Debug.{Iter, get_next, get_native_loop, get_bytecode_loop, no_offset, debug_size}

abbrev pub Pair : Type 0
Pair = ℕ × ℕ

-- The iterator yields these pairs, and then ends.
abbrev pub Yields : Iter → List Pair → Type 0
Yields iter [] = (after : Iter) × (get_next iter.list iter.reader ≡ some (after, none))
Yields iter (p ∷ ps) =
    (after : Iter) × (get_next iter.list iter.reader ≡ some (after, some p)) × Yields after ps

-- Offsets that the encoding keeps.
abbrev pub AllSmall : List Pair → Type 0
AllSmall [] = Unit {0}
AllSmall ((o, n) ∷ ps) = (o < 2 ^ 28) × (n < 2 ^ 28) × AllSmall ps

abbrev pub encode : List Pair → List ℕ
encode [] = []
encode ((o, n) ∷ ps) = compress_int (pos o) ++ (compress_int (pos n) ++ encode ps)

abbrev reader_at : List ℕ → ℕ → Bool → Reader
reader_at bytes len error = record { bytes = bytes; len = len; error = error }

module _ (block : List ℕ) (list : List (List ℕ)) where
  pair_step :
      (o n : ℕ) (rest : List ℕ) (len : ℕ) (error : Bool)
      → o < 2 ^ 28
      → n < 2 ^ 28
      → length (compress_int (pos o)) + length (compress_int (pos n)) ≤ len
      → get_next
          (block ∷ list)
          (reader_at (compress_int (pos o) ++ (compress_int (pos n) ++ rest)) len error)
        ≡ some (
          record {
            list = block ∷ list;
            reader =
                reader_at rest
                  (len - length (compress_int (pos o)) - length (compress_int (pos n)))
                  error;
          },
          some (o, n),
        )
  unfolding get_next
  pair_step o n rest len error so sn fits =
      let first =
        (compress_int-Reads (pos o) (omega arith)).reads (compress_int (pos n) ++ rest) len error
          (omega arith) in
      let second =
        (compress_int-Reads (pos n) (omega arith)).reads rest (len - length (compress_int (pos o)))
          error (omega arith) in
      rw (first, second) (ground (arith, residue_pos ulong_modulus o, residue_pos ulong_modulus n))

  -- The end of the information.
  pub end_step :
      (rest : List ℕ) (len : ℕ) (error : Bool)
      → length (compress_int (negsuc 0)) ≤ len
      → Yields
          (record {
            list = block ∷ list;
            reader = reader_at (compress_int (negsuc 0) ++ rest) len error;
          })
          []
  unfolding get_next
  end_step rest len error fits =
      let read = (compress_int-Reads (negsuc 0) (omega arith)).reads rest len error fits in
      (
        record {
          list = block ∷ list;
          reader = reader_at rest (len - length (compress_int (negsuc 0))) error;
        },
        rw read refl,
      )

  -- The end of a block.
  pub next_step :
      (next : List ℕ) (list' : List (List ℕ)) (rest : List ℕ) (len : ℕ) (error : Bool)
      → list ≡ next ∷ list'
      → length (compress_int (negsuc 1)) ≤ len
      → get_next (block ∷ list) (reader_at (compress_int (negsuc 1) ++ rest) len error)
        ≡ get_next list (reader_at next debug_size false)
  unfolding get_next
  next_step next list' rest len error e fits =
      let read = (compress_int-Reads (negsuc 1) (omega arith)).reads rest len error fits in
      rw (e, read) refl

  -- Pairs in front of whatever is yielded behind them.
  pub encode-Yields :
      (ps qs : List Pair) (tail : List ℕ) (len : ℕ) (error : Bool)
      → AllSmall ps
      → length (encode ps) ≤ len
      → Yields
          (record { list = block ∷ list; reader = reader_at tail (len - length (encode ps)) error })
          qs
      → Yields
          (record { list = block ∷ list; reader = reader_at (encode ps ++ tail) len error })
          (ps ++ qs)
  encode-Yields [] qs tail len error small fits y =
      let e : len - 0 ≡ len = omega arith in
      subst (λ x. Yields (record { list = block ∷ list; reader = reader_at tail x error }) qs) e y
  encode-Yields ((o, n) ∷ ps) qs tail len error (so, sn, small) fits y =
      let first : List ℕ = compress_int (pos o) in
      let second : List ℕ = compress_int (pos n) in
      let whole = length-append first (second ++ encode ps) in
      let behind = length-append second (encode ps) in
      let bytes : (first ++ (second ++ encode ps)) ++ tail
          ≡ first ++ (second ++ (encode ps ++ tail)) =
        append_assoc first (second ++ encode ps) tail
        ∙ ap (λ x. first ++ x) (append_assoc second (encode ps) tail) in
      let left : len - length (first ++ (second ++ encode ps))
          ≡ len - length first - length second - length (encode ps) =
        omega (arith, whole, behind) in
      (
        record {
          list = block ∷ list;
          reader = reader_at (encode ps ++ tail) (len - length first - length second) error;
        },
        ap (λ x. get_next (block ∷ list) (reader_at x len error)) bytes
            ∙ pair_step o n (encode ps ++ tail) len error so sn (omega (arith, whole, behind)),
        encode-Yields ps qs tail (len - length first - length second) error small
            (omega (arith, whole, behind))
            (subst
              (λ x. Yields (record { list = block ∷ list; reader = reader_at tail x error }) qs)
              left y),
      )

-- What `_jit_cache_get_native` finds in a list of pairs: the native offset of the first pair with the
-- bytecode offset, or of the last one before the first that lies behind it.
abbrev pub native_of : List Pair → ℕ → Bool → ℕ → ℕ
native_of [] offset exact prev = if exact then no_offset else prev
native_of ((o, n) ∷ ps) offset exact prev =
    let rest = native_of ps offset exact n in
    if exact then (if o == offset then n else rest) else if ltb offset o then prev else rest

abbrev pub swap_pair : Pair → Pair
swap_pair (o, n) = (n, o)

-- The loop of `_jit_cache_get_native` over an iterator ends, and finds what is in the pairs that the
-- iterator yields; that of `_jit_cache_get_bytecode` does the same with the offsets swapped.
pub queries-Yields :
    (ps : List Pair) (iter : Iter) (offset : ℕ) (exact : Bool) (prev : ℕ)
    → Yields iter ps
    → (get_native_loop (suc (length ps)) iter offset exact prev
        ≡ some (native_of ps offset exact prev))
      × (get_bytecode_loop (suc (length ps)) iter offset exact prev
          ≡ some (native_of (map swap_pair ps) offset exact prev))
unfolding get_native_loop get_bytecode_loop
queries-Yields [] iter offset exact prev (after, e) = (rw e refl, rw e refl)
queries-Yields ((o, n) ∷ ps) iter offset exact prev (after, e, rest) =
    let (native, _) = queries-Yields ps after offset exact n rest in
    let (_, bytecode) = queries-Yields ps after offset exact o rest in
    (rw e (ground (arith, native)), rw e (ground (arith, bytecode)))
