-- ===== src/Cache/Debug/Readback.antt =====
-- Debug information is read back: what `WriteCacheDebug` was given is what the iterator yields.
use mathlib.Core.Path.{subst}
use mathlib.Core.List.{append_assoc, append-nil}
use libjit.Base.{
  ℕ, ◌+◌, ◌-◌, ◌*◌, ◌≤◌, ◌<◌, ◌≡◌, ◌⊎◌, inl, inr, refl, arith, true, false, ◌&&◌, none, some, List,
  [], ◌∷◌, ◌++◌, ltb, ◌==◌, if◌then◌else◌, length, length-append, ap, sym, ◌∙◌, Bool-cases,
}
use libjit.Base.Int.{pos, negsuc}
use libjit.Cache.{Posn}
use libjit.Cache.Encoding.{Reader, compress_int}
use libjit.Cache.Encoding.Roundtrip.{length-compress_int}
use libjit.Cache.Debug.{Debug, Iter, flush, write, finish, init_iter, get_next, debug_size}
use libjit.Cache.Debug.Iterate.{Pair, Yields, AllSmall, encode, encode-Yields, end_step, next_step}
use libjit.Cache.Debug.Written.{
  write_all, marker, block_data, all_pairs, AllFit, IsFull, Holds, flush-cases, flush-IsFull,
  length_marks, write-IsFull, write_all-Holds, flush_empty,
}

-- A method's debug information from its start to its end.
abbrev pub close_debug : ℕ → Posn → List Pair → Debug
close_debug align posn ps =
    finish align (write_all align (record { buffer = []; blocks = []; posn = posn }) ps)

abbrev start_iter : List ℕ → List (List ℕ) → Iter
start_iter block list = record {
  list = block ∷ list;
  reader = record { bytes = block; len = debug_size; error = false };
}

abbrev mark : List ℕ
mark = compress_int (negsuc 0)

abbrev at_marker : List ℕ → List (List ℕ) → ℕ → Iter
at_marker block list left = record {
  list = block ∷ list;
  reader = record { bytes = marker; len = left; error = false };
}

Yields-same :
    (a b : Iter) (qs : List Pair)
    → get_next a.list a.reader ≡ get_next b.list b.reader
    → Yields b qs
    → Yields a qs
Yields-same a b [] e (after, h) = (after, e ∙ h)
Yields-same a b (q ∷ qs) e (after, h, rest) = (after, e ∙ h, rest)

-- A block that ends the information.
last-Yields :
    (ps : List Pair) (rest : List ℕ) (list : List (List ℕ))
    → AllSmall ps
    → length (encode ps) + 1 ≤ debug_size
    → Yields (start_iter (encode ps ++ (mark ++ rest)) list) ps
last-Yields ps rest list small fits =
    let (_, one) = length_marks in
    subst (λ x. Yields (start_iter (encode ps ++ (mark ++ rest)) list) x) (append-nil ps)
      (encode-Yields (encode ps ++ (mark ++ rest)) list ps [] (mark ++ rest) debug_size false small
        (omega arith)
        (end_step (encode ps ++ (mark ++ rest)) list rest (debug_size - length (encode ps)) false
          (omega (arith, one))))

-- Blocks that lead to each other.
chain-Yields :
    (chunks : List (List Pair)) (ps : List Pair) (final : List ℕ)
    → AllFit chunks
    → Yields (start_iter final []) ps
    → (block : List ℕ) × (list : List (List ℕ)) × (block_data chunks ++ (final ∷ []) ≡ block ∷ list)
      × Yields (start_iter block list) (all_pairs chunks ++ ps)
chain-Yields [] ps final fit y = (final, [], refl, y)
chain-Yields (c ∷ chunks) ps final (small, fits, fit) y =
    let (next, list', e, rest) = chain-Yields chunks ps final fit y in
    let list : List (List ℕ) = block_data chunks ++ (final ∷ []) in
    let block : List ℕ = encode c ++ marker in
    let (one, _) = length_marks in
    let left : ℕ = debug_size - length (encode c) in
    let room : length (compress_int (negsuc 1)) ≤ left =
      omega (arith, one, length-append (encode c) marker) in
    let step = next_step block list next list' [] left false e room in
    (
      block,
      list,
      refl,
      subst (λ x. Yields (start_iter block list) x) (sym (append_assoc c (all_pairs chunks) ps))
          (encode-Yields block list c (all_pairs chunks ++ ps) marker debug_size false small
            (omega (arith, length-append (encode c) marker))
            (Yields-same (at_marker block list left)
              (record {
                list = list;
                reader = record { bytes = next; len = debug_size; error = false };
              })
              (all_pairs chunks ++ ps)
              (ap (λ x. get_next (block ∷ list) (record { bytes = x; len = left; error = false }))
                  (sym (append-nil marker))
                ∙ step)
              (subst
                (λ x.
                  Yields
                    (record {
                      list = x;
                      reader = record { bytes = next; len = debug_size; error = false };
                    })
                    (all_pairs chunks ++ ps))
                (sym e) rest))),
    )

finish-IsFull : (align : ℕ) (debug : Debug) → IsFull debug.posn → IsFull (finish align debug).posn
unfolding finish
finish-IsFull align debug full =
    let after = write-IsFull align debug (negsuc 0) (negsuc 0) full in
    let flushed = flush-IsFull align (write align debug (negsuc 0) (negsuc 0)) after in
    elim (Bool-cases (length debug.blocks == 0 && length debug.buffer == 0)) [
      | inl e ↦ rw (e, finish) full
      | inr e ↦ elim (Bool-cases (length (write align debug (negsuc 0) (negsuc 0)).buffer == 0)) [
        | inl f ↦ rw (e, f, finish) after
        | inr f ↦ rw (e, f, finish) flushed
      ]
    ]

-- The end mark, and the mark behind it that a full buffer gets.
abbrev closing : Debug → List ℕ
closing debug =
    let both = (debug.buffer ++ mark) ++ mark in
    if ltb debug_size (length both + 5 * 2 + 1) then both ++ marker else both

finish-flush :
    (align : ℕ) (debug : Debug)
    → (length debug.blocks == 0 && length debug.buffer == 0) ≡ false
    → finish align debug ≡ flush align (record debug { buffer = closing debug })
unfolding finish write
finish-flush align debug some_debug =
    let both : List ℕ = (debug.buffer ++ mark) ++ mark in
    let (_, one) = length_marks in
    let long : length both ≡ length debug.buffer + 2 =
      omega
        (arith, one, length-append (debug.buffer ++ mark) mark, length-append debug.buffer mark) in
    elim (Bool-cases (ltb debug_size (length both + 5 * 2 + 1))) [
      | inl over ↦
          let empty = flush_empty align (record debug { buffer = both ++ marker }) in
          rw (some_debug, finish, over, write, empty) refl
      | inr within ↦
          let nonempty : (length both == 0) ≡ false = ground (arith, long) in
          rw (some_debug, finish, within, write, nonempty) refl
    ]

closing_marked :
    (debug : Debug) → (rest : List ℕ) × (closing debug ≡ debug.buffer ++ (mark ++ rest))
closing_marked debug =
    elim (Bool-cases (ltb debug_size (length ((debug.buffer ++ mark) ++ mark) + 5 * 2 + 1))) [
      | inl over ↦ (mark ++ marker, rw over (simp (append_assoc)))
      | inr within ↦ (mark, rw within (append_assoc debug.buffer mark mark))
    ]

-- The blocks that the end of a method leaves.
finish-cases :
    (align : ℕ) (debug : Debug)
    → (length debug.blocks == 0 && length debug.buffer == 0) ≡ false
    → IsFull (finish align debug).posn
      ⊎ ((rest : List ℕ) × ((finish align debug).blocks
            ≡ debug.blocks ++ ((debug.buffer ++ (mark ++ rest)) ∷ [])))
finish-cases align debug some_debug =
    let (rest, e) = closing_marked debug in
    let flushed = sym (finish-flush align debug some_debug) in
    elim (flush-cases align (record debug { buffer = closing debug })) [
      | inl full ↦ inl (subst (λ x. IsFull x.posn) flushed full)
      | inr (empty, moved) ↦ inr (
        rest,
        subst (λ x. x.blocks ≡ debug.blocks ++ ((debug.buffer ++ (mark ++ rest)) ∷ [])) flushed
            (moved ∙ ap (λ x. debug.blocks ++ (x ∷ [])) e),
      )
    ]

encode_none : (ps : List Pair) → length (encode ps) ≡ 0 → ps ≡ []
encode_none [] e = refl
encode_none ((o, n) ∷ ps) e =
    let (long, _) = length-compress_int (pos o) in
    absurd (
      omega
        (arith, e, long, length-append (compress_int (pos o)) (compress_int (pos n) ++ encode ps)))

chunks_none : (chunks : List (List Pair)) → length (block_data chunks) ≡ 0 → chunks ≡ []
chunks_none [] e = refl
chunks_none (c ∷ chunks) e = absurd (ground (arith, e))

-- Nothing was written.
Holds-nothing :
    (debug : Debug) (ps : List Pair)
    → Holds debug ps
    → (length debug.blocks == 0 && length debug.buffer == 0) ≡ true
    → (debug.blocks ≡ []) × (ps ≡ [])
Holds-nothing debug ps h e =
    let no_blocks : length debug.blocks ≡ 0 = ground (arith, e) in
    let no_bytes : length debug.buffer ≡ 0 = ground (arith, e) in
    let chunks : h.chunks ≡ [] =
      chunks_none h.chunks (sym (ap (λ x. length x) h.blocks) ∙ no_blocks) in
    let last : h.last ≡ [] = encode_none h.last (sym (ap (λ x. length x) h.buffer) ∙ no_bytes) in
    (h.blocks ∙ ap block_data chunks, h.pairs ∙ ap (λ x. all_pairs x ++ h.last) chunks ∙ last)

finish_nothing :
    (align : ℕ) (debug : Debug)
    → (length debug.blocks == 0 && length debug.buffer == 0) ≡ true
    → finish align debug ≡ debug
unfolding finish
finish_nothing align debug e = rw (e, finish) refl

nothing_next :
    (reader : Reader) → get_next [] reader ≡ some (record { list = []; reader = reader }, none)
unfolding get_next
nothing_next reader = refl

finish-Yields :
    (align : ℕ) (debug : Debug) (ps : List Pair) (reader : Reader)
    → Holds debug ps
    → (finish align debug).posn.ptr < (finish align debug).posn.limit
    → Yields (init_iter (finish align debug).blocks reader) ps
finish-Yields align debug ps reader h room =
    elim (Bool-cases (length debug.blocks == 0 && length debug.buffer == 0)) [
      | inl nothing ↦
          let (none_left, empty) = Holds-nothing debug ps h nothing in
          subst (λ x. Yields (init_iter (finish align debug).blocks reader) x) (sym empty)
            (rw (finish_nothing align debug nothing, none_left)
              (record { list = []; reader = reader }, nothing_next reader))
      | inr some_debug ↦ elim (finish-cases align debug some_debug) [
        | inl full ↦ absurd (omega (arith, full, room))
        | inr (rest, moved) ↦
            let final : List ℕ = encode h.last ++ (mark ++ rest) in
            let (block, list, e, y) = chain-Yields h.chunks h.last final h.fit (
              last-Yields h.last rest [] h.small
                (subst (λ x. length x + 1 ≤ debug_size) h.buffer (omega (arith, h.room)))) in
            subst (λ x. Yields (init_iter x reader) ps)
              (sym (
                moved
                ∙ ap (λ x. debug.blocks ++ ((x ++ (mark ++ rest)) ∷ [])) h.buffer
                ∙ ap (λ x. x ++ (final ∷ [])) h.blocks
                ∙ e))
              (subst (λ x. Yields (start_iter block list) x) (sym h.pairs) y)
      ]
    ]

-- Where the pairs of a method are below `2 ^ 28` and there is room when the method ends, the iterator
-- yields the pairs that were written, in order, and ends behind them, however they were spread over
-- blocks.
pub debug_roundtrip :
    (align : ℕ) (posn : Posn) (ps : List Pair) (reader : Reader)
    → AllSmall ps
    → (close_debug align posn ps).posn.ptr < (close_debug align posn ps).posn.limit
    → Yields (init_iter (close_debug align posn ps).blocks reader) ps
debug_roundtrip align posn ps reader small room =
    let start : Debug = record { buffer = []; blocks = []; posn = posn } in
    let holds : Holds start [] = record {
      chunks = [];
      last = [];
      blocks = refl;
      buffer = refl;
      pairs = refl;
      fit = record {};
      small = record {};
      room = omega arith;
    } in
    elim (write_all-Holds align ps start [] small (inr holds)) [
      | inl full ↦ absurd (omega (arith, room, finish-IsFull align (write_all align start ps) full))
      | inr h ↦ finish-Yields align (write_all align start ps) ps reader h room
    ]
