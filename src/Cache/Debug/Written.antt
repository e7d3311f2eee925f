-- ===== src/Cache/Debug/Written.antt =====
-- Writing debug information: what the blocks and the buffer hold, and that it is read back.
use mathlib.Core.Path.{subst}
use mathlib.Core.List.{append_assoc, append-nil}
use libjit.Base.{
  ℕ, ◌+◌, ◌*◌, ◌^◌, ◌≤◌, ◌<◌, ◌≡◌, ◌⊎◌, inl, inr, refl, arith, List, [], ◌∷◌, ◌++◌, ltb, length,
  length-append, ap, sym, ◌∙◌, Bool-cases, Option-cases,
}
use libjit.Base.Int.{ℤ, pos, negsuc}
use libjit.Cache.{Posn, alloc}
use libjit.Cache.Alloc.{full_of_none, full_of_full}
use libjit.Cache.Encoding.{compress_int}
use libjit.Cache.Encoding.Roundtrip.{length-compress_int}
use libjit.Cache.Debug.{Debug, flush, write, debug_size, header_size}
use libjit.Cache.Debug.Iterate.{Pair, AllSmall, encode}

-- `WriteCacheDebug` for each pair in turn.
unfoldable pub write_all : ℕ → Debug → List Pair → Debug
write_all align debug [] = debug
write_all align debug ((o, n) ∷ ps) = write_all align (write align debug (pos o) (pos n)) ps

abbrev pub marker : List ℕ
marker = compress_int (negsuc 1)

-- The data of the blocks, and all the pairs in them.
abbrev pub block_data : List (List Pair) → List (List ℕ)
block_data [] = []
block_data (ps ∷ chunks) = (encode ps ++ marker) ∷ block_data chunks

abbrev pub all_pairs : List (List Pair) → List Pair
all_pairs [] = []
all_pairs (ps ∷ chunks) = ps ++ all_pairs chunks

abbrev pub AllFit : List (List Pair) → Type 0
AllFit [] = Unit {0}
AllFit (ps ∷ chunks) = AllSmall ps × (length (encode ps ++ marker) ≤ debug_size) × AllFit chunks

abbrev pub IsFull : Posn → Type 0
IsFull posn = posn.limit ≤ posn.ptr

-- The blocks end with a mark each, and with what is in the buffer they hold the pairs.
pub record Holds (debug : Debug) (ps : List Pair) : Type 0 where
  pub chunks : List (List Pair)
  pub last : List Pair
  pub blocks : debug.blocks ≡ block_data chunks
  pub buffer : debug.buffer ≡ encode last
  pub pairs : ps ≡ all_pairs chunks ++ last
  pub fit : AllFit chunks
  pub small : AllSmall last
  pub room : length debug.buffer + 11 ≤ debug_size

AllSmall-append : (ps qs : List Pair) → AllSmall ps → AllSmall qs → AllSmall (ps ++ qs)
AllSmall-append [] qs hp hq = hq
AllSmall-append ((o, n) ∷ ps) qs (so, sn, hp) hq = (so, sn, AllSmall-append ps qs hp hq)

encode-append : (ps qs : List Pair) → encode (ps ++ qs) ≡ encode ps ++ encode qs
encode-append [] qs = refl
encode-append ((o, n) ∷ ps) qs = simp (encode-append ps qs, append_assoc)

block_data-append : (a b : List (List Pair)) → block_data (a ++ b) ≡ block_data a ++ block_data b
block_data-append [] b = refl
block_data-append (ps ∷ a) b = simp (block_data-append a b)

all_pairs-append : (a b : List (List Pair)) → all_pairs (a ++ b) ≡ all_pairs a ++ all_pairs b
all_pairs-append [] b = refl
all_pairs-append (ps ∷ a) b = simp (all_pairs-append a b, append_assoc)

AllFit-append : (a b : List (List Pair)) → AllFit a → AllFit b → AllFit (a ++ b)
AllFit-append [] b ha hb = hb
AllFit-append (ps ∷ a) b (s, f, ha) hb = (s, f, AllFit-append a b ha hb)

-- Flushing either fills the cache, or moves the buffer to a block of its own.
pub flush-cases :
    (align : ℕ) (debug : Debug)
    → IsFull (flush align debug).posn
      ⊎ (((flush align debug).buffer ≡ [])
          × ((flush align debug).blocks ≡ debug.blocks ++ (debug.buffer ∷ [])))
unfolding flush
flush-cases align debug =
    let size : ℕ = header_size + length debug.buffer in
    elim (Option-cases ((alloc align debug.posn size).1)) [
      | inl none_left ↦ inl (rw (none_left, flush) (full_of_none align size debug.posn none_left))
      | inr (block, e) ↦ inr (rw (e, flush) (refl, refl))
    ]

pub flush_empty : (align : ℕ) (debug : Debug) → (flush align debug).buffer ≡ []
unfolding flush
flush_empty align debug =
    elim (Option-cases ((alloc align debug.posn (header_size + length debug.buffer)).1)) [
      | inl none_left ↦ rw (none_left, flush) refl
      | inr (block, e) ↦ rw (e, flush) refl
    ]

-- A cache that is full stays so.
pub flush-IsFull : (align : ℕ) (debug : Debug) → IsFull debug.posn → IsFull (flush align debug).posn
unfolding flush
flush-IsFull align debug full =
    let size : ℕ = header_size + length debug.buffer in
    let fuller = full_of_full align size debug.posn full (omega arith) in
    elim (Option-cases ((alloc align debug.posn size).1)) [
      | inl none_left ↦ rw (none_left, flush) fuller
      | inr (block, e) ↦ rw (e, flush) fuller
    ]

pub write-IsFull :
    (align : ℕ) (debug : Debug) (o n : ℤ) → IsFull debug.posn → IsFull (write align debug o n).posn
unfolding write
write-IsFull align debug o n full =
    let buffer : List ℕ = (debug.buffer ++ compress_int o) ++ compress_int n in
    elim (Bool-cases (ltb debug_size (length buffer + 5 * 2 + 1))) [
      | inl over ↦
          rw (over, write) (flush-IsFull align (record debug { buffer = buffer ++ marker }) full)
      | inr within ↦ rw (within, write) full
    ]

-- The buffer with one pair more is what the pairs with that one encode to.
encode_snoc :
    (ps : List Pair) (o n : ℕ)
    → (encode ps ++ compress_int (pos o)) ++ compress_int (pos n) ≡ encode (ps ++ ((o, n) ∷ []))
encode_snoc ps o n =
    append_assoc (encode ps) (compress_int (pos o)) (compress_int (pos n))
    ∙ sym (encode-append ps ((o, n) ∷ []) ∙ simp (append-nil))

pub length_marks : (length marker ≡ 1) × (length (compress_int (negsuc 0)) ≡ 1)
unfolding compress_int
length_marks = (refl, refl)

-- A pair takes at most ten bytes of the buffer.
pub length_pair :
    (buffer : List ℕ) (o n : ℤ)
    → length ((buffer ++ compress_int o) ++ compress_int n) ≤ length buffer + 10
length_pair buffer o n =
    let (_, long_o) = length-compress_int o in
    let (_, long_n) = length-compress_int n in
    omega (
      arith,
      length-append (buffer ++ compress_int o) (compress_int n),
      length-append buffer (compress_int o),
    )

module _ {debug : Debug} {ps : List Pair} (h : Holds debug ps) (o n : ℕ) where
  abbrev taken : List Pair
  taken = h.last ++ ((o, n) ∷ [])

  taken-kept : (debug.buffer ++ compress_int (pos o)) ++ compress_int (pos n) ≡ encode taken
  taken-kept =
      ap (λ x. (x ++ compress_int (pos o)) ++ compress_int (pos n)) h.buffer
      ∙ encode_snoc h.last o n

  taken-pairs : ps ++ ((o, n) ∷ []) ≡ all_pairs h.chunks ++ taken
  taken-pairs =
      ap (λ x. x ++ ((o, n) ∷ [])) h.pairs ∙ append_assoc (all_pairs h.chunks) h.last ((o, n) ∷ [])

write-Holds :
    (align : ℕ) (debug : Debug) (ps : List Pair) (o n : ℕ)
    → o < 2 ^ 28
    → n < 2 ^ 28
    → Holds debug ps
    → IsFull (write align debug (pos o) (pos n)).posn
      ⊎ Holds (write align debug (pos o) (pos n)) (ps ++ ((o, n) ∷ []))
unfolding write
write-Holds align debug ps o n so sn h =
    let buffer : List ℕ = (debug.buffer ++ compress_int (pos o)) ++ compress_int (pos n) in
    let last : List Pair = h.last ++ ((o, n) ∷ []) in
    let small : AllSmall last = AllSmall-append h.last ((o, n) ∷ []) h.small (so, sn, record {}) in
    let kept : buffer ≡ encode last = taken-kept h o n in
    let grown : length buffer ≤ length debug.buffer + 10 =
      length_pair debug.buffer (pos o) (pos n) in
    let (one, _) = length_marks in
    let fits : length (encode last ++ marker) ≤ debug_size =
      subst (λ x. length (x ++ marker) ≤ debug_size) kept
        (omega (arith, length-append buffer marker)) in
    elim (Bool-cases (ltb debug_size (length buffer + 5 * 2 + 1))) [
      | inl over ↦ elim (flush-cases align (record debug { buffer = buffer ++ marker })) [
        | inl full ↦ rw (over, write) (inl full)
        | inr (empty, moved) ↦
            rw (over, write)
              (inr (record {
                chunks = h.chunks ++ (last ∷ []);
                last = [];
                blocks =
                    moved
                    ∙ ap (λ x. x ++ ((buffer ++ marker) ∷ [])) h.blocks
                    ∙ ap (λ x. block_data h.chunks ++ ((x ++ marker) ∷ [])) kept
                    ∙ sym (block_data-append h.chunks (last ∷ []));
                buffer = empty;
                pairs = taken-pairs h o n ∙ simp (all_pairs-append, append-nil);
                fit = AllFit-append h.chunks (last ∷ []) h.fit (small, fits, record {});
                small = record {};
                room = rw empty (omega arith);
              }))
      ]
      | inr within ↦
          rw (within, write)
            (inr (record {
              chunks = h.chunks;
              last = last;
              blocks = h.blocks;
              buffer = kept;
              pairs = taken-pairs h o n;
              fit = h.fit;
              small = small;
              room = ground arith;
            }))
    ]

pub write_all-Holds :
    (align : ℕ) (ps : List Pair) (debug : Debug) (before : List Pair)
    → AllSmall ps
    → IsFull debug.posn ⊎ Holds debug before
    → IsFull (write_all align debug ps).posn ⊎ Holds (write_all align debug ps) (before ++ ps)
unfolding write_all
write_all-Holds align [] debug before small h = rw (append-nil) h
write_all-Holds align ((o, n) ∷ ps) debug before (so, sn, small) h =
    let after = write align debug (pos o) (pos n) in
    let here : IsFull after.posn ⊎ Holds after (before ++ ((o, n) ∷ [])) = elim h [
      | inl full ↦ inl (write-IsFull align debug (pos o) (pos n) full)
      | inr holds ↦ write-Holds align debug before o n so sn holds
    ] in
    subst (λ x. IsFull (write_all align after ps).posn ⊎ Holds (write_all align after ps) x)
      (append_assoc before ((o, n) ∷ []) ps)
      (write_all-Holds align ps after (before ++ ((o, n) ∷ [])) small here)
