-- ===== src/Pool/Alloc.antt =====
-- `_jit_memory_pool_alloc` keeps a pool valid, with one item more.
use mathlib.Core.Path.{subst}
use mathlib.Core.List.{Perm, perm_middle}
use mathlib.Core.List.Perm
use libjit.Base.{
  ℕ, suc, ◌+◌, ◌*◌, ◌≤◌, ◌<◌, ◌≡◌, ◌≢◌, ◌⊎◌, inl, inr, refl, arith, true, false, Option, none, some,
  List, [], ◌∷◌, ◌++◌, leb, ◌==◌, Bool-cases, ap, sym, ◌∙◌,
}
use libjit.Pool.{Pool, Heap, zero_range, take_from, alloc, count_down, release_blocks}
use libjit.Pool.Items.{
  AllDisjoint, Apart, AllInBlocks, Apart-middle, AllInBlocks-middle, BlocksApart, next_item,
}
use libjit.Pool.Valid.{
  Chain, AllOutside, Chain-zero_range, AllDisjoint-outside, AllNonnull, State, IsValid,
}

-- What an allocation comes to: no access through a null pointer, and either a null pointer with nothing
-- changed, or an item more that is in use.
abbrev pub Allocated : State → Option (Pool × Heap × ℕ) → Type 0
Allocated s none = ⊥
Allocated s (some (pool, heap, item)) =
    ((item ≡ 0) × (pool ≡ s.pool))
    ⊎ ((item ≢ 0) × IsValid (record { pool = pool; heap = heap; live = item ∷ s.live }))

-- A new block lies apart from the others.
abbrev pub IsFresh : ℕ → State → Type 0
IsFresh calloc s = AllDisjoint (s.pool.elems_per_block * s.pool.elem_size) calloc s.pool.blocks

count_down-add :
    (size block n : ℕ)
    → count_down size block (n + 1) ≡ (block + n * size) ∷ count_down size block n
count_down-add size block n =
    let e : n + 1 ≡ suc n = omega arith in ap (λ m. count_down size block m) e

cons≢nil : {a : ℕ} {l : List ℕ} → (a ∷ l) ≢ []
cons≢nil e = cc

-- The first free item.
reuse_IsValid :
    (torn : Heap) (s : State) (v : IsValid s) (x : ℕ) (rest : List ℕ)
    → v.unused ≡ x ∷ rest
    → IsValid (record {
      pool = record s.pool { free_list = s.heap s.pool.free_list };
      heap = zero_range torn s.heap s.pool.free_list s.pool.elem_size;
      live = s.pool.free_list ∷ s.live;
    })
reuse_IsValid torn s v x rest e =
    let size : ℕ = s.pool.elem_size in
    let (at, nonzero, tail) = subst (λ l. Chain s.heap s.pool.free_list l) e v.chain in
    let apart : Apart size (x ∷ (rest ++ s.live)) =
      subst (λ l. Apart size (l ++ s.live)) e v.apart in
    let In : List ℕ → Type 0 =
      AllInBlocks size s.pool.elems_per_block s.pool.elems_in_last s.pool.blocks in
    let within : In (x ∷ (rest ++ s.live)) = subst (λ l. In (l ++ s.live)) e v.within in
    let (away, _) = apart in
    let outside : AllOutside x size rest =
      AllDisjoint-outside size x x size rest s.live (omega (arith, v.some_size)) (omega arith)
        (omega arith) away in
    let given : IsValid (record {
      pool = record s.pool { free_list = s.heap x };
      heap = zero_range torn s.heap x size;
      live = x ∷ s.live;
    }) =
      record {
        unused = rest;
        chain = Chain-zero_range torn s.heap x size (s.heap x) rest outside tail;
        apart = Apart-middle size x rest s.live apart;
        within =
            AllInBlocks-middle size s.pool.elems_per_block s.pool.elems_in_last s.pool.blocks x rest
              s.live within;
        blocks = v.blocks;
        nonnull = v.nonnull;
        opened = v.opened;
        bounded = v.bounded;
        some_size = v.some_size;
        some_items = v.some_items;
        all = Perm.trans (perm_middle rest s.live) (
            subst
              (λ l. Perm (l ++ s.live) (
                release_blocks s.pool.elem_size s.pool.elems_per_block s.pool.elems_in_last
                  s.pool.blocks))
              e v.all);
      } in
    subst
      (λ (y : ℕ). IsValid (record {
        pool = record s.pool { free_list = s.heap y };
        heap = zero_range torn s.heap y size;
        live = y ∷ s.live;
      }))
      (sym at) given

-- The next item of the newest block.
next_IsValid :
    (pool : Pool) (heap : Heap) (live : List ℕ) (block : ℕ) (blocks : List ℕ)
    → pool.blocks ≡ block ∷ blocks
    → pool.elems_in_last < pool.elems_per_block
    → (v : IsValid (record { pool = pool; heap = heap; live = live })) → v.unused ≡ []
    → IsValid (record {
      pool = record pool { elems_in_last = pool.elems_in_last + 1 };
      heap = heap;
      live = (block + pool.elems_in_last * pool.elem_size) ∷ live;
    })
next_IsValid pool heap live block blocks e room v none_free =
    let size : ℕ = pool.elem_size in
    let per : ℕ = pool.elems_per_block in
    let used : ℕ = pool.elems_in_last in
    let within : AllInBlocks size per used (block ∷ blocks) live =
      subst (λ l. AllInBlocks size per used l live) e
        (subst (λ l. AllInBlocks size per used pool.blocks (l ++ live)) none_free v.within) in
    let (away, within') =
      next_item size per used block blocks live room
        (subst (λ l. BlocksApart (per * size) l) e v.blocks) within in
    let apart : Apart size live = subst (λ l. Apart size (l ++ live)) none_free v.apart in
    let (first, _) = subst AllNonnull e v.nonnull in
    let old : Perm live (count_down size block used ++ release_blocks size per per blocks) =
      subst (λ l. Perm live (release_blocks size per used l)) e
        (subst (λ l. Perm (l ++ live) (release_blocks size per used pool.blocks)) none_free
          v.all) in
    let item : ℕ = block + used * size in
    let more : (used + 1) * size ≡ used * size + size = omega arith in
    let taken : Perm (item ∷ live)
        (count_down size block (used + 1) ++ release_blocks size per per blocks) =
      subst (λ l. Perm (item ∷ live) (l ++ release_blocks size per per blocks))
        (sym (count_down-add size block used)) (Perm.cons item old) in
    record {
      unused = [];
      chain = subst (λ l. Chain heap pool.free_list l) none_free v.chain;
      apart = (away, apart);
      within =
          subst (λ l. AllInBlocks size per (used + 1) l (item ∷ live)) (sym e)
            (inl (omega arith, omega (arith, more)), within');
      blocks = v.blocks;
      nonnull = v.nonnull;
      opened = inr (λ none. cons≢nil (sym e ∙ none));
      bounded = omega arith;
      some_size = v.some_size;
      some_items = v.some_items;
      all = subst (λ l. Perm (item ∷ live) (release_blocks size per (used + 1) l)) (sym e) taken;
    }

in_older_blocks :
    (size per block : ℕ) (blocks items : List ℕ)
    → AllInBlocks size per per blocks items
    → AllInBlocks size per 0 (block ∷ blocks) items
in_older_blocks size per block blocks [] h = record {}
in_older_blocks size per block blocks (a ∷ items) (here, h) =
    (inr here, in_older_blocks size per block blocks items h)

-- A new block that nothing was taken from.
new_block_IsValid :
    (torn : Heap) (s : State) (calloc : ℕ) (v : IsValid s)
    → v.unused ≡ []
    → s.pool.elems_per_block ≤ s.pool.elems_in_last
    → 1 ≤ calloc
    → IsFresh calloc s
    → (n : IsValid (record {
      pool = record s.pool { blocks = calloc ∷ s.pool.blocks; elems_in_last = 0 };
      heap = zero_range torn s.heap calloc (s.pool.elem_size * s.pool.elems_per_block);
      live = s.live;
    }))
      × (n.unused ≡ [])
new_block_IsValid torn s calloc v none_free full nonnull fresh =
    let size : ℕ = s.pool.elem_size in
    let per : ℕ = s.pool.elems_per_block in
    let whole : s.pool.elems_in_last ≡ per = omega (arith, full, v.bounded) in
    (
      record {
        unused = [];
        chain = subst (λ l. Chain s.heap s.pool.free_list l) none_free v.chain;
        apart = subst (λ l. Apart size (l ++ s.live)) none_free v.apart;
        within = in_older_blocks size per calloc s.pool.blocks s.live (
            subst (λ n. AllInBlocks size per n s.pool.blocks s.live) whole
              (subst (λ l. AllInBlocks size per s.pool.elems_in_last s.pool.blocks (l ++ s.live))
                none_free v.within));
        blocks = (fresh, v.blocks);
        nonnull = (nonnull, v.nonnull);
        opened = inr (λ none. cons≢nil none);
        bounded = omega arith;
        some_size = v.some_size;
        some_items = v.some_items;
        all =
            subst (λ n. Perm s.live (release_blocks size per n s.pool.blocks)) whole
              (subst
                (λ l. Perm (l ++ s.live) (
                  release_blocks s.pool.elem_size s.pool.elems_per_block s.pool.elems_in_last
                    s.pool.blocks))
                none_free v.all);
      },
      refl,
    )

Chain-cases :
    (heap : Heap) (p : ℕ) (xs : List ℕ)
    → Chain heap p xs
    → ((p ≡ 0) × (xs ≡ [])) ⊎ ((p ≢ 0) × ((x : ℕ) × (rest : List ℕ) × (xs ≡ x ∷ rest)))
Chain-cases heap p [] h = inl (h, refl)
Chain-cases heap p (x ∷ xs) (e, nonzero, h) = inr (λ z. omega (arith, z, e, nonzero), (x, xs, refl))

take_from-Allocated :
    (s : State) (pool : Pool) (heap : Heap) (blocks : List ℕ)
    → pool.blocks ≡ blocks
    → (blocks ≢ [])
    → pool.elems_in_last < pool.elems_per_block
    → (v : IsValid (record { pool = pool; heap = heap; live = s.live })) → v.unused ≡ []
    → Allocated s (take_from pool heap blocks)
take_from-Allocated s pool heap [] e some_block room v none_free = absurd (some_block refl)
take_from-Allocated s pool heap (b ∷ blocks) e some_block room v none_free =
    let (first, _) = subst AllNonnull e v.nonnull in
    inr (λ z. omega (arith, z, first), next_IsValid pool heap s.live b blocks e room v none_free)

-- `_jit_memory_pool_alloc` never follows a null pointer in a valid pool, whether there is a free item, room
-- in the newest block, or a new block, which lies apart from the others: it gives a null pointer and
-- leaves the pool as it was, or an item that overlaps none of the items in use, and the pool with
-- it is valid.
pub alloc-Allocated :
    (torn : Heap) (calloc : ℕ) (s : State)
    → IsValid s
    → IsFresh calloc s
    → Allocated s (alloc torn calloc s.pool s.heap)
unfolding alloc
alloc-Allocated torn calloc s v fresh =
    elim (Chain-cases s.heap s.pool.free_list v.unused v.chain) [
      | inr (some_free, (x, rest, e)) ↦
          let used : (s.pool.free_list == 0) ≡ false = ground (arith, some_free) in
          rw (alloc, used) (inr (some_free, reuse_IsValid torn s v x rest e))
      | inl (null, none_free) ↦
          let empty : (s.pool.free_list == 0) ≡ true = ground arith in
          elim (Bool-cases (leb s.pool.elems_per_block s.pool.elems_in_last)) [
            | inr room ↦
                rw (alloc, empty, room)
                  (take_from-Allocated s s.pool s.heap s.pool.blocks refl
                    (elim v.opened [
                      | inl whole ↦ absurd (ground arith)
                      | inr some_block ↦ some_block
                    ])
                    (ground arith) v none_free)
            | inl full ↦ elim (Bool-cases (calloc == 0)) [
              | inl no_memory ↦ rw (alloc, empty, full, no_memory) (inl (refl, refl))
              | inr found ↦
                  let (n, nothing) =
                    new_block_IsValid torn s calloc v none_free (ground arith) (ground arith)
                      fresh in
                  rw (alloc, empty, full, found)
                    (take_from-Allocated s
                      (record s.pool { blocks = calloc ∷ s.pool.blocks; elems_in_last = 0 })
                      (zero_range torn s.heap calloc (s.pool.elem_size * s.pool.elems_per_block))
                      (calloc ∷ s.pool.blocks) refl (λ e. cons≢nil e) (omega (arith, v.some_items))
                      n nothing)
            ]
          ]
    ]
