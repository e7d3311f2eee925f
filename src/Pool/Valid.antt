-- ===== src/Pool/Valid.antt =====
-- What holds of a pool: its free list, and where its items lie.
use mathlib.Core.Path.{subst}
use mathlib.Core.List.{Perm, perm_middle, append_assoc}
use mathlib.Core.List.Perm
use libjit.Base.{
  ℕ, ◌+◌, ◌*◌, ◌≤◌, ◌≡◌, ◌≢◌, ◌⊎◌, inl, inr, refl, arith, true, false, ◌&&◌, List, [], ◌∷◌, ◌++◌,
  ltb, leb, ◌==◌, ap, sym, ◌∙◌,
}
use libjit.Pool.{Pool, Heap, store, zero_range, dealloc, release_blocks}
use libjit.Pool.Items.{
  AllDisjoint, Apart, InBlocks, AllInBlocks, Apart-front, AllInBlocks-front, BlocksApart,
}

-- The free list: from a pointer to the null pointer.
abbrev pub Chain : Heap → ℕ → List ℕ → Type 0
Chain heap p [] = p ≡ 0
Chain heap p (x ∷ xs) = (p ≡ x) × (1 ≤ x) × Chain heap (heap x) xs

abbrev pub AllOutside : ℕ → ℕ → List ℕ → Type 0
AllOutside from size [] = Unit {0}
AllOutside from size (y ∷ ys) = ((y + 8 ≤ from) ⊎ (from + size ≤ y)) × AllOutside from size ys

pub Chain-zero_range :
    (torn heap : Heap) (from size p : ℕ) (xs : List ℕ)
    → AllOutside from size xs
    → Chain heap p xs
    → Chain (zero_range torn heap from size) p xs
Chain-zero_range torn heap from size p [] out h = h
Chain-zero_range torn heap from size p (x ∷ xs) (away, out) (e, nonzero, h) =
    let inside : (leb from x && leb (x + 8) (from + size)) ≡ false = ground arith in
    let overlaps : (ltb x (from + size) && ltb from (x + 8)) ≡ false = ground arith in
    let kept : zero_range torn heap from size x ≡ heap x = rw (inside, overlaps) refl in
    (
      e,
      nonzero,
      subst (λ q. Chain (zero_range torn heap from size) q xs) (sym kept)
          (Chain-zero_range torn heap from size (heap x) xs out h),
    )

Chain-store :
    (torn heap : Heap) (address value p : ℕ) (xs : List ℕ)
    → AllOutside address 8 xs
    → Chain heap p xs
    → Chain (store torn heap address value) p xs
Chain-store torn heap address value p [] out h = h
Chain-store torn heap address value p (x ∷ xs) (away, out) (e, nonzero, h) =
    let other : (x == address) ≡ false = ground arith in
    let overlaps : (ltb x (address + 8) && ltb address (x + 8)) ≡ false = ground arith in
    let kept : store torn heap address value x ≡ heap x = rw (other, overlaps) refl in
    (
      e,
      nonzero,
      subst (λ q. Chain (store torn heap address value) q xs) (sym kept)
          (Chain-store torn heap address value (heap x) xs out h),
    )

-- Items that are apart from an item do not begin in it.
pub AllDisjoint-outside :
    (size a from bytes : ℕ) (xs ys : List ℕ)
    → 8 ≤ size
    → a ≤ from
    → from + bytes ≤ a + size
    → AllDisjoint size a (xs ++ ys)
    → AllOutside from bytes xs
AllDisjoint-outside size a from bytes [] ys some_size low high h = record {}
AllDisjoint-outside size a from bytes (x ∷ xs) ys some_size low high (away, h) = (
  elim away [ inl before ↦ inr (omega arith) | inr behind ↦ inl (omega arith) ],
  AllDisjoint-outside size a from bytes xs ys some_size low high h,
)

abbrev pub AllNonnull : List ℕ → Type 0
AllNonnull [] = Unit {0}
AllNonnull (b ∷ blocks) = (1 ≤ b) × AllNonnull blocks

InBlocks-nonnull :
    (size per_block in_last a : ℕ) (blocks : List ℕ)
    → AllNonnull blocks
    → InBlocks size per_block in_last blocks a
    → 1 ≤ a
InBlocks-nonnull size per_block in_last a [] n h = elim h [ ]
InBlocks-nonnull size per_block in_last a (b ∷ blocks) (one, n) h = elim h [
  | inl (low, high) ↦ omega (arith, low, one)
  | inr older ↦ InBlocks-nonnull size per_block per_block a blocks n older
]

-- A pool, the memory, and the items that were handed out and not given back.
pub record State : Type 0 where
  pub pool : Pool
  pub heap : Heap
  pub live : List ℕ

pub record IsValid (s : State) : Type 0 where
  pub unused : List ℕ
  pub chain : Chain s.heap s.pool.free_list unused
  pub apart : Apart s.pool.elem_size (unused ++ s.live)
  pub within :
      AllInBlocks s.pool.elem_size s.pool.elems_per_block s.pool.elems_in_last s.pool.blocks
        (unused ++ s.live)
  pub blocks : BlocksApart (s.pool.elems_per_block * s.pool.elem_size) s.pool.blocks
  pub nonnull : AllNonnull s.pool.blocks
  pub opened : (s.pool.elems_in_last ≡ s.pool.elems_per_block) ⊎ (s.pool.blocks ≢ [])
  pub bounded : s.pool.elems_in_last ≤ s.pool.elems_per_block
  pub some_size : 8 ≤ s.pool.elem_size
  pub some_items : 1 ≤ s.pool.elems_per_block
  pub all :
      Perm
        (unused ++ s.live)
        (release_blocks s.pool.elem_size s.pool.elems_per_block s.pool.elems_in_last s.pool.blocks)

abbrev pub after_dealloc : Heap → State → ℕ → List ℕ → State
after_dealloc torn s item live =
    let (pool, heap) = dealloc torn s.pool s.heap item in
    record { pool = pool; heap = heap; live = live }

-- Giving back an item that is in use keeps the pool valid.
pub dealloc-IsValid :
    (torn : Heap) (s : State) (x : ℕ) (before after : List ℕ)
    → s.live ≡ before ++ (x ∷ after)
    → IsValid s
    → IsValid (after_dealloc torn s x (before ++ after))
unfolding dealloc
dealloc-IsValid torn s x before after e v =
    let size : ℕ = s.pool.elem_size in
    let unused : List ℕ = v.unused in
    let split : unused ++ s.live ≡ (unused ++ before) ++ (x ∷ after) =
      ap (λ l. unused ++ l) e ∙ sym (append_assoc unused before (x ∷ after)) in
    let joined : (unused ++ before) ++ after ≡ unused ++ (before ++ after) =
      append_assoc unused before after in
    let apart : Apart size (x ∷ (unused ++ (before ++ after))) =
      subst (λ l. Apart size (x ∷ l)) joined
        (Apart-front size x (unused ++ before) after (subst (λ l. Apart size l) split v.apart)) in
    let In : List ℕ → Type 0 =
      AllInBlocks size s.pool.elems_per_block s.pool.elems_in_last s.pool.blocks in
    let within : In (x ∷ (unused ++ (before ++ after))) =
      subst (λ l. In (x ∷ l)) joined
        (AllInBlocks-front size s.pool.elems_per_block s.pool.elems_in_last s.pool.blocks x
          (unused ++ before) after (subst In split v.within)) in
    let (away, _) = apart in
    let (here, _) = within in
    let outside : AllOutside x 8 unused =
      AllDisjoint-outside size x x 8 unused (before ++ after) (omega (arith, v.some_size))
        (omega arith) (omega (arith, v.some_size)) away in
    let same : (x == x) ≡ true = ground arith in
    let first : store torn s.heap x s.pool.free_list x ≡ s.pool.free_list = rw same refl in
    record {
      unused = x ∷ unused;
      chain = (
        refl,
        InBlocks-nonnull size s.pool.elems_per_block s.pool.elems_in_last x s.pool.blocks v.nonnull
            here,
        subst (λ q. Chain (store torn s.heap x s.pool.free_list) q unused) (sym first)
            (Chain-store torn s.heap x s.pool.free_list s.pool.free_list unused outside v.chain),
      );
      apart = apart;
      within = within;
      blocks = v.blocks;
      nonnull = v.nonnull;
      opened = v.opened;
      bounded = v.bounded;
      some_size = v.some_size;
      some_items = v.some_items;
      all =
          Perm.trans
            (subst (λ l. Perm (x ∷ l) (unused ++ s.live)) joined
              (subst (λ l. Perm (x ∷ ((unused ++ before) ++ after)) l) (sym split)
                (Perm.symm (perm_middle (unused ++ before) after))))
            v.all;
    }

-- Writing to a word of an item that is in use keeps the pool valid.
pub store-IsValid :
    (torn : Heap) (s : State) (x address value : ℕ) (before after : List ℕ)
    → s.live ≡ before ++ (x ∷ after)
    → x ≤ address
    → address + 8 ≤ x + s.pool.elem_size
    → IsValid s
    → IsValid (record s { heap = store torn s.heap address value })
store-IsValid torn s x address value before after e low high v =
    let size : ℕ = s.pool.elem_size in
    let unused : List ℕ = v.unused in
    let split : unused ++ s.live ≡ (unused ++ before) ++ (x ∷ after) =
      ap (λ l. unused ++ l) e ∙ sym (append_assoc unused before (x ∷ after)) in
    let (away, _) =
      Apart-front size x (unused ++ before) after (subst (λ l. Apart size l) split v.apart) in
    let away' : AllDisjoint size x (unused ++ (before ++ after)) =
      subst (λ l. AllDisjoint size x l) (append_assoc unused before after) away in
    let outside : AllOutside address 8 unused =
      AllDisjoint-outside size x address 8 unused (before ++ after) (omega (arith, v.some_size)) low
        (omega arith) away' in
    record {
      unused = unused;
      chain = Chain-store torn s.heap address value s.pool.free_list unused outside v.chain;
      apart = v.apart;
      within = v.within;
      blocks = v.blocks;
      nonnull = v.nonnull;
      opened = v.opened;
      bounded = v.bounded;
      some_size = v.some_size;
      some_items = v.some_items;
      all = v.all;
    }
