-- ===== src/Arena/Returned.antt =====
-- About src/mm/arena.c: the heap gets back all that an arena took.
use noxis.Prelude.{
  ℕ, zero, suc, ◌+◌, ◌%◌, ◌^◌, ◌≤◌, ◌≡◌, refl, ap, ◌∙◌, ◌⊎◌, inl, inr, arith, none, some, List, [],
  ◌∷◌, All,
}
use noxis.Prelude.{ltb, Bool-cases}
use noxis.Heap.{Block, kfree}
use noxis.Heap.Tiling.{IsHeap}
use noxis.Heap.FirstFit.{kmalloc-FirstFit}
use noxis.Heap.Kept.{kmalloc-IsHeap}
use noxis.Heap.Returned.{kfree-kmalloc}
use noxis.Arena.{
  Chunk, Arena, large_thresh, arena_size, with_first, with_self, arena_create, alloc_fresh,
  alloc_small, arena_alloc, emptied, arena_reset, free_chunks, arena_destroy, align4, new_arena,
  bump,
}
use noxis.Arena.Apart.{IsArena}
use noxis.Arena.Allocated.{created-IsArena}
use noxis.Arena.Chunks.{block_new_cases, alloc_nothing, alloc_small_lem}

-- The blocks of the arena, freed in order, leave the heap h, and the arena itself leaves h0.
record Frees (a : Arena) (h h0 : List Block) : Type 0 where
  pub good : IsHeap a.heap
  pub back : free_chunks a.blocks a.heap ≡ some h
  pub own : kfree a.self h ≡ some h0

bump-Frees :
    (n : ℕ) (a : Arena) (c : Chunk) (cs : List Chunk) (h h0 : List Block)
    → IsHeap a.heap
    → free_chunks (c ∷ cs) a.heap ≡ some h
    → kfree a.self h ≡ some h0
    → Frees (bump n a c cs).1 h h0
unfolding free_chunks
bump-Frees n a c cs h h0 v f o = record { good = v; back = f; own = o }

alloc_fresh-Frees :
    (n : ℕ) (a : Arena) (h h0 : List Block) → Frees a h h0 → Frees (alloc_fresh n a).1 h h0
unfolding alloc_fresh free_chunks
alloc_fresh-Frees n a h h0 f = elim (block_new_cases 0 a.heap (omega arith) f.good) [
  | inl e ↦ rw (e, alloc_fresh) (record { good = f.good; back = f.back; own = f.own })
  | inr (b, r, e, new) ↦
      let freed : free_chunks (b ∷ a.blocks) r ≡ some h = rw (new.undone, free_chunks) f.back in
      rw (e, alloc_fresh)
        (bump-Frees n (record a { n_blocks = (a.n_blocks + 1) % 2 ^ 32; heap = r }) b a.blocks h h0
          new.good freed f.own)
]

alloc_small-Frees :
    (n : ℕ) (a : Arena) (bs : List Chunk) (h h0 : List Block)
    → a.blocks ≡ bs
    → Frees a h h0
    → Frees (alloc_small n a bs).1 h h0
unfolding alloc_small
alloc_small-Frees n a [] h h0 e f = alloc_fresh-Frees n a h h0 f
alloc_small-Frees n a (c ∷ cs) h h0 e f = elim (Bool-cases (ltb c.cap ((c.used + n) % 2 ^ 32))) [
  | inl t ↦ rw (t, alloc_small) (alloc_fresh-Frees n a h h0 f)
  | inr t ↦ rw (t, alloc_small) (bump-Frees n a c cs h h0 f.good (rw e at f.back) f.own)
]

-- What a user of an arena does between its creation and its end.
pub data Use : Type 0 where
  alloc : ℕ → Use
  reset : Use

abbrev pub perform : Use → Arena → Arena
perform (alloc size) a = (arena_alloc size a).1
perform reset a = arena_reset a

abbrev pub perform_all : List Use → Arena → Arena
perform_all [] a = a
perform_all (u ∷ us) a = perform_all us (perform u a)

-- No object has a block of its own.
abbrev pub IsSmall : Use → Type 0
IsSmall (alloc size) = size ≤ large_thresh
IsSmall reset = Unit

arena_alloc-Frees :
    (size : ℕ) (a : Arena) (h h0 : List Block)
    → size ≤ large_thresh
    → Frees a h h0
    → Frees (arena_alloc size a).1 h h0
arena_alloc-Frees zero a h h0 s f = rw (alloc_nothing a) f
arena_alloc-Frees (suc n) a h h0 s f =
    rw (alloc_small_lem (suc n) a (omega arith) (ground (arith, s)))
      (alloc_small-Frees (align4 (suc n)) a a.blocks h h0 refl f)

free_chunks-emptied :
    (bs : List Chunk) (h : List Block) → free_chunks (emptied bs) h ≡ free_chunks bs h
unfolding free_chunks
free_chunks-emptied [] h = refl
free_chunks-emptied (b ∷ bs) h =
    elim (kfree b.place h)
      as (λ o.
        (elim o [ none ↦ none | some r ↦ free_chunks (emptied bs) r ])
        ≡ (elim o [ none ↦ none | some r ↦ free_chunks bs r ])) [
          | none ↦ refl
          | some r ↦ free_chunks-emptied bs r
        ]

perform-Frees :
    (u : Use) (a : Arena) (h h0 : List Block) → IsSmall u → Frees a h h0 → Frees (perform u a) h h0
unfolding arena_reset
perform-Frees (alloc size) a h h0 s f = arena_alloc-Frees size a h h0 s f
perform-Frees reset a h h0 s f = record {
  good = f.good;
  back = free_chunks-emptied a.blocks a.heap ∙ f.back;
  own = f.own;
}

perform_all-Frees :
    (us : List Use) (a : Arena) (h h0 : List Block)
    → All IsSmall us
    → Frees a h h0
    → Frees (perform_all us a) h h0
perform_all-Frees [] a h h0 s f = f
perform_all-Frees (u ∷ us) a h h0 s f =
    perform_all-Frees us (perform u a) h h0 s.1 (perform-Frees u a h h0 s.0 f)

-- The two results of arena_create.
arena_create_cases :
    (h : List Block) (m : ℕ → ℕ)
    → IsHeap h
    → (arena_create h m ≡ some (none, h))
      ⊎ ((a : Arena) × (h1 : List Block) × (arena_create h m ≡ some (some a, a.heap))
          × IsArena a
          × Frees a h1 h)
unfolding arena_create free_chunks
arena_create_cases h m v = elim (kmalloc-FirstFit arena_size h (omega arith) (omega arith)) [
  | inl (e, all) ↦ inl (ap (with_self m) e)
  | inr (p, h1, e, fit) ↦
      let good : IsHeap h1 =
        rw (ap (λ x. x.1) e) at (kmalloc-IsHeap arena_size h (omega arith) v) in
      let undone = kfree-kmalloc arena_size p h h1 v e in
      elim (block_new_cases 0 h1 (omega arith) good) [
        | inl none_left ↦
            inl (ap (with_self m) e ∙ ap (with_first p m) none_left ∙ rw (undone, with_first) refl)
        | inr (b, r, made, new) ↦ inr (
          record (new_arena p r m) { blocks = b ∷ []; n_blocks = 1 },
          h1,
          ap (with_self m) e ∙ ap (with_first p m) made,
          created-IsArena p h1 r m b good new,
          record { good = new.good; back = rw (new.undone, free_chunks) refl; own = undone },
        )
      ]
]

-- On a heap whose blocks lie one behind the other and whose free blocks are not neighbours, arena_create
-- gives NULL and leaves the heap as it was, or it gives an arena whose blocks do not overlap and lie in
-- blocks of the heap in use. Whatever allocations of at most 2048 bytes and resets of that arena follow,
-- with no other call of the heap between them and whether they succeed or fail, arena_destroy then gives
-- back exactly the heap from before arena_create.
pub arena_destroy-create :
    (h : List Block) (m : ℕ → ℕ) (us : List Use)
    → IsHeap h
    → All IsSmall us
    → (arena_create h m ≡ some (none, h))
      ⊎ ((a : Arena) × (arena_create h m ≡ some (some a, a.heap))
          × IsArena a
          × (arena_destroy (perform_all us a) ≡ some h))
unfolding arena_destroy
arena_destroy-create h m us v s = elim (arena_create_cases h m v) [
  | inl e ↦ inl e
  | inr (a, h1, e, w, f) ↦
      let g = perform_all-Frees us a h1 h s f in inr (a, e, w, rw (g.back, arena_destroy) g.own)
]
