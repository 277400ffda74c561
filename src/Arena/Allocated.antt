-- ===== src/Arena/Allocated.antt =====
-- About arena_alloc of src/mm/arena.c as a whole.
use noxis.Prelude.{
  ℕ, ◌+◌, ◌%◌, ◌^◌, ◌<◌, ◌≤◌, ◌≡◌, refl, sym, ap, ◌⊎◌, inl, inr, arith, none, some, List, [], ◌∷◌,
  All,
}
use noxis.Prelude.{ltb, Bool-cases}
use noxis.Heap.{Block}
use noxis.Heap.Tiling.{IsHeap}
use noxis.Arena.{
  Chunk, Arena, large_thresh, data_of, align4, behind_head, with_large, alloc_large, bump,
  alloc_small, arena_alloc, emptied, arena_reset, new_arena,
}
use noxis.Arena.Chunks.{NewChunk, block_new_cases, alloc_small_lem, alloc_large_lem}
use noxis.Arena.Apart.{
  Fits, Disjoint, AllDisjoint, IsArena, Inside, Allocates, extended, cap-lt, bump-Allocates,
  alloc_fresh-Allocates, zero_bytes_in, zero_bytes_out, All-map2,
}

Disjoint-sym : (c d : Chunk) → Disjoint c d → Disjoint d c
Disjoint-sym c d (inl l) = inr l
Disjoint-sym c d (inr l) = inl l

All-behind_head :
    (P : Chunk → Type 0) (b : Chunk) (cs : List Chunk) → P b → All P cs → All P (behind_head b cs)
All-behind_head P b [] p a = (p, tt)
All-behind_head P b (c ∷ cs) p a = (a.0, (p, a.1))

Disjoint-behind_head :
    (b : Chunk) (cs : List Chunk)
    → All (Disjoint b) cs
    → AllDisjoint cs
    → AllDisjoint (behind_head b cs)
Disjoint-behind_head b [] d a = (tt, tt)
Disjoint-behind_head b (c ∷ cs) d a = ((Disjoint-sym b c d.0, a.0), (d.1, a.1))

Inside-behind_head :
    (n p : ℕ) (b : Chunk) (cs : List Chunk)
    → ((data_of b ≤ p) × (p + n ≤ data_of b + b.used)) ⊎ Inside n p cs
    → Inside n p (behind_head b cs)
Inside-behind_head n p b [] (inl i) = inl i
Inside-behind_head n p b [] (inr i) = absurd i
Inside-behind_head n p b (c ∷ cs) (inl i) = inr (inl i)
Inside-behind_head n p b (c ∷ cs) (inr (inl i)) = inl i
Inside-behind_head n p b (c ∷ cs) (inr (inr i)) = inr (inr i)

alloc_large-Allocates :
    (n : ℕ) (a : Arena)
    → n + 16 < 2 ^ 32
    → IsArena a
    → (alloc_large n a ≡ (none, a))
      ⊎ ((p : ℕ) × (a' : Arena) × (alloc_large n a ≡ (some p, a')) × Allocates n p a a')
unfolding alloc_large
alloc_large-Allocates n a s v = elim (block_new_cases n a.heap s v.good) [
  | inl e ↦ inl (ap (with_large n a) e)
  | inr (b, r, e, new) ↦
      let x = extended n a r b v new in
      let full : Chunk = record b { used = n } in
      inr (
        data_of b,
        (with_large n a (some b, r)).1,
        ap (with_large n a) e,
        record {
          keeps = record {
            good = x.good;
            fits =
                All-behind_head (Fits r) full a.blocks
                  (record { in_use = x.in_use; used_le = new.room }) x.old;
            disjoint = Disjoint-behind_head full a.blocks x.apart v.disjoint;
          };
          all_clear =
              All-map2 a.blocks
                (λ c f. elim f.0 [
                  | inl l ↦ inl (omega (arith, l, new.room))
                  | inr l ↦ inr (omega (arith, l, f.1.used_le))
                ])
                x.apart v.fits;
          inside = Inside-behind_head n (data_of b) full a.blocks (inl (omega arith, omega arith));
          kept = λ m q u. Inside-behind_head m q full a.blocks (inr u);
          zeroed = λ i o. zero_bytes_in n (data_of b) i a.bytes o;
          same = λ j o. zero_bytes_out n (data_of b) a.bytes j o;
        },
      )
]

alloc_small-Allocates :
    (n : ℕ) (a : Arena) (bs : List Chunk)
    → n ≤ large_thresh
    → a.blocks ≡ bs
    → IsArena a
    → (alloc_small n a bs ≡ (none, a))
      ⊎ ((p : ℕ) × (a' : Arena) × (alloc_small n a bs ≡ (some p, a')) × Allocates n p a a')
unfolding alloc_small
alloc_small-Allocates n a [] s e v = alloc_fresh-Allocates n a s v
alloc_small-Allocates n a (c ∷ cs) s e v = elim (Bool-cases (ltb c.cap ((c.used + n) % 2 ^ 32))) [
  | inl t ↦ rw (t, alloc_small) (alloc_fresh-Allocates n a s v)
  | inr t ↦
      let same : record a { blocks = c ∷ cs } ≡ a = ap (λ l. record a { blocks = l }) (sym e) in
      let w : IsArena (record a { blocks = c ∷ cs }) = rw (same) v in
      let size = cap-lt a.heap c w.good w.fits.0 in
      let room : c.used + n ≤ c.cap = ground (arith, t, size, s, w.fits.0.used_le) in
      let y = bump-Allocates n a c cs w room in
      inr (data_of c + c.used, (bump n a c cs).1, rw (t, alloc_small) refl, rw same at y)
]

-- On an arena in which no two blocks overlap and each lies in a block of the heap that is in use,
-- arena_alloc of a count from 1 to 2^32 - 21 gives NULL and changes nothing, or it gives as many bytes
-- as the count rounded up to a multiple of 4, all of them 0: they overlap no header of a block and
-- nothing that a block handed out before, they are in a block, what was handed out before still is, no
-- other byte of the data changes, and the arena is again such an arena.
pub arena_alloc-Allocates :
    (size : ℕ) (a : Arena)
    → 0 < size
    → size + 20 < 2 ^ 32
    → IsArena a
    → (arena_alloc size a ≡ (none, a))
      ⊎ ((p : ℕ) × (a' : Arena) × (arena_alloc size a ≡ (some p, a'))
          × Allocates (align4 size) p a a')
arena_alloc-Allocates size a l s v = elim (Bool-cases (ltb large_thresh (align4 size))) [
  | inl t ↦
      rw (alloc_large_lem size a l (ground (arith, t)))
        (alloc_large-Allocates (align4 size) a (omega (arith, s)) v)
  | inr t ↦
      let small : align4 size ≤ large_thresh = ground (arith, t) in
      rw (alloc_small_lem size a l small)
        (alloc_small-Allocates (align4 size) a a.blocks small refl v)
]

-- arena_create gives such an arena.
pub created-IsArena :
    (p : ℕ) (h r : List Block) (m : ℕ → ℕ) (b : Chunk)
    → IsHeap h
    → NewChunk 0 h r b
    → IsArena (record (new_arena p r m) { blocks = b ∷ []; n_blocks = 1 })
created-IsArena p h r m b v new =
    let x = extended 0 (new_arena p h m) r b (record { good = v; fits = tt; disjoint = tt }) new in
    record {
      good = new.good;
      fits = (record { in_use = x.in_use; used_le = omega (arith, new.empty) }, tt);
      disjoint = (tt, tt);
    }

emptied-Fits : (h : List Block) (cs : List Chunk) → All (Fits h) cs → All (Fits h) (emptied cs)
emptied-Fits h [] f = tt
emptied-Fits h (c ∷ cs) f =
    (record { in_use = f.0.in_use; used_le = omega arith }, emptied-Fits h cs f.1)

Disjoint-emptied :
    (c : Chunk) (cs : List Chunk) → All (Disjoint c) cs → All (Disjoint c) (emptied cs)
Disjoint-emptied c [] d = tt
Disjoint-emptied c (x ∷ xs) d = (d.0, Disjoint-emptied c xs d.1)

emptied-AllDisjoint : (cs : List Chunk) → AllDisjoint cs → AllDisjoint (emptied cs)
emptied-AllDisjoint [] d = tt
emptied-AllDisjoint (c ∷ cs) d = (Disjoint-emptied c cs d.0, emptied-AllDisjoint cs d.1)

pub arena_reset-IsArena : (a : Arena) → IsArena a → IsArena (arena_reset a)
unfolding arena_reset
arena_reset-IsArena a v = record {
  good = v.good;
  fits = emptied-Fits a.heap a.blocks v.fits;
  disjoint = emptied-AllDisjoint a.blocks v.disjoint;
}
