-- ===== src/Arena/Examples.antt =====
-- Concrete runs of the model of src/mm/arena.c.
use noxis.Prelude.{ℕ, ◌+◌, ◌≡◌, ◌⊎◌, refl, inl, inr, arith, true, false, none, some, [], ◌∷◌}
use noxis.Heap.{heap_base, heap_init}
use noxis.Heap.Tiling.{Tiles, Coalesced, heap_init-IsHeap}
use noxis.Heap.Places.{Used}
use noxis.Arena.{Arena, arena_create, arena_alloc, alloc_small, align4, arena_destroy}
use noxis.Arena.Apart.{IsArena, Allocates}
use noxis.Arena.Allocated.{arena_alloc-Allocates}
use noxis.Arena.Returned.{alloc, reset, perform_all, arena_destroy-create}

-- An arena with one block, of which 8 bytes are handed out.
abbrev one_block : Arena
one_block = record {
  self = heap_base + 32;
  blocks = record { place = heap_base + 80; used = 8; cap = 4080 } ∷ [];
  n_alloc = 8;
  n_blocks = 1;
  heap =
      record { addr = heap_base; size = 16; free = false }
      ∷ record { addr = heap_base + 48; size = 4096; free = false }
      ∷ record { addr = heap_base + 4176; size = 33550224; free = true }
      ∷ [];
  bytes = λ i. i;
}

one_block-IsArena : IsArena one_block
unfolding Tiles Coalesced Used
one_block-IsArena = record {
  good = record {
    tiles = (
      refl,
      omega arith,
      omega arith,
      (refl, omega arith, omega arith, (refl, omega arith, omega arith, omega arith)),
    );
    coalesced = (refl, (refl, tt));
  };
  fits = (record { in_use = inr (inl (refl, refl, omega arith)); used_le = omega arith }, tt);
  disjoint = (tt, tt);
}

-- 5 bytes are rounded up to 8 and stand behind the first 8.
bumped : (arena_alloc 5 one_block).0 ≡ some (heap_base + 104)
unfolding arena_alloc alloc_small
bumped = refl

arena_alloc-Allocates_example :
    (arena_alloc 5 one_block ≡ (none, one_block))
    ⊎ ((p : ℕ) × (a' : Arena) × (arena_alloc 5 one_block ≡ (some p, a'))
        × Allocates (align4 5) p one_block a')
arena_alloc-Allocates_example =
    arena_alloc-Allocates 5 one_block (omega arith) (omega arith) one_block-IsArena

arena_destroy-create_example :
    (arena_create heap_init (λ i. i) ≡ some (none, heap_init))
    ⊎ ((a : Arena) × (arena_create heap_init (λ i. i) ≡ some (some a, a.heap))
        × IsArena a
        × (arena_destroy (perform_all (alloc 100 ∷ reset ∷ alloc 2048 ∷ []) a) ≡ some heap_init))
arena_destroy-create_example =
    arena_destroy-create heap_init (λ i. i) (alloc 100 ∷ reset ∷ alloc 2048 ∷ []) heap_init-IsHeap
      (omega arith, (tt, (omega arith, tt)))
