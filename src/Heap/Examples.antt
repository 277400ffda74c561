-- ===== src/Heap/Examples.antt =====
-- Concrete runs of the model of src/mm/virt/heap.c.
use noxis.Prelude.{ℕ, ◌+◌, ◌≡◌, ◌⊎◌, refl, arith, true, false, none, some, List, [], ◌∷◌, All}
use noxis.Heap.{
  Block, heap_base, heap_init, align16, kmalloc, kfree, alloc_in, take_block, merge_next,
}
use noxis.Heap.Tiling.{IsHeap, Tiles, Coalesced, heap_init-IsHeap}
use noxis.Heap.FirstFit.{TooSmall, FirstFit, kmalloc-FirstFit}
use noxis.Heap.Kept.{kmalloc-IsHeap}
use noxis.Heap.Freed.{kfree-IsHeap}
use noxis.Heap.Returned.{kfree-kmalloc}

-- After one call for 100 bytes.
abbrev one_taken : List Block
one_taken =
    record { addr = heap_base; size = 112; free = false }
    ∷ record { addr = heap_base + 144; size = 33554256; free = true }
    ∷ []

first_call : kmalloc 100 heap_init ≡ (some (heap_base + 32), one_taken)
unfolding kmalloc alloc_in take_block
first_call = refl

freed : kfree (heap_base + 32) one_taken ≡ some heap_init
unfolding kfree merge_next
freed = refl

kmalloc-IsHeap_example : IsHeap (kmalloc 100 heap_init).1
kmalloc-IsHeap_example = kmalloc-IsHeap 100 heap_init (omega arith) heap_init-IsHeap

one_taken-IsHeap : IsHeap one_taken
unfolding Tiles Coalesced
one_taken-IsHeap = record {
  tiles = (refl, omega arith, omega arith, (refl, omega arith, omega arith, omega arith));
  coalesced = (refl, tt);
}

kfree-IsHeap_example : IsHeap heap_init
kfree-IsHeap_example = kfree-IsHeap (heap_base + 32) one_taken heap_init one_taken-IsHeap freed

kfree-kmalloc_example : kfree (heap_base + 32) one_taken ≡ some heap_init
kfree-kmalloc_example =
    kfree-kmalloc 100 (heap_base + 32) heap_init one_taken heap_init-IsHeap first_call

kmalloc-FirstFit_example :
    (kmalloc 100 heap_init ≡ (none, heap_init)) × All (TooSmall (align16 100)) heap_init
    ⊎ ((p : ℕ) × (r : List Block) × (kmalloc 100 heap_init ≡ (some p, r))
        × FirstFit (align16 100) heap_init r p)
kmalloc-FirstFit_example = kmalloc-FirstFit 100 heap_init (omega arith) (omega arith)
