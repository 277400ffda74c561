-- ===== src/Arena/Chunks.antt =====
-- About _block_new of src/mm/arena.c.
use noxis.Prelude.{
  ℕ, ◌+◌, ◌-◌, ◌%◌, ◌^◌, ◌<◌, ◌≤◌, ◌≡◌, refl, sym, ap, ◌∙◌, ◌⊎◌, inl, inr, arith, none, some, List,
}
use noxis.Heap.{Block, align16, alloc_in, kfree}
use noxis.Heap.Tiling.{IsHeap}
use noxis.Heap.FirstFit.{kmalloc-FirstFit}
use noxis.Heap.Kept.{kmalloc-IsHeap, kmalloc_align}
use noxis.Heap.Returned.{kfree-kmalloc}
use noxis.Arena.{
  Arena, large_thresh, align4, alloc_small, alloc_large, arena_alloc, Chunk, chunk_header,
  total_for, chunk_of, block_new,
}

-- A new chunk with room for n bytes, between the heaps h and r.
pub record NewChunk (n : ℕ) (h r : List Block) (b : Chunk) : Type 0 where
  pub good : IsHeap r
  pub taken : alloc_in (align16 (b.cap + chunk_header)) h ≡ (some b.place, r)
  pub undone : kfree b.place r ≡ some h
  pub empty : b.used ≡ 0
  pub room : n ≤ b.cap
  pub page : 4080 ≤ b.cap
  pub small : b.cap + chunk_header < 2 ^ 32

total_for-lt :
    (n : ℕ)
    → n + 16 < 2 ^ 32
    → (n + 16 ≤ total_for n) × (4096 ≤ total_for n) × (total_for n < 2 ^ 32)
total_for-lt n s = (ground (arith, s), ground (arith, s), ground (arith, s))

-- It gives NULL on a heap that stays as it was, or a new chunk.
pub block_new_cases :
    (n : ℕ) (h : List Block)
    → n + 16 < 2 ^ 32
    → IsHeap h
    → (block_new n h ≡ (none, h))
      ⊎ ((b : Chunk) × (r : List Block) × (block_new n h ≡ (some b, r)) × NewChunk n h r b)
unfolding block_new
block_new_cases n h s v =
    let (low, page, top) = total_for-lt n s in
    elim (kmalloc-FirstFit (total_for n) h (omega (arith, page)) (omega (arith, top))) [
      | inl (e, all) ↦ inl (ap (chunk_of (total_for n)) e)
      | inr (p, r, e, fit) ↦
          let b : Chunk = record {
            place = p;
            used = 0;
            cap = (total_for n + 2 ^ 32 - chunk_header) % 2 ^ 32;
          } in
          let total : b.cap + chunk_header ≡ total_for n = omega (arith, page, top) in
          inr (
            b,
            r,
            ap (chunk_of (total_for n)) e,
            record {
              good =
                  rw (ap (λ x. x.1) e) at (kmalloc-IsHeap (total_for n) h (omega (arith, top)) v);
              taken = rw total (sym (kmalloc_align (total_for n) h (omega (arith, page))) ∙ e);
              undone = kfree-kmalloc (total_for n) p h r v e;
              empty = refl;
              room = omega (arith, low, total);
              page = omega (arith, page, total);
              small = omega (arith, top, total);
            },
          )
    ]

-- The branches of arena_alloc.
pub alloc_nothing : (a : Arena) → arena_alloc 0 a ≡ (none, a)
unfolding arena_alloc
alloc_nothing a = refl

pub alloc_small_lem :
    (size : ℕ) (a : Arena)
    → 0 < size
    → align4 size ≤ large_thresh
    → arena_alloc size a ≡ alloc_small (align4 size) a a.blocks
unfolding arena_alloc
alloc_small_lem size a p s = ground (arith, p, s)

pub alloc_large_lem :
    (size : ℕ) (a : Arena)
    → 0 < size
    → large_thresh < align4 size
    → arena_alloc size a ≡ alloc_large (align4 size) a
unfolding arena_alloc
alloc_large_lem size a p s = ground (arith, p, s)
