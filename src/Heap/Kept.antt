-- ===== src/Heap/Kept.antt =====
-- About kmalloc of src/mm/virt/heap.c: the blocks stay in place.
use noxis.Prelude.{
  ℕ, zero, suc, ◌+◌, ◌-◌, ◌%◌, ◌^◌, ◌≤◌, ◌<◌, ◌≡◌, refl, sym, ap, inl, inr, arith, true, false,
  none, List, [], ◌∷◌,
}
use noxis.Prelude.{ltb, ◌||◌, not, Bool-cases}
use noxis.Heap.{Block, header, heap_base, align16, splits, take_block, alloc_in, kmalloc}
use noxis.Heap.Tiling.{
  Tiles, Coalesced, tail-Coalesced, IsHeap, passed_over, hit, hit_free, splits-le, recolor, join,
  apart, and_false,
}

take_block-Tiles :
    (want a : ℕ) (b : Block) (bs : List Block)
    → want % 16 ≡ 0
    → 16 ≤ want
    → want ≤ b.size
    → Tiles a (b ∷ bs)
    → Tiles a (take_block want b bs)
unfolding take_block Tiles
take_block-Tiles want a b bs m h l (t0, t1, t2, t3) = elim (Bool-cases (splits want b)) [
  | inl e ↦
      let room = splits-le want a b bs (t0, t1, t2, t3) l e in
      let ends : a + 32 + b.size ≡ a + 32 + want + 32 + (b.size - want - 32) =
        omega (arith, room) in
      let left : Block = record {
        addr = b.addr + header + want;
        size = b.size - want - header;
        free = true;
      } in
      let rest : Tiles (a + 32 + want) (left ∷ bs) = (
        ap (λ x. x + 32 + want) t0,
        omega (arith, m, t1, room),
        omega (arith, room),
        rw ends at t3,
      ) in
      rw (e) (t0, m, h, rest)
  | inr e ↦ rw (e) (t0, t1, t2, t3)
]

alloc_in-Tiles :
    (want a : ℕ) (h : List Block)
    → want % 16 ≡ 0
    → 16 ≤ want
    → Tiles a h
    → Tiles a (alloc_in want h).1
unfolding alloc_in Tiles
alloc_in-Tiles want a [] m l t = t
alloc_in-Tiles want a (b ∷ bs) m l (t0, t1, t2, t3) =
    elim (Bool-cases (not b.free || ltb b.size want)) [
      | inl e ↦
          rw (passed_over want b bs e) (t0, t1, t2, alloc_in-Tiles want (a + 32 + b.size) bs m l t3)
      | inr e ↦
          rw (hit want b bs e)
            (take_block-Tiles want a b bs m l (hit_free want b e).1 (t0, t1, t2, t3))
    ]

take_block-Coalesced :
    (want : ℕ) (a b : Block) (bs : List Block)
    → b.free ≡ true
    → Coalesced (a ∷ b ∷ bs)
    → Coalesced (a ∷ take_block want b bs)
unfolding take_block
take_block-Coalesced want a b bs f c =
    let taken : Block = record b { size = want; free = false } in
    let left : Block = record {
      addr = b.addr + header + want;
      size = b.size - want - header;
      free = true;
    } in
    let behind = tail-Coalesced a (b ∷ bs) c in
    elim (Bool-cases (splits want b)) [
      | inl e ↦ rw (e) (
          join a taken (left ∷ bs) (and_false a.free)
            (join taken left bs refl (recolor b left bs (inl (sym f)) behind)))
      | inr e ↦ rw (e) (
          join a (record b { free = false }) bs (and_false a.free)
            (recolor b (record b { free = false }) bs (inr refl) behind))
    ]

-- With the block in front of those that are looked at.
alloc_behind-Coalesced :
    (want : ℕ) (a : Block) (bs : List Block)
    → Coalesced (a ∷ bs)
    → Coalesced (a ∷ (alloc_in want bs).1)
unfolding alloc_in
alloc_behind-Coalesced want a [] c = c
alloc_behind-Coalesced want a (b ∷ bs) c = elim (Bool-cases (not b.free || ltb b.size want)) [
  | inl e ↦ rw (passed_over want b bs e) (
      join a b (alloc_in want bs).1 (apart a b bs c)
        (alloc_behind-Coalesced want b bs (tail-Coalesced a (b ∷ bs) c)))
  | inr e ↦ rw (hit want b bs e) (take_block-Coalesced want a b bs (hit_free want b e).0 c)
]

alloc_in-Coalesced : (want : ℕ) (h : List Block) → Coalesced h → Coalesced (alloc_in want h).1
unfolding Coalesced
alloc_in-Coalesced want h c =
    let front : Block = record { addr = 0; size = 0; free = false } in
    tail-Coalesced front (alloc_in want h).1 (alloc_behind-Coalesced want front h (in_front h c))
  where
    in_front :
        (h : List Block) → Coalesced h → Coalesced (record { addr = 0; size = 0; free = false } ∷ h)
    in_front [] c = tt
    in_front (b ∷ bs) c = (refl, c)

pub kmalloc_align :
    (want : ℕ) (h : List Block) → 0 < want → kmalloc want h ≡ alloc_in (align16 want) h
unfolding kmalloc
kmalloc_align want h p = ground (arith, p)

pub kmalloc_null : (h : List Block) → kmalloc 0 h ≡ (none, h)
unfolding kmalloc
kmalloc_null h = refl

-- kmalloc keeps the heap, when its count does not wrap: the blocks fill the heap one behind the other,
-- with sizes that are multiples of 16, and no two neighbours are free.
pub kmalloc-IsHeap :
    (want : ℕ) (h : List Block) → want + 15 < 2 ^ 64 → IsHeap h → IsHeap (kmalloc want h).1
kmalloc-IsHeap zero h p v = rw (kmalloc_null h) v
kmalloc-IsHeap (suc want) h p v = rw (kmalloc_align (suc want) h (omega arith)) (record {
  tiles = alloc_in-Tiles (align16 (suc want)) heap_base h (omega arith) (omega arith) v.tiles;
  coalesced = alloc_in-Coalesced (align16 (suc want)) h v.coalesced;
})
