-- ===== src/Heap/Tiling.antt =====
-- About the blocks of src/mm/virt/heap.c: where they lie.
use noxis.Prelude.{
  ℕ, ◌+◌, ◌%◌, ◌≤◌, ◌≡◌, refl, ap, ◌∙◌, ◌⊎◌, inl, inr, arith, Bool, true, false, some, List, [],
  ◌∷◌,
}
use noxis.Prelude.{ltb, leb→le, ◌&&◌, ◌||◌, not, Bool-cases}
use noxis.Heap.{Block, header, heap_base, heap_size, heap_init, splits, take_block, alloc_in}

-- The blocks lie one behind the other from `a` to the end of the heap, with sizes of at least 16 that
-- are multiples of 16.
unfoldable pub Tiles : ℕ → List Block → Type 0
Tiles a [] = a ≡ heap_base + heap_size
Tiles a (b ∷ bs) = (b.addr ≡ a) × (b.size % 16 ≡ 0) × (16 ≤ b.size) × Tiles (a + 32 + b.size) bs

-- No two blocks that follow each other are free.
unfoldable pub Coalesced : List Block → Type 0
Coalesced [] = Unit
Coalesced (b ∷ []) = Unit
Coalesced (b ∷ c ∷ cs) = ((b.free && c.free) ≡ false) × Coalesced (c ∷ cs)

pub record IsHeap (h : List Block) : Type 0 where
  pub tiles : Tiles heap_base h
  pub coalesced : Coalesced h

pub heap_init-IsHeap : IsHeap heap_init
unfolding Tiles Coalesced
heap_init-IsHeap = record { tiles = (refl, omega arith, omega arith, omega arith); coalesced = tt }

-- What is behind a block lies below the end.
pub Tiles-le : (a : ℕ) (h : List Block) → Tiles a h → a ≤ heap_base + heap_size
unfolding Tiles
Tiles-le a [] t = omega (arith, t)
Tiles-le a (b ∷ bs) (t0, t1, t2, t3) = omega (arith, Tiles-le (a + 32 + b.size) bs t3)

pub tail-Coalesced : (b : Block) (bs : List Block) → Coalesced (b ∷ bs) → Coalesced bs
unfolding Coalesced
tail-Coalesced b [] c = tt
tail-Coalesced b (x ∷ xs) (c, cs) = cs

-- The steps of the loop of kmalloc.
pub passed_over :
    (want : ℕ) (b : Block) (bs : List Block)
    → (not b.free || ltb b.size want) ≡ true
    → alloc_in want (b ∷ bs) ≡ ((alloc_in want bs).0, b ∷ (alloc_in want bs).1)
unfolding alloc_in
passed_over want b bs e = ground (arith, e)

pub hit :
    (want : ℕ) (b : Block) (bs : List Block)
    → (not b.free || ltb b.size want) ≡ false
    → alloc_in want (b ∷ bs) ≡ (some (b.addr + header), take_block want b bs)
unfolding alloc_in
hit want b bs e = ground (arith, e)

-- A block that is taken was free and is large enough.
pub hit_free :
    (want : ℕ) (b : Block)
    → (not b.free || ltb b.size want) ≡ false
    → (b.free ≡ true) × (want ≤ b.size)
hit_free want b e = elim (Bool-cases b.free) [
  | inl f ↦ (f, ground (arith, e, f))
  | inr f ↦ absurd (ground (arith, e, f))
]

-- A block that splits leaves 16 bytes or more behind the new header.
pub splits-le :
    (want a : ℕ) (b : Block) (bs : List Block)
    → Tiles a (b ∷ bs)
    → want ≤ b.size
    → splits want b ≡ true
    → want + 48 ≤ b.size
unfolding Tiles
splits-le want a b bs (t0, t1, t2, t3) h e =
    omega (arith, Tiles-le (a + 32 + b.size) bs t3, h, leb→le _ _ e)

-- A block that is free only if another is can stand in its place.
pub recolor :
    (b x : Block) (bs : List Block)
    → (x.free ≡ b.free) ⊎ (x.free ≡ false)
    → Coalesced (b ∷ bs)
    → Coalesced (x ∷ bs)
unfolding Coalesced
recolor b x [] h c = tt
recolor b x (y ∷ ys) (inl e) (c, cs) = (ap (λ z. z && y.free) e ∙ c, cs)
recolor b x (y ∷ ys) (inr e) (c, cs) = (ap (λ z. z && y.free) e, cs)

pub join :
    (a b : Block) (bs : List Block)
    → (a.free && b.free) ≡ false
    → Coalesced (b ∷ bs)
    → Coalesced (a ∷ b ∷ bs)
unfolding Coalesced
join a b bs e c = (e, c)

pub apart : (a b : Block) (bs : List Block) → Coalesced (a ∷ b ∷ bs) → (a.free && b.free) ≡ false
unfolding Coalesced
apart a b bs (e, c) = e

pub and_false : (b : Bool) → (b && false) ≡ false
and_false true = refl
and_false false = refl
