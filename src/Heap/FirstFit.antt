-- ===== src/Heap/FirstFit.antt =====
-- About which block kmalloc of src/mm/virt/heap.c takes.
use noxis.Prelude.{
  ℕ, ◌+◌, ◌≤◌, ◌<◌, ◌≡◌, refl, ap, ◌∙◌, ◌⊎◌, inl, inr, arith, true, false, Option, none, some, List,
  [], ◌∷◌, ◌++◌, All,
}
use noxis.Prelude.{◌-◌, ◌^◌, ltb, ◌||◌, not, Bool-cases}
use noxis.Heap.{Block, header, align16, splits, take_block, alloc_in, kmalloc}
use noxis.Heap.Tiling.{passed_over, hit, hit_free}
use noxis.Heap.Kept.{kmalloc_align}

-- The block is in use or too small.
abbrev pub TooSmall : ℕ → Block → Type 0
TooSmall want b = (b.free ≡ false) ⊎ (b.size < want)

-- The block in use at its own size, and the block of `want` bytes with a free one behind its end.
abbrev pub used_whole : Block → Block
used_whole b = record { addr = b.addr; size = b.size; free = false }

abbrev pub split : ℕ → Block → List Block → List Block
split want b bs =
    record { addr = b.addr; size = want; free = false }
    ∷ record { addr = b.addr + 32 + want; size = b.size - want - 32; free = true }
    ∷ bs

taken :
    (want : ℕ) (b : Block) (bs : List Block)
    → want + 48 < 2 ^ 64
    → (want + 48 ≤ b.size) × (take_block want b bs ≡ split want b bs)
      ⊎ (b.size < want + 48) × (take_block want b bs ≡ used_whole b ∷ bs)
unfolding take_block
taken want b bs w = elim (Bool-cases (splits want b)) [
  | inl e ↦ inl (ground (arith, e, w), rw (e, take_block) refl)
  | inr e ↦ inr (ground (arith, e, w), rw (e, take_block) refl)
]

-- The first block that is free and large enough is taken.
pub record FirstFit (want : ℕ) (h r : List Block) (p : ℕ) : Type 0 where
  pub front : List Block
  pub block : Block
  pub back : List Block
  pub is_heap : h ≡ front ++ (block ∷ back)
  pub too_small : All (TooSmall want) front
  pub was_free : block.free ≡ true
  pub large : want ≤ block.size
  pub pointer : p ≡ block.addr + header
  pub result :
      (want + 48 ≤ block.size) × (r ≡ front ++ split want block back)
      ⊎ (block.size < want + 48) × (r ≡ front ++ (used_whole block ∷ back))

small_of : (want : ℕ) (b : Block) → (not b.free || ltb b.size want) ≡ true → TooSmall want b
small_of want b e = elim (Bool-cases b.free) [ inl f ↦ inr (ground (arith, e, f)) | inr f ↦ inl f ]

alloc_in-FirstFit :
    (want : ℕ) (h : List Block)
    → want + 48 < 2 ^ 64
    → (alloc_in want h ≡ (none, h)) × All (TooSmall want) h
      ⊎ ((p : ℕ) × (r : List Block) × (alloc_in want h ≡ (some p, r)) × FirstFit want h r p)
unfolding alloc_in
alloc_in-FirstFit want [] w = inl (refl, tt)
alloc_in-FirstFit want (b ∷ bs) w = elim (Bool-cases (not b.free || ltb b.size want)) [
  | inr e ↦ inr (
    b.addr + header,
    take_block want b bs,
    hit want b bs e,
    record {
      front = [];
      block = b;
      back = bs;
      is_heap = refl;
      too_small = tt;
      was_free = (hit_free want b e).0;
      large = (hit_free want b e).1;
      pointer = refl;
      result = taken want b bs w;
    },
  )
  | inl e ↦ elim (alloc_in-FirstFit want bs w) [
    | inl (f, small) ↦ inl (
      passed_over want b bs e ∙ ap (λ (o : Option ℕ × List Block). (o.0, b ∷ o.1)) f,
      (small_of want b e, small),
    )
    | inr (p, r, f, fit) ↦ inr (
      p,
      b ∷ r,
      passed_over want b bs e ∙ ap (λ (o : Option ℕ × List Block). (o.0, b ∷ o.1)) f,
      record {
        front = b ∷ fit.front;
        block = fit.block;
        back = fit.back;
        is_heap = ap (λ t. b ∷ t) fit.is_heap;
        too_small = (small_of want b e, fit.too_small);
        was_free = fit.was_free;
        large = fit.large;
        pointer = fit.pointer;
        result = elim fit.result [
          | inl (l, e) ↦ inl (l, ap (λ t. b ∷ t) e)
          | inr (l, e) ↦ inr (l, ap (λ t. b ∷ t) e)
        ];
      },
    )
  ]
]

-- kmalloc of a count from 1 to 2^64 - 65 either finds every block in use or smaller than the count
-- rounded up to a multiple of 16, returns NULL and leaves the heap as it was; or it takes the first block
-- that is free and large enough and returns the address behind its header. A block with 48 bytes more
-- than the rounded count, or more, is split into one in use of that count and a free one behind it, which
-- has the rest less its header of 32 bytes; a smaller one is in use as it is. All blocks in front and
-- behind are as they were.
pub kmalloc-FirstFit :
    (want : ℕ) (h : List Block)
    → 0 < want
    → want + 64 < 2 ^ 64
    → (kmalloc want h ≡ (none, h)) × All (TooSmall (align16 want)) h
      ⊎ ((p : ℕ) × (r : List Block) × (kmalloc want h ≡ (some p, r))
          × FirstFit (align16 want) h r p)
kmalloc-FirstFit want h p w =
    rw (kmalloc_align want h p) (alloc_in-FirstFit (align16 want) h (omega (arith, w)))
