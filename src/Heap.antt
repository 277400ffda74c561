-- ===== src/Heap.antt =====
-- The kernel heap, src/mm/virt/heap.c: first fit over a list of blocks that lie one behind the other,
-- with a 32-byte header each. `next` and `prev` are the order of the list, bit 0 of `next` is the field
-- `free`. What the blocks hold, the magic word and the poison are left out.
pub mod Tiling
pub mod Places
pub mod FirstFit
pub mod Kept
pub mod Freed
pub mod Returned
mod Examples
use noxis.Prelude.{
  ℕ, zero, suc, ◌+◌, ◌-◌, ◌*◌, ◌/◌, ◌%◌, ◌^◌, Bool, true, false, Option, none, some, List, [], ◌∷◌,
}
use noxis.Prelude.{ltb, leb, ◌==◌, ◌||◌, not, if◌then◌else◌}

pub record Block : Type 0 where
  pub addr : ℕ
  pub size : ℕ
  pub free : Bool

abbrev pub header : ℕ
header = 32

-- PHYSMAP_BASE + 16 MB
abbrev pub heap_base : ℕ
heap_base = 0xFFFF800001000000

abbrev pub heap_size : ℕ
heap_size = 33554432

-- ALIGN16
abbrev pub align16 : ℕ → ℕ
align16 n = (n + 15) % 2 ^ 64 / 16 * 16

abbrev pub heap_init : List Block
heap_init = record { addr = heap_base; size = heap_size - header; free = true } ∷ []

-- b->size >= want + sizeof(block_t) + 16
abbrev pub splits : ℕ → Block → Bool
splits want b = leb ((want + header + 16) % 2 ^ 64) b.size

-- The block that is taken, and what a split leaves behind it.
pub take_block : ℕ → Block → List Block → List Block
take_block want b bs =
    if splits want b
    then record b { size = want; free = false }
      ∷ record { addr = b.addr + header + want; size = b.size - want - header; free = true }
      ∷ bs
    else record b { free = false } ∷ bs

-- The loop of kmalloc.
pub alloc_in : ℕ → List Block → Option ℕ × List Block
alloc_in want [] = (none, [])
alloc_in want (b ∷ bs) =
    let rest = alloc_in want bs in
    if not b.free || ltb b.size want
    then (rest.0, b ∷ rest.1)
    else (some (b.addr + header), take_block want b bs)

-- `none` is NULL.
pub kmalloc : ℕ → List Block → Option ℕ × List Block
kmalloc want h = if want == 0 then (none, h) else alloc_in (align16 want) h

-- The block is free now, and takes a free one behind it.
pub merge_next : Block → List Block → List Block
merge_next b [] = record b { free = true } ∷ []
merge_next b (c ∷ cs) =
    if c.free
    then record b { size = b.size + header + c.size; free = true } ∷ cs
    else record b { free = true } ∷ c ∷ cs

-- A free block in front takes it.
pub merge_prev : Block → List Block → List Block
merge_prev a [] = a ∷ []
merge_prev a (b ∷ bs) =
    if a.free then record a { size = a.size + header + b.size } ∷ bs else a ∷ b ∷ bs

-- The block of a pointer is looked for behind `a`.
pub free_behind : ℕ → Block → List Block → Option (List Block)
free_behind p a [] = none
free_behind p a (b ∷ bs) =
    let rest = free_behind p b bs in
    if b.addr + header == p
    then some (merge_prev a (merge_next b bs))
    else elim rest [ none ↦ none | some r ↦ some (a ∷ r) ]

-- `none` is a pointer that is not that of a block: what the memory in front of it holds is not modelled.
pub kfree : ℕ → List Block → Option (List Block)
kfree p [] = none
kfree p (b ∷ bs) = if b.addr + header == p then some (merge_next b bs) else free_behind p b bs

pub heap_get_free : List Block → ℕ
heap_get_free [] = 0
heap_get_free (b ∷ bs) = (if b.free then b.size else 0) + heap_get_free bs
