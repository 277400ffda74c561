-- ===== src/Arena.antt =====
-- The arenas of src/mm/arena.c over the kernel heap. A block is known by its address, the fields `used`
-- and `cap` are 32 bits wide. The heap's blocks and the bytes of the data stand beside the arena.
pub mod Chunks
pub mod Apart
pub mod Allocated
pub mod Returned
mod Examples
use noxis.Prelude.{
  ℕ, zero, suc, ◌+◌, ◌-◌, ◌*◌, ◌/◌, ◌%◌, ◌^◌, Bool, true, false, Option, none, some, List, [], ◌∷◌,
}
use noxis.Prelude.{ltb, leb, ◌==◌, if◌then◌else◌, update}
use noxis.Heap.{Block, kmalloc, kfree}

-- arena_block_t
pub record Chunk : Type 0 where
  pub place : ℕ
  pub used : ℕ
  pub cap : ℕ

-- arena_t, with the memory it works on.
pub record Arena : Type 0 where
  pub self : ℕ
  pub blocks : List Chunk
  pub n_alloc : ℕ
  pub n_blocks : ℕ
  pub heap : List Block
  pub bytes : ℕ → ℕ

abbrev pub block_size : ℕ
block_size = 4096

abbrev pub large_thresh : ℕ
large_thresh = 2048

-- sizeof(arena_block_t) and sizeof(arena_t)
abbrev pub chunk_header : ℕ
chunk_header = 16

abbrev pub arena_size : ℕ
arena_size = 16

-- b->data
abbrev pub data_of : Chunk → ℕ
data_of b = b.place + chunk_header

-- (size + 3u) & ~3u
abbrev pub align4 : ℕ → ℕ
align4 n = (n + 3) % 2 ^ 32 / 4 * 4

-- _zero, for n bytes from p on.
pub zero_bytes : ℕ → ℕ → (ℕ → ℕ) → ℕ → ℕ
zero_bytes zero p m = m
zero_bytes (suc n) p m = zero_bytes n (p + 1) (update m p 0)

abbrev pub total_for : ℕ → ℕ
total_for min_cap =
    if ltb (block_size - chunk_header) min_cap
    then (chunk_header + min_cap) % 2 ^ 32
    else block_size

-- The fields of a new block, after kmalloc.
abbrev pub chunk_of : ℕ → Option ℕ × List Block → Option Chunk × List Block
chunk_of total (none, h) = (none, h)
chunk_of total (some p, h) =
    (some (record { place = p; used = 0; cap = (total + 2 ^ 32 - chunk_header) % 2 ^ 32 }), h)

pub block_new : ℕ → List Block → Option Chunk × List Block
block_new min_cap h = chunk_of (total_for min_cap) (kmalloc (total_for min_cap) h)

-- An arena without blocks, in the memory behind the first kmalloc.
abbrev pub new_arena : ℕ → List Block → (ℕ → ℕ) → Arena
new_arena p h m = record { self = p; blocks = []; n_alloc = 0; n_blocks = 0; heap = h; bytes = m }

-- The end of arena_create, after its call of _block_new: an arena at p, or NULL with kfree of p.
abbrev pub with_first : ℕ → (ℕ → ℕ) → Option Chunk × List Block → Option (Option Arena × List Block)
with_first p m (none, h) = elim (kfree p h) [ none ↦ none | some r ↦ some (none, r) ]
with_first p m (some b, h) =
    some (some (record (new_arena p h m) { blocks = b ∷ []; n_blocks = 1 }), h)

abbrev pub with_self : (ℕ → ℕ) → Option ℕ × List Block → Option (Option Arena × List Block)
with_self m (none, h) = some (none, h)
with_self m (some p, h) = with_first p m (block_new 0 h)

-- The arena or NULL, and the heap. `none` stands for a kfree of what is no block.
pub arena_create : List Block → (ℕ → ℕ) → Option (Option Arena × List Block)
arena_create h m = with_self m (kmalloc arena_size h)

-- A block of its own stands behind the head.
abbrev pub behind_head : Chunk → List Chunk → List Chunk
behind_head b [] = b ∷ []
behind_head b (c ∷ cs) = c ∷ b ∷ cs

-- The case of a large object, of n bytes.
abbrev pub with_large : ℕ → Arena → Option Chunk × List Block → Option ℕ × Arena
with_large n a (none, h) = (none, record a { heap = h })
with_large n a (some b, h) = (
  some (data_of b),
  record a {
    blocks = behind_head (record b { used = n }) a.blocks;
    n_alloc = (a.n_alloc + n) % 2 ^ 32;
    n_blocks = (a.n_blocks + 1) % 2 ^ 32;
    heap = h;
    bytes = zero_bytes n (data_of b) a.bytes;
  },
)

pub alloc_large : ℕ → Arena → Option ℕ × Arena
alloc_large n a = with_large n a (block_new n a.heap)

-- n bytes of the head, which has room for them.
abbrev pub bump : ℕ → Arena → Chunk → List Chunk → Option ℕ × Arena
bump n a c cs =
    let p = data_of c + c.used in
    (
      some p,
      record a {
        blocks = record c { used = (c.used + n) % 2 ^ 32 } ∷ cs;
        n_alloc = (a.n_alloc + n) % 2 ^ 32;
        bytes = zero_bytes n p a.bytes;
      },
    )

-- n bytes of a new block, which becomes the head.
abbrev pub with_fresh : ℕ → Arena → Option Chunk × List Block → Option ℕ × Arena
with_fresh n a (none, h) = (none, record a { heap = h })
with_fresh n a (some b, h) =
    bump n (record a { n_blocks = (a.n_blocks + 1) % 2 ^ 32; heap = h }) b a.blocks

pub alloc_fresh : ℕ → Arena → Option ℕ × Arena
alloc_fresh n a = with_fresh n a (block_new 0 a.heap)

pub alloc_small : ℕ → Arena → List Chunk → Option ℕ × Arena
alloc_small n a [] = alloc_fresh n a
alloc_small n a (c ∷ cs) =
    if ltb c.cap ((c.used + n) % 2 ^ 32) then alloc_fresh n a else bump n a c cs

pub arena_alloc : ℕ → Arena → Option ℕ × Arena
arena_alloc size a =
    if size == 0
    then (none, a)
    else if ltb large_thresh (align4 size)
    then alloc_large (align4 size) a
    else alloc_small (align4 size) a a.blocks

abbrev pub emptied : List Chunk → List Chunk
emptied [] = []
emptied (b ∷ bs) = record b { used = 0 } ∷ emptied bs

pub arena_reset : Arena → Arena
arena_reset a = record a { blocks = emptied a.blocks; n_alloc = 0 }

-- while (b) kfree(b)
pub free_chunks : List Chunk → List Block → Option (List Block)
free_chunks [] h = some h
free_chunks (b ∷ bs) h = elim (kfree b.place h) [ none ↦ none | some r ↦ free_chunks bs r ]

-- The heap without the arena.
pub arena_destroy : Arena → Option (List Block)
arena_destroy a = elim (free_chunks a.blocks a.heap) [ none ↦ none | some r ↦ kfree a.self r ]
