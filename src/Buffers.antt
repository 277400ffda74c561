-- ===== src/Buffers.antt =====
-- The buffer cache, src/fs/noxfs/buffer.c. The fields of g_buffers[i] are functions of i; the LRU list
-- is the list of its buffers from the head on; the hash chains are links. The disk is what the drives
-- hold, and `works` tells at which blocks a transfer of blk_rw succeeds. A walk along a chain has 16
-- rounds, one for each buffer.
pub mod Chains
pub mod Kept
pub mod Forgotten
pub mod Filled
pub mod Disk
mod Examples
use noxis.Prelude.{
  ℕ, zero, suc, ◌+◌, ◌*◌, ◌%◌, ◌^◌, Bool, true, false, not, List, [], ◌∷◌, ◌++◌, Option, none, some,
}
use noxis.Prelude.{◌==◌, ◌&&◌, if◌then◌else◌, update}
use mathlib.Core.List.{reverse}

abbrev pub nbuf : ℕ
nbuf = 16

abbrev pub hash_size : ℕ
hash_size = 8

pub record Cache : Type 0 where
  pub dev : ℕ → ℕ
  pub blockno : ℕ → ℕ
  pub valid : ℕ → Bool
  pub dirty : ℕ → Bool
  pub busy : ℕ → Bool
  pub bytes : ℕ → ℕ → ℕ
  pub hash_next : ℕ → Option ℕ
  pub buckets : ℕ → Option ℕ
  pub lru : List ℕ
  pub disk : ℕ → ℕ → ℕ → ℕ

-- _hash
pub hash : ℕ → ℕ → ℕ
hash d b = (d * 31 + b) % 2 ^ 32 % hash_size

-- _lru_remove and _lru_insert_head
abbrev pub erase : ℕ → List ℕ → List ℕ
erase p [] = []
erase p (x ∷ xs) = if x == p then xs else x ∷ erase p xs

abbrev pub to_head : ℕ → Cache → Cache
to_head p c = record c { lru = p ∷ erase p c.lru }

pub hash_insert : ℕ → Cache → Cache
hash_insert p c =
    let h = hash (c.dev p) (c.blockno p) in
    record c {
      hash_next = update c.hash_next p (c.buckets h);
      buckets = update c.buckets h (some p);
    }

-- What the pointer of _hash_remove points to: a bucket, or the link of a buffer.
pub data Slot : Type 0 where
  bucket link : ℕ → Slot

pub read_slot : Slot → Cache → Option ℕ
read_slot (bucket h) c = c.buckets h
read_slot (link q) c = c.hash_next q

pub write_slot : Slot → Option ℕ → Cache → Cache
write_slot (bucket h) o c = record c { buckets = update c.buckets h o }
write_slot (link q) o c = record c { hash_next = update c.hash_next q o }

-- while (*p): the buffer's place in the chain takes its link.
pub unlink_from : ℕ → Slot → ℕ → Cache → Cache
unlink_from zero s p c = c
unlink_from (suc n) s p c = elim (read_slot s c) [
  | none ↦ c
  | some x ↦ elim (x == p) [
    | true ↦ write_slot s (c.hash_next p) c
    | false ↦ unlink_from n (link x) p c
  ]
]

pub hash_remove : ℕ → Cache → Cache
hash_remove p c = unlink_from nbuf (bucket (hash (c.dev p) (c.blockno p))) p c

abbrev pub is_block : ℕ → ℕ → ℕ → Cache → Bool
is_block d b p c = c.dev p == d && c.blockno p == b

pub lookup_from : ℕ → Option ℕ → ℕ → ℕ → Cache → Option ℕ
lookup_from zero o d b c = none
lookup_from (suc n) none d b c = none
lookup_from (suc n) (some p) d b c = elim (is_block d b p c) [
  | true ↦ some p
  | false ↦ lookup_from n (c.hash_next p) d b c
]

pub hash_lookup : ℕ → ℕ → Cache → Option ℕ
hash_lookup d b c = lookup_from nbuf (c.buckets (hash d b)) d b c

-- One block of the disk is written.
abbrev pub write_block : (ℕ → ℕ → ℕ → ℕ) → ℕ → ℕ → (ℕ → ℕ) → ℕ → ℕ → ℕ → ℕ
write_block disk d b v d' b' i = if d == d' && b == b' then v i else disk d' b' i

-- The two loops of _evict, from the tail of the LRU list.
pub first_clean : List ℕ → Cache → Option ℕ
first_clean [] c = none
first_clean (p ∷ ps) c = if not (c.busy p) && not (c.dirty p) then some p else first_clean ps c

pub first_idle : List ℕ → Cache → Option ℕ
first_idle [] c = none
first_idle (p ∷ ps) c = if not (c.busy p) then some p else first_idle ps c

-- A buffer leaves its chain if it is valid.
abbrev pub forget : ℕ → Cache → Cache
forget p c = if c.valid p then hash_remove p c else c

-- dev, blockno and flags of a buffer that is given to another block.
abbrev pub assign : ℕ → ℕ → ℕ → Cache → Cache
assign d b p c = record c {
  dev = update c.dev p d;
  blockno = update c.blockno p b;
  valid = update c.valid p false;
  dirty = update c.dirty p false;
  busy = update c.busy p false;
}

abbrev pub mark : ℕ → Cache → Cache
mark p c = record c {
  valid = update c.valid p true;
  dirty = update c.dirty p false;
  busy = update c.busy p true;
}

abbrev pub enlist : ℕ → Cache → Cache
enlist p c = to_head p (hash_insert p c)

module _ (works : ℕ → ℕ → Bool) where
  -- blk_rw(dev, blockno, 1, data, BLK_READ)
  pub fetch : ℕ → Cache → Cache
  fetch p c =
      if works (c.dev p) (c.blockno p)
      then record c { bytes = update c.bytes p (c.disk (c.dev p) (c.blockno p)) }
      else c

  pub bwrite : ℕ → Cache → Cache
  bwrite p c =
      if c.dirty p
      then (if works (c.dev p) (c.blockno p)
          then record c {
            disk = write_block c.disk (c.dev p) (c.blockno p) (c.bytes p);
            dirty = update c.dirty p false;
          }
          else c)
      else c

  pub evict : Cache → Cache × Option ℕ
  evict c = elim (first_clean (reverse c.lru) c) [
    | some p ↦ (c, some p)
    | none ↦ elim (first_idle (reverse c.lru) c) [
      | some p ↦ (bwrite p c, some p)
      | none ↦ (c, none)
    ]
  ]

  -- bread where the block is in a chain.
  pub hit : ℕ → Cache → Cache
  unfolding fetch
  hit p c =
      let c' = if c.valid p then c else fetch p c in
      record (to_head p c') { valid = update c'.valid p true; busy = update c'.busy p true }

  pub bread : ℕ → ℕ → Cache → Cache × Option ℕ
  unfolding hit
  bread d b c = elim (hash_lookup d b c) [
    | some p ↦ (hit p c, some p)
    | none ↦ elim (evict c).1 [
      | none ↦ ((evict c).0, none)
      | some p ↦ (enlist p (mark p (fetch p (assign d b p (forget p (evict c).0)))), some p)
    ]
  ]

  -- The loop of balloc over g_buffers, for the buffers from i on.
  pub flush_from : ℕ → ℕ → Cache → Cache
  flush_from zero i c = c
  flush_from (suc n) i c =
      flush_from n (i + 1) (if not (c.busy i) && c.dirty i then bwrite i c else c)

  pub evict_harder : Cache → Cache × Option ℕ
  unfolding flush_from
  evict_harder c = elim (evict c).1 [
    | some p ↦ evict c
    | none ↦ evict (flush_from nbuf 0 (evict c).0)
  ]

  pub balloc : ℕ → ℕ → Cache → Cache × Option ℕ
  unfolding evict_harder
  balloc d b c = elim (evict_harder c).1 [
    | none ↦ ((evict_harder c).0, none)
    | some p ↦
        let c' = assign d b p (forget p (evict_harder c).0) in
        (
          enlist p (record c' { busy = update c'.busy p true; bytes = update c'.bytes p (λ i. 0) }),
          some p,
        )
  ]

pub brelse : ℕ → Cache → Cache
brelse p c = record c { busy = update c.busy p false }

-- The buffers go to the head of the LRU list one after the other.
abbrev pub heads : ℕ → List ℕ
heads zero = []
heads (suc n) = n ∷ heads n

pub buf_init : Cache → Cache
buf_init c = record c {
  valid = λ i. false;
  dirty = λ i. false;
  busy = λ i. false;
  dev = λ i. 0;
  blockno = λ i. 0;
  hash_next = λ i. none;
  buckets = λ i. none;
  lru = heads nbuf;
}
