-- ===== src/Buffers/Examples.antt =====
-- Tests of the buffer cache, and the theorem on bread at an empty cache.
use noxis.Prelude.{ℕ, ◌+◌, ◌≡◌, refl, Bool, true, false, [], none, some, ◌*◌}
use noxis.Buffers.{
  Cache, bread, balloc, buf_init, hash, hash_lookup, evict, first_clean, first_idle, fetch,
  hash_insert, hash_remove, lookup_from, unlink_from, read_slot, write_slot, hit,
}
use noxis.Buffers.Disk.{IsRead, bread-IsRead, buf_init-IsCache}

-- Byte i of block b of device d is d + b * i.
abbrev fresh : Cache
fresh = record {
  dev = λ i. 7;
  blockno = λ i. 7;
  valid = λ i. true;
  dirty = λ i. false;
  busy = λ i. true;
  bytes = λ i j. 0;
  hash_next = λ i. none;
  buckets = λ i. none;
  lru = [];
  disk = λ d b i. d + b * i;
}

abbrev works : ℕ → ℕ → Bool
works d b = true

program : Unit {0}
unfolding bread balloc buf_init hash hash_lookup evict first_clean first_idle fetch hash_insert
    hash_remove lookup_from unlink_from read_slot write_slot hit
program = tt

-- Two blocks of one chain, then the first of them again: its buffer is at the head of the LRU list.
abbrev twice : Cache
twice = (bread works 0 13 (bread works 0 5 (buf_init fresh)).0).0

bread_run :
    ((bread works 0 13 (bread works 0 5 (buf_init fresh)).0).1 ≡ some 1)
    × ((bread works 0 5 twice).1 ≡ some 0)
    × (twice.bytes 1 3 ≡ 39)
    × (twice.hash_next 1 ≡ some 0)
unfolding program
bread_run = (refl, refl, refl, refl)

bread-IsRead_example : IsRead (buf_init fresh) 0 5 (bread works 0 5 (buf_init fresh))
bread-IsRead_example =
    bread-IsRead works (λ d b. refl) (buf_init fresh) (λ h. []) (buf_init-IsCache fresh) 0 5
