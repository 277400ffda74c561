-- ===== src/Noxfs/Blocks.antt =====
-- The blocks of a file: _iget_block, _load_data and _store_data of src/fs/noxfs/noxfs.c.
pub mod Stored
pub mod Loaded
use noxis.Prelude.{ℕ, zero, suc, ◌+◌, ◌-◌, ◌*◌, ◌/◌, Bool, true, false, Option, none, some}
use noxis.Prelude.{ltb, leb, ◌==◌, ◌&&◌, update, if◌then◌else◌}
use noxis.Noxfs.Layout.{Bytes, Inode, Fs, blksz, direct, indirect_slots, byte, get32}
use noxis.Noxfs.Alloc.{balloc, iread, iwrite}

-- A block number, or 0, the inode in memory, and the state.
pub record Got : Type 0 where
  pub blk : ℕ
  pub node : Inode
  pub fs : Fs

abbrev pub got : ℕ → Inode → Fs → Got
got b n s = record { blk = b; node = n; fs = s }

-- A direct block, with `allocate`.
pub new_direct : Inode → ℕ → Fs → Got
new_direct n logical s = elim (n.blocks logical == 0) [
  | false ↦ got (n.blocks logical) n s
  | true ↦
      let (blk, t) = balloc s in
      elim blk [
        | none ↦ got 0 n t
        | some b ↦ got b (record n { blocks = update n.blocks logical b }) t
      ]
]

-- The block of pointers, allocated and cleared if it is not there. `none` is a return of 0.
pub new_indirect : Inode → Fs → Option Inode × Fs
new_indirect n s = elim (n.indirect == 0) [
  | false ↦ (some n, s)
  | true ↦
      let (blk, t) = balloc s in
      elim blk [
        | none ↦ (none, t)
        | some b ↦ (
          some (record n { indirect = b }),
          record t { disk = update t.disk b (λ i. if ltb i blksz then 0 else t.disk b i) },
        )
      ]
]

-- ptrs[k] = blk, in the block `at`.
pub put_pointer : ℕ → ℕ → ℕ → Fs → Fs
put_pointer at k blk s = record s {
  disk =
      update s.disk at
        (λ i. if leb (4 * k) i && ltb i (4 * k + 4) then byte blk (i - 4 * k) else s.disk at i);
}

-- A pointer of the block of pointers, with `allocate`. The pointers are read before _balloc, from the
-- buffer that is held.
pub new_pointer : Inode → ℕ → Fs → Got
new_pointer n k s = elim (get32 (s.disk n.indirect) (4 * k) == 0) [
  | false ↦ got (get32 (s.disk n.indirect) (4 * k)) n s
  | true ↦
      let (blk, t) = balloc s in
      elim blk [ none ↦ got 0 n t | some b ↦ got b n (put_pointer n.indirect k b t) ]
]

pub iget_block : Inode → ℕ → Bool → Fs → Got
iget_block n logical allocate s = elim (ltb logical direct) [
  | true ↦ elim allocate [ true ↦ new_direct n logical s | false ↦ got (n.blocks logical) n s ]
  | false ↦ elim (leb indirect_slots (logical - direct)) [
    | true ↦ got 0 n s
    | false ↦ elim allocate [
      | true ↦
          let (n', t) = new_indirect n s in
          elim n' [
            | none ↦ got 0 n t
            | some n' ↦ elim (n'.indirect == 0) [
              | true ↦ got 0 n' t
              | false ↦ new_pointer n' (logical - direct) t
            ]
          ]
      | false ↦ elim (n.indirect == 0) [
        | true ↦ got 0 n s
        | false ↦ got (get32 (s.disk n.indirect) (4 * (logical - direct))) n s
      ]
    ]
  ]
]

-- The bytes of a block that are part of a file of `size` bytes: min(512, size - k * 512).
abbrev pub part : ℕ → ℕ → ℕ
part k size = if ltb size (k * blksz + blksz) then size - k * blksz else blksz

-- buf[k * 512 + b] = bp->data[b] for b < copy
pub copy_in : ℕ → ℕ → Bytes → Bytes → Bytes
copy_in k size d buf i =
    if leb (k * blksz) i && ltb i (k * blksz + part k size) then d (i - k * blksz) else buf i

-- The loop of _load_data, with the rounds left. A block 0 leaves what the buffer had.
pub load_from : ℕ → ℕ → Inode → Fs → Bytes → Bytes
load_from zero k n s buf = buf
load_from (suc r) k n s buf =
    let blk = (iget_block n k false s).blk in
    load_from r (k + 1) n s (if blk == 0 then buf else copy_in k n.size (s.disk blk) buf)

abbrev pub round_up : ℕ → ℕ
round_up n = (n + 511) / 512 * 512

-- `none` is NULL. A file of 2^32 - 511 bytes or more, whose size wraps, is out of a disk's reach.
pub load_data : ℕ → Fs → Option (Bytes × ℕ)
load_data ino s = elim (iread ino s) [
  | none ↦ none
  | some n ↦ elim (n.size == 0) [
    | true ↦ elim (s.heap 1) [ none ↦ none | some buf ↦ some (update buf 0 0, 0) ]
    | false ↦ elim (s.heap (round_up n.size)) [
      | none ↦ none
      | some buf ↦ some (load_from ((n.size + 511) / 512) 0 n s buf, n.size)
    ]
  ]
]

-- bp->data[b] = data[k * 512 + b] for b < copy, and bwrite
pub copy_out : ℕ → ℕ → Bytes → ℕ → Fs → Fs
copy_out k size d blk s = record s {
  disk = update s.disk blk (λ b. if ltb b (part k size) then d (k * blksz + b) else s.disk blk b);
}

-- The loop of _store_data; `none` is OS_ERR_OOM, after which the inode is not written.
pub store_from : ℕ → ℕ → Bytes → Inode → Fs → Option Inode × Fs
store_from zero k d n s = (some n, s)
store_from (suc r) k d n s =
    let g = iget_block n k true s in
    elim (g.blk == 0) [
      | true ↦ (none, g.fs)
      | false ↦ store_from r (k + 1) d g.node (copy_out k g.node.size d g.blk g.fs)
    ]

-- True is OS_OK.
pub store_data : ℕ → Bytes → ℕ → Fs → Bool × Fs
store_data ino d size s = elim (iread ino s) [
  | none ↦ (false, s)
  | some n ↦
      let (n', t) = store_from ((size + 511) / 512) 0 d (record n { size = size }) s in
      elim n' [
        | none ↦ (false, t)
        | some n' ↦ elim (iwrite ino n' t) [ none ↦ (false, t) | some u ↦ (true, u) ]
      ]
]
