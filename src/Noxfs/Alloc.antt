-- ===== src/Noxfs/Alloc.antt =====
-- The bitmaps, the allocators of blocks and inodes, and the table of inodes: the first part of
-- src/fs/noxfs/noxfs.c.
pub mod Scanning
pub mod Bitmap
pub mod Table
use noxis.Prelude.{
  ℕ, zero, suc, ◌+◌, ◌-◌, ◌*◌, ◌/◌, ◌%◌, ◌^◌, Bool, true, false, Option, none, some,
}
use noxis.Prelude.{ltb, leb, ◌==◌, ◌&&◌, update, if◌then◌else◌, bit_and, bit_or}
use noxis.Prelude.Bits.{bit_not}
use noxis.Noxfs.Layout.{
  Bytes, Superblock, Inode, Fs, blksz, ino_sz, inodes_per_blk, sb_bytes, inode_bytes, read_inode,
}

-- What a scan of a bitmap finds: all bits it looked at are set, an index that is too large, or a clear
-- bit: its block, its byte and its place.
pub data Scan : Type 0 where
  full past : Scan
  found : (block byte bit : ℕ) → Scan

-- b * NOXFS_BLKSZ * BITS_PER_BYTE + byte * BITS_PER_BYTE + bit
abbrev pub index_of : ℕ → ℕ → ℕ → ℕ
index_of b byte bit = b * 4096 + byte * 8 + bit

-- The loop over the bits of one byte, with the rounds left.
unfoldable pub scan_bits : ℕ → ℕ → ℕ → ℕ → ℕ → ℕ → Scan
scan_bits zero bit b byte w max_bits = full
scan_bits (suc n) bit b byte w max_bits = elim (leb max_bits (index_of b byte bit)) [
  | true ↦ past
  | false ↦ elim (bit_and w (2 ^ bit) == 0) [
    | true ↦ found b byte bit
    | false ↦ scan_bits n (bit + 1) b byte w max_bits
  ]
]

-- The loop over the bytes of one block.
unfoldable pub scan_bytes : ℕ → ℕ → ℕ → Bytes → ℕ → Scan
scan_bytes zero byte b d max_bits = full
scan_bytes (suc n) byte b d max_bits = elim (d byte == 255) [
  | true ↦ scan_bytes n (byte + 1) b d max_bits
  | false ↦ elim (scan_bits 8 0 b byte (d byte) max_bits) [
    | full ↦ scan_bytes n (byte + 1) b d max_bits
    | past ↦ past
    | found x y z ↦ found x y z
  ]
]

-- The loop over the blocks of the bitmap.
unfoldable pub scan_blocks : ℕ → ℕ → ℕ → (ℕ → Bytes) → ℕ → Scan
scan_blocks zero b start disk max_bits = full
scan_blocks (suc n) b start disk max_bits =
    elim (scan_bytes blksz 0 b (disk (start + b)) max_bits) [
      | full ↦ scan_blocks n (b + 1) start disk max_bits
      | past ↦ past
      | found x y z ↦ found x y z
    ]

-- bp->data[byte] = v, and bwrite.
unfoldable pub put_byte_at : ℕ → ℕ → ℕ → Fs → Fs
put_byte_at blk o v s = record s { disk = update s.disk blk (update (s.disk blk) o v) }

-- `none` is (uint32_t)-1.
unfoldable pub bmp_alloc : ℕ → ℕ → ℕ → Fs → Option ℕ × Fs
bmp_alloc start cnt max_bits s = elim (scan_blocks cnt 0 start s.disk max_bits) [
  | full ↦ (none, s)
  | past ↦ (none, s)
  | found b byte bit ↦ (
    some (index_of b byte bit),
    put_byte_at (start + b) byte (bit_or (s.disk (start + b) byte) (2 ^ bit)) s,
  )
]

pub bmp_free : ℕ → ℕ → Fs → Fs
bmp_free start bit s =
    let blk = start + bit / 4096 in
    let o = bit % 4096 / 8 in
    put_byte_at blk o (bit_and (s.disk blk o) (bit_not 8 (2 ^ (bit % 8)))) s

-- All 512 bytes of block 0 are those of the superblock.
pub sb_write : Fs → Fs
sb_write s = record s {
  disk = update s.disk 0 (λ i. if ltb i blksz then sb_bytes s.sb i else s.disk 0 i);
}

pub balloc : Fs → Option ℕ × Fs
balloc s =
    let (blk, t) = bmp_alloc s.sb.blk_bmp 1 s.sb.block_count s in
    if s.sb.free_blocks == 0 then (none, s) else elim blk [
      | none ↦ (none, t)
      | some b ↦
          (some b, sb_write (record t { sb = record t.sb { free_blocks = t.sb.free_blocks - 1 } }))
    ]

pub bfree : ℕ → Fs → Fs
bfree blk s =
    let t = bmp_free s.sb.blk_bmp blk s in
    if leb s.sb.block_count blk
    then s
    else sb_write (record t { sb = record t.sb { free_blocks = (t.sb.free_blocks + 1) % 2 ^ 32 } })

-- Where an inode is: its block of the table, and its offset there.
abbrev pub ino_blk : ℕ → Fs → ℕ
ino_blk ino s = s.sb.ino_tbl + ino / inodes_per_blk

abbrev pub ino_off : ℕ → ℕ
ino_off ino = ino % inodes_per_blk * ino_sz

-- The 64 bytes of an inode are stored in its block.
pub put_inode : ℕ → Inode → Fs → Fs
put_inode ino n s =
    let blk = ino_blk ino s in
    let o = ino_off ino in
    record s {
      disk =
          update s.disk blk
            (λ i. if leb o i && ltb i (o + ino_sz) then inode_bytes n (i - o) else s.disk blk i);
    }

abbrev pub new_inode : ℕ → Inode
new_inode mode = record {
  mode = mode;
  uid = 0;
  gid = 0;
  size = 0;
  blocks = λ _. 0;
  indirect = 0;
  links = 1;
  ino_pad = λ _. 0;
}

pub ialloc : ℕ → Fs → Option ℕ × Fs
ialloc mode s =
    let (ino, t) = bmp_alloc s.sb.ino_bmp 1 s.sb.inode_count s in
    if s.sb.free_inodes == 0 then (none, s) else elim ino [
      | none ↦ (none, t)
      | some i ↦
          let u = put_inode i (new_inode mode) t in
          (some i, sb_write (record u { sb = record u.sb { free_inodes = u.sb.free_inodes - 1 } }))
    ]

-- `none` is OS_ERR_INVALID.
unfoldable pub iread : ℕ → Fs → Option Inode
iread ino s =
    if leb s.sb.inode_count ino
    then none
    else some (read_inode (s.disk (ino_blk ino s)) (ino_off ino))

unfoldable pub iwrite : ℕ → Inode → Fs → Option Fs
iwrite ino n s = if leb s.sb.inode_count ino then none else some (put_inode ino n s)

pub ifree : ℕ → Fs → Fs
ifree ino s =
    let t = bmp_free s.sb.ino_bmp ino s in
    if leb s.sb.inode_count ino
    then s
    else sb_write (record t { sb = record t.sb { free_inodes = (t.sb.free_inodes + 1) % 2 ^ 32 } })
