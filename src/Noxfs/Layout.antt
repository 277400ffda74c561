-- ===== src/Noxfs/Layout.antt =====
-- The records of src/fs/noxfs/noxfs.h and their bytes, least significant first, and the state.
pub mod Codec
pub mod Agree
use noxis.Prelude.{
  ℕ, zero, suc, ◌+◌, ◌-◌, ◌*◌, ◌/◌, ◌%◌, ◌^◌, Bool, true, false, Option, none, some, [], ◌∷◌,
  get_or,
}
use noxis.Prelude.{ltb, ◌==◌, if◌then◌else◌}

abbrev pub blksz : ℕ
blksz = 512

abbrev pub ino_sz : ℕ
ino_sz = 64

abbrev pub inodes_per_blk : ℕ
inodes_per_blk = 8

abbrev pub direct : ℕ
direct = 10

abbrev pub indirect_slots : ℕ
indirect_slots = 128

abbrev pub max_files : ℕ
max_files = 24

abbrev pub dirent_sz : ℕ
dirent_sz = 32

abbrev pub ino_file : ℕ
ino_file = 0x8000

abbrev pub ino_dir : ℕ
ino_dir = 0x4000

abbrev pub mode_file : ℕ
mode_file = 0x81A4

abbrev pub mode_dir : ℕ
mode_dir = 0x41ED

abbrev pub Bytes : Type 0
Bytes = ℕ → ℕ

-- Byte `k` of a number.
pub byte : ℕ → ℕ → ℕ
byte w zero = w % 256
byte w (suc k) = byte (w / 256) k

unfoldable pub get16 : Bytes → ℕ → ℕ
get16 d o = d o + 256 * d (o + 1)

unfoldable pub get32 : Bytes → ℕ → ℕ
get32 d o = d o + 256 * d (o + 1) + 65536 * d (o + 2) + 16777216 * d (o + 3)

pub record Superblock : Type 0 where
  pub magic : ℕ
  pub block_count : ℕ
  pub inode_count : ℕ
  pub free_blocks : ℕ
  pub free_inodes : ℕ
  pub blk_bmp : ℕ
  pub ino_bmp : ℕ
  pub ino_tbl : ℕ
  pub data_start : ℕ
  pub root_ino : ℕ
  pub sb_pad : Bytes

-- The ten words of the superblock, then its padding.
pub sb_word : Superblock → ℕ → ℕ
sb_word b k =
    get_or
      (b.magic ∷ b.block_count ∷ b.inode_count ∷ b.free_blocks ∷ b.free_inodes ∷ b.blk_bmp
        ∷ b.ino_bmp ∷ b.ino_tbl ∷ b.data_start ∷ b.root_ino ∷ [])
      k 0

pub sb_bytes : Superblock → Bytes
sb_bytes b i = if ltb i 40 then byte (sb_word b (i / 4)) (i % 4) else b.sb_pad (i - 40)

pub read_sb : Bytes → Superblock
read_sb d = record {
  magic = get32 d 0;
  block_count = get32 d 4;
  inode_count = get32 d 8;
  free_blocks = get32 d 12;
  free_inodes = get32 d 16;
  blk_bmp = get32 d 20;
  ino_bmp = get32 d 24;
  ino_tbl = get32 d 28;
  data_start = get32 d 32;
  root_ino = get32 d 36;
  sb_pad = λ i. d (40 + i);
}

pub record Inode : Type 0 where
  pub mode : ℕ
  pub uid : ℕ
  pub gid : ℕ
  pub size : ℕ
  pub blocks : ℕ → ℕ
  pub indirect : ℕ
  pub links : ℕ
  pub ino_pad : Bytes

-- The 64 bytes of an inode.
pub inode_bytes : Inode → Bytes
inode_bytes n i =
    if ltb i 2
    then byte n.mode i
    else if ltb i 4
    then byte n.uid (i - 2)
    else if ltb i 6
    then byte n.gid (i - 4)
    else if ltb i 10
    then byte n.size (i - 6)
    else if ltb i 50
    then byte (n.blocks ((i - 10) / 4)) ((i - 10) % 4)
    else if ltb i 54
    then byte n.indirect (i - 50)
    else if ltb i 56
    then byte n.links (i - 54)
    else n.ino_pad (i - 56)

-- The inode whose bytes start at `o`.
unfoldable pub read_inode : Bytes → ℕ → Inode
read_inode d o = record {
  mode = get16 d o;
  uid = get16 d (o + 2);
  gid = get16 d (o + 4);
  size = get32 d (o + 6);
  blocks = λ k. get32 d (o + 10 + 4 * k);
  indirect = get32 d (o + 50);
  links = get16 d (o + 54);
  ino_pad = λ i. d (o + 56 + i);
}

-- `vfs_file_t`: an open file in memory.
pub record File : Type 0 where
  pub name : Bytes
  pub content : Bytes
  pub fsize : ℕ
  pub capacity : ℕ
  pub inode : ℕ

-- `heap n` is what a call of kmalloc for `n` bytes gives: the bytes that the memory holds, or NULL.
pub record Fs : Type 0 where
  pub sb : Superblock
  pub disk : ℕ → Bytes
  pub heap : ℕ → Option Bytes
  pub files : ℕ → File
  pub count : ℕ
  pub ready : Bool
