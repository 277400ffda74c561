-- ===== src/Noxfs/Examples.antt =====
-- Concrete runs of the model of src/fs/noxfs/noxfs.c.
use noxis.Prelude.{
  ℕ, ◌+◌, ◌<◌, ◌≡◌, ◌⊎◌, refl, sym, ap, ◌∙◌, arith, true, false, none, some, [], ◌∷◌, ◌==◌,
  if◌then◌else◌,
}
use noxis.Paths.{Str}
use noxis.Noxfs.Layout.{Bytes, Inode, Fs, File, get16, get32, read_inode}
use noxis.Noxfs.Layout.Codec.{Fits, read_inode-Fits}
use noxis.Noxfs.Blocks.{store_data}
use noxis.Noxfs.Blocks.Loaded.{HasBlocks, Loads, load_data-store_data}
use noxis.Noxfs.Alloc.{
  put_inode, iread, iwrite, bmp_alloc, bmp_free, new_inode, scan_bits, scan_bytes, scan_blocks,
  put_byte_at,
}
use noxis.Noxfs.Alloc.Scanning.{bit_at}
use noxis.Noxfs.Alloc.Table.{ReadsAs, iread-iwrite}
use noxis.Noxfs.Alloc.Bitmap.{Allocates, bmp_alloc-Allocates, bmp_free-alloc}
use noxis.Noxfs.Dir.{noxfs_resolve, appended, compacted, is_named, matches}
use noxis.Noxfs.Dir.Removed.{inode_named-compacted}
use noxis.Noxfs.Dir.Entries.{inode_named, or_else, same_name, inode_named-appended}
use noxis.Noxfs.Dir.Resolve.{here, name, IsName, path_of, walk, noxfs_resolve-walk}
use noxis.Noxfs.Names.{noxfs_stat, noxfs_chmod, with_perm}
use noxis.Noxfs.Names.Mode.{HasMode, AreBytes, noxfs_chmod-HasMode}

abbrev no_file : File
no_file = record { name = λ _. 0; content = λ _. 0; fsize = 0; capacity = 0; inode = 0 }

-- A small disk, with the first nine blocks in use.
abbrev mounted : Fs
mounted = record {
  sb = record {
    magic = 0x4E584632;
    block_count = 100;
    inode_count = 16;
    free_blocks = 91;
    free_inodes = 15;
    blk_bmp = 1;
    ino_bmp = 2;
    ino_tbl = 3;
    data_start = 5;
    root_ino = 1;
    sb_pad = λ _. 0;
  };
  disk = λ b i. if b == 1 then (if i == 0 then 255 else if i == 1 then 1 else 0) else 0;
  heap = λ _. some (λ _. 0);
  files = λ _. no_file;
  count = 0;
  ready = true;
}

new_inode-Fits : Fits (new_inode 0x81A4)
new_inode-Fits = record {
  mode_fits = omega arith;
  uid_fits = omega arith;
  gid_fits = omega arith;
  size_fits = omega arith;
  blocks_fit = λ k. omega arith;
  indirect_fits = omega arith;
  links_fit = omega arith;
}

empty_inode : iread 3 mounted ≡ some (read_inode (λ _. 0) 24)
unfolding iread read_inode get16 get32
empty_inode = refl

written : iwrite 2 (new_inode 0x81A4) mounted ≡ some (put_inode 2 (new_inode 0x81A4) mounted)
unfolding iwrite
written = refl

iread-iwrite_example :
    ReadsAs 3
      (put_inode 2 (new_inode 0x81A4) mounted)
      (if 2 == 3 then new_inode 0x81A4 else read_inode (λ _. 0) 24)
iread-iwrite_example =
    iread-iwrite 2 3 (new_inode 0x81A4) (read_inode (λ _. 0) 24) mounted
      (put_inode 2 (new_inode 0x81A4) mounted) new_inode-Fits empty_inode written

ninth : bmp_alloc 1 1 100 mounted ≡ (some 9, put_byte_at 1 1 3 mounted)
unfolding bmp_alloc scan_bits scan_bytes scan_blocks
ninth = refl

bmp_free-alloc_example :
    bit_at 1 (bmp_free 1 9 (put_byte_at 1 1 3 mounted)).disk 9 ≡ bit_at 1 mounted.disk 9
bmp_free-alloc_example = bmp_free-alloc 1 1 100 9 9 mounted (put_byte_at 1 1 3 mounted) ninth

-- A directory of one entry, the file "a" with inode 5.
abbrev one_entry : Bytes
one_entry i =
    if i == 0 then 5 else if i == 6 then 1 else if i == 7 then 1 else if i == 8 then b'a' else 0

inode_named-appended_example :
    inode_named 2 (appended 32 one_entry (λ _. 0) 7 1 (b'b' ∷ [])) (b'b' ∷ [])
    ≡ or_else
        (inode_named 1 one_entry (b'b' ∷ []))
        (if same_name (b'b' ∷ []) (b'b' ∷ []) then some 7 else none)
inode_named-appended_example =
    inode_named-appended 1 7 1 (b'b' ∷ []) one_entry (λ _. 0) (omega arith) (omega arith)
      (b'b' ∷ []) (omega arith) (omega arith)

abbrev etc : Str
etc = b'e' ∷ b't' ∷ b'c' ∷ []

abbrev motd : Str
motd = b'm' ∷ b'o' ∷ b't' ∷ b'd' ∷ []

etc-IsName : IsName etc
etc-IsName = record {
  some_bytes = omega arith;
  short = omega arith;
  no_slash = (refl, (refl, (refl, tt)));
  not_here = ground arith;
  not_top = ground arith;
}

motd-IsName : IsName motd
motd-IsName = record {
  some_bytes = omega arith;
  short = omega arith;
  no_slash = (refl, (refl, (refl, (refl, tt))));
  not_here = ground arith;
  not_top = ground arith;
}

noxfs_resolve-walk_example :
    noxfs_resolve 9 (path_of (name etc ∷ here ∷ name motd ∷ [])) mounted
    ≡ walk (name etc ∷ here ∷ name motd ∷ []) 1 mounted
noxfs_resolve-walk_example =
    noxfs_resolve-walk 9 (name etc) (here ∷ name motd ∷ []) mounted refl
      (etc-IsName, (tt, (motd-IsName, tt)))

mounted-AreBytes : AreBytes mounted
mounted-AreBytes b i = ground arith

abbrev zeros : Inode
zeros = read_inode (λ _. 0) 24

abbrev opened : Fs
opened = put_inode 3 (record zeros { mode = with_perm 0x1ED 0 }) mounted

zeros-stat : noxfs_stat 3 mounted ≡ some (0, 0)
unfolding noxfs_stat iread read_inode get16 get32
zeros-stat = refl

zeros-chmod : noxfs_chmod 3 0x1ED mounted ≡ some opened
unfolding noxfs_chmod iread iwrite read_inode get16 get32
zeros-chmod = refl

noxfs_chmod-HasMode_example : HasMode 3 0x1ED 3 0 0 opened
noxfs_chmod-HasMode_example =
    noxfs_chmod-HasMode 3 0x1ED 3 0 0 mounted opened mounted-AreBytes zeros-stat zeros-chmod

bmp_alloc-Allocates_example :
    (bmp_alloc 1 1 100 mounted ≡ (none, mounted))
      × ((k : ℕ) → k < 4096 → k < 100 → bit_at 1 mounted.disk k ≡ 1)
    ⊎ ((g : ℕ) × (t : Fs) × (bmp_alloc 1 1 100 mounted ≡ (some g, t))
        × Allocates 1 1 100 mounted t g)
bmp_alloc-Allocates_example = bmp_alloc-Allocates 1 1 100 mounted

-- The same disk with block 9 as the first one of inode 2.
abbrev table : Bytes
table i = if i == 138 then 9 else 0

abbrev with_block : Fs
with_block = record mounted { disk = λ b i. if b == 3 then table i else 0 }

abbrev node : Inode
node = read_inode table 128

node-read : iread 2 with_block ≡ some node
unfolding iread
node-read = refl

node_first : node.blocks 0 ≡ 9
unfolding read_inode get32
node_first = refl

node-HasBlocks : HasBlocks 2 3 node with_block
node-HasBlocks = record {
  readable = node-read;
  fits = read_inode-Fits 128 table (λ i. ground arith);
  some_bytes = omega arith;
  few = omega arith;
  there =
      λ k h z. let e : k ≡ 0 = omega arith in omega (arith, sym (ap node.blocks e) ∙ z, node_first);
  distinct = λ j k p q e. omega arith;
  apart =
      λ k h z. let e : k ≡ 0 = omega arith in omega (arith, sym (ap node.blocks e) ∙ z, node_first);
}

load_data-store_data_example :
    (t : Fs) × (store_data 2 (λ i. i + 65) 3 with_block ≡ (true, t)) × Loads 2 3 (λ i. i + 65) t
load_data-store_data_example =
    load_data-store_data 2 3 (λ i. i + 65) (λ _. 0) node with_block node-HasBlocks refl

-- The files "a" and "b", with inodes 5 and 7.
abbrev two_entries : Bytes
two_entries i =
    if i == 0
    then 5
    else if i == 6
    then 1
    else if i == 8
    then b'a'
    else if i == 32
    then 7
    else if i == 38
    then 1
    else if i == 40
    then b'b'
    else 0

not_b : is_named two_entries (b'b' ∷ []) 0 ≡ false
unfolding matches get32
not_b = refl

inode_named-compacted_example :
    inode_named 1 (compacted 0 two_entries) (b'b' ∷ []) ≡ inode_named 2 two_entries (b'b' ∷ [])
inode_named-compacted_example =
    inode_named-compacted 0 1 two_entries (b'b' ∷ []) (omega arith) not_b
