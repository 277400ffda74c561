-- ===== src/Noxfs/Layout/Codec.antt =====
-- About the bytes of an inode: what is written is read back.
use noxis.Prelude.{ℕ, ◌+◌, ◌-◌, ◌*◌, ◌/◌, ◌%◌, ◌^◌, ◌<◌, ◌≡◌, refl, ap, ◌∙◌, arith}
use noxis.Noxfs.Layout.{Bytes, Inode, byte, get16, get32, inode_bytes, read_inode}

-- The fields are in the range of their types.
pub record Fits (n : Inode) : Type 0 where
  pub mode_fits : n.mode < 65536
  pub uid_fits : n.uid < 65536
  pub gid_fits : n.gid < 65536
  pub size_fits : n.size < 2 ^ 32
  pub blocks_fit : (k : ℕ) → n.blocks k < 2 ^ 32
  pub indirect_fits : n.indirect < 2 ^ 32
  pub links_fit : n.links < 65536

pub get16-byte :
    (w o : ℕ) (d : Bytes) → w < 65536 → d o ≡ byte w 0 → d (o + 1) ≡ byte w 1 → get16 d o ≡ w
unfolding get16 byte
get16-byte w o d h a b = omega (arith, a, b)

pub get32-byte :
    (w o : ℕ) (d : Bytes)
    → w < 2 ^ 32
    → d o ≡ byte w 0
    → d (o + 1) ≡ byte w 1
    → d (o + 2) ≡ byte w 2
    → d (o + 3) ≡ byte w 3
    → get32 d o ≡ w
unfolding get32 byte
get32-byte w o d h a b c e = omega (arith, a, b, c, e)

-- The two inodes have the same fields, where the disk has room for them.
pub record IsSameInode (n m : Inode) : Type 0 where
  pub same_mode : n.mode ≡ m.mode
  pub same_uid : n.uid ≡ m.uid
  pub same_gid : n.gid ≡ m.gid
  pub same_size : n.size ≡ m.size
  pub same_blocks : (k : ℕ) → k < 10 → n.blocks k ≡ m.blocks k
  pub same_indirect : n.indirect ≡ m.indirect
  pub same_links : n.links ≡ m.links
  pub same_pad : (i : ℕ) → i < 8 → n.ino_pad i ≡ m.ino_pad i

-- Bytes 10 to 49 of an inode.
block_byte :
    (n : Inode) (k j : ℕ) → k < 10 → j < 4 → inode_bytes n (10 + 4 * k + j) ≡ byte (n.blocks k) j
unfolding inode_bytes
block_byte n k j h h' =
    let q : (10 + 4 * k + j - 10) / 4 ≡ k = omega arith in
    let r : (10 + 4 * k + j - 10) % 4 ≡ j = omega arith in
    ground (arith, ap n.blocks q, ap (λ i. byte (n.blocks k) i) r)

-- Bytes at `o` that are those of an inode.
abbrev pub Holds : Inode → ℕ → Bytes → Type 0
Holds n o d = (i : ℕ) → i < 64 → d (o + i) ≡ inode_bytes n i

at_offset :
    (n : Inode) (o a j : ℕ) (d : Bytes)
    → Holds n o d
    → a + j < 64
    → d (o + a + j) ≡ inode_bytes n (a + j)
at_offset n o a j d h p = let e : o + a + j ≡ o + (a + j) = omega arith in ap d e ∙ h (a + j) p

word_at :
    (n : Inode) (o a w : ℕ) (d : Bytes)
    → Holds n o d
    → a + 3 < 64
    → w < 2 ^ 32
    → inode_bytes n a ≡ byte w 0
    → inode_bytes n (a + 1) ≡ byte w 1
    → inode_bytes n (a + 2) ≡ byte w 2
    → inode_bytes n (a + 3) ≡ byte w 3
    → get32 d (o + a) ≡ w
word_at n o a w d h p fit e0 e1 e2 e3 =
    get32-byte w (o + a) d fit (h a (omega arith) ∙ e0) (at_offset n o a 1 d h (omega arith) ∙ e1)
      (at_offset n o a 2 d h (omega arith) ∙ e2) (at_offset n o a 3 d h (omega arith) ∙ e3)

half_at :
    (n : Inode) (o a w : ℕ) (d : Bytes)
    → Holds n o d
    → a + 1 < 64
    → w < 65536
    → inode_bytes n a ≡ byte w 0
    → inode_bytes n (a + 1) ≡ byte w 1
    → get16 d (o + a) ≡ w
half_at n o a w d h p fit e0 e1 =
    get16-byte w (o + a) d fit (h a (omega arith) ∙ e0) (at_offset n o a 1 d h (omega arith) ∙ e1)

block_at :
    (n : Inode) (o k : ℕ) (d : Bytes)
    → Holds n o d
    → k < 10
    → n.blocks k < 2 ^ 32
    → get32 d (o + 10 + 4 * k) ≡ n.blocks k
block_at n o k d h p fit =
    let e : o + 10 + 4 * k ≡ o + (10 + 4 * k) = omega arith in
    let start : 10 + 4 * k ≡ 10 + 4 * k + 0 = omega arith in
    ap (get32 d) e
    ∙ word_at n o (10 + 4 * k) (n.blocks k) d h (omega arith) fit
        (ap (inode_bytes n) start ∙ block_byte n k 0 p (omega arith))
        (block_byte n k 1 p (omega arith)) (block_byte n k 2 p (omega arith))
        (block_byte n k 3 p (omega arith))

pad_at : (n : Inode) (i : ℕ) → i < 8 → inode_bytes n (56 + i) ≡ n.ino_pad i
unfolding inode_bytes
pad_at n i h = let e : 56 + i - 56 ≡ i = omega arith in ground (arith, ap n.ino_pad e)

pub start_at : (o : ℕ) → o ≡ o + 0
start_at o = omega arith

-- Bytes at `o` that are those of an inode are read as that inode.
pub read_inode-bytes :
    (n : Inode) (o : ℕ) (d : Bytes) → Fits n → Holds n o d → IsSameInode (read_inode d o) n
unfolding read_inode inode_bytes byte
read_inode-bytes n o d f h = record {
  same_mode =
      ap (get16 d) (start_at o) ∙ half_at n o 0 n.mode d h (omega arith) f.mode_fits refl refl;
  same_uid = half_at n o 2 n.uid d h (omega arith) f.uid_fits refl refl;
  same_gid = half_at n o 4 n.gid d h (omega arith) f.gid_fits refl refl;
  same_size = word_at n o 6 n.size d h (omega arith) f.size_fits refl refl refl refl;
  same_blocks = λ k p. block_at n o k d h p (f.blocks_fit k);
  same_indirect = word_at n o 50 n.indirect d h (omega arith) f.indirect_fits refl refl refl refl;
  same_links = half_at n o 54 n.links d h (omega arith) f.links_fit refl refl;
  same_pad = λ i p. at_offset n o 56 i d h (omega arith) ∙ pad_at n i p;
}

get16-lt : (o : ℕ) (d : Bytes) → ((i : ℕ) → d i < 256) → get16 d o < 65536
unfolding get16
get16-lt o d h = omega (arith, h o, h (o + 1))

get32-lt : (o : ℕ) (d : Bytes) → ((i : ℕ) → d i < 256) → get32 d o < 2 ^ 32
unfolding get32
get32-lt o d h = omega (arith, h o, h (o + 1), h (o + 2), h (o + 3))

-- An inode that is read from bytes is in range.
pub read_inode-Fits : (o : ℕ) (d : Bytes) → ((i : ℕ) → d i < 256) → Fits (read_inode d o)
unfolding read_inode
read_inode-Fits o d h = record {
  mode_fits = get16-lt o d h;
  uid_fits = get16-lt (o + 2) d h;
  gid_fits = get16-lt (o + 4) d h;
  size_fits = get32-lt (o + 6) d h;
  blocks_fit = λ k. get32-lt (o + 10 + 4 * k) d h;
  indirect_fits = get32-lt (o + 50) d h;
  links_fit = get16-lt (o + 54) d h;
}
