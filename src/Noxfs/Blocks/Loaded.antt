-- ===== src/Noxfs/Blocks/Loaded.antt =====
-- About _load_data after _store_data, in src/fs/noxfs/noxfs.c, for a file whose blocks are there.
use noxis.Prelude.{
  ℕ, zero, suc, ◌+◌, ◌-◌, ◌*◌, ◌/◌, ◌%◌, ◌≤◌, ◌<◌, ◌≡◌, ◌≢◌, refl, sym, ap, ◌∙◌, inl, inr, arith,
  Bool, true, false, Option, none, some,
}
use noxis.Prelude.{leb, ◌==◌, ==-cases, ==-ne, update, if◌then◌else◌}
use mathlib.Core.Path.{subst}
use noxis.Noxfs.Layout.{Bytes, Inode, Fs}
use noxis.Noxfs.Layout.Codec.{Fits}
use noxis.Noxfs.Alloc.{ino_blk, put_inode, iread, iwrite}
use noxis.Noxfs.Alloc.Table.{
  ReadsAs, read_written, iread-some, iwrite-there, heap-put_inode, put_inode_other_block,
}
use noxis.Noxfs.Blocks.{part, copy_in, load_from, round_up, load_data, store_from, store_data}
use noxis.Noxfs.Blocks.Stored.{
  AllThere, written, store_from-written, written_kept, written_self, iget_read,
}

copy_in_front : (k size i : ℕ) (d buf : Bytes) → i < k * 512 → copy_in k size d buf i ≡ buf i
unfolding copy_in
copy_in_front k size i d buf h = ground (arith, h)

copy_in_there :
    (k size i : ℕ) (d buf : Bytes)
    → k * 512 ≤ i
    → i < k * 512 + part k size
    → copy_in k size d buf i ≡ d (i - k * 512)
unfolding copy_in
copy_in_there k size i d buf h g = ground (arith, h, g)

load_step :
    (r k : ℕ) (m : Inode) (s : Fs) (buf : Bytes)
    → k < 10
    → m.blocks k ≢ 0
    → load_from (suc r) k m s buf
      ≡ load_from r (k + 1) m s (copy_in k m.size (s.disk (m.blocks k)) buf)
unfolding load_from
load_step r k m s buf h ne =
    ap (λ b. load_from r (k + 1) m s (if b == 0 then buf else copy_in k m.size (s.disk b) buf))
      (iget_read m k s h)
    ∙ ap
        (λ b.
          load_from r (k + 1) m s (if b then buf else copy_in k m.size (s.disk (m.blocks k)) buf))
        (==-ne (m.blocks k) 0 ne)

no_blocks : (k : ℕ) (m : Inode) (s : Fs) (buf : Bytes) → load_from 0 k m s buf ≡ buf
unfolding load_from
no_blocks k m s buf = refl

load_front :
    (r k i : ℕ) (m : Inode) (s : Fs) (buf : Bytes)
    → k + r ≤ 10
    → AllThere r k m
    → i < k * 512
    → load_from r k m s buf i ≡ buf i
load_front zero k i m s buf h a p = ap (λ f. f i) (no_blocks k m s buf)
load_front (suc r) k i m s buf h a p =
    ap (λ f. f i) (load_step r k m s buf (omega arith) (a k (omega arith) (omega arith)))
    ∙ load_front r (k + 1) i m s (copy_in k m.size (s.disk (m.blocks k)) buf) (omega arith)
        (λ j x y. a j (omega arith) (omega arith)) (omega arith)
    ∙ copy_in_front k m.size i (s.disk (m.blocks k)) buf p

part-le : (k size : ℕ) → part k size ≤ 512
part-le k size = ground arith

-- The first of the blocks that are left.
load_here :
    (r k i : ℕ) (m : Inode) (s : Fs) (buf : Bytes)
    → k + suc r ≤ 10
    → AllThere (suc r) k m
    → i < part k m.size
    → load_from (suc r) k m s buf (k * 512 + i) ≡ s.disk (m.blocks k) i
load_here r k i m s buf h a g =
    let next = copy_in k m.size (s.disk (m.blocks k)) buf in
    let back : k * 512 + i - k * 512 ≡ i = omega arith in
    ap (λ f. f (k * 512 + i))
      (load_step r k m s buf (omega arith) (a k (omega arith) (omega arith)))
    ∙ load_front r (k + 1) (k * 512 + i) m s next (omega arith)
        (λ j x y. a j (omega arith) (omega arith)) (omega (arith, g, part-le k m.size))
    ∙ copy_in_there k m.size (k * 512 + i) (s.disk (m.blocks k)) buf (omega arith)
        (omega (arith, g))
    ∙ ap (s.disk (m.blocks k)) back

load_byte :
    (r k j i : ℕ) (m : Inode) (s : Fs) (buf : Bytes)
    → k + r ≤ 10
    → AllThere r k m
    → k ≤ j
    → j < k + r
    → i < part j m.size
    → load_from r k m s buf (j * 512 + i) ≡ s.disk (m.blocks j) i
load_byte zero k j i m s buf h a p q g = absurd (omega arith)
load_byte (suc r) k j i m s buf h a p q g =
    let next = copy_in k m.size (s.disk (m.blocks k)) buf in
    let step =
      ap (λ f. f (j * 512 + i))
        (load_step r k m s buf (omega arith) (a k (omega arith) (omega arith))) in
    let later : AllThere r (k + 1) m = λ j x y. a j (omega arith) (omega arith) in
    elim (==-cases k j) [
      | inl (e, _) ↦
          subst
            (λ j.
              i < part j m.size → load_from (suc r) k m s buf (j * 512 + i) ≡ s.disk (m.blocks j) i)
            e (load_here r k i m s buf h a) g
      | inr (ne, _) ↦
          step
          ∙ load_byte r (k + 1) j i m s next (omega arith) later (omega (arith, p, ne))
              (omega arith) g
    ]

-- What a file has before it is stored: its inode can be read, and its blocks are there, are different
-- ones, and are not the block of the inode.
pub record HasBlocks (ino size : ℕ) (n : Inode) (s : Fs) : Type 0 where
  pub readable : iread ino s ≡ some n
  pub fits : Fits n
  pub some_bytes : 0 < size
  pub few : size ≤ 5120
  pub there : (k : ℕ) → k * 512 < size → n.blocks k ≢ 0
  pub distinct : (j k : ℕ) → j * 512 < size → k * 512 < size → n.blocks j ≡ n.blocks k → j ≡ k
  pub apart : (k : ℕ) → k * 512 < size → n.blocks k ≢ ino_blk ino s

-- The state after the store.
abbrev after : ℕ → ℕ → Bytes → Inode → Fs → Fs
after ino size d n s =
    put_inode ino (record n { size = size })
      (written ((size + 511) / 512) 0 d (record n { size = size }) s)

abbrev sized : ℕ → Inode → Inode
sized size n = record n { size = size }

sized-Fits : (size : ℕ) (n : Inode) → Fits n → size ≤ 5120 → Fits (sized size n)
sized-Fits size n f h = record {
  mode_fits = f.mode_fits;
  uid_fits = f.uid_fits;
  gid_fits = f.gid_fits;
  size_fits = omega (arith, h);
  blocks_fit = f.blocks_fit;
  indirect_fits = f.indirect_fits;
  links_fit = f.links_fit;
}

-- The blocks have been written, and the inode not yet.
abbrev filled : ℕ → Bytes → Inode → Fs → Fs
filled size d n s = written ((size + 511) / 512) 0 d (sized size n) s

same_sb : (size : ℕ) (d : Bytes) (n : Inode) (s : Fs) → (filled size d n s).sb ≡ s.sb
same_sb size d n s = ap (λ f. f.sb) (written_kept ((size + 511) / 512) 0 d (sized size n) s)

in_table :
    (ino size : ℕ) (d : Bytes) (n : Inode) (s : Fs)
    → iread ino s ≡ some n
    → leb (filled size d n s).sb.inode_count ino ≡ false
in_table ino size d n s e =
    ap (λ b. leb b.inode_count ino) (same_sb size d n s) ∙ (iread-some ino n s e).0

all_there :
    (ino size : ℕ) (n : Inode) (s : Fs)
    → HasBlocks ino size n s
    → AllThere ((size + 511) / 512) 0 (sized size n)
all_there ino size n s v j p q = v.there j (omega (arith, q))

finish : ℕ → Option Inode × Fs → Bool × Fs
finish ino p = elim p.0 [
  | none ↦ (false, p.1)
  | some n ↦ elim (iwrite ino n p.1) [ none ↦ (false, p.1) | some u ↦ (true, u) ]
]

store_data-after :
    (ino size : ℕ) (d : Bytes) (n : Inode) (s : Fs)
    → HasBlocks ino size n s
    → store_data ino d size s ≡ (true, after ino size d n s)
unfolding store_data finish
store_data-after ino size d n s v =
    ap
      (λ o. elim o [
        | none ↦ (false, s)
        | some m ↦ finish ino (store_from ((size + 511) / 512) 0 d (sized size m) s)
      ])
      v.readable
    ∙ ap (finish ino) (
        store_from-written ((size + 511) / 512) 0 d (sized size n) s (omega (arith, v.few))
          (all_there ino size n s v))
    ∙ ap (λ o. elim o [ none ↦ (false, filled size d n s) | some u ↦ (true, u) ])
        (iwrite-there ino (sized size n) (filled size d n s) (in_table ino size d n s v.readable))

ReadsAs-after :
    (ino size : ℕ) (d : Bytes) (n : Inode) (s : Fs)
    → HasBlocks ino size n s
    → ReadsAs ino (after ino size d n s) (record n { size = size })
ReadsAs-after ino size d n s v =
    read_written ino (sized size n) (filled size d n s) (sized-Fits size n v.fits v.few)
      (in_table ino size d n s v.readable)

disk-after :
    (ino size j i : ℕ) (d : Bytes) (n : Inode) (s : Fs)
    → HasBlocks ino size n s
    → j * 512 < size
    → i < part j size
    → (after ino size d n s).disk (n.blocks j) i ≡ d (j * 512 + i)
disk-after ino size j i d n s v h g =
    let ne : n.blocks j ≢ ino_blk ino (filled size d n s) =
      λ e. v.apart j h (e ∙ ap (λ b. b.ino_tbl + ino / 8) (same_sb size d n s)) in
    ap (λ f. f i) (put_inode_other_block ino (n.blocks j) (sized size n) (filled size d n s) ne)
    ∙ written_self ((size + 511) / 512) 0 j i d (sized size n) s
        (λ a b x y e. v.distinct a b (omega (arith, x)) (omega (arith, y)) e) (omega arith)
        (omega (arith, h)) g

from_memory : Inode → Fs → Option Bytes → Option (Bytes × ℕ)
from_memory m t o = elim o [
  | none ↦ none
  | some buf ↦ some (load_from ((m.size + 511) / 512) 0 m t buf, m.size)
]

from_inode : Inode → Fs → Bool → Option (Bytes × ℕ)
from_inode m t b = elim b [
  | true ↦ elim (t.heap 1) [ none ↦ none | some buf ↦ some (update buf 0 0, 0) ]
  | false ↦ from_memory m t (t.heap (round_up m.size))
]

load_some :
    (ino : ℕ) (m : Inode) (buf : Bytes) (t : Fs)
    → iread ino t ≡ some m
    → 0 < m.size
    → t.heap (round_up m.size) ≡ some buf
    → load_data ino t ≡ some (load_from ((m.size + 511) / 512) 0 m t buf, m.size)
unfolding load_data from_memory from_inode
load_some ino m buf t e h b =
    ap (λ o. elim o [ none ↦ none | some n ↦ from_inode n t (n.size == 0) ]) e
    ∙ ap (from_inode m t) (==-ne m.size 0 (λ z. absurd (omega (arith, z, h))))
    ∙ ap (from_memory m t) b

heap_after : (ino size : ℕ) (d : Bytes) (n : Inode) (s : Fs) → (after ino size d n s).heap ≡ s.heap
heap_after ino size d n s =
    heap-put_inode ino (sized size n) (filled size d n s)
    ∙ ap (λ f. f.heap) (written_kept ((size + 511) / 512) 0 d (sized size n) s)

-- What is loaded from a state: the bytes of `d`, and their count.
pub record Loads (ino size : ℕ) (d : Bytes) (t : Fs) : Type 0 where
  pub bytes : Bytes
  pub loaded : load_data ino t ≡ some (bytes, size)
  pub same_bytes : (i : ℕ) → i < size → bytes i ≡ d i

inside : (i size : ℕ) → i < size → i % 512 < part (i / 512) size
inside i size h = ground (arith, h)

loads :
    (ino size : ℕ) (d buf : Bytes) (n : Inode) (s : Fs)
    → HasBlocks ino size n s
    → s.heap (round_up size) ≡ some buf
    → ReadsAs ino (after ino size d n s) (sized size n)
    → Loads ino size d (after ino size d n s)
unfolding ReadsAs
loads ino size d buf n s v b (m, read, same) =
    let t = after ino size d n s in
    let count = same.same_size in
    let memory : t.heap (round_up m.size) ≡ some buf =
      ap (λ f. f (round_up m.size)) (heap_after ino size d n s)
      ∙ ap (λ z. s.heap (round_up z)) count
      ∙ b in
    let all : AllThere ((m.size + 511) / 512) 0 m = λ j p q z.
      v.there j (omega (arith, q, count))
        (sym (same.same_blocks j (omega (arith, q, count, v.few))) ∙ z) in
    let bytes = load_from ((m.size + 511) / 512) 0 m t buf in
    record {
      bytes = bytes;
      loaded =
          load_some ino m buf t read (omega (arith, count, v.some_bytes)) memory
          ∙ ap (λ z. some (bytes, z)) count;
      same_bytes = λ i h.
          let whole : i ≡ i / 512 * 512 + i % 512 = omega arith in
          let within : i % 512 < part (i / 512) size = inside i size h in
          ap bytes whole
          ∙ load_byte ((m.size + 511) / 512) 0 (i / 512) (i % 512) m t buf
              (omega (arith, count, v.few)) all (omega arith) (omega (arith, count, h))
              (subst (λ z. i % 512 < part (i / 512) z) (sym count) within)
          ∙ ap (λ k. t.disk k (i % 512)) (same.same_blocks (i / 512) (omega (arith, h, v.few)))
          ∙ disk-after ino size (i / 512) (i % 512) d n s v (omega (arith, h)) within
          ∙ ap d (sym whole);
    }

-- For a file of at most ten blocks that are there, are different ones and are not the block of its
-- inode, _store_data of 1 to 5120 bytes succeeds, and when kmalloc has memory for them, _load_data
-- gives the bytes that were stored, and their count.
pub load_data-store_data :
    (ino size : ℕ) (d buf : Bytes) (n : Inode) (s : Fs)
    → HasBlocks ino size n s
    → s.heap (round_up size) ≡ some buf
    → (t : Fs) × (store_data ino d size s ≡ (true, t)) × Loads ino size d t
load_data-store_data ino size d buf n s v b = (
  after ino size d n s,
  store_data-after ino size d n s v,
  loads ino size d buf n s v b (ReadsAs-after ino size d n s v),
)
