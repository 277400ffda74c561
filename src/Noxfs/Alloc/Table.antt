-- ===== src/Noxfs/Alloc/Table.antt =====
-- About the table of inodes in src/fs/noxfs/noxfs.c: _iread and _iwrite.
use noxis.Prelude.{
  ℕ, ◌+◌, ◌-◌, ◌*◌, ◌/◌, ◌%◌, ◌≤◌, ◌<◌, ◌≡◌, ◌≢◌, refl, sym, ap, ◌∙◌, ◌⊎◌, inl, inr, arith, Bool,
  true, false, none, some, none≢some,
}
use noxis.Prelude.{update_self, update_ne, ltb, leb, ◌==◌, ◌&&◌, ==-cases, if◌then◌else◌}
use noxis.Noxfs.Layout.{Bytes, Inode, Fs, inode_bytes, read_inode}
use noxis.Noxfs.Layout.Codec.{Fits, Holds, IsSameInode, read_inode-bytes}
use noxis.Noxfs.Layout.Agree.{read_inode-Agree}
use mathlib.Core.Option.{some-injective}
use noxis.Noxfs.Alloc.{ino_blk, ino_off, put_inode, iread, iwrite}

-- Different places of one block.
apart :
    (ino other i : ℕ)
    → ino ≢ other
    → i < 64
    → ino / 8 ≡ other / 8
    → other % 8 * 64 + i < ino % 8 * 64 ⊎ ino % 8 * 64 + 64 ≤ other % 8 * 64 + i
apart ino other i ne h e = omega (arith, ne, h, e)

same_block : (ino other t : ℕ) → t + other / 8 ≡ t + ino / 8 → ino / 8 ≡ other / 8
same_block ino other t e = omega (arith, e)

outside :
    (o i : ℕ) (f d : Bytes)
    → i < o ⊎ o + 64 ≤ i
    → (if leb o i && ltb i (o + 64) then f (i - o) else d i) ≡ d i
outside o i f d h = ground (arith, h)

put_inode_at :
    (ino : ℕ) (n : Inode) (s : Fs) (i : ℕ)
    → (put_inode ino n s).disk (ino_blk ino s) i ≡ (
        if leb (ino_off ino) i && ltb i (ino_off ino + 64)
        then inode_bytes n (i - ino_off ino)
        else s.disk (ino_blk ino s) i)
unfolding put_inode
put_inode_at ino n s i = ap (λ f. f i) (update_self s.disk (ino_blk ino s) _)

put_inode-Holds :
    (ino : ℕ) (n : Inode) (s : Fs)
    → Holds n (ino_off ino) ((put_inode ino n s).disk (ino_blk ino s))
put_inode-Holds ino n s i h =
    let e : ino_off ino + i - ino_off ino ≡ i = omega arith in
    put_inode_at ino n s (ino_off ino + i) ∙ ground (arith, ap (inode_bytes n) e)

pub put_inode_other_block :
    (ino b : ℕ) (n : Inode) (s : Fs) → b ≢ ino_blk ino s → (put_inode ino n s).disk b ≡ s.disk b
unfolding put_inode
put_inode_other_block ino b n s ne = update_ne s.disk (ino_blk ino s) b _ (λ e. ne (sym e))

-- A byte of the table that is not of this inode.
put_inode-other :
    (ino other i : ℕ) (n : Inode) (s : Fs)
    → ino ≢ other
    → i < 64
    → (put_inode ino n s).disk (ino_blk other s) (ino_off other + i)
      ≡ s.disk (ino_blk other s) (ino_off other + i)
put_inode-other ino other i n s ne h = elim (==-cases (ino_blk other s) (ino_blk ino s)) [
  | inl (e, _) ↦
      let q : ino / 8 ≡ other / 8 = same_block ino other s.sb.ino_tbl e in
      ap (λ b. (put_inode ino n s).disk b (ino_off other + i)) e
      ∙ put_inode_at ino n s (ino_off other + i)
      ∙ outside (ino_off ino) (ino_off other + i) (inode_bytes n) (s.disk (ino_blk ino s))
          (apart ino other i ne h q)
      ∙ ap (λ b. s.disk b (ino_off other + i)) (sym e)
  | inr (far, _) ↦
      ap (λ f. f (ino_off other + i)) (put_inode_other_block ino (ino_blk other s) n s far)
]

-- Reading this inode succeeds, with these fields.
unfoldable pub ReadsAs : ℕ → Fs → Inode → Type 0
ReadsAs ino s n = (m : Inode) × (iread ino s ≡ some m) × IsSameInode m n

guard-some :
    {A : Type 0} (b : Bool) (x y : A)
    → (if b then none else some x) ≡ some y
    → (b ≡ false) × (x ≡ y)
guard-some true x y e = absurd (none≢some e)
guard-some false x y e = (refl, some-injective _ _ e)

pub iwrite-some : (ino : ℕ) (n : Inode) (s t : Fs) → iwrite ino n s ≡ some t → put_inode ino n s ≡ t
unfolding iwrite
iwrite-some ino n s t e = (guard-some _ _ _ e).1

pub iread-some :
    (ino : ℕ) (m : Inode) (s : Fs)
    → iread ino s ≡ some m
    → (leb s.sb.inode_count ino ≡ false) × (read_inode (s.disk (ino_blk ino s)) (ino_off ino) ≡ m)
unfolding iread
iread-some ino m s e = guard-some _ _ _ e

read_table :
    (ino : ℕ) (n : Inode) (s : Fs)
    → leb s.sb.inode_count ino ≡ false
    → IsSameInode (read_inode (s.disk (ino_blk ino s)) (ino_off ino)) n
    → ReadsAs ino s n
unfolding iread ReadsAs
read_table ino n s e h = (read_inode (s.disk (ino_blk ino s)) (ino_off ino), rw e refl, h)

pub read_written :
    (ino : ℕ) (n : Inode) (s : Fs)
    → Fits n
    → leb s.sb.inode_count ino ≡ false
    → ReadsAs ino (put_inode ino n s) n
unfolding put_inode
read_written ino n s f q = read_table ino n (put_inode ino n s) q (
    read_inode-bytes n (ino_off ino) ((put_inode ino n s).disk (ino_blk ino s)) f
      (put_inode-Holds ino n s))

read_other :
    (ino other : ℕ) (n m : Inode) (s : Fs)
    → ino ≢ other
    → leb s.sb.inode_count other ≡ false
    → read_inode (s.disk (ino_blk other s)) (ino_off other) ≡ m
    → ReadsAs other (put_inode ino n s) m
unfolding put_inode
read_other ino other n m s ne q e = read_table other m (put_inode ino n s) q (
    rw (sym e) (
      read_inode-Agree (ino_off other) ((put_inode ino n s).disk (ino_blk other s))
        (s.disk (ino_blk other s)) (λ i h. put_inode-other ino other i n s ne h)))

-- After an inode is written, it is read with the fields that were written, and every other inode with
-- the fields it had.
pub iread-iwrite :
    (ino other : ℕ) (n m : Inode) (s t : Fs)
    → Fits n
    → iread other s ≡ some m
    → iwrite ino n s ≡ some t
    → ReadsAs other t (if ino == other then n else m)
iread-iwrite ino other n m s t f r w =
    let (q, e) = iread-some other m s r in
    elim (==-cases ino other) [
      | inl (same, b) ↦ rw (b, sym (iwrite-some ino n s t w), same) (read_written other n s f q)
      | inr (ne, b) ↦ rw (b, sym (iwrite-some ino n s t w)) (read_other ino other n m s ne q e)
    ]

pub ready-put_inode : (ino : ℕ) (n : Inode) (s : Fs) → (put_inode ino n s).ready ≡ s.ready
unfolding put_inode
ready-put_inode ino n s = refl

pub iwrite-there :
    (ino : ℕ) (n : Inode) (s : Fs)
    → leb s.sb.inode_count ino ≡ false
    → iwrite ino n s ≡ some (put_inode ino n s)
unfolding iwrite
iwrite-there ino n s e = ap (λ b. if b then none else some (put_inode ino n s)) e

pub heap-put_inode : (ino : ℕ) (n : Inode) (s : Fs) → (put_inode ino n s).heap ≡ s.heap
unfolding put_inode
heap-put_inode ino n s = refl
