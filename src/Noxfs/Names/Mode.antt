-- ===== src/Noxfs/Names/Mode.antt =====
-- About noxfs_chmod and noxfs_stat of src/fs/noxfs/noxfs.c.
use noxis.Prelude.{ℕ, ◌≤◌, ◌<◌, ◌≡◌, refl, sym, ap, ◌∙◌, inl, inr, arith, true, none, some}
use noxis.Prelude.{
  ltb, ltb→lt, ◌==◌, ◌&&◌, ==-cases, Bool-cases, pass, passed, bound, if◌then◌else◌, bit_and,
}
use noxis.Prelude.Bits.{
  test_bit, bit_not, test_bit-or, test_bit-and, test_bit-not, test_bit-le, ones-bit, ones-bit_high,
  bit_and-lt, bit_and-lt_right, bit_or-lt,
}
use mathlib.Core.Path.{ap₂}
use mathlib.Core.Option.{some-injective}
use noxis.Noxfs.Layout.{Inode, Fs}
use noxis.Noxfs.Layout.Codec.{Fits, read_inode-Fits}
use noxis.Noxfs.Alloc.{ino_blk, ino_off, iread, iwrite}
use noxis.Noxfs.Alloc.Table.{ReadsAs, iread-iwrite, iread-some, iwrite-some, ready-put_inode}
use noxis.Noxfs.Names.{noxfs_stat, noxfs_chmod, with_perm, perm_mask}

with_perm-bit :
    (perm mode k : ℕ)
    → k < 16
    → test_bit (with_perm perm mode) k ≡ (if ltb k 9 then test_bit perm k else test_bit mode k)
unfolding with_perm
with_perm-bit perm mode k h =
    let either = test_bit-or k (bit_and mode (bit_not 16 perm_mask)) (bit_and perm perm_mask) in
    let old = test_bit-and k mode (bit_not 16 perm_mask) in
    let new = test_bit-and k perm perm_mask in
    let flipped = test_bit-not 16 perm_mask k (omega arith) h in
    elim (Bool-cases (ltb k 9)) [
      | inl t ↦ rw t (
          omega (
            arith,
            either,
            old,
            new,
            flipped,
            ones-bit 9 k (ltb→lt k 9 t),
            test_bit-le perm k,
            test_bit-le mode k,
          ))
      | inr t ↦
          let high : 9 ≤ k = ground (arith, t) in
          rw t (
            omega (
              arith,
              either,
              old,
              new,
              flipped,
              ones-bit_high 9 k high,
              test_bit-le perm k,
              test_bit-le mode k,
            ))
    ]

with_perm-lt : (perm mode : ℕ) → mode < 65536 → with_perm perm mode < 65536
unfolding with_perm
with_perm-lt perm mode h =
    bit_or-lt 16 (bit_and mode (bit_not 16 perm_mask)) (bit_and perm perm_mask)
      (bit_and-lt 16 mode (bit_not 16 perm_mask) h)
      (bit_and-lt_right 16 perm perm_mask (omega arith))

-- Every byte of the disk is one.
abbrev pub AreBytes : Fs → Type 0
AreBytes s = (b i : ℕ) → s.disk b i < 256

iread-Fits : (ino : ℕ) (n : Inode) (s : Fs) → AreBytes s → iread ino s ≡ some n → Fits n
iread-Fits ino n s h e =
    let (_, e') = iread-some ino n s e in
    rw (sym e') (read_inode-Fits (ino_off ino) (s.disk (ino_blk ino s)) (h (ino_blk ino s)))

stat_of :
    (ino : ℕ) (s : Fs) (x : ℕ × ℕ)
    → noxfs_stat ino s ≡ some x
    → (n : Inode) × (iread ino s ≡ some n) × (x ≡ (n.size, n.mode))
unfolding noxfs_stat
stat_of ino s x e =
    let (_, q) = passed _ _ _ e in
    let (n, r, f) = bound (iread ino s) (λ n. some (n.size, n.mode)) x q in
    (n, r, sym (some-injective _ _ f))

stat_as :
    (ino : ℕ) (s : Fs) (n : Inode)
    → s.ready ≡ true
    → ReadsAs ino s n
    → noxfs_stat ino s ≡ some (n.size, n.mode)
unfolding noxfs_stat ReadsAs
stat_as ino s n r (m, e, same) =
    pass s.ready _ r
    ∙ ap (λ o. elim o [ none ↦ none | some n ↦ some (n.size, n.mode) ]) e
    ∙ ap some (ap₂ (λ a b. (a, b)) same.same_size same.same_mode)

chmod_of :
    (ino perm : ℕ) (s t : Fs)
    → noxfs_chmod ino perm s ≡ some t
    → (n : Inode) × (s.ready ≡ true)
      × (iread ino s ≡ some n)
      × (iwrite ino (record n { mode = with_perm perm n.mode }) s ≡ some t)
unfolding noxfs_chmod
chmod_of ino perm s t e =
    let (r, q) = passed _ _ _ e in
    let (n, f, g) =
      bound (iread ino s) (λ n. iwrite ino (record n { mode = with_perm perm n.mode }) s) t q in
    (n, r, f, g)

chmod_ready : (ino : ℕ) (n : Inode) (s t : Fs) → iwrite ino n s ≡ some t → t.ready ≡ s.ready
chmod_ready ino n s t e =
    ap (λ f. f.ready) (sym (iwrite-some ino n s t e)) ∙ ready-put_inode ino n s

keeps : (perm : ℕ) (n : Inode) → Fits n → Fits (record n { mode = with_perm perm n.mode })
keeps perm n f = record {
  mode_fits = with_perm-lt perm n.mode f.mode_fits;
  uid_fits = f.uid_fits;
  gid_fits = f.gid_fits;
  size_fits = f.size_fits;
  blocks_fit = f.blocks_fit;
  indirect_fits = f.indirect_fits;
  links_fit = f.links_fit;
}

-- What a change of mode makes of the size and the mode that another look-up would give.
pub record HasMode (ino perm other size mode : ℕ) (t : Fs) : Type 0 where
  pub new_mode : ℕ
  pub stat_after : noxfs_stat other t ≡ some (size, new_mode)
  pub mode_bits :
      (k : ℕ)
      → k < 16
      → test_bit new_mode k ≡ (if ino == other && ltb k 9 then test_bit perm k else test_bit mode k)

-- On a disk of bytes, after a noxfs_chmod that succeeds, noxfs_stat of that inode gives the size as it
-- was and a mode whose nine low bits are those of `perm` and whose other bits are as they were; for
-- every other inode it gives the size and the mode as they were.
pub noxfs_chmod-HasMode :
    (ino perm other size mode : ℕ) (s t : Fs)
    → AreBytes s
    → noxfs_stat other s ≡ some (size, mode)
    → noxfs_chmod ino perm s ≡ some t
    → HasMode ino perm other size mode t
noxfs_chmod-HasMode ino perm other size mode s t h e w =
    let (m, f, x) = stat_of other s (size, mode) e in
    let (n, r, g, written) = chmod_of ino perm s t w in
    let q =
      iread-iwrite ino other (record n { mode = with_perm perm n.mode }) m s t
        (keeps perm n (iread-Fits ino n s h g)) f written in
    let ready = chmod_ready ino (record n { mode = with_perm perm n.mode }) s t written ∙ r in
    elim (==-cases ino other) [
      | inl (same, b) ↦
          let nm : n ≡ m = some-injective _ _ (sym g ∙ ap (λ i. iread i s) same ∙ f) in
          record {
            new_mode = with_perm perm n.mode;
            stat_after =
                stat_as other t (record n { mode = with_perm perm n.mode }) ready (rw b at q)
                ∙ ap (λ z. some (z, with_perm perm n.mode))
                    (ap (λ i. i.size) nm ∙ sym (ap (λ p. p.0) x));
            mode_bits = λ k p. rw b (
                with_perm-bit perm n.mode k p
                ∙ ap (λ z. if ltb k 9 then test_bit perm k else test_bit z k)
                    (ap (λ i. i.mode) nm ∙ sym (ap (λ p. p.1) x)));
          }
      | inr (ne, b) ↦ record {
        new_mode = mode;
        stat_after = stat_as other t m ready (rw b at q) ∙ ap some (sym x);
        mode_bits = λ k p. rw b refl;
      }
    ]
