-- ===== src/Noxfs/Blocks/Stored.antt =====
-- About _store_data and _load_data of src/fs/noxfs/noxfs.c, for a file whose blocks are there.
use noxis.Prelude.{
  ℕ, zero, suc, ◌+◌, ◌*◌, ◌≤◌, ◌<◌, ◌≡◌, ◌≢◌, refl, sym, ap, ◌∙◌, inl, inr, arith, true, false,
  Option, none, some,
}
use noxis.Prelude.{update_self, update_ne, lt→ltb, ◌==◌, ==-cases, if◌then◌else◌}
use mathlib.Core.Path.{subst}
use noxis.Noxfs.Layout.{Bytes, Inode, Fs}
use noxis.Noxfs.Blocks.{Got, got, new_direct, iget_block, part, copy_out, store_from}

-- A direct block that is there is neither allocated nor looked up.
new_there : (n : Inode) (k : ℕ) (s : Fs) → n.blocks k ≢ 0 → new_direct n k s ≡ got (n.blocks k) n s
unfolding new_direct
new_there n k s ne = ground (arith, ne)

iget_direct :
    (n : Inode) (k : ℕ) (s : Fs)
    → k < 10
    → n.blocks k ≢ 0
    → iget_block n k true s ≡ got (n.blocks k) n s
unfolding iget_block
iget_direct n k s h ne = ground (arith, h, new_there n k s ne)

pub iget_read : (n : Inode) (k : ℕ) (s : Fs) → k < 10 → (iget_block n k false s).blk ≡ n.blocks k
unfolding iget_block
iget_read n k s h = ground (arith, h)

-- The blocks from `k` on, written.
pub written : ℕ → ℕ → Bytes → Inode → Fs → Fs
written zero k d n s = s
written (suc r) k d n s = written r (k + 1) d n (copy_out k n.size d (n.blocks k) s)

-- Every block of `r` from `k` on is there.
abbrev pub AllThere : ℕ → ℕ → Inode → Type 0
AllThere r k n = (j : ℕ) → k ≤ j → j < k + r → n.blocks j ≢ 0

stored : ℕ → ℕ → Bytes → Got → Option Inode × Fs
stored r k d g = elim (g.blk == 0) [
  | true ↦ (none, g.fs)
  | false ↦ store_from r (k + 1) d g.node (copy_out k g.node.size d g.blk g.fs)
]

store_step :
    (r k : ℕ) (d : Bytes) (n : Inode) (s : Fs)
    → store_from (suc r) k d n s ≡ stored r k d (iget_block n k true s)
unfolding store_from stored
store_step r k d n s = refl

stored_there :
    (r k : ℕ) (d : Bytes) (n : Inode) (s : Fs)
    → n.blocks k ≢ 0
    → stored r k d (got (n.blocks k) n s)
      ≡ store_from r (k + 1) d n (copy_out k n.size d (n.blocks k) s)
unfolding stored
stored_there r k d n s ne = ground (arith, ne)

pub store_from-written :
    (r k : ℕ) (d : Bytes) (n : Inode) (s : Fs)
    → k + r ≤ 10
    → AllThere r k n
    → store_from r k d n s ≡ (some n, written r k d n s)
unfolding store_from written
store_from-written zero k d n s h a = refl
store_from-written (suc r) k d n s h a =
    let there = a k (omega arith) (omega arith) in
    store_step r k d n s
    ∙ ap (stored r k d) (iget_direct n k s (omega arith) there)
    ∙ stored_there r k d n s there
    ∙ store_from-written r (k + 1) d n (copy_out k n.size d (n.blocks k) s) (omega arith)
        (λ j p q. a j (omega arith) (omega arith))

-- Only those blocks change, and nothing but the disk.
pub written_kept :
    (r k : ℕ) (d : Bytes) (n : Inode) (s : Fs)
    → written r k d n s ≡ record s { disk = (written r k d n s).disk }
unfolding written copy_out
written_kept zero k d n s = refl
written_kept (suc r) k d n s = written_kept r (k + 1) d n (copy_out k n.size d (n.blocks k) s)

copy_out_other :
    (k size b : ℕ) (d : Bytes) (blk : ℕ) (s : Fs)
    → b ≢ blk
    → (copy_out k size d blk s).disk b ≡ s.disk b
unfolding copy_out
copy_out_other k size b d blk s ne = update_ne s.disk blk b _ (λ e. ne (sym e))

copy_out_self :
    (k size i : ℕ) (d : Bytes) (blk : ℕ) (s : Fs)
    → i < part k size
    → (copy_out k size d blk s).disk blk i ≡ d (k * 512 + i)
unfolding copy_out
copy_out_self k size i d blk s h =
    ap (λ f. f i) (update_self s.disk blk _)
    ∙ ap (λ b. if b then d (k * 512 + i) else s.disk blk i) (lt→ltb i (part k size) h)

pub written_other :
    (r k b : ℕ) (d : Bytes) (n : Inode) (s : Fs)
    → ((j : ℕ) → k ≤ j → j < k + r → b ≢ n.blocks j)
    → (written r k d n s).disk b ≡ s.disk b
unfolding written
written_other zero k b d n s h = refl
written_other (suc r) k b d n s h =
    written_other r (k + 1) b d n (copy_out k n.size d (n.blocks k) s)
      (λ j p q. h j (omega arith) (omega arith))
    ∙ copy_out_other k n.size b d (n.blocks k) s (h k (omega arith) (omega arith))

pub written_self :
    (r k j i : ℕ) (d : Bytes) (n : Inode) (s : Fs)
    → ((a b : ℕ) → a < k + r → b < k + r → n.blocks a ≡ n.blocks b → a ≡ b)
    → k ≤ j
    → j < k + r
    → i < part j n.size
    → (written r k d n s).disk (n.blocks j) i ≡ d (j * 512 + i)
unfolding written
written_self zero k j i d n s inj p q h = absurd (omega arith)
written_self (suc r) k j i d n s inj p q h = elim (==-cases k j) [
  | inl (e, _) ↦
      let later =
        written_other r (k + 1) (n.blocks k) d n (copy_out k n.size d (n.blocks k) s)
          (λ m a b z. absurd (omega (arith, a, inj k m (omega arith) (omega arith) z))) in
      subst
        (λ j.
          i < part j n.size
          → (written r (k + 1) d n (copy_out k n.size d (n.blocks k) s)).disk (n.blocks j) i
            ≡ d (j * 512 + i))
        e (λ h. ap (λ f. f i) later ∙ copy_out_self k n.size i d (n.blocks k) s h) h
  | inr (ne, _) ↦
      written_self r (k + 1) j i d n (copy_out k n.size d (n.blocks k) s)
        (λ a b x y z. inj a b (omega arith) (omega arith) z) (omega (arith, p, ne)) (omega arith) h
]
