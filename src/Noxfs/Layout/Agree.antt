-- ===== src/Noxfs/Layout/Agree.antt =====
-- About the bytes of an inode: blocks with the same bytes there hold the same inode.
use noxis.Prelude.{ℕ, ◌+◌, ◌*◌, ◌<◌, ◌≡◌, sym, ap, ◌∙◌, arith}
use noxis.Noxfs.Layout.{Bytes, get16, get32, read_inode}
use noxis.Noxfs.Layout.Codec.{IsSameInode, start_at}

get16_eq : (d e : Bytes) (p q : ℕ) → d p ≡ e q → d (p + 1) ≡ e (q + 1) → get16 d p ≡ get16 e q
unfolding get16
get16_eq d e p q a b = omega (arith, a, b)

pub get32_eq :
    (d e : Bytes) (p q : ℕ)
    → d p ≡ e q
    → d (p + 1) ≡ e (q + 1)
    → d (p + 2) ≡ e (q + 2)
    → d (p + 3) ≡ e (q + 3)
    → get32 d p ≡ get32 e q
unfolding get32
get32_eq d e p q a b c f = omega (arith, a, b, c, f)

-- The bytes of two blocks are the same at one inode.
abbrev pub Agree : ℕ → Bytes → Bytes → Type 0
Agree o d e = (i : ℕ) → i < 64 → d (o + i) ≡ e (o + i)

shared_byte : (o a j : ℕ) (d e : Bytes) → Agree o d e → a + j < 64 → d (o + a + j) ≡ e (o + a + j)
shared_byte o a j d e h p =
    let q : o + a + j ≡ o + (a + j) = omega arith in ap d q ∙ h (a + j) p ∙ ap e (sym q)

half_same : (o a : ℕ) (d e : Bytes) → Agree o d e → a + 1 < 64 → get16 d (o + a) ≡ get16 e (o + a)
half_same o a d e h p = get16_eq d e (o + a) (o + a) (h a (omega arith)) (shared_byte o a 1 d e h p)

word_same : (o a : ℕ) (d e : Bytes) → Agree o d e → a + 3 < 64 → get32 d (o + a) ≡ get32 e (o + a)
word_same o a d e h p =
    get32_eq d e (o + a) (o + a) (h a (omega arith)) (shared_byte o a 1 d e h (omega arith))
      (shared_byte o a 2 d e h (omega arith)) (shared_byte o a 3 d e h p)

block_same :
    (o k : ℕ) (d e : Bytes)
    → Agree o d e
    → k < 10
    → get32 d (o + 10 + 4 * k) ≡ get32 e (o + 10 + 4 * k)
block_same o k d e h p =
    let q : o + 10 + 4 * k ≡ o + (10 + 4 * k) = omega arith in
    ap (get32 d) q ∙ word_same o (10 + 4 * k) d e h (omega arith) ∙ ap (get32 e) (sym q)

pub read_inode-Agree :
    (o : ℕ) (d e : Bytes) → Agree o d e → IsSameInode (read_inode d o) (read_inode e o)
unfolding read_inode
read_inode-Agree o d e h = record {
  same_mode =
      ap (get16 d) (start_at o)
      ∙ half_same o 0 d e h (omega arith)
      ∙ ap (get16 e) (sym (start_at o));
  same_uid = half_same o 2 d e h (omega arith);
  same_gid = half_same o 4 d e h (omega arith);
  same_size = word_same o 6 d e h (omega arith);
  same_blocks = λ k p. block_same o k d e h p;
  same_indirect = word_same o 50 d e h (omega arith);
  same_links = half_same o 54 d e h (omega arith);
  same_pad = λ i p. shared_byte o 56 i d e h (omega arith);
}
