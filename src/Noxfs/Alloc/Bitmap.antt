-- ===== src/Noxfs/Alloc/Bitmap.antt =====
-- About _bmp_alloc and _bmp_free of src/fs/noxfs/noxfs.c.
use noxis.Prelude.{
  ℕ, ◌+◌, ◌*◌, ◌/◌, ◌%◌, ◌^◌, ◌<◌, ◌≡◌, ◌≢◌, refl, sym, ap, ◌∙◌, ◌⊎◌, inl, inr, arith, true, Option,
  none, some, none≢some,
}
use noxis.Prelude.{
  update_self, update_ne, ==-ne, ==-self, ◌==◌, update, ==-cases, if◌then◌else◌, bit_and, bit_or,
}
use noxis.Prelude.Bits.{
  test_bit, bit_not, test_bit-or, test_bit-pow_self, test_bit-pow_ne, test_bit-clear, test_bit-le,
}
use mathlib.Core.Option.{some-injective}
use noxis.Noxfs.Layout.{Bytes, Fs}
use noxis.Noxfs.Alloc.{
  Scan, full, past, found, index_of, scan_blocks, put_byte_at, bmp_alloc, bmp_free,
}
use noxis.Noxfs.Alloc.Scanning.{bit_at, AllSet, Means, scan_blocks-Means}

-- The byte of bit `g` takes the value `v`.
abbrev stored : ℕ → ℕ → ℕ → (ℕ → Bytes) → ℕ → Bytes
stored start g v disk =
    update disk (start + g / 4096) (update (disk (start + g / 4096)) (g % 4096 / 8) v)

same_bit :
    (start g x k : ℕ) (disk : ℕ → Bytes)
    → start + g / 4096 ≡ start + k / 4096
    → g % 4096 / 8 ≡ k % 4096 / 8
    → (if g % 8 == k % 8 then x else test_bit (disk (start + g / 4096) (g % 4096 / 8)) (k % 8))
      ≡ (if g == k then x else bit_at start disk k)
same_bit start g x k disk e same = elim (==-cases g k) [
  | inl (gk, b) ↦ let t : (g % 8 == k % 8) ≡ true = rw gk (==-self (k % 8)) in rw (b, t) refl
  | inr (far, b) ↦
      let ne : g % 8 ≢ k % 8 = λ z. far (omega (arith, e, same, z)) in
      rw (b, ==-ne (g % 8) (k % 8) ne)
        (ap (λ i. test_bit (disk i (g % 4096 / 8)) (k % 8)) e
          ∙ ap (λ i. test_bit (disk (start + k / 4096) i) (k % 8)) same)
]

-- One bit of that byte changes, and no other.
bit_at-stored :
    (start g v x k : ℕ) (disk : ℕ → Bytes)
    → ((j : ℕ)
        → j < 8
        → test_bit v j
          ≡ (if g % 8 == j then x else test_bit (disk (start + g / 4096) (g % 4096 / 8)) j))
    → bit_at start (stored start g v disk) k ≡ (if g == k then x else bit_at start disk k)
bit_at-stored start g v x k disk h =
    let blk = start + g / 4096 in
    let o = g % 4096 / 8 in
    elim (==-cases blk (start + k / 4096)) [
      | inr (ne, _) ↦
          let far : g ≢ k = λ e. ne (rw e refl) in
          rw (==-ne g k far) (
            ap (λ f. test_bit (f (k % 4096 / 8)) (k % 8))
              (update_ne disk blk (start + k / 4096) _ ne))
      | inl (e, _) ↦
          ap (λ i. test_bit (stored start g v disk i (k % 4096 / 8)) (k % 8)) (sym e)
          ∙ ap (λ f. test_bit (f (k % 4096 / 8)) (k % 8)) (update_self disk blk _)
          ∙ elim (==-cases o (k % 4096 / 8)) [
            | inr (ne, _) ↦
                let far : g ≢ k = λ e'. ne (rw e' refl) in
                rw (==-ne g k far) (
                  ap (λ w. test_bit w (k % 8)) (update_ne (disk blk) o (k % 4096 / 8) v ne)
                  ∙ ap (λ i. test_bit (disk i (k % 4096 / 8)) (k % 8)) e)
            | inl (same, _) ↦
                ap (λ i. test_bit (update (disk blk) o v i) (k % 8)) (sym same)
                ∙ ap (λ w. test_bit w (k % 8)) (update_self (disk blk) o v)
                ∙ h (k % 8) (omega arith)
                ∙ same_bit start g x k disk e same
          ]
    ]

-- A bit that is set in a byte, or cleared.
test_bit-set :
    (w z j : ℕ) → z < 8 → test_bit (bit_or w (2 ^ z)) j ≡ (if z == j then 1 else test_bit w j)
test_bit-set w z j h = elim (==-cases z j) [
  | inl (e, b) ↦ rw b (
      omega (
        arith,
        test_bit-or j w (2 ^ z),
        test_bit-le w j,
        ap (test_bit (2 ^ z)) (sym e),
        test_bit-pow_self z,
      ))
  | inr (ne, b) ↦ rw b (omega (arith, test_bit-or j w (2 ^ z), test_bit-pow_ne z j ne))
]

bmp_free_disk :
    (start g : ℕ) (s : Fs)
    → (bmp_free start g s).disk
      ≡ stored start g
          (bit_and (s.disk (start + g / 4096) (g % 4096 / 8)) (bit_not 8 (2 ^ (g % 8))))
          s.disk
unfolding bmp_free put_byte_at
bmp_free_disk start g s = refl

-- _bmp_free clears the one bit it is given, and no other bit of the bitmap changes.
pub bmp_free-bit :
    (start g k : ℕ) (s : Fs)
    → bit_at start (bmp_free start g s).disk k ≡ (if g == k then 0 else bit_at start s.disk k)
bmp_free-bit start g k s = rw (bmp_free_disk start g s) (
    bit_at-stored start g _ 0 k s.disk (λ j h.
      test_bit-clear 8 (g % 8) (s.disk (start + g / 4096) (g % 4096 / 8)) j (omega arith) h))

-- What an allocation of bit `g` makes of the state.
pub record Allocates (start cnt lim : ℕ) (s t : Fs) (g : ℕ) : Type 0 where
  pub within : g < cnt * 4096
  pub below : g < lim
  pub was_clear : bit_at start s.disk g ≡ 0
  pub skipped : AllSet (bit_at start s.disk) 0 g
  pub bits_after : (k : ℕ) → bit_at start t.disk k ≡ (if g == k then 1 else bit_at start s.disk k)
  pub rest : t ≡ record s { disk = t.disk }

from_scan : ℕ → Fs → Scan → Option ℕ × Fs
from_scan start s full = (none, s)
from_scan start s past = (none, s)
from_scan start s (found b y z) =
    (some (index_of b y z), put_byte_at (start + b) y (bit_or (s.disk (start + b) y) (2 ^ z)) s)

bmp_alloc-from_scan :
    (start cnt lim : ℕ) (s : Fs)
    → bmp_alloc start cnt lim s ≡ from_scan start s (scan_blocks cnt 0 start s.disk lim)
unfolding bmp_alloc from_scan
bmp_alloc-from_scan start cnt lim s = refl

put_disk :
    (start b y z : ℕ) (s : Fs)
    → y < 512
    → z < 8
    → (put_byte_at (start + b) y (bit_or (s.disk (start + b) y) (2 ^ z)) s).disk
      ≡ stored start
          (index_of b y z)
          (bit_or
            (s.disk (start + index_of b y z / 4096) (index_of b y z % 4096 / 8))
            (2 ^ (index_of b y z % 8)))
          s.disk
unfolding put_byte_at
put_disk start b y z s p q =
    let e : index_of b y z / 4096 ≡ b = omega arith in
    let f : index_of b y z % 4096 / 8 ≡ y = omega arith in
    let g : index_of b y z % 8 ≡ z = omega arith in rw (e, f, g) refl

put_rest :
    (blk o v : ℕ) (s : Fs)
    → put_byte_at blk o v s ≡ record s { disk = (put_byte_at blk o v s).disk }
unfolding put_byte_at
put_rest blk o v s = refl

scan-Allocates :
    (start cnt lim : ℕ) (s : Fs) (r : Scan)
    → Means (bit_at start s.disk) (index_of 0 0 0) (index_of (0 + cnt) 0 0) lim r
    → (from_scan start s r ≡ (none, s))
        × ((k : ℕ) → k < cnt * 4096 → k < lim → bit_at start s.disk k ≡ 1)
      ⊎ ((g : ℕ) × (t : Fs) × (from_scan start s r ≡ (some g, t)) × Allocates start cnt lim s t g)
unfolding from_scan Means
scan-Allocates start cnt lim s full h = inl (refl, λ k p q. h k (omega arith) (omega arith))
scan-Allocates start cnt lim s past h = inl (refl, λ k p q. h k (omega arith) q)
scan-Allocates start cnt lim s (found b y z) (h0, h1, h2, h3, h4, h5, h6) =
    let g = index_of b y z in
    inr (
      g,
      put_byte_at (start + b) y (bit_or (s.disk (start + b) y) (2 ^ z)) s,
      refl,
      record {
        within = omega (arith, h1);
        below = h2;
        was_clear = h5;
        skipped = λ k p q. h6 k (omega arith) q;
        bits_after = λ k. rw (put_disk start b y z s h3 h4) (
            bit_at-stored start g _ 1 k s.disk (λ j h.
              test_bit-set (s.disk (start + g / 4096) (g % 4096 / 8)) (g % 8) j (omega arith)));
        rest = put_rest (start + b) y (bit_or (s.disk (start + b) y) (2 ^ z)) s;
      },
    )

-- On a bitmap of `cnt` blocks, _bmp_alloc either finds every bit below `lim` set and leaves the state
-- as it was, or returns the lowest clear bit, which is below `lim`: that bit is set then, every other
-- bit of the bitmap is what it was, and nothing but the disk changes.
pub bmp_alloc-Allocates :
    (start cnt lim : ℕ) (s : Fs)
    → (bmp_alloc start cnt lim s ≡ (none, s))
        × ((k : ℕ) → k < cnt * 4096 → k < lim → bit_at start s.disk k ≡ 1)
      ⊎ ((g : ℕ) × (t : Fs) × (bmp_alloc start cnt lim s ≡ (some g, t))
          × Allocates start cnt lim s t g)
bmp_alloc-Allocates start cnt lim s =
    rw (bmp_alloc-from_scan start cnt lim s)
      (scan-Allocates start cnt lim s _ (scan_blocks-Means start s.disk lim cnt 0))

restored :
    (start g k : ℕ) (before after : ℕ → Bytes)
    → bit_at start before g ≡ 0
    → bit_at start after k ≡ (if g == k then 1 else bit_at start before k)
    → (if g == k then 0 else bit_at start after k) ≡ bit_at start before k
restored start g k before after z e = elim (==-cases g k) [
  | inl (same, b) ↦ rw b (sym z ∙ ap (bit_at start before) same)
  | inr (ne, b) ↦ rw b (rw b at e)
]

-- Freeing the bit that _bmp_alloc returned gives the bitmap its bits from before the allocation.
pub bmp_free-alloc :
    (start cnt lim g k : ℕ) (s t : Fs)
    → bmp_alloc start cnt lim s ≡ (some g, t)
    → bit_at start (bmp_free start g t).disk k ≡ bit_at start s.disk k
bmp_free-alloc start cnt lim g k s t e = elim (bmp_alloc-Allocates start cnt lim s) [
  | inl (f, _) ↦ absurd (none≢some (ap (λ p. p.0) (sym f ∙ e)))
  | inr (g', t', f, a) ↦
      let pair = sym f ∙ e in
      let gs : g' ≡ g = some-injective _ _ (ap (λ p. p.0) pair) in
      let ts : t' ≡ t = ap (λ p. p.1) pair in
      bmp_free-bit start g k t
      ∙ restored start g k s.disk t.disk (rw gs at a.was_clear) (rw (gs, ts) at (a.bits_after k))
]
