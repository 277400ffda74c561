-- ===== src/Noxfs/Alloc/Scanning.antt =====
-- About the loops of _bmp_alloc in src/fs/noxfs/noxfs.c.
use noxis.Prelude.{
  ℕ, zero, suc, ◌+◌, ◌-◌, ◌/◌, ◌%◌, ◌^◌, ◌≤◌, ◌<◌, ◌≡◌, refl, ap, ◌∙◌, ◌⊎◌, inl, inr, arith, true,
  false,
}
use noxis.Prelude.{leb→le, ==-ne, leb, ◌==◌, ==-cases, Bool-cases, bit_and}
use noxis.Prelude.Bits.{test_bit, ones-bit, bit_and-pow}
use native.Mathlib.Nat.{one-le-pow}
use noxis.Noxfs.Layout.{Bytes, blksz}
use noxis.Noxfs.Alloc.{Scan, full, past, found, index_of, scan_bits, scan_bytes, scan_blocks}

-- A bit of the bitmap that starts at block `start`.
abbrev pub bit_at : ℕ → (ℕ → Bytes) → ℕ → ℕ
bit_at start disk k = test_bit (disk (start + k / 4096) (k % 4096 / 8)) (k % 8)

bit_at-index :
    (start : ℕ) (disk : ℕ → Bytes) (b y z : ℕ)
    → y < 512
    → z < 8
    → bit_at start disk (index_of b y z) ≡ test_bit (disk (start + b) y) z
bit_at-index start disk b y z p q =
    let e : index_of b y z / 4096 ≡ b = omega arith in
    let f : index_of b y z % 4096 / 8 ≡ y = omega arith in
    let g : index_of b y z % 8 ≡ z = omega arith in rw (e, f, g) refl

-- All bits from `a` up to `b` are set.
abbrev pub AllSet : (ℕ → ℕ) → ℕ → ℕ → Type 0
AllSet f a b = (k : ℕ) → a ≤ k → k < b → f k ≡ 1

-- What a scan of the bits from `a` up to `b`, with indices below `lim`, means.
unfoldable pub Means : (ℕ → ℕ) → ℕ → ℕ → ℕ → Scan → Type 0
Means f a b lim full = AllSet f a b
Means f a b lim past = AllSet f a lim
Means f a b lim (found x y z) =
    (a ≤ index_of x y z)
    × (index_of x y z < b)
    × (index_of x y z < lim)
    × (y < 512)
    × (z < 8)
    × (f (index_of x y z) ≡ 0)
    × AllSet f a (index_of x y z)

AllSet-join : (f : ℕ → ℕ) (a m b : ℕ) → AllSet f a m → AllSet f m b → AllSet f a b
AllSet-join f a m b p q k h g = elim (Bool-cases (leb m k)) [
  | inl e ↦ q k (leb→le m k e) g
  | inr e ↦ p k h (ground arith)
]

Means-join :
    (f : ℕ → ℕ) (a m b lim : ℕ) (r : Scan)
    → a ≤ m
    → AllSet f a m
    → Means f m b lim r
    → Means f a b lim r
unfolding Means
Means-join f a m b lim full h p q = AllSet-join f a m b p q
Means-join f a m b lim past h p q = AllSet-join f a m lim p q
Means-join f a m b lim (found x y z) h p (q0, q1, q2, q3, q4, q5, q6) =
    (omega arith, q1, q2, q3, q4, q5, AllSet-join f a m (index_of x y z) p q6)

-- A wider range, for a scan that stopped.
Means-widen :
    (f : ℕ → ℕ) (a b c lim x y z : ℕ)
    → b ≤ c
    → Means f a b lim (found x y z)
    → Means f a c lim (found x y z)
unfolding Means
Means-widen f a b c lim x y z h (q0, q1, q2, q3, q4, q5, q6) = (q0, omega arith, q2, q3, q4, q5, q6)

one_bit : (f : ℕ → ℕ) (i j : ℕ) → j ≡ i + 1 → f i ≡ 1 → AllSet f i j
one_bit f i j n e k h g = let same : k ≡ i = omega arith in rw (same) e

bit_cases :
    (w i : ℕ)
    → (test_bit w i ≡ 0) × ((bit_and w (2 ^ i) == 0) ≡ true)
      ⊎ (test_bit w i ≡ 1) × ((bit_and w (2 ^ i) == 0) ≡ false)
bit_cases w i = elim (bit_and-pow i w) [
  | inl (e, q) ↦ inl (e, rw q refl)
  | inr (e, q) ↦ inr (e, rw q (==-ne (2 ^ i) 0 (λ z. absurd (omega (arith, z, one-le-pow i 2)))))
]

module _ (start : ℕ) (disk : ℕ → Bytes) (lim : ℕ) where
  abbrev bits : ℕ → ℕ
  bits = bit_at start disk

  nothing : (a b : ℕ) → b ≤ a → Means bits a b lim full
  unfolding Means
  nothing a b h k p q = absurd (omega arith)

  all_set : (a b : ℕ) → AllSet bits a b → Means bits a b lim full
  unfolding Means
  all_set a b h = h

  past_bit :
      (n i b y w : ℕ) → leb lim (index_of b y i) ≡ true → scan_bits (suc n) i b y w lim ≡ past
  unfolding scan_bits
  past_bit n i b y w t = ground (arith, t)

  clear_bit :
      (n i b y w : ℕ)
      → leb lim (index_of b y i) ≡ false
      → (bit_and w (2 ^ i) == 0) ≡ true
      → scan_bits (suc n) i b y w lim ≡ found b y i
  unfolding scan_bits
  clear_bit n i b y w t q = ground (arith, t, q)

  set_bit :
      (n i b y w : ℕ)
      → leb lim (index_of b y i) ≡ false
      → (bit_and w (2 ^ i) == 0) ≡ false
      → scan_bits (suc n) i b y w lim ≡ scan_bits n (i + 1) b y w lim
  unfolding scan_bits
  set_bit n i b y w t q = ground (arith, t, q)

  no_bits : (i b y w : ℕ) → scan_bits 0 i b y w lim ≡ full
  unfolding scan_bits
  no_bits i b y w = refl

  no_bytes : (y b : ℕ) (d : Bytes) → scan_bytes 0 y b d lim ≡ full
  unfolding scan_bytes
  no_bytes y b d = refl

  no_blocks : (b : ℕ) → scan_blocks 0 b start disk lim ≡ full
  unfolding scan_blocks
  no_blocks b = refl

  scan_bits-Means :
      (n i b y : ℕ)
      → i + n ≡ 8
      → y < 512
      → Means bits
          (index_of b y i)
          (index_of b y 8)
          lim
          (scan_bits n i b y (disk (start + b) y) lim)
  unfolding Means
  scan_bits-Means zero i b y e p =
      rw (no_bits i b y (disk (start + b) y))
        (nothing (index_of b y i) (index_of b y 8) (omega arith))
  scan_bits-Means (suc n) i b y e p =
      let w = disk (start + b) y in
      elim (Bool-cases (leb lim (index_of b y i))) [
        | inl t ↦ rw (past_bit n i b y w t) (λ k h g. absurd (omega (arith, leb→le _ _ t)))
        | inr t ↦ elim (bit_cases w i) [
          | inl (f, q) ↦ rw (clear_bit n i b y w t q) (
            omega arith,
            omega arith,
            ground (arith, t),
            p,
            omega arith,
            bit_at-index start disk b y i p (omega arith) ∙ f,
            λ k h g. absurd (omega arith),
          )
          | inr (f, q) ↦
              let set = bit_at-index start disk b y i p (omega arith) ∙ f in
              rw (set_bit n i b y w t q) (
                Means-join bits (index_of b y i) (index_of b y (i + 1)) (index_of b y 8) lim _
                  (omega arith)
                  (one_bit bits (index_of b y i) (index_of b y (i + 1)) (omega arith) set)
                  (scan_bits-Means n (i + 1) b y (omega arith) p))
        ]
      ]

  whole_byte :
      (b y : ℕ) → y < 512 → disk (start + b) y ≡ 255 → AllSet bits (index_of b y 0) (index_of b y 8)
  whole_byte b y p e k h g =
      let q : k ≡ index_of b y (k - index_of b y 0) = omega arith in
      ap bits q
      ∙ bit_at-index start disk b y (k - index_of b y 0) p (omega arith)
      ∙ ap (λ w. test_bit w (k - index_of b y 0)) e
      ∙ ones-bit 8 (k - index_of b y 0) (omega arith)

  whole_byte_step :
      (n y b : ℕ) (d : Bytes)
      → (d y == 255) ≡ true
      → scan_bytes (suc n) y b d lim ≡ scan_bytes n (y + 1) b d lim
  unfolding scan_bytes
  whole_byte_step n y b d t = ground (arith, t)

  byte_step :
      (n y b : ℕ) (d : Bytes)
      → (d y == 255) ≡ false
      → scan_bytes (suc n) y b d lim ≡ (elim (scan_bits 8 0 b y (d y) lim) [
        | full ↦ scan_bytes n (y + 1) b d lim
        | past ↦ past
        | found u v w ↦ found u v w
      ])
  unfolding scan_bytes
  byte_step n y b d t = ground (arith, t)

  either :
      (b y : ℕ) (r next : Scan)
      → y < 512
      → Means bits (index_of b y 0) (index_of b y 8) lim r
      → Means bits (index_of b (y + 1) 0) (index_of (b + 1) 0 0) lim next
      → Means bits
          (index_of b y 0)
          (index_of (b + 1) 0 0)
          lim
          (elim r [ full ↦ next | past ↦ past | found u v w ↦ found u v w ])
  unfolding Means
  either b y full next p h q =
      Means-join bits (index_of b y 0) (index_of b (y + 1) 0) (index_of (b + 1) 0 0) lim next
        (omega arith) (λ k g f. h k g (omega arith)) q
  either b y past next p h q = h
  either b y (found u v w) next p h q =
      Means-widen bits (index_of b y 0) (index_of b y 8) (index_of (b + 1) 0 0) lim u v w
        (omega arith) h

  scan_bytes-Means :
      (n y b : ℕ)
      → y + n ≡ 512
      → Means bits
          (index_of b y 0)
          (index_of (b + 1) 0 0)
          lim
          (scan_bytes n y b (disk (start + b)) lim)
  scan_bytes-Means zero y b e =
      rw (no_bytes y b (disk (start + b)))
        (nothing (index_of b y 0) (index_of (b + 1) 0 0) (omega arith))
  scan_bytes-Means (suc n) y b e =
      let next = scan_bytes-Means n (y + 1) b (omega arith) in
      elim (==-cases (disk (start + b) y) 255) [
        | inl (f, t) ↦ rw (whole_byte_step n y b (disk (start + b)) t) (
            either b y full _ (omega arith)
              (all_set (index_of b y 0) (index_of b y 8) (whole_byte b y (omega arith) f)) next)
        | inr (f, t) ↦
            rw (byte_step n y b (disk (start + b)) t)
              (either b y _ _ (omega arith) (scan_bits-Means 8 0 b y refl (omega arith)) next)
      ]

  block_step :
      (n b : ℕ)
      → scan_blocks (suc n) b start disk lim ≡ (elim (scan_bytes blksz 0 b (disk (start + b)) lim) [
        | full ↦ scan_blocks n (b + 1) start disk lim
        | past ↦ past
        | found u v w ↦ found u v w
      ])
  unfolding scan_blocks
  block_step n b = refl

  either_block :
      (n b : ℕ) (r next : Scan)
      → Means bits (index_of b 0 0) (index_of (b + 1) 0 0) lim r
      → Means bits (index_of (b + 1) 0 0) (index_of (b + 1 + n) 0 0) lim next
      → Means bits
          (index_of b 0 0)
          (index_of (b + 1 + n) 0 0)
          lim
          (elim r [ full ↦ next | past ↦ past | found u v w ↦ found u v w ])
  unfolding Means
  either_block n b full next h q =
      Means-join bits (index_of b 0 0) (index_of (b + 1) 0 0) (index_of (b + 1 + n) 0 0) lim next
        (omega arith) h q
  either_block n b past next h q = h
  either_block n b (found u v w) next h q =
      Means-widen bits (index_of b 0 0) (index_of (b + 1) 0 0) (index_of (b + 1 + n) 0 0) lim u v w
        (omega arith) h

  pub scan_blocks-Means :
      (n b : ℕ)
      → Means bits (index_of b 0 0) (index_of (b + n) 0 0) lim (scan_blocks n b start disk lim)
  scan_blocks-Means zero b =
      rw (no_blocks b) (nothing (index_of b 0 0) (index_of (b + 0) 0 0) (omega arith))
  scan_blocks-Means (suc n) b =
      let e : b + suc n ≡ b + 1 + n = omega arith in
      rw (block_step n b, e)
        (either_block n b _ _ (scan_bytes-Means 512 0 b refl) (scan_blocks-Means n (b + 1)))
