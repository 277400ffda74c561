-- ===== src/Pmm/Bitmap.antt =====
-- What marking a frame does to the used frames, and the invariant of the allocator.
use noxis.Prelude.{ℕ, zero, suc, ◌+◌, ◌/◌, ◌%◌, ◌^◌, ◌≤◌, ◌<◌}
use noxis.Prelude.{◌≡◌, refl, inl, inr, Bool, true, false, arith}
use noxis.Prelude.{◌==◌, if◌then◌else◌, ==-cases}
use noxis.Prelude.Bits.{
  test_bit, test_bit-le, test_bit-or, test_bit-and, test_bit-not, test_bit-pow_self,
  test_bit-pow_ne, shift_and-one, bit_not, pow-lt,
}
use noxis.Pmm.{Pmm, mark_used, mark_free, is_used}

-- The bit of frame `f`.
abbrev pub used_bit : (ℕ → ℕ) → ℕ → ℕ
used_bit bm f = test_bit (bm (f / 64)) (f % 64)

pub is_used-bit : (f : ℕ) (s : Pmm) → is_used f s ≡ (used_bit s.bitmap f == 1)
unfolding is_used
is_used-bit f s =
    ground
      (arith, shift_and-one (f % 64) (s.bitmap (f / 64)), test_bit-le (s.bitmap (f / 64)) (f % 64))

same_frame : (f g : ℕ) → f / 64 ≡ g / 64 → f % 64 ≡ g % 64 → f ≡ g
same_frame f g p q = omega arith

used_bit-mark_used :
    (f g : ℕ) (s : Pmm)
    → used_bit (mark_used f s).bitmap g ≡ (if f == g then 1 else used_bit s.bitmap g)
unfolding mark_used
used_bit-mark_used f g s = elim (==-cases (f / 64) (g / 64)) [
  | inl (w, ew) ↦ elim (==-cases (f % 64) (g % 64)) [
    | inl (b, eb) ↦ ground (
      arith,
      same_frame f g w b,
      test_bit-or (g % 64) (s.bitmap (f / 64)) (2 ^ (f % 64)),
      test_bit-pow_self (f % 64),
      test_bit-le (s.bitmap (f / 64)) (g % 64),
    )
    | inr (b, eb) ↦ ground (
      arith,
      test_bit-or (g % 64) (s.bitmap (f / 64)) (2 ^ (f % 64)),
      test_bit-pow_ne (f % 64) (g % 64) b,
    )
  ]
  | inr (w, ew) ↦ ground arith
]

used_bit-mark_free :
    (f g : ℕ) (s : Pmm)
    → used_bit (mark_free f s).bitmap g ≡ (if f == g then 0 else used_bit s.bitmap g)
unfolding mark_free
used_bit-mark_free f g s =
    let small : 2 ^ (f % 64) < 2 ^ 64 = pow-lt (f % 64) 64 (omega arith) in
    let cleared = test_bit-not 64 (2 ^ (f % 64)) (g % 64) small (omega arith) in
    elim (==-cases (f / 64) (g / 64)) [
      | inl (w, ew) ↦ elim (==-cases (f % 64) (g % 64)) [
        | inl (b, eb) ↦ ground (
          arith,
          same_frame f g w b,
          cleared,
          test_bit-and (g % 64) (s.bitmap (f / 64)) (bit_not 64 (2 ^ (f % 64))),
          test_bit-pow_self (f % 64),
        )
        | inr (b, eb) ↦ ground (
          arith,
          cleared,
          test_bit-and (g % 64) (s.bitmap (f / 64)) (bit_not 64 (2 ^ (f % 64))),
          test_bit-pow_ne (f % 64) (g % 64) b,
          test_bit-le (s.bitmap (f / 64)) (g % 64),
        )
      ]
      | inr (w, ew) ↦ ground arith
    ]

-- Marking a frame used or free changes that frame and no other.
pub is_used-mark_used :
    (f g : ℕ) (s : Pmm) → is_used g (mark_used f s) ≡ (if f == g then true else is_used g s)
is_used-mark_used f g s =
    ground (arith, is_used-bit g (mark_used f s), is_used-bit g s, used_bit-mark_used f g s)

pub is_used-mark_free :
    (f g : ℕ) (s : Pmm) → is_used g (mark_free f s) ≡ (if f == g then false else is_used g s)
is_used-mark_free f g s =
    ground (arith, is_used-bit g (mark_free f s), is_used-bit g s, used_bit-mark_free f g s)

-- The bitmap alone decides which frames are used.
pub is_used-ext : (f : ℕ) (s t : Pmm) → s.bitmap ≡ t.bitmap → is_used f s ≡ is_used f t
is_used-ext f s t e = ground (arith, is_used-bit f s, is_used-bit f t)

-- The number of free frames below `n`.
abbrev pub count_free : ℕ → (ℕ → Bool) → ℕ
count_free zero used = 0
count_free (suc n) used = (if used n then 0 else 1) + count_free n used

pub count_free-le : (n : ℕ) (u : ℕ → Bool) → count_free n u ≤ n
count_free-le zero u = omega arith
count_free-le (suc n) u = ground (arith, count_free-le n u)

pub count_free-same :
    (n : ℕ) (u v : ℕ → Bool) → ((g : ℕ) → g < n → u g ≡ v g) → count_free n u ≡ count_free n v
count_free-same zero u v same = refl
count_free-same (suc n) u v same =
    ground (arith, same n, count_free-same n u v (λ g h. same g (omega arith)))

-- Taking one free frame leaves one less; giving it back, one more.
pub count_free-take :
    (n f : ℕ) (u v : ℕ → Bool)
    → f < n
    → u f ≡ false
    → ((g : ℕ) → v g ≡ (if f == g then true else u g))
    → count_free n v + 1 ≡ count_free n u
count_free-take zero f u v h free step = absurd (omega arith)
count_free-take (suc n) f u v h free step = elim (==-cases f n) [
  | inl (e, b) ↦ ground (arith, step n, count_free-same n u v (λ g hg. ground (arith, step g)))
  | inr (ne, b) ↦ ground (arith, step n, count_free-take n f u v (omega arith) free step)
]
