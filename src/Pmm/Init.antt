-- ===== src/Pmm/Init.antt =====
-- The state that `pmm_init` builds.
use noxis.Prelude.{ℕ, zero, suc, ◌+◌, ◌-◌, ◌*◌, ◌/◌, ◌%◌, ◌^◌, ◌≤◌, ◌<◌, min}
use noxis.Prelude.{◌↔◌, ◌≡◌, refl, sym, ap, ◌∙◌, inl, inr, Bool, true, false, arith, ◌&&◌, ◌||◌}
use noxis.Prelude.{◌==◌, ltb, leb, if◌then◌else◌, ==-cases, Bool-cases, ltb→lt}
use mathlib.Core.Path.{subst}
use noxis.Prelude.Bits.{test_bit-zero}
use noxis.Pmm.{
  Pmm, is_used, mark_used, max_frames, page_size, clear, reserve_low, reserve_heap, reserve_frame,
  pmm_init, pmm_alloc_frame, reserved, reserved_end, heap_start, heap_end, dec64, bmp_words,
}
use noxis.Pmm.Bitmap.{
  is_used-bit, is_used-mark_used, is_used-ext, count_free, count_free-le, count_free-take,
}
use noxis.Pmm.Alloc.{IsValid, IsFirstFree, used, nframes-mark_used, pmm_alloc_frame-IsFirstFree}

nframes-reserve_low : (n f : ℕ) (s : Pmm) → (reserve_low n f s).nframes ≡ s.nframes
unfolding reserve_low mark_used
nframes-reserve_low zero f s = refl
nframes-reserve_low (suc n) f s = ground (arith, nframes-reserve_low n (f + 1) (mark_used f s))

refcount-reserve_low : (n f : ℕ) (s : Pmm) → (reserve_low n f s).refcount ≡ s.refcount
unfolding reserve_low mark_used
refcount-reserve_low zero f s = refl
refcount-reserve_low (suc n) f s = ground (arith, refcount-reserve_low n (f + 1) (mark_used f s))

-- Frame `g` lies among the `n` frames from `f`, and there is such a frame.
abbrev pub in_window : ℕ → ℕ → ℕ → ℕ → Bool
in_window n f limit g = leb f g && ltb g (f + n) && ltb g limit

is_used-reserve_low :
    (n f g : ℕ) (s : Pmm)
    → is_used g (reserve_low n f s) ≡ (in_window n f s.nframes g || is_used g s)
unfolding reserve_low
is_used-reserve_low zero f g s = ground arith
is_used-reserve_low (suc n) f g s = ground (
  arith,
  is_used-reserve_low n (f + 1) g (mark_used f s),
  is_used-mark_used f g s,
  nframes-mark_used f s,
)

-- The heap loop keeps the free count exact.
abbrev Counted : Pmm → Type 0
Counted s = (s.nframes ≤ max_frames) × (s.free ≡ count_free s.nframes (used s))

is_used-reserve_frame :
    (f g : ℕ) (s : Pmm) → is_used g (reserve_frame f s) ≡ (if f == g then true else is_used g s)
unfolding reserve_frame
is_used-reserve_frame f g s = elim (Bool-cases (is_used f s)) [
  | inl busy ↦
      rw busy (elim (==-cases f g) [ inl (e, b) ↦ rw b (rw e at busy) | inr (ne, b) ↦ rw b ])
  | inr idle ↦ rw idle (
      is_used-ext g (record (mark_used f s) { free = dec64 s.free }) (mark_used f s) refl
      ∙ is_used-mark_used f g s)
]

nframes-reserve_frame : (f : ℕ) (s : Pmm) → (reserve_frame f s).nframes ≡ s.nframes
unfolding reserve_frame mark_used
nframes-reserve_frame f s = ground arith

refcount-reserve_frame : (f : ℕ) (s : Pmm) → (reserve_frame f s).refcount ≡ s.refcount
unfolding reserve_frame mark_used
refcount-reserve_frame f s = ground arith

Counted-reserve_frame : (f : ℕ) (s : Pmm) → f < s.nframes → Counted s → Counted (reserve_frame f s)
unfolding reserve_frame
Counted-reserve_frame f s h c = elim (Bool-cases (is_used f s)) [
  | inl busy ↦ subst Counted (sym (stays f s busy)) c
  | inr idle ↦
      let fewer =
        count_free-take s.nframes f (used s) (used (reserve_frame f s)) h idle
          (λ g. is_used-reserve_frame f g s) in
      (
        omega (arith, nframes-reserve_frame f s),
        rw (nframes-reserve_frame f s)
            (omega (arith, free_falls f s idle, fewer, count_free-le s.nframes (used s))),
      )
]
  where
    stays : (f : ℕ) (s : Pmm) → is_used f s ≡ true → reserve_frame f s ≡ s
    stays f s busy = rw (busy, reserve_frame)

    free_falls : (f : ℕ) (s : Pmm) → is_used f s ≡ false → (reserve_frame f s).free ≡ dec64 s.free
    free_falls f s idle = rw (idle, reserve_frame)

-- Of the frames from `n` on, none is taken by the loops.
nframes-reserve_heap : (n f : ℕ) (s : Pmm) → (reserve_heap n f s).nframes ≡ s.nframes
unfolding reserve_heap
nframes-reserve_heap zero f s = refl
nframes-reserve_heap (suc n) f s =
    ground (arith, nframes-reserve_heap n (f + 1) (reserve_frame f s), nframes-reserve_frame f s)

refcount-reserve_heap : (n f : ℕ) (s : Pmm) → (reserve_heap n f s).refcount ≡ s.refcount
unfolding reserve_heap
refcount-reserve_heap zero f s = refl
refcount-reserve_heap (suc n) f s =
    ground (arith, refcount-reserve_heap n (f + 1) (reserve_frame f s), refcount-reserve_frame f s)

is_used-reserve_heap :
    (n f g : ℕ) (s : Pmm)
    → is_used g (reserve_heap n f s) ≡ (in_window n f s.nframes g || is_used g s)
unfolding reserve_heap
is_used-reserve_heap zero f g s = ground arith
is_used-reserve_heap (suc n) f g s = ground (
  arith,
  is_used-reserve_heap n (f + 1) g (reserve_frame f s),
  is_used-reserve_frame f g s,
  nframes-reserve_frame f s,
)

Counted-reserve_heap : (n f : ℕ) (s : Pmm) → Counted s → Counted (reserve_heap n f s)
unfolding reserve_heap
Counted-reserve_heap zero f s c = c
Counted-reserve_heap (suc n) f s c = elim (Bool-cases (ltb f s.nframes)) [
  | inr out ↦ rw (out, reserve_heap) c
  | inl inside ↦
      rw (inside, reserve_heap)
        (Counted-reserve_heap n (f + 1) (reserve_frame f s)
          (Counted-reserve_frame f s (ltb→lt _ _ inside) c))
]

is_used-clear : (ram g : ℕ) (s : Pmm) → g < max_frames → is_used g (clear ram s) ≡ false
unfolding clear
is_used-clear ram g s h =
    let inside : g / 64 < bmp_words = omega arith in
    ground (arith, is_used-bit g (clear ram s), test_bit-zero (g % 64))

nframes-clear : (ram : ℕ) (s : Pmm) → (clear ram s).nframes ≡ min max_frames (ram / page_size)
unfolding clear
nframes-clear ram s = ground arith

-- Below `n` frames of which those under `r` are used.
count_free-low :
    (n r : ℕ) (u : ℕ → Bool) → ((g : ℕ) → g < n → u g ≡ ltb g r) → count_free n u ≡ n - r
count_free-low zero r u h = omega arith
count_free-low (suc n) r u h =
    ground (arith, h n (omega arith), count_free-low n r u (λ g p. h g (omega arith)))

-- The frames that `pmm_init` reserves: the first 2 MB and the heap window.
abbrev pub is_reserved : ℕ → Bool
is_reserved g = ltb g reserved || leb heap_start g && ltb g heap_end

-- The state between the two loops.
after_low : ℕ → Pmm → Pmm
after_low ram s =
    let low = reserve_low reserved 0 (clear ram s) in
    record low { free = (low.nframes + 2 ^ 64 - reserved) % 2 ^ 64 }

nframes-after_low :
    (ram : ℕ) (s : Pmm) → (after_low ram s).nframes ≡ min max_frames (ram / page_size)
unfolding after_low
nframes-after_low ram s = nframes-reserve_low reserved 0 (clear ram s) ∙ nframes-clear ram s

refcount-after_low : (ram : ℕ) (s : Pmm) → (after_low ram s).refcount ≡ s.refcount
unfolding after_low clear
refcount-after_low ram s = refcount-reserve_low reserved 0 (clear ram s)

is_used-after_low :
    (ram g : ℕ) (s : Pmm)
    → g < (after_low ram s).nframes
    → is_used g (after_low ram s) ≡ ltb g reserved
unfolding after_low
is_used-after_low ram g s h =
    let low = reserve_low reserved 0 (clear ram s) in
    ground (
      arith,
      is_used-ext g (after_low ram s) low refl,
      is_used-reserve_low reserved 0 g (clear ram s),
      is_used-clear ram g s,
      nframes-reserve_low reserved 0 (clear ram s),
      nframes-clear ram s,
    )

Counted-after_low : (ram : ℕ) (s : Pmm) → reserved_end ≤ ram → Counted (after_low ram s)
Counted-after_low ram s enough =
    let n = nframes-after_low ram s in
    let low =
      count_free-low (after_low ram s).nframes reserved (used (after_low ram s))
        (λ g h. is_used-after_low ram g s h) in
    (omega (arith, n), omega (arith, n, low, free_is ram s))
  where
    free_is :
        (ram : ℕ) (s : Pmm)
        → (after_low ram s).free ≡ ((after_low ram s).nframes + 2 ^ 64 - reserved) % 2 ^ 64
    free_is ram s = unfold after_low in refl

all_of :
    (ram : ℕ) (s : Pmm)
    → reserved_end ≤ ram
    → ((f : ℕ) → s.refcount f < 256)
    → (t : Pmm) → t ≡ reserve_heap (heap_end - heap_start) heap_start (after_low ram s)
    → IsValid t
      × (t.nframes ≡ min max_frames (ram / page_size))
      × ((g : ℕ) → g < t.nframes → is_used g t ≡ is_reserved g)
all_of ram s enough refs t e =
    let mid = after_low ram s in
    let c =
      Counted-reserve_heap (heap_end - heap_start) heap_start mid
        (Counted-after_low ram s enough) in
    let n = nframes-reserve_heap (heap_end - heap_start) heap_start mid in
    rw e (
      record {
        frames = c.0;
        counted = c.1;
        refs = λ f.
            rw (refcount-reserve_heap (heap_end - heap_start) heap_start mid, refcount-after_low)
              (refs f);
      },
      n ∙ nframes-after_low ram s,
      λ g h. ground (
        arith,
        is_used-reserve_heap (heap_end - heap_start) heap_start g mid,
        is_used-after_low ram g s,
        n,
      ),
    )

-- With 2 MB of RAM or more, and reference counts that fit a byte, `pmm_init` counts the frames of the RAM up to 2^20, marks the reserved
-- ones used and no others, and sets up the invariant.
pub pmm_init-IsValid :
    (ram : ℕ) (s : Pmm)
    → reserved_end ≤ ram
    → ((f : ℕ) → s.refcount f < 256)
    → let t = pmm_init ram s in
      IsValid t
      × (t.nframes ≡ min max_frames (ram / page_size))
      × ((g : ℕ) → g < t.nframes → is_used g t ≡ is_reserved g)
unfolding pmm_init
pmm_init-IsValid ram s enough refs =
    all_of ram s enough refs (pmm_init ram s) (unfold after_low in refl)

not_zero :
    (t : Pmm) (g : ℕ)
    → IsFirstFree t 0 g
    → ((k : ℕ) → k < t.nframes → is_used k t ≡ is_reserved k)
    → ¬ (g * page_size ≡ 0)
not_zero t g first r z = ground (arith, first.within, first.was_free, r g)

-- After `pmm_init` with 2 MB of RAM or more, from reference counts that fit a byte, `pmm_alloc_frame`
-- returns 0 exactly when every frame is used.
pub pmm_alloc_frame-nonzero :
    (ram : ℕ) (s : Pmm)
    → reserved_end ≤ ram
    → ((f : ℕ) → s.refcount f < 256)
    → let t = pmm_init ram s in
      ((pmm_alloc_frame t).0 ≡ 0) ↔ ((g : ℕ) → g < t.nframes → is_used g t ≡ true)
pmm_alloc_frame-nonzero ram s enough refs =
    let (v, n, r) = pmm_init-IsValid ram s enough refs in
    elim (pmm_alloc_frame-IsFirstFree (pmm_init ram s) v.frames) [
      | inl (full, e) ↦ ((λ _. full), (λ _. ap (λ q. q.0) e))
      | inr (g, first, e) ↦ (
        (λ z. absurd (not_zero (pmm_init ram s) g first r (sym (ap (λ q. q.0) e) ∙ z))),
        (λ full. cc (full g first.within, first.was_free)),
      )
    ]
