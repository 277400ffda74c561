-- ===== src/Pmm/Refcount.antt =====
-- About the reference counts of frames in src/mm/phys/pmm.c.
use noxis.Prelude.{ℕ, zero, suc, ◌+◌, ◌*◌, ◌/◌, ◌≤◌, ◌<◌}
use noxis.Prelude.{◌≡◌, refl, ap, ◌∙◌, inl, inr, true, false, arith}
use noxis.Prelude.{==-cases, ==-self}
use noxis.Pmm.{
  Pmm, is_used, mark_used, mark_free, page_size, pmm_alloc_frame, pmm_free_frame, pmm_addref,
  pmm_refcount,
}
use noxis.Pmm.Bitmap.{count_free-le, count_free-take}
use noxis.Pmm.Alloc.{
  IsValid, used, taken, released, is_used-taken, is_used-released, pmm_free_frame_cases,
  pmm_alloc_frame-IsFirstFree, taken-IsValid,
}

-- `for (i = 0; i < k; i++) pmm_addref(phys)`, and the same for `pmm_free_frame`.
pub addref_times : ℕ → ℕ → Pmm → Pmm
addref_times zero p s = s
addref_times (suc k) p s = addref_times k p (pmm_addref p s)

pub free_times : ℕ → ℕ → Pmm → Pmm
free_times zero p s = s
free_times (suc k) p s = free_times k p (pmm_free_frame p s)

-- All that a client sees of two states is the same.
pub record IsSame (s t : Pmm) : Type 0 where
  pub frames : s.nframes ≡ t.nframes
  pub free : s.free ≡ t.free
  pub used : (g : ℕ) → is_used g s ≡ is_used g t

pmm_free_frame-taken :
    (g : ℕ) (s : Pmm)
    → g < s.nframes
    → pmm_free_frame (g * page_size) (taken g s) ≡ released g (taken g s)
unfolding pmm_free_frame mark_used
pmm_free_frame-taken g s h =
    let frame : g * page_size / page_size ≡ g = omega arith in
    rw frame (ground (arith, is_used-taken g g s))

nframes-released : (g : ℕ) (s : Pmm) → (released g (taken g s)).nframes ≡ s.nframes
unfolding mark_used mark_free
nframes-released g s = refl

some_free : (s : Pmm) (g : ℕ) → IsValid s → g < s.nframes → is_used g s ≡ false → 0 < s.free
some_free s g v h free =
    let fewer =
      count_free-take s.nframes g (used s) (used (taken g s)) h free (λ k. is_used-taken g k s) in
    omega (arith, v.counted, fewer)

free-released-taken :
    {s : Pmm} (g : ℕ)
    → IsValid s
    → g < s.nframes
    → is_used g s ≡ false
    → IsSame (released g (taken g s)) s
free-released-taken {s} g v h free =
    let fewer = (taken-IsValid g v h free).counted in
    record {
      frames = nframes-released g s;
      free =
          omega
            (arith, v.counted, v.frames, count_free-le s.nframes (used s), some_free s g v h free);
      used = λ k. ground (
        arith,
        is_used-released g k (taken g s),
        is_used-taken g k s,
        ==-cases g k,
        ap (λ j. is_used j s),
      );
    }

-- In a valid state with a free frame, a frame that is allocated and dropped at once is free again:
-- every frame is used as before, and the free count is as before.
pub pmm_free_frame-alloc_frame :
    (s : Pmm) (k : ℕ)
    → IsValid s
    → k < s.nframes
    → is_used k s ≡ false
    → let (p, t) = pmm_alloc_frame s in IsSame (pmm_free_frame p t) s
pmm_free_frame-alloc_frame s k v hk free = elim (pmm_alloc_frame-IsFirstFree s v.frames) [
  | inl (full, r) ↦ cc (full k hk)
  | inr (g, first, r) ↦
      rw (r, pmm_free_frame-taken g s first.within)
        (free-released-taken g v first.within first.was_free)
]

-- The frame of `p` is used with `k` references.
abbrev pub Holds : ℕ → ℕ → Pmm → Type 0
Holds p k s =
    (p / page_size < s.nframes) × (is_used (p / page_size) s ≡ true) × (pmm_refcount p s ≡ k)

addref-Holds : (p k : ℕ) (s : Pmm) → Holds p k s → k < 255 → Holds p (k + 1) (pmm_addref p s)
unfolding pmm_addref pmm_refcount is_used
addref-Holds p k s h small = ground arith

drop-Holds : (p k : ℕ) (s : Pmm) → Holds p (k + 2) s → Holds p (k + 1) (pmm_free_frame p s)
unfolding pmm_free_frame pmm_refcount is_used
drop-Holds p k s h = ground arith

addref_times-Holds :
    (n p k : ℕ) (s : Pmm) → Holds p k s → k + n ≤ 255 → Holds p (k + n) (addref_times n p s)
unfolding addref_times
addref_times-Holds zero p k s h small = let e : k + 0 ≡ k = omega arith in rw e h
addref_times-Holds (suc n) p k s h small =
    let e : k + suc n ≡ k + 1 + n = omega arith in
    rw e (
      addref_times-Holds n p (k + 1) (pmm_addref p s) (addref-Holds p k s h (omega arith))
        (omega arith))

free_times-Holds :
    (n p k : ℕ) (s : Pmm) → Holds p (k + n + 1) s → Holds p (k + 1) (free_times n p s)
unfolding free_times
free_times-Holds zero p k s h = let e : k + 0 + 1 ≡ k + 1 = omega arith in rw e at h
free_times-Holds (suc n) p k s h =
    let e : k + suc n + 1 ≡ k + n + 2 = omega arith in
    free_times-Holds n p k (pmm_free_frame p s) (drop-Holds p (k + n) s (rw e at h))

last_drop : (p : ℕ) (s : Pmm) → Holds p 1 s → is_used (p / page_size) (pmm_free_frame p s) ≡ false
unfolding pmm_refcount
last_drop p s (h, busy, one) = elim (pmm_free_frame_cases p s) [
  | inl (stays, r) ↦ ground arith
  | inr (inl (h', b, many, r)) ↦ ground arith
  | inr (inr (h', b, last, r)) ↦
      rw r (
        is_used-released (p / page_size) (p / page_size) s
        ∙ ground (arith, ==-self (p / page_size)))
]

-- A used frame with one reference that gains `n` more, at most 254, is still used after `n` drops,
-- with one reference, and free after one drop more.
pub free_times-addref_times :
    (n p : ℕ) (s : Pmm)
    → Holds p 1 s
    → n ≤ 254
    → let t = free_times n p (addref_times n p s) in
      Holds p 1 t × (is_used (p / page_size) (pmm_free_frame p t) ≡ false)
free_times-addref_times n p s h small =
    let up = addref_times-Holds n p 1 s h (omega arith) in
    let e : 1 + n ≡ 0 + n + 1 = omega arith in
    let one = free_times-Holds n p 0 (addref_times n p s) (rw e at up) in
    (one, last_drop p (free_times n p (addref_times n p s)) one)

-- A reference count of 255 does not grow: a reference taken there is not counted, and the drop that
-- belongs to it leaves 254.
pub addref-saturates :
    (p : ℕ) (s : Pmm)
    → Holds p 255 s
    → (pmm_addref p s ≡ s) × Holds p 254 (pmm_free_frame p (pmm_addref p s))
unfolding pmm_addref pmm_free_frame pmm_refcount is_used
addref-saturates p s h = ground arith
