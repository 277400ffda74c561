-- ===== src/Pmm/Alloc.antt =====
-- What `pmm_alloc_frame` and `pmm_free_frame` do to the used frames and to the free count.
use noxis.Prelude.{ℕ, zero, suc, ◌+◌, ◌-◌, ◌*◌, ◌/◌, ◌%◌, ◌^◌, ◌≤◌, ◌<◌}
use noxis.Prelude.{◌≡◌, refl, ap, ◌∙◌, ◌⊎◌, inl, inr, Bool, true, false, arith}
use noxis.Prelude.{
  ltb→lt, leb→le, ◌==◌, ltb, leb, if◌then◌else◌, update, ==-cases, Bool-cases, ==-self,
}
use noxis.Pmm.{
  Pmm, mark_used, mark_free, is_used, max_frames, page_size, alloc_from, pmm_alloc_frame,
  pmm_free_frame, pmm_addref, dec64, inc64,
}
use noxis.Pmm.Bitmap.{is_used-mark_used, is_used-mark_free, is_used-ext, count_free, count_free-le}
use noxis.Pmm.Bitmap.{count_free-take}

abbrev pub used : Pmm → ℕ → Bool
used s f = is_used f s

-- The free count is the number of clear bits, and no reference count leaves its byte.
pub record IsValid (s : Pmm) : Type 0 where
  pub frames : s.nframes ≤ max_frames
  pub counted : s.free ≡ count_free s.nframes (used s)
  pub refs : (f : ℕ) → s.refcount f < 256

-- The state after frame `f` was taken.
abbrev pub taken : ℕ → Pmm → Pmm
taken f s = record (mark_used f s) { free = dec64 s.free; refcount = update s.refcount f 1 }

-- The first free frame at or above `f` is `g`.
pub record IsFirstFree (s : Pmm) (f g : ℕ) : Type 0 where
  pub at_or_above : f ≤ g
  pub within : g < s.nframes
  pub was_free : is_used g s ≡ false
  pub skipped : (k : ℕ) → f ≤ k → k < g → is_used k s ≡ true

alloc_from_cases :
    (n f : ℕ) (s : Pmm)
    → f + n ≡ s.nframes
    → ((k : ℕ) → f ≤ k → k < s.nframes → is_used k s ≡ true) × (alloc_from n f s ≡ (0, s))
      ⊎ ((g : ℕ) × IsFirstFree s f g × (alloc_from n f s ≡ ((g * page_size) % 2 ^ 64, taken g s)))
unfolding alloc_from
alloc_from_cases zero f s e = inl ((λ k p q. absurd (omega arith)), refl)
alloc_from_cases (suc n) f s e = elim (Bool-cases (is_used f s)) [
  | inr free ↦ inr (
    f,
    record {
      at_or_above = omega arith;
      within = omega arith;
      was_free = free;
      skipped = λ k p q. absurd (omega arith);
    },
    rw (free, alloc_from),
  )
  | inl busy ↦ elim (alloc_from_cases n (f + 1) s (omega arith)) [
    | inl (full, r) ↦ inl (
      (λ k p q. elim (==-cases f k) [
        | inl (same, b) ↦ rw same at busy
        | inr (ne, b) ↦ full k (omega arith) q
      ]),
      rw (busy, alloc_from) r,
    )
    | inr (g, first, r) ↦ inr (
      g,
      record {
        at_or_above = omega (arith, first.at_or_above);
        within = first.within;
        was_free = first.was_free;
        skipped = λ k p q. elim (==-cases f k) [
          | inl (same, b) ↦ rw same at busy
          | inr (ne, b) ↦ first.skipped k (omega arith) q
        ];
      },
      rw (busy, alloc_from) r,
    )
  ]
]

-- On every state of at most 2^20 frames, `pmm_alloc_frame` either finds every frame used, returns 0
-- and leaves the state as it was, or it returns the address of the lowest free frame, which it
-- marks used with reference count 1, and lowers the free count.
pub pmm_alloc_frame-IsFirstFree :
    (s : Pmm)
    → s.nframes ≤ max_frames
    → ((k : ℕ) → k < s.nframes → is_used k s ≡ true) × (pmm_alloc_frame s ≡ (0, s))
      ⊎ ((g : ℕ) × IsFirstFree s 0 g × (pmm_alloc_frame s ≡ (g * page_size, taken g s)))
unfolding pmm_alloc_frame
pmm_alloc_frame-IsFirstFree s h = elim (alloc_from_cases s.nframes 0 s (omega arith)) [
  | inl (full, r) ↦ inl ((λ k q. full k (omega arith) q), r)
  | inr (g, first, r) ↦
      let small : (g * page_size) % 2 ^ 64 ≡ g * page_size = omega (arith, first.within) in
      inr (g, first, r ∙ ap (λ (a : ℕ). (a, taken g s)) small)
]

-- The bits of the state after a frame was taken.
pub is_used-taken :
    (f g : ℕ) (s : Pmm) → is_used g (taken f s) ≡ (if f == g then true else is_used g s)
is_used-taken f g s = is_used-ext g (taken f s) (mark_used f s) refl ∙ is_used-mark_used f g s

pub nframes-mark_used : (f : ℕ) (s : Pmm) → (mark_used f s).nframes ≡ s.nframes
unfolding mark_used
nframes-mark_used f s = refl

pub taken-IsValid :
    {s : Pmm} (f : ℕ) → IsValid s → f < s.nframes → is_used f s ≡ false → IsValid (taken f s)
unfolding is_used
taken-IsValid {s} f v h free =
    let fewer =
      count_free-take s.nframes f (used s) (used (taken f s)) h free (λ g. is_used-taken f g s) in
    record {
      frames = omega (arith, v.frames, nframes-mark_used f s);
      counted =
          rw (nframes-mark_used f s)
            (omega (arith, v.counted, v.frames, fewer, count_free-le s.nframes (used s)));
      refs = λ g. ground (arith, v.refs g);
    }

-- `pmm_alloc_frame` keeps the invariant: at most 2^20 frames, a free count that is the number of free
-- frames, and reference counts that fit a byte.
pub pmm_alloc_frame-IsValid : {s : Pmm} → IsValid s → IsValid (pmm_alloc_frame s).1
pmm_alloc_frame-IsValid {s} v = elim (pmm_alloc_frame-IsFirstFree s v.frames) [
  | inl (full, r) ↦ rw r v
  | inr (g, first, r) ↦ rw r (taken-IsValid g v first.within first.was_free)
]

-- The state after the last reference of frame `f` was dropped.
abbrev pub released : ℕ → Pmm → Pmm
released f s = record (mark_free f s) { refcount = update s.refcount f 0; free = inc64 s.free }

pub is_used-released :
    (f g : ℕ) (s : Pmm) → is_used g (released f s) ≡ (if f == g then false else is_used g s)
is_used-released f g s = is_used-ext g (released f s) (mark_free f s) refl ∙ is_used-mark_free f g s

nframes-mark_free : (f : ℕ) (s : Pmm) → (mark_free f s).nframes ≡ s.nframes
unfolding mark_free
nframes-mark_free f s = refl

pub released-IsValid :
    {s : Pmm} (f : ℕ) → IsValid s → f < s.nframes → is_used f s ≡ true → IsValid (released f s)
unfolding is_used
released-IsValid {s} f v h busy =
    let back : (g : ℕ) → used s g ≡ (if f == g then true else used (released f s) g) =
      λ g. ground (arith, is_used-released f g s, ==-cases f g, ap (λ k. is_used k s)) in
    let freed : used (released f s) f ≡ false =
      is_used-released f f s ∙ ap (λ b. if b then false else is_used f s) (==-self f) in
    let more = count_free-take s.nframes f (used (released f s)) (used s) h freed back in
    record {
      frames = omega (arith, v.frames, nframes-mark_free f s);
      counted =
          rw (nframes-mark_free f s) (
            omega
              (arith, v.counted, v.frames, more, count_free-le s.nframes (used (released f s))));
      refs = λ g. ground (arith, v.refs g);
    }

-- A state that differs in reference counts alone.
refcount-IsValid :
    {s : Pmm} (f c : ℕ)
    → IsValid s
    → c < 256
    → IsValid (record s { refcount = update s.refcount f c })
unfolding is_used
refcount-IsValid f c v h = record {
  frames = v.frames;
  counted = v.counted;
  refs = λ g. ground (arith, v.refs g);
}

-- `pmm_free_frame` in its three cases.
pub pmm_free_frame_cases :
    (p : ℕ) (s : Pmm)
    → let f = p / page_size in
      ((s.nframes ≤ f) ⊎ (is_used f s ≡ false)) × (pmm_free_frame p s ≡ s)
      ⊎ (f < s.nframes)
        × (is_used f s ≡ true)
        × (1 < s.refcount f)
        × (pmm_free_frame p s ≡ record s { refcount = update s.refcount f (s.refcount f - 1) })
      ⊎ (f < s.nframes)
        × (is_used f s ≡ true)
        × (s.refcount f ≤ 1)
        × (pmm_free_frame p s ≡ released f s)
unfolding pmm_free_frame
pmm_free_frame_cases p s =
    let f = p / page_size in
    elim (Bool-cases (leb s.nframes f)) [
      | inl out ↦ inl (inl (leb→le s.nframes f out), rw out)
      | inr inside ↦ elim (Bool-cases (is_used f s)) [
        | inr unused ↦ inl (inr unused, rw (inside, unused))
        | inl busy ↦ elim (Bool-cases (ltb 1 (s.refcount f))) [
          | inl many ↦ inr (inl (ground arith, busy, ltb→lt _ _ many, rw (inside, busy, many)))
          | inr last ↦ inr (inr (ground arith, busy, ground arith, rw (inside, busy, last)))
        ]
      ]
    ]

-- `pmm_free_frame` keeps that invariant, whatever address it is given.
pub pmm_free_frame-IsValid : {s : Pmm} (p : ℕ) → IsValid s → IsValid (pmm_free_frame p s)
pmm_free_frame-IsValid {s} p v = elim (pmm_free_frame_cases p s) [
  | inl (_, r) ↦ rw r v
  | inr (inl (h, busy, many, r)) ↦
      rw r (refcount-IsValid (p / page_size) _ v (omega (arith, v.refs (p / page_size))))
  | inr (inr (h, busy, last, r)) ↦ rw r (released-IsValid (p / page_size) v h busy)
]

-- `pmm_addref` keeps that invariant, whatever address it is given: a reference count stays in its byte.
pub pmm_addref-IsValid : {s : Pmm} (p : ℕ) → IsValid s → IsValid (pmm_addref p s)
unfolding pmm_addref
pmm_addref-IsValid {s} p v =
    let f = p / page_size in
    elim (Bool-cases (ltb f s.nframes)) [
      | inr out ↦ rw out v
      | inl inside ↦ elim (Bool-cases (ltb (s.refcount f) 255)) [
        | inr top ↦ rw (inside, top) v
        | inl room ↦
            rw (inside, room)
              (refcount-IsValid f _ v (omega (arith, ltb→lt (s.refcount f) 255 room)))
      ]
    ]
