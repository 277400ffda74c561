-- ===== src/Pmm/Examples.antt =====
-- Runs of the frame allocator on four frames, of which the first three are used.
use noxis.Prelude.{
  ℕ, ◌≡◌, refl, ◌⊎◌, ◌↔◌, ◌<◌, ◌*◌, ◌/◌, min, true, false, if◌then◌else◌, ◌==◌, arith,
}
use noxis.Pmm.{
  Pmm, alloc_from, mark_used, pmm_refcount, is_used, page_size, max_frames, pmm_init,
  pmm_alloc_frame, pmm_free_frame, pmm_addref,
}
use noxis.Pmm.Alloc.{IsValid, IsFirstFree, taken}
use noxis.Pmm.Alloc.{
  pmm_alloc_frame-IsFirstFree, pmm_alloc_frame-IsValid, pmm_free_frame-IsValid, pmm_addref-IsValid,
}
use noxis.Pmm.Refcount.{
  IsSame, Holds, addref_times, free_times, pmm_free_frame-alloc_frame, free_times-addref_times,
  addref-saturates,
}
use noxis.Pmm.Init.{is_reserved, pmm_init-IsValid, pmm_alloc_frame-nonzero}

abbrev four : Pmm
four = record {
  bitmap = λ i. if i == 0 then 7 else 0;
  refcount = λ f. if f == 2 then 1 else 0;
  nframes = 4;
  free = 1;
}

four-IsValid : IsValid four
unfolding is_used
four-IsValid = record { frames = omega arith; counted = refl; refs = λ f. ground arith }

takes_the_last : (pmm_alloc_frame four).0 ≡ 3 * 4096
unfolding pmm_alloc_frame alloc_from is_used mark_used
takes_the_last = refl

pmm_alloc_frame-IsFirstFree_example :
    ((k : ℕ) → k < 4 → is_used k four ≡ true) × (pmm_alloc_frame four ≡ (0, four))
    ⊎ ((g : ℕ) × IsFirstFree four 0 g × (pmm_alloc_frame four ≡ (g * page_size, taken g four)))
pmm_alloc_frame-IsFirstFree_example = pmm_alloc_frame-IsFirstFree four (omega arith)

pmm_alloc_frame-IsValid_run : IsValid (pmm_alloc_frame four).1
pmm_alloc_frame-IsValid_run = pmm_alloc_frame-IsValid four-IsValid

pmm_free_frame-IsValid_run : IsValid (pmm_free_frame 8192 four)
pmm_free_frame-IsValid_run = pmm_free_frame-IsValid 8192 four-IsValid

pmm_addref-IsValid_run : IsValid (pmm_addref 8192 four)
pmm_addref-IsValid_run = pmm_addref-IsValid 8192 four-IsValid

frame_three : is_used 3 four ≡ false
unfolding is_used
frame_three = refl

pmm_free_frame-alloc_frame_run :
    let (p, t) = pmm_alloc_frame four in IsSame (pmm_free_frame p t) four
pmm_free_frame-alloc_frame_run =
    pmm_free_frame-alloc_frame four 3 four-IsValid (omega arith) frame_three

frame_two : Holds 8192 1 four
unfolding is_used pmm_refcount
frame_two = (omega arith, refl, refl)

free_times-addref_times_example :
    let t = free_times 3 8192 (addref_times 3 8192 four) in
    Holds 8192 1 t × (is_used 2 (pmm_free_frame 8192 t) ≡ false)
free_times-addref_times_example = free_times-addref_times 3 8192 four frame_two (omega arith)

abbrev crowded : Pmm
crowded = record four { refcount = λ f. if f == 2 then 255 else 0 }

frame_two_crowded : Holds 8192 255 crowded
unfolding is_used pmm_refcount
frame_two_crowded = (omega arith, refl, refl)

addref-saturates_run :
    (pmm_addref 8192 crowded ≡ crowded)
    × Holds 8192 254 (pmm_free_frame 8192 (pmm_addref 8192 crowded))
addref-saturates_run = addref-saturates 8192 crowded frame_two_crowded

-- 128 MB.
pmm_init-IsValid_example :
    let t = pmm_init (128 * 1024 * 1024) four in
    IsValid t
    × (t.nframes ≡ min max_frames (128 * 1024 * 1024 / page_size))
    × ((g : ℕ) → g < t.nframes → is_used g t ≡ is_reserved g)
pmm_init-IsValid_example = pmm_init-IsValid (128 * 1024 * 1024) four (omega arith) four-IsValid.refs

pmm_alloc_frame-nonzero_run :
    let t = pmm_init (128 * 1024 * 1024) four in
    ((pmm_alloc_frame t).0 ≡ 0) ↔ ((g : ℕ) → g < t.nframes → is_used g t ≡ true)
pmm_alloc_frame-nonzero_run =
    pmm_alloc_frame-nonzero (128 * 1024 * 1024) four (omega arith) four-IsValid.refs
