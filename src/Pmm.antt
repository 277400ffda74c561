-- ===== src/Pmm.antt =====
-- The physical frame allocator, src/mm/phys/pmm.c: a bitmap of used frames, a reference count for
-- each frame and a count of free frames. The file-scope variables are the fields of `Pmm`; a
-- function that changes them returns the new state.
pub mod Bitmap
pub mod Alloc
pub mod Refcount
pub mod Init
mod Examples
use noxis.Prelude.{ℕ, zero, suc, ◌+◌, ◌-◌, ◌*◌, ◌/◌, ◌%◌, ◌^◌, bit_and, bit_or}
use noxis.Prelude.{Bool, true, false, ltb, leb, ◌!=◌, ◌||◌, not, if◌then◌else◌, update}
use noxis.Prelude.Bits.{bit_not}

abbrev pub page_size : ℕ
page_size = 4096

abbrev pub max_frames : ℕ
max_frames = 2 ^ 20

abbrev pub bmp_words : ℕ
bmp_words = max_frames / 64

abbrev pub reserved_end : ℕ
reserved_end = 2 * 1024 * 1024

pub record Pmm : Type 0 where
  pub bitmap : ℕ → ℕ
  pub refcount : ℕ → ℕ
  pub nframes : ℕ
  pub free : ℕ

-- `g_free++` and `g_free--` on a uint64_t.
abbrev pub inc64 : ℕ → ℕ
inc64 n = (n + 1) % 2 ^ 64

abbrev pub dec64 : ℕ → ℕ
dec64 n = (n + 2 ^ 64 - 1) % 2 ^ 64

pub mark_used : ℕ → Pmm → Pmm
mark_used f s = record s {
  bitmap = update s.bitmap (f / 64) (bit_or (s.bitmap (f / 64)) (2 ^ (f % 64)));
}

pub mark_free : ℕ → Pmm → Pmm
mark_free f s = record s {
  bitmap = update s.bitmap (f / 64) (bit_and (s.bitmap (f / 64)) (bit_not 64 (2 ^ (f % 64))));
}

pub is_used : ℕ → Pmm → Bool
is_used f s = bit_and (s.bitmap (f / 64) / 2 ^ (f % 64)) 1 != 0

-- for (f = ...; f < reserved && f < g_nframes; f++) mark_used(f), with the rounds to `reserved`.
pub reserve_low : ℕ → ℕ → Pmm → Pmm
reserve_low zero f s = s
reserve_low (suc n) f s = elim (ltb f s.nframes) [
  | true ↦ reserve_low n (f + 1) (mark_used f s)
  | false ↦ s
]

-- if (!is_used(f)) { mark_used(f); g_free--; }
pub reserve_frame : ℕ → Pmm → Pmm
reserve_frame f s = if is_used f s then s else (record (mark_used f s) { free = dec64 s.free })

pub reserve_heap : ℕ → ℕ → Pmm → Pmm
reserve_heap zero f s = s
reserve_heap (suc n) f s = elim (ltb f s.nframes) [
  | true ↦ reserve_heap n (f + 1) (reserve_frame f s)
  | false ↦ s
]

-- The first lines of `pmm_init`: the frame count is capped, and the bitmap cleared.
pub clear : ℕ → Pmm → Pmm
clear ram s = record s {
  nframes = if ltb max_frames (ram / page_size) then max_frames else ram / page_size;
  bitmap = λ i. if ltb i bmp_words then 0 else s.bitmap i;
}

abbrev pub reserved : ℕ
reserved = reserved_end / page_size

abbrev pub heap_start : ℕ
heap_start = 16 * 1024 * 1024 / page_size

abbrev pub heap_end : ℕ
heap_end = 48 * 1024 * 1024 / page_size

-- The log lines on the serial port are left out.
pub pmm_init : ℕ → Pmm → Pmm
pmm_init ram s =
    let low = reserve_low reserved 0 (clear ram s) in
    reserve_heap (heap_end - heap_start) heap_start
      (record low { free = (low.nframes + 2 ^ 64 - reserved) % 2 ^ 64 })

-- The loop of `pmm_alloc_frame` from frame `f`, with the frames left.
pub alloc_from : ℕ → ℕ → Pmm → ℕ × Pmm
alloc_from zero f s = (0, s)
alloc_from (suc n) f s = elim (is_used f s) [
  | true ↦ alloc_from n (f + 1) s
  | false ↦ (
    (f * page_size) % 2 ^ 64,
    record (mark_used f s) { free = dec64 s.free; refcount = update s.refcount f 1 },
  )
]

pub pmm_alloc_frame : Pmm → ℕ × Pmm
pmm_alloc_frame s = alloc_from s.nframes 0 s

-- Only the last reference frees the frame.
pub pmm_free_frame : ℕ → Pmm → Pmm
pmm_free_frame phys s =
    let f = phys / page_size in
    if leb s.nframes f || not (is_used f s)
    then s
    else if ltb 1 (s.refcount f)
    then (record s { refcount = update s.refcount f (s.refcount f - 1) })
    else (record (mark_free f s) { refcount = update s.refcount f 0; free = inc64 s.free })

pub pmm_addref : ℕ → Pmm → Pmm
pmm_addref phys s =
    let f = phys / page_size in
    if ltb f s.nframes
    then if ltb (s.refcount f) 255
      then (record s { refcount = update s.refcount f (s.refcount f + 1) })
      else s
    else s

pub pmm_refcount : ℕ → Pmm → ℕ
pmm_refcount phys s = let f = phys / page_size in if ltb f s.nframes then s.refcount f else 0

pub pmm_free_count : Pmm → ℕ
pmm_free_count s = s.free
