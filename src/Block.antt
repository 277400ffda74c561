-- ===== src/Block.antt =====
-- The block layer, src/drivers/block/block.c: the registry of devices, the pool of 16 request slots,
-- one queue of requests for each device, linked through the slots, and blk_rw. A `blk_request_t*` is
-- an index of the pool, with `none` for NULL. A driver's `transfer` is a parameter on a world of its
-- own: the disk and the buffers in memory.
pub mod Elevator
pub mod Transfer
mod Examples
use noxis.Prelude.{ℕ, zero, suc, ◌+◌, ◌-◌, ◌%◌, ◌^◌, Bool, true, false, Option, none, some}
use noxis.Prelude.{◌==◌, ◌!=◌, ◌&&◌, ◌||◌, ltb, leb, not, update, if◌then◌else◌}

abbrev pub blk_max_devices : ℕ
blk_max_devices = 4

abbrev pub blk_nr_request : ℕ
blk_nr_request = 16

pub data Status : Type 0 where
  ok invalid not_found range busy io : Status

-- The fields that the layer reads; `can_transfer` says that `transfer` is not NULL.
pub record Device : Type 0 where
  pub sectors : ℕ
  pub can_transfer : Bool

pub record Request : Type 0 where
  pub in_use : Bool
  pub next : Option ℕ
  pub dev : ℕ
  pub write : Bool
  pub lba : ℕ
  pub count : ℕ
  pub buf : ℕ
  pub status : Status

pub record Blk (W : Type 0) : Type 0 where
  pub devices : ℕ → Option Device
  pub dev_count : ℕ
  pub pool : ℕ → Request
  pub queue : ℕ → Option ℕ
  pub served : ℕ
  pub world : W

-- The first free slot at or above `i`, with the rounds left.
pub free_slot : ℕ → ℕ → (ℕ → Request) → Option ℕ
free_slot zero i pool = none
free_slot (suc n) i pool = elim ((pool i).in_use) [
  | true ↦ free_slot n (i + 1) pool
  | false ↦ some i
]

module _ {W : Type 0} where
  -- The status is -1 as `none`.
  pub blk_register : Option Device → Blk W → Option ℕ × Blk W
  blk_register none s = (none, s)
  blk_register (some d) s =
      if not d.can_transfer
      then (none, s)
      else if leb blk_max_devices s.dev_count
      then (none, s)
      else (
        some s.dev_count,
        record s { dev_count = s.dev_count + 1; devices = update s.devices s.dev_count (some d) },
      )

  pub blk_init : Blk W → Blk W
  blk_init s = record s {
    dev_count = 0;
    served = 0;
    devices = λ d. if ltb d blk_max_devices then none else s.devices d;
    queue = λ d. if ltb d blk_max_devices then none else s.queue d;
    pool = λ i.
        if ltb i blk_nr_request
        then (record (s.pool i) { in_use = false; next = none })
        else s.pool i;
  }

  pub blk_get : ℕ → Blk W → Option Device
  blk_get d s = if leb s.dev_count d then none else s.devices d

  -- req->next = *pp; *pp = req, where `pp` is the head of the queue (`none`) or a slot's link.
  pub link : ℕ → Option ℕ → Option ℕ → ℕ → Blk W → Blk W
  link d none c r s = record s {
    pool = update s.pool r (record (s.pool r) { next = c });
    queue = update s.queue d (some r);
  }
  link d (some b) c r s =
      let p = update s.pool r (record (s.pool r) { next = c }) in
      record s { pool = update p b (record (p b) { next = some r }) }

  -- The walk of _elevator_insert, with the rounds left.
  pub insert_from : ℕ → ℕ → Option ℕ → Option ℕ → ℕ → Blk W → Blk W
  insert_from zero d pp c r s = s
  insert_from (suc n) d pp none r s = link d pp none r s
  insert_from (suc n) d pp (some c) r s = elim (leb ((s.pool c).lba) ((s.pool r).lba)) [
    | true ↦ insert_from n d (some c) ((s.pool c).next) r s
    | false ↦ link d pp (some c) r s
  ]

  -- The queue of a device has at most 15 other requests.
  pub elevator_insert : ℕ → ℕ → Blk W → Blk W
  elevator_insert d r s = insert_from blk_nr_request d none (s.queue d) r s

  -- _request_free
  pub request_free : ℕ → Blk W → Blk W
  request_free r s = record s {
    pool = update s.pool r (record (s.pool r) { in_use = false; next = none });
  }

module _ {W : Type 0} (transfer : ℕ → ℕ → ℕ → ℕ → Bool → W → Status × W) where
  -- One round of _run_queue.
  pub run_request : ℕ → ℕ → Blk W → Blk W
  run_request d r s =
      let q = s.pool r in
      let (status, world) = transfer d q.lba q.count q.buf q.write s.world in
      record s {
        queue = update s.queue d q.next;
        pool = update s.pool r (record q { status = status });
        served = (s.served + 1) % 2 ^ 32;
        world = world;
      }

  -- _run_queue, with the rounds left.
  pub run_queue : ℕ → ℕ → Blk W → Blk W
  run_queue zero d s = s
  run_queue (suc n) d s = elim (s.queue d) [ none ↦ s | some r ↦ run_queue n d (run_request d r s) ]

  -- The lines of blk_rw with interrupts off, behind the allocation of slot `r`.
  pub submit : ℕ → ℕ → ℕ → ℕ → Bool → ℕ → Blk W → Status × Blk W
  submit d lba count buf write r s =
      let filled = record s {
        pool = update s.pool r (record {
          in_use = true;
          next = none;
          dev = d;
          write = write;
          lba = lba;
          count = count;
          buf = buf;
          status = io;
        });
      } in
      let done = run_queue blk_nr_request d (elevator_insert d r filled) in
      ((done.pool r).status, request_free r done)

  -- A device number is its bit pattern, a NULL buffer is 0.
  pub blk_rw : ℕ → ℕ → ℕ → ℕ → Bool → Blk W → Status × Blk W
  blk_rw d lba count buf write s =
      if leb s.dev_count d
      then (invalid, s)
      else if buf == 0 || count == 0
      then (invalid, s)
      else elim (s.devices d) [
        | none ↦ (not_found, s)
        | some v ↦
            if not v.can_transfer
            then (not_found, s)
            else if v.sectors != 0 && ltb v.sectors ((lba + count) % 2 ^ 32)
            then (range, s)
            else elim (free_slot blk_nr_request 0 s.pool) [
              | none ↦ (busy, s)
              | some r ↦ submit d lba count buf write r s
            ]
      ]
