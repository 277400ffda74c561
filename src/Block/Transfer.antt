-- ===== src/Block/Transfer.antt =====
-- About `blk_rw` of src/drivers/block/block.c on a queue that is empty.
use noxis.Prelude.{ℕ, ◌+◌, ◌%◌, ◌^◌, ◌≤◌, ◌<◌, ◌≡◌, ◌≢◌, refl, sym, ap, ◌∙◌, ◌⊎◌, arith}
use noxis.Prelude.{Bool, true, false, none, some, ◌&&◌, ◌||◌, ◌==◌, ◌!=◌, ltb, leb, ==-self, update}
use mathlib.Core.Path.{subst}
use native.Mathlib.Nat.{mod-eq_of_lt}
use noxis.Block.{
  Blk, Request, Device, Status, io, link, insert_from, elevator_insert, run_request, run_queue,
  submit, request_free, free_slot, blk_rw, blk_nr_request,
}

-- The state behind a transfer, whichever slot it used.
pub record IsDone {W : Type 0} (d r : ℕ) (s : Blk W) (o : Status × W) (st : Status) (s' : Blk W)
    : Type 0 where
  pub result : (st, s'.world) ≡ o
  pub empty : s'.queue d ≡ none
  pub freed : ((s'.pool r).in_use ≡ false) × ((s'.pool r).next ≡ none)
  pub others : (x : ℕ) → r ≢ x → s'.pool x ≡ s.pool x
  pub queues : (e : ℕ) → d ≢ e → s'.queue e ≡ s.queue e
  pub registry : (s'.devices ≡ s.devices) × (s'.dev_count ≡ s.dev_count)
  pub counted : s'.served ≡ (s.served + 1) % 2 ^ 32

module _ {W : Type 0} (transfer : ℕ → ℕ → ℕ → ℕ → Bool → W → Status × W) where
  run_one :
      (d r : ℕ) (s : Blk W)
      → s.queue d ≡ some r
      → (s.pool r).next ≡ none
      → run_queue transfer blk_nr_request d s ≡ run_request transfer d r s
  unfolding run_queue run_request
  run_one d r s e e' = ground (arith, e, e', ==-self d)

  insert_one :
      (d r : ℕ) (s : Blk W) → s.queue d ≡ none → elevator_insert d r s ≡ link d none none r s
  unfolding elevator_insert insert_from
  insert_one d r s e = rw (e, elevator_insert, insert_from) refl

  run_status :
      (d r : ℕ) (s : Blk W)
      → (((run_request transfer d r s).pool r).status, (run_request transfer d r s).world)
        ≡ transfer d ((s.pool r).lba) ((s.pool r).count) ((s.pool r).buf) ((s.pool r).write) s.world
  unfolding run_request
  run_status d r s = rw (==-self r) refl

  -- The slot of the pool that submit fills.
  abbrev filled : ℕ → ℕ → ℕ → ℕ → Bool → ℕ → Blk W → Blk W
  filled d lba count buf write r s = record s {
    pool = update s.pool r (record {
      in_use = true;
      next = none;
      dev = d;
      write = write;
      lba = lba;
      count = count;
      buf = buf;
      status = io;
    });
  }

  -- The request is alone in the queue when it runs.
  abbrev queued : ℕ → ℕ → ℕ → ℕ → Bool → ℕ → Blk W → Blk W
  queued d lba count buf write r s = link d none none r (filled d lba count buf write r s)

  queued_slot :
      (d lba count buf : ℕ) (write : Bool) (r : ℕ) (s : Blk W)
      → (queued d lba count buf write r s).pool r ≡ record {
        in_use = true;
        next = none;
        dev = d;
        write = write;
        lba = lba;
        count = count;
        buf = buf;
        status = io;
      }
  unfolding link
  queued_slot d lba count buf write r s = rw (==-self r) refl

  submit_lem :
      (d lba count buf : ℕ) (write : Bool) (r : ℕ) (s : Blk W)
      → s.queue d ≡ none
      → let done = run_request transfer d r (queued d lba count buf write r s) in
        submit transfer d lba count buf write r s ≡ ((done.pool r).status, request_free r done)
  unfolding submit link
  submit_lem d lba count buf write r s e =
      ap (λ t. ((t.pool r).status, request_free r t))
        (ap (run_queue transfer blk_nr_request d)
            (insert_one d r (filled d lba count buf write r s) e)
          ∙ run_one d r (queued d lba count buf write r s) (rw (==-self d) refl)
              (rw (==-self r) refl))

  submit-IsDone :
      (d lba count buf : ℕ) (write : Bool) (r : ℕ) (s : Blk W)
      → s.queue d ≡ none
      → IsDone d r s
          (transfer d lba count buf write s.world)
          (submit transfer d lba count buf write r s).0
          (submit transfer d lba count buf write r s).1
  unfolding run_request link request_free
  submit-IsDone d lba count buf write r s e =
      subst (λ (o : Status × Blk W). IsDone d r s (transfer d lba count buf write s.world) o.0 o.1)
        (sym (submit_lem d lba count buf write r s e))
        (record {
          result =
              run_status d r (queued d lba count buf write r s)
              ∙ ap (λ (q : Request). transfer d q.lba q.count q.buf q.write s.world)
                  (queued_slot d lba count buf write r s);
          empty = ground (arith, ==-self r, ==-self d);
          freed = (ground (arith, ==-self r), ground (arith, ==-self r));
          others = λ x ne. ground (arith, ne);
          queues = λ e ne. ground (arith, ne);
          registry = (refl, refl);
          counted = refl;
        })

  accepted :
      (d lba count buf : ℕ) (write : Bool) (r : ℕ) (v : Device) (s : Blk W)
      → free_slot blk_nr_request 0 s.pool ≡ some r
      → d < s.dev_count
      → s.devices d ≡ some v
      → v.can_transfer ≡ true
      → buf ≢ 0
      → count ≢ 0
      → lba + count < 2 ^ 32
      → (v.sectors ≡ 0) ⊎ (lba + count ≤ v.sectors)
      → blk_rw transfer d lba count buf write s ≡ submit transfer d lba count buf write r s
  unfolding blk_rw
  accepted d lba count buf write r v s slot known dev can nb nc wrap fits =
      let known' : leb s.dev_count d ≡ false = ground arith in
      let args : (buf == 0 || count == 0) ≡ false = ground (arith, nb, nc) in
      let bounds : (v.sectors != 0 && ltb v.sectors ((lba + count) % 2 ^ 32)) ≡ false =
        ground (arith, fits, mod-eq_of_lt wrap) in
      rw (blk_rw, known', args, dev, can, bounds, slot) refl

  -- On a registered device whose queue is empty, with a free slot, blk_rw of blocks in range, whose end
  -- does not pass 2^32, returns the status of one transfer of these blocks and counts one more request
  -- as served. It leaves the queue empty, the slot that it used free and in no queue, and all other
  -- slots, all other queues and the registered devices as they were.
  pub blk_rw-IsDone :
      (d lba count buf : ℕ) (write : Bool) (r : ℕ) (v : Device) (s : Blk W)
      → s.queue d ≡ none
      → free_slot blk_nr_request 0 s.pool ≡ some r
      → d < s.dev_count
      → s.devices d ≡ some v
      → v.can_transfer ≡ true
      → buf ≢ 0
      → count ≢ 0
      → lba + count < 2 ^ 32
      → (v.sectors ≡ 0) ⊎ (lba + count ≤ v.sectors)
      → IsDone d r s
          (transfer d lba count buf write s.world)
          (blk_rw transfer d lba count buf write s).0
          (blk_rw transfer d lba count buf write s).1
  blk_rw-IsDone d lba count buf write r v s e slot known dev can nb nc wrap fits =
      let is = accepted d lba count buf write r v s slot known dev can nb nc wrap fits in
      subst (λ (o : Status × Blk W). IsDone d r s (transfer d lba count buf write s.world) o.0 o.1)
        (sym is) (submit-IsDone d lba count buf write r s e)
