-- ===== src/Block/Examples.antt =====
-- A disk of 64 blocks whose world counts the blocks moved, and a queue with two requests.
use noxis.Prelude.{
  ℕ, ◌+◌, ◌≡◌, ◌≢◌, refl, inr, Bool, true, false, [], ◌∷◌, Option, none, some, arith, ◌==◌, leb,
  if◌then◌else◌,
}
use noxis.Block.{
  Blk, Request, Device, Status, ok, io, free_slot, blk_nr_request, blk_rw, elevator_insert,
}
use noxis.Block.Elevator.{IsLinked, IsSorted, lbas, sorted_insert, elevator_insert-IsSorted}
use noxis.Block.Transfer.{IsDone, blk_rw-IsDone}

abbrev slot_of : Bool → Option ℕ → ℕ → Request
slot_of used next lba = record {
  in_use = used;
  next = next;
  dev = 0;
  write = false;
  lba = lba;
  count = 1;
  buf = 0x1000;
  status = io;
}

abbrev disk : Device
disk = record { sectors = 64; can_transfer = true }

-- Slots 0 and 2, at blocks 5 and 9, wait in the queue of device 1; slot 1 is at block 5.
abbrev busy_pool : ℕ → Request
busy_pool i =
    if i == 0
    then slot_of true (some 2) 5
    else if i == 2
    then slot_of true none 9
    else slot_of false none 5

abbrev machine : Blk ℕ
machine = record {
  devices = λ d. if leb d 1 then some disk else none;
  dev_count = 2;
  pool = busy_pool;
  queue = λ d. if d == 1 then some 0 else none;
  served = 0;
  world = 0;
}

abbrev move : ℕ → ℕ → ℕ → ℕ → Bool → ℕ → Status × ℕ
move d lba count buf write w = (ok, w + count)

finds_slot_one : free_slot blk_nr_request 0 busy_pool ≡ some 1
unfolding free_slot
finds_slot_one = refl

inserts_between : sorted_insert (lbas machine) 1 (0 ∷ 2 ∷ []) ≡ 0 ∷ 1 ∷ 2 ∷ []
unfolding sorted_insert
inserts_between = refl

apart : {a b : ℕ} → (a == b) ≡ false → a ≢ b
apart {a} {b} e = ground arith

elevator_insert-IsSorted_example :
    IsLinked
      (elevator_insert 1 1 machine).pool
      ((elevator_insert 1 1 machine).queue 1)
      (sorted_insert (lbas machine) 1 (0 ∷ 2 ∷ []))
    × IsSorted (lbas machine) (sorted_insert (lbas machine) 1 (0 ∷ 2 ∷ []))
elevator_insert-IsSorted_example =
    elevator_insert-IsSorted 1 1 (0 ∷ 2 ∷ []) machine (refl, (refl, refl))
      (apart refl, (apart refl, tt)) ((apart refl, tt), (tt, tt)) (omega arith)
      ((omega arith, tt), (tt, tt))

blk_rw-IsDone_example :
    IsDone 0 1 machine
      (move 0 7 2 0x2000 true 0)
      (blk_rw move 0 7 2 0x2000 true machine).0
      (blk_rw move 0 7 2 0x2000 true machine).1
blk_rw-IsDone_example =
    blk_rw-IsDone move 0 7 2 0x2000 true 1 disk machine refl finds_slot_one (omega arith) refl refl
      (apart refl) (apart refl) (omega arith) (inr (omega arith))
