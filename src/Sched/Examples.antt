-- ===== src/Sched/Examples.antt =====
-- Runs of the scheduler: the idle process runs, 1 and 2 are ready.
use noxis.Prelude.{ℕ, ◌≡◌, ◌≢◌, ◌*◌, false, refl, [], ◌∷◌, none, some, arith, ◌==◌, if◌then◌else◌}
use noxis.Sched.{
  Sched, Proc, running, ready, scheduler_yield, scheduler_add, scheduler_find, find_from, run_next,
  requeue, dequeue, set_next, set_state,
}
use noxis.Sched.Queue.{IsQueue}
use noxis.Sched.{scheduler_remove}
use noxis.Sched.All.{IsChain, without, scheduler_remove-without}
use noxis.Sched.Turns.{IsRound, yields, scheduler_yield-IsQueue, yields-reach}

abbrev procs : ℕ → Proc
procs i = record {
  pid = i;
  state = if i == 0 then running else ready;
  quantum_remaining = 10;
  next = if i == 1 then some 2 else none;
  all_next = if i == 2 then some 1 else none;
  parent = none;
  exit_code = 0;
  sig_pending = 0;
  pml4 = if i == 2 then 0x5000 else 0;
  kstack_top = 0x1000 * i;
}

abbrev booted : Sched
booted = record {
  procs = procs;
  current = 0;
  ready_head = some 1;
  ready_tail = some 2;
  all_head = some 2;
  fg_pid = 1;
  space = 0x2000;
  kernel_stack = 0;
}

booted-IsQueue : IsQueue (1 ∷ 2 ∷ []) booted
booted-IsQueue = record { linked = (refl, (refl, refl)); last = refl }

ne : {a b : ℕ} → (a == b) ≡ false → a ≢ b
ne {a} {b} e = ground arith

booted-IsRound : IsRound (1 ∷ 2 ∷ []) booted
booted-IsRound = record {
  queue = booted-IsQueue;
  apart = (ne refl, (ne refl, tt));
  distinct = ((ne refl, tt), (tt, tt));
  runs = (refl, (refl, tt));
  current_runs = refl;
}

finds_one : scheduler_find 3 1 booted ≡ some 1
unfolding scheduler_find find_from
finds_one = refl

enters_space : (yields 0x2000 2 booted).space ≡ 0x5000
unfolding yields scheduler_yield run_next requeue dequeue scheduler_add set_next set_state
enters_space = refl

scheduler_yield-IsQueue_example :
    IsQueue (2 ∷ 0 ∷ []) (scheduler_yield 0x2000 booted)
    × ((scheduler_yield 0x2000 booted).current ≡ 1)
scheduler_yield-IsQueue_example = scheduler_yield-IsQueue 0x2000 booted-IsQueue (ne refl, tt)

yields-reach_example : (yields 0x2000 2 booted).current ≡ 2
yields-reach_example = yields-reach (1 ∷ []) [] 0x2000 booted-IsRound

-- The list of all processes: 2, then 1.
scheduler_remove-without_run :
    IsChain
      (scheduler_remove 3 1 booted).procs
      ((scheduler_remove 3 1 booted).all_head)
      (without 1 (2 ∷ 1 ∷ []))
scheduler_remove-without_run =
    scheduler_remove-without 3 1 (2 ∷ 1 ∷ []) booted (omega arith) (refl, (refl, refl))
      ((ne refl, tt), (tt, tt))
