-- ===== src/Sched.antt =====
-- The round-robin scheduler, src/proc/scheduler.c. A `process_t*` is an index into the store of
-- processes, with `none` for NULL, and the two intrusive lists keep their links in the processes.
-- After scheduler_init the running process is never NULL. What kthread_switch saves of the machine
-- is not modelled: the state says which process runs on, in which address space and on which stack.
pub mod Queue
pub mod Turns
pub mod All
mod Examples
use noxis.Prelude.{ℕ, zero, suc, ◌+◌, ◌-◌, Bool, true, false, Option, none, some}
use noxis.Prelude.{◌==◌, ◌!=◌, ◌&&◌, ltb, update, if◌then◌else◌, bit_or}

abbrev pub proc_quantum : ℕ
proc_quantum = 10

abbrev pub sigint_mask : ℕ
sigint_mask = 4

pub data State : Type 0 where
  ready running blocked zombie : State

pub record Proc : Type 0 where
  pub pid : ℕ
  pub state : State
  pub quantum_remaining : ℕ
  pub next : Option ℕ
  pub all_next : Option ℕ
  pub parent : Option ℕ
  pub exit_code : ℕ
  pub sig_pending : ℕ
  pub pml4 : ℕ
  pub kstack_top : ℕ

pub record Sched : Type 0 where
  pub procs : ℕ → Proc
  pub current : ℕ
  pub ready_head : Option ℕ
  pub ready_tail : Option ℕ
  pub all_head : Option ℕ
  pub fg_pid : ℕ
  pub space : ℕ
  pub kernel_stack : ℕ

-- p->next = q
pub set_next : ℕ → Option ℕ → (ℕ → Proc) → ℕ → Proc
set_next p q procs = update procs p (record (procs p) { next = q })

pub set_state : ℕ → State → (ℕ → Proc) → ℕ → Proc
set_state p x procs = update procs p (record (procs p) { state = x })

-- `idle` is the process of the boot context, which runs first.
pub scheduler_init : ℕ → Sched → Sched
scheduler_init idle s = record s {
  ready_head = none;
  ready_tail = none;
  procs = update s.procs idle (record (s.procs idle) {
    pid = 0;
    state = running;
    quantum_remaining = proc_quantum;
    next = none;
  });
  current = idle;
}

pub scheduler_set_fg : ℕ → Sched → Sched
scheduler_set_fg pid s = record s { fg_pid = pid }

pub scheduler_add : ℕ → Sched → Sched
scheduler_add p s = elim s.ready_tail [
  | some t ↦ record s { procs = set_next t (some p) (set_next p none s.procs); ready_tail = some p }
  | none ↦ record s { procs = set_next p none s.procs; ready_head = some p; ready_tail = some p }
]

pub scheduler_register : ℕ → Sched → Sched
scheduler_register p s = scheduler_add p (record s {
  procs = update s.procs p (record (s.procs p) { all_next = s.all_head });
  all_head = some p;
})

-- The loops over the list of all processes, with the rounds left.
pub find_from : ℕ → ℕ → Option ℕ → (ℕ → Proc) → Option ℕ
find_from zero pid p procs = none
find_from (suc n) pid none procs = none
find_from (suc n) pid (some p) procs = elim ((procs p).pid == pid) [
  | true ↦ some p
  | false ↦ find_from n pid ((procs p).all_next) procs
]

pub scheduler_find : ℕ → ℕ → Sched → Option ℕ
scheduler_find n pid s = find_from n pid s.all_head s.procs

-- The process at a place of the list, with the rounds left.
pub at_from : ℕ → ℕ → Option ℕ → (ℕ → Proc) → Option ℕ
at_from zero idx p procs = none
at_from (suc n) idx none procs = none
at_from (suc n) zero (some p) procs = some p
at_from (suc n) (suc idx) (some p) procs = at_from n idx ((procs p).all_next) procs

pub scheduler_at : ℕ → ℕ → Sched → Option ℕ
scheduler_at n idx s = at_from n idx s.all_head s.procs

-- `pp` points at `all_head` (`none`) or at the link of the process before.
pub store_link : Option ℕ → Option ℕ → Sched → Sched
store_link none q s = record s { all_head = q }
store_link (some b) q s = record s {
  procs = update s.procs b (record (s.procs b) { all_next = q });
}

pub remove_from : ℕ → Option ℕ → Option ℕ → ℕ → Sched → Sched
remove_from zero pp c p s = s
remove_from (suc n) pp none p s = s
remove_from (suc n) pp (some c) p s = elim (c == p) [
  | true ↦ store_link pp ((s.procs p).all_next) s
  | false ↦ remove_from n (some c) ((s.procs c).all_next) p s
]

pub scheduler_remove : ℕ → ℕ → Sched → Sched
scheduler_remove n p s = remove_from n none s.all_head p s

abbrev pub is_zombie : State → Bool
is_zombie zombie = true
is_zombie _ = false

abbrev pub same_process : Option ℕ → ℕ → Bool
same_process (some p) q = p == q
same_process none q = false

-- A zombie child of `parent`; a `pid` that is not positive is `none`.
abbrev pub reaps : ℕ → Option ℕ → Proc → Bool
reaps parent pid c =
    (is_zombie c.state && same_process c.parent parent)
    && elim pid [ some n ↦ c.pid == n | none ↦ true ]

pub reap_from : ℕ → ℕ → Option ℕ → Option ℕ → (ℕ → Proc) → Option ℕ
reap_from zero parent pid p procs = none
reap_from (suc n) parent pid none procs = none
reap_from (suc n) parent pid (some p) procs = elim (reaps parent pid (procs p)) [
  | true ↦ some p
  | false ↦ reap_from n parent pid ((procs p).all_next) procs
]

pub scheduler_reap : ℕ → ℕ → Option ℕ → Sched → Option ℕ
scheduler_reap n parent pid s = reap_from n parent pid s.all_head s.procs

abbrev pub is_runnable : State → Bool
is_runnable running = true
is_runnable ready = true
is_runnable _ = false

-- if (!g_ready_head) g_ready_tail = NULL
abbrev pub tail_of : Option ℕ → Option ℕ → Option ℕ
tail_of none t = none
tail_of (some _) t = t

-- g_ready_head = next->next
pub dequeue : ℕ → Sched → Sched
dequeue n s = record s {
  ready_head = (s.procs n).next;
  ready_tail = tail_of ((s.procs n).next) s.ready_tail;
}

pub requeue : ℕ → Sched → Sched
requeue p s =
    if is_runnable ((s.procs p).state)
    then scheduler_add p (record s { procs = set_state p ready s.procs })
    else s

-- The lines of scheduler_yield from `next->state = PROC_RUNNING` on.
pub run_next : ℕ → ℕ → ℕ → Sched → Sched
run_next kernel prev n s =
    let x = s.procs n in
    record s {
      procs = update s.procs n (record x { state = running; quantum_remaining = proc_quantum });
      current = n;
      space =
          if x.pml4 != (s.procs prev).pml4 then if x.pml4 != 0 then x.pml4 else kernel else s.space;
      kernel_stack = if x.kstack_top != 0 then x.kstack_top else s.kernel_stack;
    }

-- `kernel` is vmm_kernel_pml4().
pub scheduler_yield : ℕ → Sched → Sched
scheduler_yield kernel s = elim s.ready_head [
  | none ↦ s
  | some n ↦ run_next kernel s.current n (requeue s.current (dequeue n s))
]

-- The process that exits does not run again.
pub scheduler_exit : ℕ → ℕ → Sched → Sched
scheduler_exit kernel code s = scheduler_yield kernel (record s {
  procs =
      update s.procs s.current (record (s.procs s.current) { exit_code = code; state = zombie });
})

-- The tick behind the delivery of signals.
pub tick_quantum : ℕ → Sched → Sched
tick_quantum kernel s =
    let q = (s.procs s.current).quantum_remaining - 1 in
    let s' = record s {
      procs = update s.procs s.current (record (s.procs s.current) { quantum_remaining = q });
    } in
    let yielded = scheduler_yield kernel s' in if q == 0 then yielded else s'

-- Ctrl-C: `n` rounds for the search.
pub scheduler_sigint_fg : ℕ → Sched → Sched
scheduler_sigint_fg n s = if s.fg_pid == 0 then s else elim (scheduler_find n s.fg_pid s) [
  | none ↦ s
  | some p ↦ if is_zombie ((s.procs p).state) then s else record s {
    procs =
        update s.procs p
          (record (s.procs p) { sig_pending = bit_or ((s.procs p).sig_pending) sigint_mask });
  }
]
