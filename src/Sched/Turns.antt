-- ===== src/Sched/Turns.antt =====
-- About `scheduler_yield` of src/proc/scheduler.c and the order in which processes run.
use noxis.Prelude.{
  ℕ, ◌≡◌, ◌≢◌, refl, sym, Bool, true, false, List, [], ◌∷◌, ◌++◌, All, arith, if◌then◌else◌,
}
use noxis.Prelude.{zero, suc, length}
use mathlib.Core.Path.{subst}
use mathlib.Core.List.{append_assoc}
use noxis.Sched.{
  Sched, Proc, set_next, ready, set_state, is_runnable, dequeue, requeue, run_next, scheduler_add,
  scheduler_yield,
}
use noxis.Sched.Queue.{IsQueue, IsLinked-same, IsOutside, dequeue-IsQueue, scheduler_add-IsQueue}

-- Marking a process as ready or running leaves the links.
set_state-IsQueue :
    {q : List ℕ} {s : Sched} (p : ℕ)
    → IsQueue q s
    → IsQueue q (record s { procs = set_state p ready s.procs })
unfolding set_state
set_state-IsQueue {q = q} {s = s} p v = record {
  linked = IsLinked-same s.procs (set_state p ready s.procs) q s.ready_head (kept q) v.linked;
  last = v.last;
}
  where
    kept : (xs : List ℕ) → All (λ x. (set_state p ready s.procs x).next ≡ (s.procs x).next) xs
    kept [] = tt
    kept (x ∷ xs) = (ground arith, kept xs)

pub run_next-IsQueue :
    {q : List ℕ} {s : Sched} (kernel prev n : ℕ)
    → IsQueue q s
    → IsQueue q (run_next kernel prev n s)
unfolding run_next
run_next-IsQueue {q = q} {s = s} kernel prev n v = record {
  linked =
      IsLinked-same s.procs ((run_next kernel prev n s).procs) q s.ready_head (kept q) v.linked;
  last = v.last;
}
  where
    kept :
        (xs : List ℕ) → All (λ x. ((run_next kernel prev n s).procs x).next ≡ (s.procs x).next) xs
    kept [] = tt
    kept (x ∷ xs) = (ground arith, kept xs)

-- The queue behind a turn.
abbrev pub turn : Bool → ℕ → List ℕ → List ℕ
turn true c q = q ++ (c ∷ [])
turn false c q = q

requeue-IsQueue :
    {q : List ℕ} {s : Sched} (p : ℕ)
    → IsQueue q s
    → IsOutside p q
    → IsQueue (turn (is_runnable ((s.procs p).state)) p q) (requeue p s)
unfolding requeue
requeue-IsQueue {q = q} {s = s} p v o =
    elim (is_runnable ((s.procs p).state))
      as (λ b.
        IsQueue (turn b p q)
          (if b then scheduler_add p (record s { procs = set_state p ready s.procs }) else s)) [
            | true ↦ scheduler_add-IsQueue p (set_state-IsQueue p v) o
            | false ↦ v
          ]

-- When the ready list holds `n` and then `q`, and the running process is not in `q`, scheduler_yield
-- runs `n` and leaves `q`, with the process that ran behind it if it can still run.
pub scheduler_yield-IsQueue :
    {n : ℕ} {q : List ℕ} {s : Sched} (kernel : ℕ)
    → IsQueue (n ∷ q) s
    → IsOutside s.current q
    → IsQueue
        (turn (is_runnable ((s.procs s.current).state)) s.current q)
        (scheduler_yield kernel s)
      × ((scheduler_yield kernel s).current ≡ n)
unfolding scheduler_yield run_next dequeue
scheduler_yield-IsQueue {n = n} {q = q} {s = s} kernel v o =
    rw (v.linked.0, scheduler_yield)
      (run_next-IsQueue kernel s.current n (requeue-IsQueue s.current (dequeue-IsQueue v) o), refl)

abbrev pub IsDistinct : List ℕ → Type 0
IsDistinct [] = Unit
IsDistinct (x ∷ xs) = IsOutside x xs × IsDistinct xs

All-snoc : (P : ℕ → Type 0) (xs : List ℕ) (c : ℕ) → All P xs → P c → All P (xs ++ (c ∷ []))
All-snoc P [] c a p = (p, tt)
All-snoc P (x ∷ xs) c (a, rest) p = (a, All-snoc P xs c rest p)

IsDistinct-snoc :
    (xs : List ℕ) (c : ℕ) → IsDistinct xs → IsOutside c xs → IsDistinct (xs ++ (c ∷ []))
IsDistinct-snoc [] c d o = (tt, tt)
IsDistinct-snoc (x ∷ xs) c (a, d) (ne, o) =
    (All-snoc (λ y. x ≢ y) xs c a (λ e. ne (sym e)), IsDistinct-snoc xs c d o)

abbrev pub Runs : (ℕ → Proc) → ℕ → Type 0
Runs procs p = is_runnable ((procs p).state) ≡ true

-- No process stops being runnable because another one gets its turn.
Runs-yield : (kernel p : ℕ) (s : Sched) → Runs s.procs p → Runs ((scheduler_yield kernel s).procs) p
unfolding scheduler_yield run_next requeue dequeue scheduler_add set_next set_state
Runs-yield kernel p s r = ground arith

-- The ready processes are `q`; they and the running one are distinct and can run.
pub record IsRound (q : List ℕ) (s : Sched) : Type 0 where
  pub queue : IsQueue q s
  pub apart : IsOutside s.current q
  pub distinct : IsDistinct q
  pub runs : All (Runs s.procs) q
  pub current_runs : Runs s.procs s.current

unfoldable pub yields : ℕ → ℕ → Sched → Sched
yields kernel zero s = s
yields kernel (suc k) s = yields kernel k (scheduler_yield kernel s)

-- A turn goes from the head of the queue to its end, and keeps the round.
pub scheduler_yield-IsRound :
    {n : ℕ} {q : List ℕ} {s : Sched} (kernel : ℕ)
    → IsRound (n ∷ q) s
    → IsRound (q ++ (s.current ∷ [])) (scheduler_yield kernel s)
      × ((scheduler_yield kernel s).current ≡ n)
scheduler_yield-IsRound {n = n} {q = q} {s = s} kernel r =
    let (v, e) = scheduler_yield-IsQueue kernel r.queue (r.apart.1) in
    (
      record {
        queue =
            subst (λ b. IsQueue (turn b s.current q) (scheduler_yield kernel s)) r.current_runs v;
        apart = rw e (All-snoc (λ y. n ≢ y) q s.current (r.distinct.0) (λ b. r.apart.0 (sym b)));
        distinct = IsDistinct-snoc q s.current (r.distinct.1) (r.apart.1);
        runs =
            All-snoc (Runs ((scheduler_yield kernel s).procs)) q s.current (still q (r.runs.1))
              (Runs-yield kernel s.current s r.current_runs);
        current_runs = rw e (Runs-yield kernel n s (r.runs.0));
      },
      e,
    )
  where
    still : (xs : List ℕ) → All (Runs s.procs) xs → All (Runs ((scheduler_yield kernel s).procs)) xs
    still [] a = tt
    still (x ∷ xs) (a, rest) = (Runs-yield kernel x s a, still xs rest)

-- When the processes in the ready list and the running one are distinct and can run, the ready process
-- with `length xs` others before it runs after `length xs + 1` yields.
pub yields-reach :
    (xs ys : List ℕ) {p : ℕ} {s : Sched} (kernel : ℕ)
    → IsRound (xs ++ (p ∷ ys)) s
    → (yields kernel (suc (length xs)) s).current ≡ p
unfolding yields
yields-reach [] ys kernel r = (scheduler_yield-IsRound kernel r).1
yields-reach (x ∷ xs) ys {p = p} {s = s} kernel r =
    let r' = (scheduler_yield-IsRound kernel r).0 in
    yields-reach xs (ys ++ (s.current ∷ [])) kernel (
      subst (λ l. IsRound l (scheduler_yield kernel s)) (append_assoc xs (p ∷ ys) (s.current ∷ []))
        r')
