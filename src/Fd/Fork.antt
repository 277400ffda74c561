-- ===== src/Fd/Fork.antt =====
-- About sys_pipe and the descriptor loops of sys_fork and sys_exit, and the counts of the pipe ends.
use noxis.Prelude.{ℕ, zero, suc, ◌+◌, ◌≤◌, ◌<◌, ◌≡◌, refl, ap, ◌∙◌, inl, inr}
use noxis.Prelude.{true, false, List, [], ◌∷◌, Option, none, some, arith, ◌++◌, ap}
use noxis.Prelude.{update, ==-cases, Bool-cases, Option-cases, update_ne}
use mathlib.Core.Option.{some-injective}
use noxis.Pipe.{Pipe, End, reader, writer, open_pipe}
use noxis.Fd.{
  Files, Table, max_fds, npipes, is_closed, pipe_of, close_ref, add_ref, first_unused, pipe_slots,
  pipe_fd, bind_pipe, sys_pipe, add_refs, fork_fds, close_refs, exit_fds,
}
use noxis.Fd.Ends.{
  IsExact, end_count, ref, refs, table_refs, list_refs, end_count-add_at, end_count-close_at,
  table_refs-update, ref-le, ref-closed, IsFlagged, IsFlagged-close_at, IsFlagged-add_at,
}

-- The loop of `sys_fork`: from descriptor `k` on, `n` entries add their references.
add_refs-counts :
    (n k : ℕ) (d : End) (i : ℕ) (t : Table) (pipes : ℕ → Pipe)
    → end_count d (add_refs n k t pipes i) + table_refs d i k t
      ≡ end_count d (pipes i) + table_refs d i (k + n) t
unfolding add_refs table_refs
add_refs-counts zero k d i t pipes =
    ap (λ m. end_count d (pipes i) + table_refs d i m t) (omega arith)
add_refs-counts (suc n) k d i t pipes =
    let e : k + suc n ≡ suc (k + n) = omega arith in
    let e' : k + 1 ≡ suc k = omega arith in
    omega (
      arith,
      ap (λ m. table_refs d i m t) e,
      ap (λ m. table_refs d i m t) e',
      ap (λ m. table_refs d i (m + n) t) e',
      ap (λ m. table_refs d i m t) (add_suc k n),
      add_refs-counts n (k + 1) d i t (add_ref (t k) pipes),
      end_count-add_at d i (pipe_of (t k)) pipes,
    )
  where
    add_suc : (k n : ℕ) → k + 1 + n ≡ suc (k + n)
    add_suc k n = omega arith

-- Every entry of the table is counted in the pool.
abbrev Covers : Table → (ℕ → Pipe) → Type 0
Covers t pipes = (d : End) (i k : ℕ) → k < max_fds → ref d i (t k) ≤ end_count d (pipes i)

IsFlagged-add_refs :
    (n k : ℕ) (t : Table) (pipes : ℕ → Pipe)
    → k + n ≤ max_fds
    → Covers t pipes
    → IsFlagged pipes
    → IsFlagged (add_refs n k t pipes)
unfolding add_refs
IsFlagged-add_refs zero k t pipes h c f = f
IsFlagged-add_refs (suc n) k t pipes h c f =
    IsFlagged-add_refs n (k + 1) t (add_ref (t k) pipes) (omega arith)
      (λ d i j hj. omega (arith, c d i j hj, end_count-add_at d i (pipe_of (t k)) pipes))
      (IsFlagged-add_at (pipe_of (t k)) pipes (λ d i held. omega (arith, c d i k (omega arith))) f)

-- The descriptor loop of `sys_fork` keeps the counts of the pipe ends exact: the child's table counts
-- as the parent's does.
pub fork_fds-IsExact : {s : Files} → IsExact s → IsExact (fork_fds s)
unfolding fork_fds refs list_refs table_refs
fork_fds-IsExact {s} x = record {
  counts = λ d i. omega (arith, x.counts d i, add_refs-counts max_fds 0 d i s.fds s.pipes);
  in_use =
      IsFlagged-add_refs max_fds 0 s.fds s.pipes (omega arith)
        (λ d i k h. omega (arith, x.counts d i, ref-le max_fds d i k s.fds h)) x.in_use;
}

table_refs_mono :
    (n k : ℕ) (d : End) (i : ℕ) (t : Table) → table_refs d i k t ≤ table_refs d i (k + n) t
unfolding table_refs
table_refs_mono zero k d i t = let e : k + 0 ≡ k = omega arith in rw e (omega arith)
table_refs_mono (suc n) k d i t =
    let e : k + suc n ≡ suc (k + n) = omega arith in
    rw (e, table_refs) (omega (arith, table_refs_mono n k d i t))

-- The loop of `sys_exit`: from descriptor `k` on, `n` entries drop their references, and `rest`
-- references are left.
close_refs-counts :
    (n k : ℕ) (t : Table) (rest : End → ℕ → ℕ) (pipes : ℕ → Pipe)
    → ((d : End) (i : ℕ)
        → end_count d (pipes i) + table_refs d i k t ≡ rest d i + table_refs d i (k + n) t)
    → (d : End) (i : ℕ) → end_count d (close_refs n k t pipes i) ≡ rest d i
unfolding close_refs table_refs
close_refs-counts zero k t rest pipes h d i =
    omega (arith, h d i, ap (λ m. table_refs d i m t) (add_none k))
  where
    add_none : (k : ℕ) → k + 0 ≡ k
    add_none k = omega arith
close_refs-counts (suc n) k t rest pipes h d₀ i₀ =
    close_refs-counts n (k + 1) t rest (close_ref (t k) pipes)
      (λ d i.
        let e' : k + 1 ≡ suc k = omega arith in
        let e : k + suc n ≡ k + 1 + n = omega arith in
        let one = ap (λ m. table_refs d i m t) e' in
        let all = ap (λ m. table_refs d i m t) e in
        let held : ref d i (t k) + table_refs d i k t ≤ table_refs d i (k + 1 + n) t =
          omega (arith, one, table_refs_mono n (k + 1) d i t) in
        omega (
          arith,
          h d i,
          one,
          all,
          held,
          end_count-close_at d i (pipe_of (t k)) pipes (omega (arith, h d i, all, held)),
        ))
      d₀ i₀

IsFlagged-close_refs :
    (n k : ℕ) (t : Table) (pipes : ℕ → Pipe) → IsFlagged pipes → IsFlagged (close_refs n k t pipes)
unfolding close_refs
IsFlagged-close_refs zero k t pipes f = f
IsFlagged-close_refs (suc n) k t pipes f =
    IsFlagged-close_refs n (k + 1) t (close_ref (t k) pipes)
      (IsFlagged-close_at (pipe_of (t k)) pipes f)

list_refs-append :
    (d : End) (i : ℕ) (xs ys : List Table)
    → list_refs d i (xs ++ ys) ≡ list_refs d i xs + list_refs d i ys
unfolding list_refs
list_refs-append d i [] ys = omega arith
list_refs-append d i (t ∷ xs) ys = omega (arith, list_refs-append d i xs ys)

-- The descriptor loop of `sys_exit` keeps the counts of the pipe ends exact when the process is gone,
-- whichever of the other processes runs next.
pub exit_fds-IsExact :
    (next : Table) (front back : List Table) {s : Files}
    → s.others ≡ front ++ (next ∷ back)
    → IsExact s
    → IsExact (exit_fds next (front ++ back) s)
unfolding exit_fds refs table_refs list_refs
exit_fds-IsExact next front back {s} others x = record {
  counts =
      close_refs-counts max_fds 0 s.fds
        (λ d i. table_refs d i max_fds next + list_refs d i (front ++ back)) s.pipes
        (λ d i. omega (
          arith,
          x.counts d i,
          ap (list_refs d i) others,
          list_refs-append d i front (next ∷ back),
          list_refs-append d i front back,
        ));
  in_use = IsFlagged-close_refs max_fds 0 s.fds s.pipes x.in_use;
}

pipe_slots_cases :
    (n k : ℕ) (o : Option ℕ) (t : Table) {r w : ℕ}
    → ((j : ℕ) → o ≡ some j → (j < k) × (is_closed (t j) ≡ true))
    → pipe_slots n k o t ≡ some (r, w)
    → (r < w) × (w < k + n) × (is_closed (t r) ≡ true) × (is_closed (t w) ≡ true)
unfolding pipe_slots
pipe_slots_cases zero k o t seen h = cc
pipe_slots_cases (suc n) k none t {r = r} {w = w} seen h = elim (Bool-cases (is_closed (t k))) [
  | inl c ↦
      let (a, b, p, q) =
        pipe_slots_cases n (k + 1) (some k) t {r = r} {w = w}
          (λ j e. ground (arith, some-injective e)) (rw c at h) in
      (a, omega (arith, b), p, q)
  | inr c ↦
      let (a, b, p, q) =
        pipe_slots_cases n (k + 1) none t {r = r} {w = w} (λ j e. cc) (rw c at h) in
      (a, omega (arith, b), p, q)
]
pipe_slots_cases (suc n) k (some j) t {r = r} {w = w} seen h = elim (Bool-cases (is_closed (t k))) [
  | inl c ↦ ground (arith, seen j refl)
  | inr c ↦
      let (a, b, p, q) =
        pipe_slots_cases n (k + 1) (some j) t {r = r} {w = w} (λ i e. ground (arith, seen i e))
          (rw (c, pipe_slots) at h) in
      (a, omega (arith, b), p, q)
]

first_unused_cases :
    (n k : ℕ) (pipes : ℕ → Pipe) {i : ℕ}
    → first_unused n k pipes ≡ some i
    → (i < k + n) × ((pipes i).used ≡ false)
unfolding first_unused
first_unused_cases zero k pipes h = cc
first_unused_cases (suc n) k pipes {i = i} h =
    ground (arith, first_unused_cases n (k + 1) pipes {i = i})

-- An idle pipe has no open end, and an open one has one of each.
open_pipe-counts :
    (d : End) (i j : ℕ) (pipes : ℕ → Pipe)
    → (pipes i).used ≡ false
    → IsFlagged pipes
    → end_count d (update pipes i (open_pipe (pipes i)) j)
      ≡ end_count d (pipes j) + ref d j (pipe_fd reader i) + ref d j (pipe_fd writer i)
unfolding open_pipe
open_pipe-counts reader i j pipes idle f = ground (arith, f i, ==-cases i j, ap (λ k. pipes k))
open_pipe-counts writer i j pipes idle f = ground (arith, f i, ==-cases i j, ap (λ k. pipes k))

bind_pipe-IsExact :
    {s : Files} (r w i : ℕ)
    → (r < w) × (w < max_fds)
    → (is_closed (s.fds r) ≡ true) × (is_closed (s.fds w) ≡ true)
    → (s.pipes i).used ≡ false
    → IsExact s
    → IsExact (bind_pipe r w i s)
unfolding bind_pipe refs open_pipe
bind_pipe-IsExact {s} r w i h c idle x = record {
  counts = λ d j.
      let t = update s.fds r (pipe_fd reader i) in
      omega (
        arith,
        x.counts d j,
        open_pipe-counts d i j s.pipes idle x.in_use,
        table_refs-update max_fds d j r (pipe_fd reader i) s.fds (omega arith),
        table_refs-update max_fds d j w (pipe_fd writer i) t (omega arith),
        ref-closed d j (s.fds r) c.0,
        ref-closed d j (t w)
            (ap is_closed (update_ne s.fds r w (pipe_fd reader i) (omega arith)) ∙ c.1),
      );
  in_use = λ j. ground (arith, x.in_use j);
}

-- `sys_pipe` keeps the counts of the pipe ends exact, also where it fails.
pub sys_pipe-IsExact : {s : Files} → IsExact s → IsExact (sys_pipe s).1
unfolding sys_pipe
sys_pipe-IsExact {s} x = elim (Option-cases (pipe_slots max_fds 0 none s.fds)) [
  | inl full ↦ rw (full, sys_pipe) x
  | inr ((r, w), slots) ↦ elim (Option-cases (first_unused npipes 0 s.pipes)) [
    | inl none_left ↦ rw (slots, sys_pipe, none_left) x
    | inr (i, idle) ↦
        let (a, b, p, q) = pipe_slots_cases max_fds 0 none s.fds (λ j e. cc) slots in
        rw (slots, sys_pipe, idle)
          (bind_pipe-IsExact r w i (a, b) (p, q) (first_unused_cases npipes 0 s.pipes idle).1 x)
  ]
]
