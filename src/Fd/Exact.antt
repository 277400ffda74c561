-- ===== src/Fd/Exact.antt =====
-- About sys_close, sys_dup and sys_dup2 of src/proc/fd.c, and the counts of the pipe ends.
use noxis.Prelude.{ℕ, zero, suc, ◌+◌, ◌<◌, ◌≡◌, sym, ap, ◌∙◌, inl, inr, ◌≢◌}
use noxis.Prelude.{true, some, arith, ap}
use noxis.Prelude.{
  leb, update, ==-cases, Bool-cases, Option-cases, update-update, update_ne, update_self,
}
use mathlib.Core.Path.{subst}
use noxis.Pipe.{End}
use noxis.Fd.{
  Files, Fd, Table, max_fds, is_closed, closed_fd, fd_get, pipe_of, close_ref, add_ref,
  first_closed, sys_close, copy_fd, sys_dup, sys_dup2,
}
use noxis.Fd.Ends.{
  IsExact, ref, refs, end_count-add_at, end_count-close_at, table_refs-update, ref-le, fd_get_cases,
  ref-closed, IsFlagged-close_at, IsFlagged-add_at,
}

-- The state with descriptor `k` closed.
abbrev pub closed_at : ℕ → Files → Files
closed_at k s = record s { fds = update s.fds k closed_fd; pipes = close_ref (s.fds k) s.pipes }

pub closed_at-IsExact : {s : Files} (k : ℕ) → k < max_fds → IsExact s → IsExact (closed_at k s)
unfolding refs
closed_at-IsExact {s} k h x = record {
  counts = λ d i.
      let small = ref-le max_fds d i k s.fds h in
      omega (
        arith,
        x.counts d i,
        small,
        end_count-close_at d i (pipe_of (s.fds k)) s.pipes (omega (arith, x.counts d i, small)),
        table_refs-update max_fds d i k closed_fd s.fds h,
      );
  in_use = IsFlagged-close_at (pipe_of (s.fds k)) s.pipes x.in_use;
}

-- A copy of an open descriptor over one that refers to no pipe.
copy_fd-IsExact :
    {s : Files} (j k : ℕ)
    → j < max_fds
    → k < max_fds
    → ((d : End) (i : ℕ) → ref d i (s.fds k) ≡ 0)
    → IsExact s
    → IsExact (copy_fd (s.fds j) k s)
unfolding refs copy_fd
copy_fd-IsExact {s} j k hj hk free x = record {
  counts = λ d i. omega (
    arith,
    x.counts d i,
    free d i,
    end_count-add_at d i (pipe_of (s.fds j)) s.pipes,
    table_refs-update max_fds d i k (s.fds j) s.fds hk,
  );
  in_use =
      IsFlagged-add_at (pipe_of (s.fds j)) s.pipes
        (λ d i held. omega (arith, x.counts d i, ref-le max_fds d i j s.fds hj)) x.in_use;
}

-- `sys_close` of any descriptor keeps the counts of the pipe ends exact, and a pipe in use just when
-- an end of it is open.
pub sys_close-IsExact : {s : Files} (fd : ℕ) → IsExact s → IsExact (sys_close fd s).1
unfolding sys_close
sys_close-IsExact {s} fd x = elim (Option-cases (fd_get fd s.fds)) [
  | inl shut ↦ rw (shut, sys_close) x
  | inr (e, found) ↦
      let (h, same, _) = fd_get_cases fd s.fds found in
      rw (found, sys_close, same) (closed_at-IsExact fd h x)
]

pub first_closed_cases :
    (n k : ℕ) (t : Table) {i : ℕ}
    → first_closed n k t ≡ some i
    → (i < k + n) × (is_closed (t i) ≡ true)
unfolding first_closed
first_closed_cases zero k t h = cc
first_closed_cases (suc n) k t {i = i} h = ground (arith, first_closed_cases n (k + 1) t {i = i})

-- `sys_dup` of any descriptor keeps the counts of the pipe ends exact, also where it fails.
pub sys_dup-IsExact : {s : Files} (fd : ℕ) → IsExact s → IsExact (sys_dup fd s).1
unfolding sys_dup
sys_dup-IsExact {s} fd x = elim (Option-cases (fd_get fd s.fds)) [
  | inl shut ↦ rw (shut, sys_dup) x
  | inr (e, found) ↦
      let (h, same, _) = fd_get_cases fd s.fds found in
      elim (Option-cases (first_closed max_fds 0 s.fds)) [
        | inl full ↦ rw (found, sys_dup, full) x
        | inr (i, free) ↦
            let (hi, c) = first_closed_cases max_fds 0 s.fds free in
            rw (found, sys_dup, free, same)
              (copy_fd-IsExact fd i h hi (λ d j. ref-closed d j (s.fds i) c) x)
      ]
]

-- A copy over an entry whose pipe end is released first.
overwrite-IsExact :
    {s : Files} (j k : ℕ) (e : Fd)
    → j < max_fds
    → e ≡ s.fds j
    → j ≢ k
    → k < max_fds
    → IsExact s
    → IsExact (copy_fd e k (record s { pipes = close_ref (s.fds k) s.pipes }))
unfolding copy_fd
overwrite-IsExact {s} j k e hj same ne hk x =
    let shut = closed_at k s in
    let kept : shut.fds j ≡ e = update_ne s.fds k j closed_fd (λ q. ne (sym q)) ∙ sym same in
    let copied : IsExact (copy_fd e k shut) =
      subst (λ f. IsExact (copy_fd f k shut)) kept
        (copy_fd-IsExact j k hj hk
          (λ d i. ref-closed d i (shut.fds k) (ap is_closed (update_self s.fds k closed_fd)))
          (closed_at-IsExact k hk x)) in
    subst
      (λ t.
        IsExact
          (record { fds = t; others = s.others; pipes = add_ref e (close_ref (s.fds k) s.pipes) }))
      (update-update s.fds k closed_fd e) copied

-- `sys_dup2` of any two descriptors keeps the counts of the pipe ends exact, also where it closes an
-- end of the pipe that it copies, and where it fails.
pub sys_dup2-IsExact :
    {s : Files} (oldfd newfd : ℕ) → IsExact s → IsExact (sys_dup2 oldfd newfd s).1
unfolding sys_dup2
sys_dup2-IsExact {s} oldfd newfd x = elim (Option-cases (fd_get oldfd s.fds)) [
  | inl shut ↦ rw (shut, sys_dup2) x
  | inr (e, found) ↦
      let (h, same, _) = fd_get_cases oldfd s.fds found in
      elim (Bool-cases (leb max_fds newfd)) [
        | inl out ↦ rw (found, sys_dup2, out) x
        | inr inside ↦ elim (==-cases oldfd newfd) [
          | inl (one, b) ↦ rw (found, sys_dup2, inside, b) x
          | inr (two, b) ↦
              rw (found, sys_dup2, inside, b)
                (overwrite-IsExact oldfd newfd e h same two (ground arith) x)
        ]
      ]
]
