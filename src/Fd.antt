-- ===== src/Fd.antt =====
-- The file-descriptor table and its system calls, src/proc/fd.c, with `sys_pipe` of
-- src/proc/pipe.c and the descriptor loops of `sys_fork` and `sys_exit` in src/proc/syscalls.c.
-- A `pipe_t*` is an index into the pool of pipes and a `vfs_file_t*` one into the open files; an
-- `int fd` is its bit pattern, so that a negative one is too large for the table.

pub mod Ends
pub mod Exact
pub mod Fork
mod Examples
use noxis.Prelude.{ℕ, zero, suc, ◌+◌, ◌-◌, ◌*◌, ◌/◌, ◌%◌, ◌^◌, Bool, true, false, List, [], ◌∷◌}
use noxis.Prelude.{Option, none, some, ltb, leb, ◌==◌, ◌!=◌, ◌&&◌, ◌||◌, update, if◌then◌else◌}
use noxis.Prelude.{bit_and}
use noxis.Pipe.{Pipe, End, reader, writer, open_pipe, pipe_addref, pipe_close}

abbrev pub max_fds : ℕ
max_fds = 16

abbrev pub npipes : ℕ
npipes = 16

pub data Kind : Type 0 where
  closed con_in con_out dev_null dev_zero dev_random dev_tty : Kind
  file : Kind
  pipe : End → Kind

-- `fd_t`; `none` is the NULL pointer.
pub record Fd : Type 0 where
  pub kind : Kind
  pub target : Option ℕ
  pub offset : ℕ

abbrev pub Table : Type 0
Table = ℕ → Fd

abbrev pub closed_fd : Fd
closed_fd = record { kind = closed; target = none; offset = 0 }

-- The descriptors of the running process, those of the other live ones, and the pool of pipes.
pub record Files : Type 0 where
  pub fds : Table
  pub others : List Table
  pub pipes : ℕ → Pipe

abbrev pub is_closed : Fd → Bool
is_closed e = elim e.kind [ closed ↦ true | _ ↦ false ]

-- `fd_get`: a descriptor in range that is open.
pub fd_get : ℕ → Table → Option Fd
fd_get fd t = if leb max_fds fd then none else if is_closed (t fd) then none else some (t fd)

-- The pipe that a descriptor refers to, with its end: the test `fd_is_pipe` and the pointer.
abbrev pub pipe_of : Fd → Option (End × ℕ)
pipe_of e = elim e.kind [ pipe d ↦ elim e.target [ some i ↦ some (d, i) | none ↦ none ] | _ ↦ none ]

-- if (fd_is_pipe(e->kind)) pipe_close(e->kind, e->file);
pub close_at : Option (End × ℕ) → (ℕ → Pipe) → ℕ → Pipe
close_at (some (d, i)) pipes = update pipes i (pipe_close d (pipes i))
close_at none pipes = pipes

abbrev pub close_ref : Fd → (ℕ → Pipe) → ℕ → Pipe
close_ref e = close_at (pipe_of e)

-- if (fd_is_pipe(e->kind)) pipe_addref(e->kind, e->file);
pub add_at : Option (End × ℕ) → (ℕ → Pipe) → ℕ → Pipe
add_at (some (d, i)) pipes = update pipes i (pipe_addref d (pipes i))
add_at none pipes = pipes

abbrev pub add_ref : Fd → (ℕ → Pipe) → ℕ → Pipe
add_ref e = add_at (pipe_of e)

-- The first closed descriptor at or above `fd`, with the rounds left.
pub first_closed : ℕ → ℕ → Table → Option ℕ
first_closed zero fd t = none
first_closed (suc n) fd t = elim (is_closed (t fd)) [
  | true ↦ some fd
  | false ↦ first_closed n (fd + 1) t
]

-- The first unused pipe of the pool.
pub first_unused : ℕ → ℕ → (ℕ → Pipe) → Option ℕ
first_unused zero i pipes = none
first_unused (suc n) i pipes = elim ((pipes i).used) [
  | true ↦ first_unused n (i + 1) pipes
  | false ↦ some i
]

-- The loop of `sys_pipe` over the table: `rfd` is the first closed descriptor, once it is found.
pub pipe_slots : ℕ → ℕ → Option ℕ → Table → Option (ℕ × ℕ)
pipe_slots zero i rfd t = none
pipe_slots (suc n) i none t = pipe_slots n (i + 1) (if is_closed (t i) then some i else none) t
pipe_slots (suc n) i (some r) t = elim (is_closed (t i)) [
  | true ↦ some (r, i)
  | false ↦ pipe_slots n (i + 1) (some r) t
]

abbrev pub pipe_fd : End → ℕ → Fd
pipe_fd d i = record { kind = pipe d; target = some i; offset = 0 }

-- The lines of `sys_pipe` behind its searches.
pub bind_pipe : ℕ → ℕ → ℕ → Files → Files
bind_pipe r w i s = record s {
  fds = update (update s.fds r (pipe_fd reader i)) w (pipe_fd writer i);
  pipes = update s.pipes i (open_pipe (s.pipes i));
}

-- `none` is -1.
pub sys_pipe : Files → Option (ℕ × ℕ) × Files
sys_pipe s = elim (pipe_slots max_fds 0 none s.fds) [
  | none ↦ (none, s)
  | some (r, w) ↦ elim (first_unused npipes 0 s.pipes) [
    | none ↦ (none, s)
    | some i ↦ (some (r, w), bind_pipe r w i s)
  ]
]

pub sys_close : ℕ → Files → Option ℕ × Files
sys_close fd s = elim (fd_get fd s.fds) [
  | none ↦ (none, s)
  | some e ↦ (some 0, record s { fds = update s.fds fd closed_fd; pipes = close_ref e s.pipes })
]

-- p->fds[i] = *e, with one more reference.
pub copy_fd : Fd → ℕ → Files → Files
copy_fd e i s = record s { fds = update s.fds i e; pipes = add_ref e s.pipes }

pub sys_dup : ℕ → Files → Option ℕ × Files
sys_dup fd s = elim (fd_get fd s.fds) [
  | none ↦ (none, s)
  | some e ↦ elim (first_closed max_fds 0 s.fds) [
    | none ↦ (none, s)
    | some i ↦ (some i, copy_fd e i s)
  ]
]

pub sys_dup2 : ℕ → ℕ → Files → Option ℕ × Files
sys_dup2 oldfd newfd s = elim (fd_get oldfd s.fds) [
  | none ↦ (none, s)
  | some e ↦
      if leb max_fds newfd
      then (none, s)
      else if oldfd == newfd
      then (some newfd, s)
      else (some newfd, copy_fd e newfd (record s { pipes = close_ref (s.fds newfd) s.pipes }))
]

-- The loop of `sys_fork` over the table: the child has the parent's entries, each pipe end one more
-- reference.
pub add_refs : ℕ → ℕ → Table → (ℕ → Pipe) → ℕ → Pipe
add_refs zero fd t pipes = pipes
add_refs (suc n) fd t pipes = add_refs n (fd + 1) t (add_ref (t fd) pipes)

pub fork_fds : Files → Files
fork_fds s = record s { others = s.fds ∷ s.others; pipes = add_refs max_fds 0 s.fds s.pipes }

-- The loop of `sys_exit`: every pipe end of the table is released.
pub close_refs : ℕ → ℕ → Table → (ℕ → Pipe) → ℕ → Pipe
close_refs zero fd t pipes = pipes
close_refs (suc n) fd t pipes = close_refs n (fd + 1) t (close_ref (t fd) pipes)

-- The process that exits leaves the live ones, and `next` runs. The zombie keeps its table, which
-- nothing reads any more.
pub exit_fds : Table → List Table → Files → Files
exit_fds next rest s = record {
  fds = next;
  others = rest;
  pipes = close_refs max_fds 0 s.fds s.pipes;
}
