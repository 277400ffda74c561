-- ===== src/Fd/Examples.antt =====
-- Runs of the descriptor calls: a shell that pipes into a child.
use noxis.Prelude.{ℕ, ◌≡◌, refl, false, [], ◌∷◌, none, some, if◌then◌else◌, leb}
use noxis.Pipe.{Pipe, End, reader, writer}
use noxis.Fd.{
  Files, Table, con_in, con_out, closed_fd, first_unused, pipe_slots, sys_pipe, sys_close, sys_dup,
  sys_dup2, fork_fds, exit_fds,
}
use noxis.Fd.Ends.{IsExact, end_count, table_refs, list_refs, refs}
use noxis.Fd.Exact.{sys_close-IsExact, sys_dup-IsExact, sys_dup2-IsExact}
use noxis.Fd.Fork.{fork_fds-IsExact, exit_fds-IsExact, sys_pipe-IsExact}

abbrev console : Table
console i =
    if leb i 2
    then (record { kind = if leb i 0 then con_in else con_out; target = none; offset = 0 })
    else closed_fd

abbrev idle_pipe : Pipe
idle_pipe = record {
  buf = λ _. 0;
  head = 0;
  tail = 0;
  count = 0;
  readers = 0;
  writers = 0;
  used = false;
}

-- Two processes, each with the console alone.
abbrev booted : Files
booted = record { fds = console; others = console ∷ []; pipes = λ _. idle_pipe }

no_refs : (d : End) (i : ℕ) → end_count d idle_pipe ≡ refs d i booted
unfolding refs list_refs table_refs
no_refs reader i = refl
no_refs writer i = refl

booted-IsExact : IsExact booted
booted-IsExact = record { counts = no_refs; in_use = λ i. refl }

takes_three_and_four : (sys_pipe booted).0 ≡ some (3, 4)
unfolding sys_pipe pipe_slots first_unused
takes_three_and_four = refl

sys_pipe-IsExact_run : IsExact (sys_pipe booted).1
sys_pipe-IsExact_run = sys_pipe-IsExact booted-IsExact

abbrev piped : Files
piped = (sys_pipe booted).1

sys_close-IsExact_run : IsExact (sys_close 4 piped).1
sys_close-IsExact_run = sys_close-IsExact 4 (sys_pipe-IsExact booted-IsExact)

sys_dup-IsExact_run : IsExact (sys_dup 3 piped).1
sys_dup-IsExact_run = sys_dup-IsExact 3 (sys_pipe-IsExact booted-IsExact)

sys_dup2-IsExact_example : IsExact (sys_dup2 3 4 piped).1
sys_dup2-IsExact_example = sys_dup2-IsExact 3 4 (sys_pipe-IsExact booted-IsExact)

fork_fds-IsExact_example : IsExact (fork_fds piped)
fork_fds-IsExact_example = fork_fds-IsExact (sys_pipe-IsExact booted-IsExact)

exit_fds-IsExact_run : IsExact (exit_fds console [] booted)
exit_fds-IsExact_run = exit_fds-IsExact console [] [] refl booted-IsExact
