-- ===== src/Pipe.antt =====
-- Anonymous pipes, src/proc/pipe.c: a ring of 4096 bytes with the number of open read and write
-- ends. `pipe_read` and `pipe_write` yield while they wait: what the other processes do to the
-- pipe during each yield is an argument, a list of functions, and a wait past its end blocks.
pub mod Fifo
pub mod Reads
pub mod Writes
pub mod Returns
mod Examples
use noxis.Prelude.{
  ℕ, zero, suc, ◌+◌, ◌-◌, ◌%◌, Bool, true, false, List, [], ◌∷◌, Option, none, some, ltb, ◌==◌,
}
use noxis.Prelude.{◌&&◌, update, if◌then◌else◌}

abbrev pub pipe_cap : ℕ
pipe_cap = 4096

pub record Pipe : Type 0 where
  pub buf : ℕ → ℕ
  pub head : ℕ
  pub tail : ℕ
  pub count : ℕ
  pub readers : ℕ
  pub writers : ℕ
  pub used : Bool

-- The two ends of a pipe, FD_PIPE_R and FD_PIPE_W.
pub data End : Type 0 where
  reader writer : End

-- What `sys_pipe` writes into the slot that it takes; the bytes stay as they are.
unfoldable pub open_pipe : Pipe → Pipe
open_pipe p = record p { head = 0; tail = 0; count = 0; readers = 1; writers = 1; used = true }

unfoldable pub pipe_addref : End → Pipe → Pipe
pipe_addref reader p = record p { readers = p.readers + 1 }
pipe_addref writer p = record p { writers = p.writers + 1 }

-- The count of one end, lowered if it is positive.
unfoldable pub drop_end : End → Pipe → Pipe
drop_end reader p = if ltb 0 p.readers then (record p { readers = p.readers - 1 }) else p
drop_end writer p = if ltb 0 p.writers then (record p { writers = p.writers - 1 }) else p

unfoldable pub pipe_close : End → Pipe → Pipe
unfolding drop_end
pipe_close e p =
    let q = drop_end e p in
    if q.readers == 0 && q.writers == 0 then (record q { used = false }) else q

-- The lines that move one byte out of the ring, and into it.
pub get_byte : Pipe → ℕ × Pipe
get_byte p = (p.buf p.head, record p { head = (p.head + 1) % pipe_cap; count = p.count - 1 })

pub put_byte : ℕ → Pipe → Pipe
put_byte x p = record p {
  buf = update p.buf p.tail x;
  tail = (p.tail + 1) % pipe_cap;
  count = p.count + 1;
}

pub data Outcome : Type 0 where
  done broken blocked : Outcome

-- What a read leaves: how it ended, the bytes in `buf`, and the pipe.
pub record ReadResult : Type 0 where
  pub outcome : Outcome
  pub bytes : List ℕ
  pub pipe : Pipe

pub got_byte : ℕ → ReadResult → ReadResult
got_byte x r = record r { bytes = x ∷ r.bytes }

-- The loop of `pipe_read`, with the bytes still wanted.
pub pipe_read : ℕ → List (Pipe → Pipe) → Pipe → ReadResult
pipe_read zero env p = record { outcome = done; bytes = []; pipe = p }
pipe_read (suc n) [] p = elim (p.count == 0) [
  | true ↦ record { outcome = if p.writers == 0 then done else blocked; bytes = []; pipe = p }
  | false ↦ let (x, q) = get_byte p in got_byte x (pipe_read n [] q)
]
pipe_read (suc n) (others ∷ env) p = elim (p.count == 0) [
  | true ↦ elim (p.writers == 0) [
    | true ↦ record { outcome = done; bytes = []; pipe = p }
    | false ↦ pipe_read (suc n) env (others p)
  ]
  | false ↦ let (x, q) = get_byte p in got_byte x (pipe_read n (others ∷ env) q)
]

-- `broken` is the write to a pipe without readers: -1 if nothing was put, else the count.
pub record WriteResult : Type 0 where
  pub outcome : Outcome
  pub put : ℕ
  pub pipe : Pipe

pub put_one_more : WriteResult → WriteResult
put_one_more r = record r { put = r.put + 1 }

-- The loop of `pipe_write` over the bytes still to be put.
pub pipe_write : List ℕ → List (Pipe → Pipe) → Pipe → WriteResult
pipe_write [] env p = record { outcome = done; put = 0; pipe = p }
pipe_write (x ∷ xs) [] p = elim (p.readers == 0) [
  | true ↦ record { outcome = broken; put = 0; pipe = p }
  | false ↦ elim (p.count == pipe_cap) [
    | true ↦ record { outcome = blocked; put = 0; pipe = p }
    | false ↦ put_one_more (pipe_write xs [] (put_byte x p))
  ]
]
pipe_write (x ∷ xs) (others ∷ env) p = elim (p.readers == 0) [
  | true ↦ record { outcome = broken; put = 0; pipe = p }
  | false ↦ elim (p.count == pipe_cap) [
    | true ↦ pipe_write (x ∷ xs) env (others p)
    | false ↦ put_one_more (pipe_write xs (others ∷ env) (put_byte x p))
  ]
]

-- What `pipe_write` returns: the bytes put, or -1 (`none`) for a pipe that broke before the first.
pub write_return : WriteResult → Option ℕ
write_return r = elim r.outcome [
  | broken ↦ if ltb 0 r.put then some r.put else none
  | _ ↦ some r.put
]
