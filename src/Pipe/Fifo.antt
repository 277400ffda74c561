-- ===== src/Pipe/Fifo.antt =====
-- The contents of a pipe of src/proc/pipe.c as a list, and what the lines that move a byte do to it.
use noxis.Prelude.{ℕ, suc, ◌+◌, ◌-◌, ◌%◌, ◌≤◌, ◌<◌, ◌≡◌, refl, ap}
use noxis.Prelude.{List, [], ◌∷◌, ◌++◌, length, arith, ◌≢◌}
use noxis.Prelude.Ring.{window, length-window, window-append}
use noxis.Pipe.{Pipe, pipe_cap, open_pipe, get_byte, put_byte}

pub record IsValid (p : Pipe) : Type 0 where
  pub head_in : p.head < pipe_cap
  pub count_in : p.count ≤ pipe_cap
  pub tail_at : p.tail ≡ (p.head + p.count) % pipe_cap

-- The bytes in the pipe, oldest first.
abbrev pub contents : Pipe → List ℕ
contents p = window pipe_cap p.buf p.head p.count

pub length-contents : (p : Pipe) → length (contents p) ≡ p.count
length-contents p = length-window pipe_cap p.buf p.head p.count

-- A new pipe is valid and empty.
pub open_pipe-IsValid : (p : Pipe) → IsValid (open_pipe p) × (contents (open_pipe p) ≡ [])
unfolding open_pipe
open_pipe-IsValid p = (omega arith, refl)

pub put_byte-IsValid :
    {p : Pipe} (x : ℕ)
    → IsValid p
    → p.count < pipe_cap
    → IsValid (put_byte x p) × (contents (put_byte x p) ≡ contents p ++ (x ∷ []))
unfolding put_byte
put_byte-IsValid {p} x v room = (
  omega (arith, v.tail_at),
  let e : p.count + 1 ≡ suc p.count = omega arith in
      rw e (window-append pipe_cap p.buf p.count p.head p.tail x v.head_in room v.tail_at),
)

pub get_byte-IsValid :
    {p : Pipe}
    → IsValid p
    → p.count ≢ 0
    → let (x, q) = get_byte p in IsValid q × (contents p ≡ x ∷ contents q) × (q.count + 1 ≡ p.count)
unfolding get_byte
get_byte-IsValid {p} v some_left = (
  omega (arith, v.tail_at),
  (let e : p.count ≡ suc (p.count - 1) = omega arith in ap (window pipe_cap p.buf p.head) e),
  omega arith,
)
