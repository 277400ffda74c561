-- ===== src/Reading.antt =====
-- What sys_read of src/proc/fd.c copies from a file and from the console in its two modes. The keys are what kbd_poll returns one after another: in canonical mode the waits
-- between them are left out, in raw mode `none` is a poll that finds no key. What is read stands with
-- the last byte first, as a stack, and the screen receives `echoed`, in order.
pub mod Slices
pub mod Line
pub mod Raw
mod Examples
use noxis.Prelude.{
  ℕ, zero, suc, ◌+◌, ◌-◌, ◌*◌, ◌/◌, ◌%◌, ◌^◌, Bool, true, false, List, [], ◌∷◌, length,
}
use noxis.Prelude.{Option, none, some, ◌==◌, ◌||◌, ltb, leb, update, if◌then◌else◌}

-- while (got < len && e->offset < f->size) buf[got++] = f->data[e->offset++]: the bytes in order, and
-- the new offset.
pub read_file : ℕ → (ℕ → ℕ) → ℕ → ℕ → List ℕ × ℕ
read_file zero file size offset = ([], offset)
read_file (suc n) file size offset = elim (ltb offset size) [
  | true ↦
      (file offset ∷ (read_file n file size (offset + 1)).0, (read_file n file size (offset + 1)).1)
  | false ↦ ([], offset)
]

pub data Ended : Type 0 where
  returned waiting : Ended

pub record Console : Type 0 where
  pub ended : Ended
  pub got : List ℕ
  pub echoed : List ℕ

-- '\b' or 0x7F
abbrev pub is_erase : ℕ → Bool
is_erase c = c == 8 || c == 0x7F

-- if (c == '\r') c = '\n'
abbrev pub newline : ℕ → ℕ
newline c = if c == 13 then 10 else c

-- The echo of a byte, and of an erased one, before what comes later.
pub echo_byte : Bool → ℕ → Console → Console
echo_byte echo c r = if echo then (record r { echoed = c ∷ r.echoed }) else r

pub echo_erase : Bool → Console → Console
echo_erase echo r = if echo then (record r { echoed = 8 ∷ b' ' ∷ 8 ∷ r.echoed }) else r

-- The canonical mode, with the bytes got so far.
pub canonical : Bool → ℕ → List ℕ → List ℕ → Console
canonical echo len [] got = record {
  ended = if leb len (length got) then returned else waiting;
  got = got;
  echoed = [];
}
canonical echo len (c ∷ cs) [] = elim (leb len 0) [
  | true ↦ record { ended = returned; got = []; echoed = [] }
  | false ↦ elim (is_erase c) [
    | true ↦ canonical echo len cs []
    | false ↦ elim (newline c == 10) [
      | true ↦ echo_byte echo 10 (record { ended = returned; got = 10 ∷ []; echoed = [] })
      | false ↦ echo_byte echo c (canonical echo len cs (c ∷ []))
    ]
  ]
]
canonical echo len (c ∷ cs) (g ∷ gs) = elim (leb len (length (g ∷ gs))) [
  | true ↦ record { ended = returned; got = g ∷ gs; echoed = [] }
  | false ↦ elim (is_erase c) [
    | true ↦ echo_erase echo (canonical echo len cs gs)
    | false ↦ elim (newline c == 10) [
      | true ↦ echo_byte echo 10 (record { ended = returned; got = 10 ∷ g ∷ gs; echoed = [] })
      | false ↦ echo_byte echo c (canonical echo len cs (c ∷ g ∷ gs))
    ]
  ]
]

-- The raw mode; `vmin` is the setting, of which 0 counts as 1.
abbrev pub at_least_one : ℕ → ℕ
at_least_one v = if v == 0 then 1 else v

pub raw_from : Bool → ℕ → ℕ → List (Option ℕ) → List ℕ → Console
raw_from echo len vmin [] got = record {
  ended = if leb len (length got) then returned else waiting;
  got = got;
  echoed = [];
}
raw_from echo len vmin (none ∷ polls) got = elim (leb len (length got) || leb vmin (length got)) [
  | true ↦ record { ended = returned; got = got; echoed = [] }
  | false ↦ raw_from echo len vmin polls got
]
raw_from echo len vmin (some c ∷ polls) got = elim (leb len (length got)) [
  | true ↦ record { ended = returned; got = got; echoed = [] }
  | false ↦ elim (leb vmin (length got + 1)) [
    | true ↦ echo_byte echo c (record { ended = returned; got = c ∷ got; echoed = [] })
    | false ↦ echo_byte echo c (raw_from echo len vmin polls (c ∷ got))
  ]
]

pub raw : Bool → ℕ → ℕ → List (Option ℕ) → Console
raw echo len vmin polls = raw_from echo len (at_least_one vmin) polls []
