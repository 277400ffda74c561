-- ===== src/Noxlib/Readline.antt =====
-- readline of src/lib/noxlib/noxlib.h: the line editor. The keys are the bytes that read returns, in
-- order; `out` is what is written to the screen, in order. A row of the history is a string.
pub mod Moves
pub mod Lines
pub mod Rows
pub mod Keys
pub mod Refined
pub mod Session
mod Examples
use noxis.Prelude.{
  ℕ, zero, suc, ◌+◌, ◌-◌, Bool, true, false, List, [], ◌∷◌, ◌++◌, Option, none, some,
}
use noxis.Prelude.{
  ltb, leb, ◌==◌, ◌||◌, ◌&&◌, if◌then◌else◌, update, length, get_or, drop, replicate, slice,
}
use noxis.Paths.{Str}
use noxis.Tools.Text.{str_eq}

abbrev pub rl_max : ℕ
rl_max = 256

abbrev pub rl_hist : ℕ
rl_hist = 20

-- The locals of readline.
pub record Rl : Type 0 where
  pub buf : ℕ → ℕ
  pub len : ℕ
  pub cur : ℕ
  pub hist_pos : ℕ
  pub tmp : ℕ → ℕ
  pub tmp_len : ℕ
  pub in_hist : Bool
  pub out : List ℕ

pub data Key : Type 0 where
  enter erase home line_end kill left right up down delete ignored : Key
  plain : ℕ → Key

-- _rl_draw
pub draw : Str → (ℕ → ℕ) → ℕ → ℕ → ℕ → List ℕ
draw pr b len cur old_len =
    13 ∷ (pr ++ (slice b 0 len ++ (replicate (old_len - len) 32 ++ 13 ∷ (pr ++ slice b 0 cur))))

-- for (int i = len; i > cur; i--) buf[i] = buf[i-1], with the rounds len - cur
pub shift_up : ℕ → ℕ → (ℕ → ℕ) → ℕ → ℕ
shift_up zero i b = b
shift_up (suc n) i b = shift_up n (i - 1) (update b i (b (i - 1)))

-- for (int i = from; i < len - 1; i++) buf[i] = buf[i+1], with the rounds len - 1 - from
pub shift_down : ℕ → ℕ → (ℕ → ℕ) → ℕ → ℕ
shift_down zero i b = b
shift_down (suc n) i b = shift_down n (i + 1) (update b i (b (i + 1)))

-- for (int i = 0; i < n; i++) buf[i] = s[i], from i on
pub copy_str : Str → ℕ → (ℕ → ℕ) → ℕ → ℕ
copy_str [] i b = b
copy_str (c ∷ cs) i b = copy_str cs (i + 1) (update b i c)

module _ (pr : Str) (hist : List Str) where
  -- The states behind a key, with what _rl_draw writes.
  abbrev pub redraw : ℕ → Rl → Rl
  redraw old_len s = record s { out = s.out ++ draw pr s.buf s.len s.cur old_len }

  abbrev pub show_row : Str → Rl → Rl
  show_row row s = record s {
    buf = update (copy_str row 0 s.buf) (length row) 0;
    len = length row;
    cur = length row;
  }

  abbrev pub save_line : Rl → Rl
  save_line s = record s {
    tmp = update (copy_str (slice s.buf 0 s.len) 0 s.tmp) s.len 0;
    tmp_len = s.len;
    in_hist = true;
    hist_pos = length hist;
  }

  -- ESC[A behind the saving of the line
  abbrev pub older : Rl → Rl
  older s =
      if ltb 0 s.hist_pos
      then redraw s.len
          (show_row (get_or hist (s.hist_pos - 1) []) (record s { hist_pos = s.hist_pos - 1 }))
      else s

  -- ESC[B, where the test on in_hist and hist_pos holds
  abbrev pub newer : Rl → Rl
  newer s =
      if s.hist_pos + 1 == length hist
      then redraw s.len (record (show_row (slice s.tmp 0 s.tmp_len) s) {
        hist_pos = s.hist_pos + 1;
        in_hist = false;
      })
      else redraw s.len
          (record (show_row (get_or hist (s.hist_pos + 1) []) s) { hist_pos = s.hist_pos + 1 })

  -- One round of the loop, for every key but the one that ends it.
  pub press : Key → Rl → Rl
  press enter s = s
  press erase s =
      if ltb 0 s.cur
      then redraw s.len (record s {
        buf = shift_down (s.len - s.cur) (s.cur - 1) s.buf;
        len = s.len - 1;
        cur = s.cur - 1;
      })
      else s
  press home s = redraw s.len (record s { cur = 0 })
  press line_end s = redraw s.len (record s { cur = s.len })
  press kill s = redraw s.len (record s { len = s.cur })
  press left s = if ltb 0 s.cur then redraw s.len (record s { cur = s.cur - 1 }) else s
  press right s = if ltb s.cur s.len then redraw s.len (record s { cur = s.cur + 1 }) else s
  press up s = if s.in_hist then older s else older (save_line s)
  press down s = if s.in_hist then (if ltb s.hist_pos (length hist) then newer s else s) else s
  press delete s =
      if ltb s.cur s.len
      then redraw s.len
          (record s { buf = shift_down (s.len - 1 - s.cur) s.cur s.buf; len = s.len - 1 })
      else s
  press ignored s = s
  press (plain c) s =
      if leb 32 c
      then (if ltb s.len (rl_max - 1)
          then redraw s.len (record s {
            buf = update (shift_up (s.len - s.cur) s.len s.buf) s.cur c;
            len = s.len + 1;
            cur = s.cur + 1;
            in_hist = false;
          })
          else s)
      else s

-- What the bytes of a key sequence stand for, and those behind it; `none` where more are waited for.
read_tilde : List ℕ → Option (Key × List ℕ)
read_tilde [] = none
read_tilde (t ∷ cs) = some (delete, cs)

read_arrow : List ℕ → Option (Key × List ℕ)
read_arrow [] = none
read_arrow (c ∷ cs) =
    if c == b'D'
    then some (left, cs)
    else if c == b'C'
    then some (right, cs)
    else if c == b'A'
    then some (up, cs)
    else if c == b'B'
    then some (down, cs)
    else if c == b'3'
    then read_tilde cs
    else some (ignored, cs)

read_escape : List ℕ → Option (Key × List ℕ)
read_escape [] = none
read_escape (c ∷ cs) = if c == b'[' then read_arrow cs else some (ignored, cs)

pub read_key : List ℕ → Option (Key × List ℕ)
unfolding read_escape read_arrow read_tilde
read_key [] = none
read_key (c ∷ cs) =
    if c == 13 || c == 10
    then some (enter, cs)
    else if c == 0x7F || c == 8
    then some (erase, cs)
    else if c == 1
    then some (home, cs)
    else if c == 5
    then some (line_end, cs)
    else if c == 0x0B
    then some (kill, cs)
    else if c == 0x1B
    then read_escape cs
    else some (plain c, cs)

abbrev pub is_enter : Key → Bool
is_enter enter = true
is_enter _ = false

-- for (;;): one round for each key. `none`: the bytes, or the rounds, end before the line does.
pub edit_loop : Str → List Str → ℕ → List ℕ → Rl → Option (Rl × List ℕ)
edit_loop pr hist zero bytes s = none
edit_loop pr hist (suc n) bytes s = elim (read_key bytes) [
  | none ↦ none
  | some (k, rest) ↦ elim (is_enter k) [
    | true ↦ some (s, rest)
    | false ↦ edit_loop pr hist n rest (press pr hist k s)
  ]
]

-- The line joins the history, if it is not empty and not the last one again.
pub remember : Str → List Str → List Str
remember line hist =
    if length line == 0
    then hist
    else if leb 1 (length hist) && str_eq (get_or hist (length hist - 1) []) line
    then hist
    else if ltb (length hist) rl_hist
    then hist ++ line ∷ []
    else drop 1 hist ++ line ∷ []

abbrev pub start : Str → List Str → Rl
start pr hist = record {
  buf = λ i. 0;
  len = 0;
  cur = 0;
  hist_pos = length hist;
  tmp = λ i. 0;
  tmp_len = 0;
  in_hist = false;
  out = pr;
}

-- The line, the history after it, and the bytes that were not read.
pub readline : Str → List Str → List ℕ → Option (Str × List Str × List ℕ)
unfolding edit_loop
readline pr hist bytes = elim (edit_loop pr hist (length bytes) bytes (start pr hist)) [
  | none ↦ none
  | some (s, rest) ↦ some (slice s.buf 0 s.len, remember (slice s.buf 0 s.len) hist, rest)
]
