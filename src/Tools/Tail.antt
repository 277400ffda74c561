-- ===== src/Tools/Tail.antt =====
-- The program tail, src/bin/tail/tail.c.
pub mod Last
use noxis.Prelude.{
  ℕ, zero, suc, ◌+◌, ◌-◌, ◌%◌, Bool, true, false, Option, none, some, List, [], ◌∷◌, ◌++◌, length,
}
use noxis.Prelude.{ltb, leb, ◌==◌, ◌||◌, update, if◌then◌else◌}
use noxis.Paths.{Str}

abbrev pub tail_lines_max : ℕ
tail_lines_max = 100

abbrev pub tail_line_max : ℕ
tail_line_max = 512

-- `_lines` with `_llen`, and the `head` and `count` of the call.
pub record Ring : Type 0 where
  pub slot : ℕ → Str
  pub head : ℕ
  pub count : ℕ

-- A line ends: its slot, then the next one.
abbrev pub commit : ℕ → Str → Ring → Ring
commit n line r = record {
  slot = update r.slot r.head line;
  head = (r.head + 1) % n;
  count = if ltb r.count n then r.count + 1 else r.count;
}

-- The loop over the bytes, with those of the line so far, and the last line without its end.
pub feed : ℕ → List ℕ → List ℕ → Ring → Ring
feed n [] line r = if ltb 0 (length line) then commit n line r else r
feed n (c ∷ cs) line r =
    let skipped = feed n cs line r in
    let ended = feed n cs [] (commit n line r) in
    let kept = feed n cs (line ++ (c ∷ [])) r in
    if c == b'\r'
    then skipped
    else if c == b'\n'
    then ended
    else if ltb (length line) (tail_line_max - 1)
    then kept
    else skipped

-- The bytes that the loop over `i` writes, with the rounds left.
pub write_lines : ℕ → ℕ → ℕ → ℕ → (ℕ → Str) → List ℕ
write_lines zero i start n slot = []
write_lines (suc k) i start n slot =
    slot ((start + i) % n) ++ (b'\n' ∷ write_lines k (i + 1) start n slot)

-- if (n <= 0 || n > TAIL_LINES_MAX) n = TAIL_LINES_MAX
abbrev pub clamp : ℕ → ℕ
clamp n = if n == 0 || ltb tail_lines_max n then tail_lines_max else n

-- (head - count + n) % n, where count is at most n
abbrev pub oldest : ℕ → Ring → ℕ
oldest n r = (r.head + n - r.count) % n

-- What is written of the bytes that are read; a count that is not positive is 0.
pub tail : ℕ → (ℕ → Str) → List ℕ → List ℕ
tail n slot input =
    let r = feed (clamp n) input [] (record { slot = slot; head = 0; count = 0 }) in
    write_lines r.count 0 (oldest (clamp n) r) (clamp n) r.slot
