-- ===== src/Noxlib/Readline/Lines.antt =====
-- What the keys of readline do to a line of two parts, the bytes before the cursor and those from it
-- on, and how such a line lies in the buffer.
use noxis.Prelude.{
  ℕ, zero, suc, ◌+◌, ◌-◌, ◌≤◌, ◌<◌, ◌≡◌, refl, sym, ap, ◌∙◌, Bool, true, false, List, [], ◌∷◌, ◌++◌,
  arith,
}
use noxis.Prelude.{slice, slice-add, length, ltb, leb, ◌==◌, if◌then◌else◌, get_or}
use mathlib.Core.Path.{ap₂}
use noxis.Paths.{Str}
use noxis.Noxlib.Readline.{
  Rl, Key, enter, erase, home, line_end, kill, left, right, up, down, delete, ignored, plain,
  rl_max,
}

-- The line that is edited, the place in the history, and the line saved when the history was entered.
pub record Line : Type 0 where
  pub before : Str
  pub after : Str
  pub place : ℕ
  pub saved : Str
  pub browsing : Bool

abbrev pub line : Rl → Line
line s = record {
  before = slice s.buf 0 s.cur;
  after = slice s.buf s.cur (s.len - s.cur);
  place = s.hist_pos;
  saved = slice s.tmp 0 s.tmp_len;
  browsing = s.in_hist;
}

-- All but the last byte, and the last byte alone.
abbrev pub init : Str → Str
init [] = []
init (x ∷ []) = []
init (x ∷ y ∷ ys) = x ∷ init (y ∷ ys)

abbrev pub last : Str → Str
last [] = []
last (x ∷ []) = x ∷ []
last (x ∷ y ∷ ys) = last (y ∷ ys)

abbrev pub head : Str → Str
head [] = []
head (x ∷ xs) = x ∷ []

abbrev pub tail : Str → Str
tail [] = []
tail (x ∷ xs) = xs

abbrev pub whole : Str → Line → Line
whole row l = record l { before = row; after = [] }

module _ (hist : List Str) where
  abbrev pub older_line : Line → Line
  older_line l =
      if ltb 0 l.place
      then record (whole (get_or hist (l.place - 1) []) l) { place = l.place - 1 }
      else l

  abbrev pub newer_line : Line → Line
  newer_line l =
      if l.place + 1 == length hist
      then record (whole l.saved l) { place = l.place + 1; browsing = false }
      else record (whole (get_or hist (l.place + 1) []) l) { place = l.place + 1 }

  abbrev pub enter_history : Line → Line
  enter_history l = record l { saved = l.before ++ l.after; browsing = true; place = length hist }

  -- What each key does to the line.
  abbrev pub line_press : Key → Line → Line
  line_press enter l = l
  line_press erase l = record l { before = init l.before }
  line_press home l = record l { before = []; after = l.before ++ l.after }
  line_press line_end l = record l { before = l.before ++ l.after; after = [] }
  line_press kill l = record l { after = [] }
  line_press left l = record l { before = init l.before; after = last l.before ++ l.after }
  line_press right l = record l { before = l.before ++ head l.after; after = tail l.after }
  line_press up l = if l.browsing then older_line l else older_line (enter_history l)
  line_press down l =
      if l.browsing then (if ltb l.place (length hist) then newer_line l else l) else l
  line_press delete l = record l { after = tail l.after }
  line_press ignored l = l
  line_press (plain c) l =
      if leb 32 c
      then (if ltb (length l.before + length l.after) (rl_max - 1)
          then record l { before = l.before ++ c ∷ []; browsing = false }
          else l)
      else l

-- The cursor is on the line or behind it, and the lines fit their buffers.
pub record Fits (hist : List Str) (s : Rl) : Type 0 where
  pub cursor : s.cur ≤ s.len
  pub room : s.len < rl_max
  pub saved : s.tmp_len < rl_max
  pub place : s.hist_pos ≤ length hist

init-slice : (b : ℕ → ℕ) (i n : ℕ) → init (slice b i (suc n)) ≡ slice b i n
init-slice b i zero = refl
init-slice b i (suc n) = ap (b i ∷◌) (init-slice b (suc i) n)

last-slice : (b : ℕ → ℕ) (i n : ℕ) → last (slice b i (suc n)) ≡ b (i + n) ∷ []
last-slice b i zero = ap (λ k. b k ∷ []) (omega arith)
last-slice b i (suc n) = last-slice b (suc i) n ∙ ap (λ k. b k ∷ []) (omega arith)

-- The parts of a line whose cursor is not in front.
pub init-before : (b : ℕ → ℕ) (cur : ℕ) → init (slice b 0 cur) ≡ slice b 0 (cur - 1)
init-before b zero = refl
init-before b (suc n) = init-slice b 0 n ∙ ap (slice b 0) (omega arith)

pub prefix : (b : ℕ → ℕ) (m n : ℕ) → slice b 0 (m + n) ≡ slice b 0 m ++ slice b m n
prefix b m n = slice-add b 0 m n ∙ ap (λ k. slice b 0 m ++ slice b k n) (omega arith)

pub split_at :
    (b : ℕ → ℕ) (cur len : ℕ) → cur ≤ len → slice b 0 len ≡ slice b 0 cur ++ slice b cur (len - cur)
split_at b cur len h = ap (slice b 0) (omega arith) ∙ prefix b cur (len - cur)

pub none_after : (b : ℕ → ℕ) (i m n : ℕ) → m ≤ n → slice b i (m - n) ≡ []
none_after b i m n h = let nothing : m - n ≡ 0 = omega arith in ap (slice b i) nothing

pub first_after :
    (b : ℕ → ℕ) (cur len : ℕ)
    → cur < len
    → slice b cur (len - cur) ≡ b cur ∷ slice b (cur + 1) (len - 1 - cur)
first_after b cur len h =
    let e : len - cur ≡ suc (len - 1 - cur) = omega arith in
    rw e (ap (λ k. b cur ∷ slice b k (len - 1 - cur)) (omega arith))

pub last_before :
    (b : ℕ → ℕ) (cur len : ℕ)
    → 0 < cur
    → cur ≤ len
    → last (slice b 0 cur) ++ slice b cur (len - cur) ≡ slice b (cur - 1) (len - (cur - 1))
last_before b zero len h k = absurd (omega arith)
last_before b (suc n) len h k =
    let count : len - (suc n - 1) ≡ 1 + (len - suc n) = omega arith in
    let from : suc n - 1 ≡ n = omega arith in
    let at : 0 + n ≡ n = omega arith in
    let behind : suc n ≡ n + 1 = omega arith in
    ap (λ l. l ++ slice b (suc n) (len - suc n)) (last-slice b 0 n)
    ∙ ap₂ (λ j k. b j ∷ slice b k (len - suc n)) at behind
    ∙ sym (rw (count, from) (slice-add b n 1 (len - suc n)))

-- A test whose two outcomes show the lines `u` and `v`.
pub line_if :
    (t : Bool) (x y : Rl) {u v : Line}
    → (t ≡ true → line x ≡ u)
    → (t ≡ false → line y ≡ v)
    → line (if t then x else y) ≡ (if t then u else v)
line_if true x y p q = p refl
line_if false x y p q = q refl

pub line_either :
    (t : Bool) (x y : Rl) {u : Line}
    → (t ≡ true → line x ≡ u)
    → (t ≡ false → line y ≡ u)
    → line (if t then x else y) ≡ u
line_either true x y p q = p refl
line_either false x y p q = q refl
