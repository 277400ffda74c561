-- ===== src/Noxlib/Readline/Session.antt =====
-- A whole call of readline: the keys one after the other, from an empty line to the return key.
use noxis.Prelude.{
  ℕ, zero, suc, ◌+◌, ◌-◌, ◌≤◌, ◌<◌, ◌≡◌, ◌≢◌, refl, sym, ap, ◌∙◌, ◌⊎◌, inl, inr, true, false, drop,
  ltb, leb, ◌&&◌, Bool-cases, ==-cases, List, [], ◌∷◌, ◌++◌, some, arith,
}
use noxis.Prelude.{length, slice, All, get_or, length-slice}
use noxis.Paths.{Str}
use noxis.Noxlib.Readline.{
  Rl, Key, enter, erase, home, line_end, kill, left, right, up, down, delete, plain, press, rl_max,
  rl_hist, read_key, is_enter, edit_loop, start, remember, readline, read_escape, read_arrow,
  read_tilde,
}
use mathlib.Core.Path.{ap₂}
use mathlib.Core.Bool.{true≢false}
use noxis.Tools.Text.{str_eq, stop_bytes}
use noxis.Noxlib.Readline.Lines.{Line, line, line_press, Fits, split_at}
use noxis.Noxlib.Readline.Refined.{line-press, cur-press}

-- The bytes that a terminal sends for a key.
pub data Codes : Key → List ℕ → Type 0 where
  carriage_return : Codes enter (13 ∷ [])
  newline : Codes enter (10 ∷ [])
  rubout : Codes erase (127 ∷ [])
  backspace : Codes erase (8 ∷ [])
  control_a : Codes home (1 ∷ [])
  control_e : Codes line_end (5 ∷ [])
  control_k : Codes kill (11 ∷ [])
  arrow_up : Codes up (27 ∷ b'[' ∷ b'A' ∷ [])
  arrow_down : Codes down (27 ∷ b'[' ∷ b'B' ∷ [])
  arrow_right : Codes right (27 ∷ b'[' ∷ b'C' ∷ [])
  arrow_left : Codes left (27 ∷ b'[' ∷ b'D' ∷ [])
  delete_key : (tilde : ℕ) → Codes delete (27 ∷ b'[' ∷ b'3' ∷ tilde ∷ [])
  letter : (c : ℕ) → 32 ≤ c → c ≢ 127 → Codes (plain c) (c ∷ [])

-- The bytes are those of the keys `ks`, then those of a return key, then `rest`.
pub data Typed : List ℕ → List Key → List ℕ → Type 0 where
  done : {bytes cs rest : List ℕ} → Codes enter cs → bytes ≡ cs ++ rest → Typed bytes [] rest
  more :
      {bytes cs left_over rest : List ℕ} {k : Key} {ks : List Key}
      → Codes k cs
      → is_enter k ≡ false
      → bytes ≡ cs ++ left_over
      → Typed left_over ks rest
      → Typed bytes (k ∷ ks) rest

-- readline reads the bytes of a key as that key.
read_key-Codes :
    {k : Key} {cs : List ℕ} (rest : List ℕ) → Codes k cs → read_key (cs ++ rest) ≡ some (k, rest)
unfolding read_key read_escape read_arrow read_tilde
read_key-Codes rest carriage_return = refl
read_key-Codes rest newline = refl
read_key-Codes rest rubout = refl
read_key-Codes rest backspace = refl
read_key-Codes rest control_a = refl
read_key-Codes rest control_e = refl
read_key-Codes rest control_k = refl
read_key-Codes rest arrow_up = refl
read_key-Codes rest arrow_down = refl
read_key-Codes rest arrow_right = refl
read_key-Codes rest arrow_left = refl
read_key-Codes rest (delete_key tilde) = refl
read_key-Codes rest (letter c l ne) = ground (arith, l, ne)

-- The last row of the history.
abbrev pub last_row : List Str → Str
last_row hist = get_or hist (length hist - 1) []

-- A string of C, whose bytes stand in front of its NUL.
abbrev pub IsString : Str → Type 0
IsString s = All (λ c. c ≢ 0) s

-- The history behind a line `t`: an empty line, or one that is the last row again, leaves it as it
-- was; else the line is its last row, and of 20 rows the first is lost.
abbrev pub Remembered : Str → List Str → List Str → Type 0
Remembered t hist later =
    (length t ≡ 0) × (later ≡ hist)
    ⊎ (0 < length t) × (0 < length hist) × (last_row hist ≡ t) × (later ≡ hist)
    ⊎ (0 < length t)
      × ((length hist ≡ 0) ⊎ (last_row hist ≢ t))
      × ((length hist < 20) × (later ≡ hist ++ t ∷ [])
          ⊎ (20 ≤ length hist) × (later ≡ drop 1 hist ++ t ∷ []))

-- strcmp finds the same strings equal and no others.
str_eq-same : (a b : Str) → IsString a → IsString b → str_eq a b ≡ true → a ≡ b
unfolding stop_bytes
str_eq-same [] [] h k e = refl
str_eq-same [] (y ∷ ys) h k e = absurd (ground (arith, k.0, e))
str_eq-same (x ∷ xs) [] h k e = absurd (ground (arith, h.0, e))
str_eq-same (x ∷ xs) (y ∷ ys) h k e = elim (==-cases x y) [
  | inl (s, t) ↦ ap₂ ◌∷◌ s (str_eq-same xs ys h.1 k.1 (rw t at e))
  | inr (s, t) ↦ absurd (true≢false (sym (rw t at e) ∙ t))
]

str_eq_self : (a : Str) → str_eq a a ≡ true
unfolding stop_bytes
str_eq_self [] = refl
str_eq_self (x ∷ xs) = elim (==-cases x x) [
  | inl (s, t) ↦ rw t (str_eq_self xs)
  | inr (s, t) ↦ absurd (s refl)
]

str_eq-other : (a b : Str) → str_eq a b ≡ false → a ≢ b
str_eq-other a b e same = true≢false (sym (str_eq_self a) ∙ ap (λ (s : Str). str_eq a s) same ∙ e)

remember-Remembered :
    (t : Str) (hist : List Str)
    → IsString t
    → IsString (last_row hist)
    → Remembered t hist (remember t hist)
unfolding remember
remember-Remembered t hist v w = elim (==-cases (length t) 0) [
  | inl (e, b) ↦ inl (e, rw b refl)
  | inr (ne, b) ↦ elim (Bool-cases (leb 1 (length hist) && str_eq (last_row hist) t)) [
    | inl again ↦ inr (
        inl (
          omega (arith, ne),
          ground (arith, again),
          str_eq-same (last_row hist) t w v (ground (arith, again)),
          rw (b, again) refl,
        ))
    | inr other ↦ inr (
        inr (
          omega (arith, ne),
          is_new other,
          elim (Bool-cases (ltb (length hist) rl_hist)) [
            | inl room ↦ inl (ground (arith, room), rw (b, other, room) refl)
            | inr full ↦ inr (ground (arith, full), rw (b, other, full) refl)
          ],
        ))
  ]
]
  where
    is_new :
        (leb 1 (length hist) && str_eq (last_row hist) t) ≡ false
        → (length hist ≡ 0) ⊎ (last_row hist ≢ t)
    is_new e = elim (==-cases (length hist) 0) [
      | inl (z, _) ↦ inl z
      | inr (some_rows, _) ↦ inr (str_eq-other (last_row hist) t (ground (arith, e, some_rows)))
    ]

abbrev pub line_keys : List Str → List Key → Line → Line
line_keys hist [] l = l
line_keys hist (k ∷ ks) l = line_keys hist ks (line_press hist k l)

abbrev pub empty_line : List Str → Line
empty_line hist = record {
  before = [];
  after = [];
  place = length hist;
  saved = [];
  browsing = false;
}

abbrev pub text : Line → Str
text l = l.before ++ l.after

read_tilde-lt :
    (cs : List ℕ) {k : Key} {rest : List ℕ}
    → read_tilde cs ≡ some (k, rest)
    → length rest < length cs
unfolding read_tilde
read_tilde-lt [] h = ground arith
read_tilde-lt (c ∷ cs) h = ground arith

read_arrow-lt :
    (cs : List ℕ) {k : Key} {rest : List ℕ}
    → read_arrow cs ≡ some (k, rest)
    → length rest < length cs
unfolding read_arrow
read_arrow-lt [] h = ground arith
read_arrow-lt (c ∷ cs) {k} {rest} h = ground (arith, read_tilde-lt cs {k = k} {rest = rest})

read_escape-lt :
    (cs : List ℕ) {k : Key} {rest : List ℕ}
    → read_escape cs ≡ some (k, rest)
    → length rest < length cs
unfolding read_escape
read_escape-lt [] h = ground arith
read_escape-lt (c ∷ cs) {k} {rest} h = ground (arith, read_arrow-lt cs {k = k} {rest = rest})

-- A key takes at least one byte.
read_key-lt :
    (bytes : List ℕ) {k : Key} {rest : List ℕ}
    → read_key bytes ≡ some (k, rest)
    → length rest < length bytes
unfolding read_key
read_key-lt [] h = ground arith
read_key-lt (c ∷ cs) {k} {rest} h = ground (arith, read_escape-lt cs {k = k} {rest = rest})

module _ (pr : Str) (hist : List Str) where
  edit_loop-Typed :
      (n : ℕ) (bytes : List ℕ) (ks : List Key) (rest : List ℕ) (s : Rl)
      → length bytes ≤ n
      → s.cur ≤ s.len
      → Typed bytes ks rest
      → (s' : Rl) × (edit_loop pr hist n bytes s ≡ some (s', rest))
        × (line s' ≡ line_keys hist ks (line s))
        × (s'.cur ≤ s'.len)
  unfolding edit_loop
  edit_loop-Typed zero bytes ks rest s f h (done {rest = r} c e) =
      absurd (omega (arith, read_key-lt bytes (ap read_key e ∙ read_key-Codes r c)))
  edit_loop-Typed zero bytes ks rest s f h (more {left_over = b} c k e t) =
      absurd (omega (arith, read_key-lt bytes (ap read_key e ∙ read_key-Codes b c)))
  edit_loop-Typed (suc n) bytes ks rest s f h (done {rest = r} c e) =
      (s, rw (ap read_key e ∙ read_key-Codes r c, edit_loop) refl, refl, h)
  edit_loop-Typed (suc n) bytes ks rest s f h (more {left_over = b} {k = k} {ks = js} c o e t) =
      let read : read_key bytes ≡ some (k, b) = ap read_key e ∙ read_key-Codes b c in
      let (s', ran, same, ok) =
        edit_loop-Typed n b js rest (press pr hist k s) (omega (arith, read_key-lt bytes read))
          (cur-press pr hist k s h) t in
      (
        s',
        rw (read, edit_loop) (rw o ran),
        same ∙ ap (line_keys hist js) (line-press pr hist k s h),
        ok,
      )

  -- When the bytes are those that a terminal sends for some keys and then for return, and neither the line
  -- that these keys make of an empty one, each with its effect on the two parts of a line, nor the last row
  -- of the history holds a NUL, readline returns that line and leaves the bytes behind the return key. The
  -- line joins the history as its last row, and takes the place of the oldest of 20; but an empty line, or
  -- one that is the last row again, does not.
  pub readline-Typed :
      (bytes : List ℕ) (ks : List Key) (rest : List ℕ)
      → Typed bytes ks rest
      → IsString (text (line_keys hist ks (empty_line hist)))
      → IsString (last_row hist)
      → let t = text (line_keys hist ks (empty_line hist)) in
        (later : List Str) × (readline pr hist bytes ≡ some (t, later, rest))
        × Remembered t hist later
  unfolding readline
  readline-Typed bytes ks rest t v w =
      let (s', ran, same, ok) =
        edit_loop-Typed (length bytes) bytes ks rest (start pr hist) (omega arith) (omega arith)
          t in
      let result = text (line_keys hist ks (empty_line hist)) in
      let shown : slice s'.buf 0 s'.len ≡ result =
        split_at s'.buf s'.cur s'.len ok ∙ ap text same in
      (
        remember result hist,
        rw (ran, readline) (ap (λ (l : Str). some (l, remember l hist, rest)) shown),
        remember-Remembered result hist v w,
      )

  abbrev Row : Str → Type 0
  Row r = length r < rl_max

  get_or-Row : (rows : List Str) (i : ℕ) → All Row rows → length (get_or rows i []) < rl_max
  get_or-Row [] i a = omega arith
  get_or-Row (r ∷ rows) zero a = a.0
  get_or-Row (r ∷ rows) (suc i) a = get_or-Row rows i a.1

  -- On a history of rows of at most 255 bytes, every key keeps the cursor on the line or behind its
  -- end, the line and the saved line at most 255 bytes long, and the place at most at the end of the
  -- history.
  pub press-Fits : (k : Key) (s : Rl) → All Row hist → Fits hist s → Fits hist (press pr hist k s)
  unfolding press
  press-Fits enter s a f = f
  press-Fits up s a f =
      ground (arith, get_or-Row hist (s.hist_pos - 1) a, get_or-Row hist (length hist - 1) a)
  press-Fits down s a f =
      ground (arith, get_or-Row hist (s.hist_pos + 1) a, length-slice s.tmp 0 s.tmp_len)
  press-Fits k s a f = ground arith
