-- ===== src/Noxlib/Readline/Examples.antt =====
-- Tests of the line editor, and the theorems at inputs that meet their hypotheses.
use noxis.Prelude.{ℕ, List, [], ◌∷◌, ◌≡◌, refl, some, arith}
use noxis.Paths.{Str}
use noxis.Noxlib.Readline.{
  Key, erase, left, up, plain, press, read_key, readline, remember, shift_up, shift_down, copy_str,
  start,
}
use noxis.Noxlib.Readline.Lines.{Fits}
use noxis.Noxlib.Readline.Session.{
  Typed, done, more, letter, rubout, arrow_left, carriage_return, Remembered, line_keys, text,
  empty_line, readline-Typed, press-Fits,
}
use noxis.Tools.Text.{stop_bytes}

-- l, s, backspace, cursor left, p, return, and a byte behind it
abbrev session : List ℕ
session = b'l' ∷ b's' ∷ 0x7F ∷ 0x1B ∷ b'[' ∷ b'D' ∷ b'p' ∷ 13 ∷ b'x' ∷ []

abbrev prompt : Str
prompt = b'>' ∷ []

abbrev rows : List Str
rows = (b'a' ∷ b'b' ∷ []) ∷ []

readline_run :
    readline prompt rows session
    ≡ some (b'p' ∷ b'l' ∷ [], (b'a' ∷ b'b' ∷ []) ∷ (b'p' ∷ b'l' ∷ []) ∷ [], b'x' ∷ [])
unfolding readline read_key press remember shift_up shift_down copy_str stop_bytes
readline_run = refl

readline_recalled :
    readline prompt rows (0x1B ∷ b'[' ∷ b'A' ∷ 13 ∷ []) ≡ some (b'a' ∷ b'b' ∷ [], rows, [])
unfolding readline read_key press remember shift_up shift_down copy_str stop_bytes
readline_recalled = refl

abbrev keys : List Key
keys = plain b'l' ∷ plain b's' ∷ erase ∷ left ∷ plain b'p' ∷ []

session-Typed : Typed session keys (b'x' ∷ [])
session-Typed = more (letter b'l' (omega arith) (omega arith)) refl refl (
    more (letter b's' (omega arith) (omega arith)) refl refl (
      more rubout refl refl (
        more arrow_left refl refl
          (more (letter b'p' (omega arith) (omega arith)) refl refl (done carriage_return refl)))))

readline-Typed_example :
    let t = text (line_keys rows keys (empty_line rows)) in
    (later : List Str) × (readline prompt rows session ≡ some (t, later, b'x' ∷ []))
    × Remembered t rows later
readline-Typed_example =
    readline-Typed prompt rows session keys (b'x' ∷ []) session-Typed
      ((λ e. omega arith), ((λ e. omega arith), tt)) ((λ e. omega arith), ((λ e. omega arith), tt))

press-Fits_example : Fits rows (press prompt rows up (start prompt rows))
press-Fits_example = press-Fits prompt rows up (start prompt rows) (omega arith) (omega arith)
