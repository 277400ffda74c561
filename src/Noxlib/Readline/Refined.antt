-- ===== src/Noxlib/Readline/Refined.antt =====
-- The line editor against a line of two parts, for all keys.
use noxis.Prelude.{◌≤◌, ◌≡◌, refl, List, arith}
use noxis.Paths.{Str}
use noxis.Noxlib.Readline.{
  Rl, Key, enter, erase, home, line_end, kill, left, right, up, down, delete, ignored, plain, press,
}
use noxis.Noxlib.Readline.Lines.{line, line_press}
use noxis.Noxlib.Readline.Rows.{press-up, press-down}
use noxis.Noxlib.Readline.Keys.{
  press-plain, press-erase, press-home, press-line_end, press-kill, press-left, press-right,
  press-delete,
}

module _ (pr : Str) (hist : List Str) where
  -- Each key does to the buffer what it does to the line.
  pub line-press :
      (k : Key) (s : Rl) → s.cur ≤ s.len → line (press pr hist k s) ≡ line_press hist k (line s)
  line-press enter s h = unfold press in refl
  line-press erase s h = press-erase pr hist s h
  line-press home s h = press-home pr hist s h
  line-press line_end s h = press-line_end pr hist s h
  line-press kill s h = press-kill pr hist s h
  line-press left s h = press-left pr hist s h
  line-press right s h = press-right pr hist s h
  line-press up s h = press-up pr hist s h
  line-press down s h = press-down pr hist s
  line-press delete s h = press-delete pr hist s h
  line-press ignored s h = unfold press in refl
  line-press (plain c) s h = press-plain pr hist s h c

  -- No key takes the cursor off the line.
  pub cur-press :
      (k : Key) (s : Rl) → s.cur ≤ s.len → (press pr hist k s).cur ≤ (press pr hist k s).len
  unfolding press
  cur-press enter s h = h
  cur-press up s h = ground arith
  cur-press down s h = ground arith
  cur-press k s h = ground arith
