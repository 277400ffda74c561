-- ===== src/Noxlib/Readline/Rows.antt =====
-- The keys of readline that walk through the history.
use noxis.Prelude.{ℕ, ◌+◌, ◌-◌, ◌≤◌, ◌≡◌, refl, sym, ap, ◌∙◌, true, false, List, [], ◌++◌, arith}
use noxis.Prelude.{update, slice, length, ltb, ◌==◌, length-slice, get_or}
use noxis.Paths.{Str}
use noxis.Noxlib.Readline.{Rl, show_row, save_line, older, up, down, press, copy_str}
use noxis.Noxlib.Readline.Moves.{slice-copy_str, slice-update}
use noxis.Noxlib.Readline.Lines.{
  line, whole, older_line, enter_history, line_press, split_at, none_after, line_if,
}

-- A copied row, ended with a 0, stands in the buffer.
row_copied :
    (row : Str) (b : ℕ → ℕ) → slice (update (copy_str row 0 b) (length row) 0) 0 (length row) ≡ row
row_copied row b =
    slice-update (copy_str row 0 b) 0 (length row) (length row) 0 (omega arith)
    ∙ slice-copy_str row 0 b

module _ (pr : Str) (hist : List Str) where
  line-show_row : (row : Str) (s : Rl) → line (show_row pr hist row s) ≡ whole row (line s)
  line-show_row row s = λ i. record {
    before = row_copied row s.buf i;
    after =
        none_after (show_row pr hist row s).buf (length row) (length row) (length row) (omega arith)
          i;
    place = s.hist_pos;
    saved = slice s.tmp 0 s.tmp_len;
    browsing = s.in_hist;
  }

  line-save_line :
      (s : Rl) → s.cur ≤ s.len → line (save_line pr hist s) ≡ enter_history hist (line s)
  line-save_line s h = λ i. record {
    before = slice s.buf 0 s.cur;
    after = slice s.buf s.cur (s.len - s.cur);
    place = length hist;
    saved = kept i;
    browsing = true;
  }
    where
      kept :
          slice (save_line pr hist s).tmp 0 s.len
          ≡ slice s.buf 0 s.cur ++ slice s.buf s.cur (s.len - s.cur)
      kept =
          slice-update (copy_str (slice s.buf 0 s.len) 0 s.tmp) 0 s.len s.len 0 (omega arith)
          ∙ ap (slice (copy_str (slice s.buf 0 s.len) 0 s.tmp) 0) (sym (length-slice s.buf 0 s.len))
          ∙ slice-copy_str (slice s.buf 0 s.len) 0 s.tmp
          ∙ split_at s.buf s.cur s.len h

  line-older : (s : Rl) → line (older pr hist s) ≡ older_line hist (line s)
  line-older s =
      line_if (ltb 0 s.hist_pos) _ _
        (λ t.
          line-show_row (get_or hist (s.hist_pos - 1) []) (record s { hist_pos = s.hist_pos - 1 }))
        (λ t. refl)

  pub press-up : (s : Rl) → s.cur ≤ s.len → line (press pr hist up s) ≡ line_press hist up (line s)
  unfolding press
  press-up s h =
      line_if s.in_hist _ _ (λ t. line-older s)
        (λ t. line-older (save_line pr hist s) ∙ ap (older_line hist) (line-save_line s h))

  pub press-down : (s : Rl) → line (press pr hist down s) ≡ line_press hist down (line s)
  unfolding press
  press-down s =
      line_if s.in_hist _ _
        (λ t.
          line_if (ltb s.hist_pos (length hist)) _ _
            (λ t.
              line_if (s.hist_pos + 1 == length hist) _ _
                (λ t. λ i. record (line-show_row (slice s.tmp 0 s.tmp_len) s i) {
                  place = s.hist_pos + 1;
                  browsing = false;
                })
                (λ t. λ i. record (line-show_row (get_or hist (s.hist_pos + 1) []) s i) {
                  place = s.hist_pos + 1;
                }))
            (λ t. refl))
        (λ t. refl)
