-- ===== src/Noxlib/Readline/Keys.antt =====
-- The keys of readline that move the cursor or edit the line.
use noxis.Prelude.{
  ℕ, ◌+◌, ◌-◌, ◌≤◌, ◌≡◌, refl, sym, ap, ◌∙◌, true, false, List, [], ◌∷◌, ◌++◌, arith,
}
use noxis.Prelude.{update, slice, length, ltb, leb, length-slice, ltb→lt, tests, update_self}
use mathlib.Core.List.{append-nil}
use mathlib.Core.Path.{ap₂}
use noxis.Paths.{Str}
use noxis.Noxlib.Readline.{
  Rl, erase, home, line_end, kill, left, right, delete, plain, press, rl_max, shift_up, shift_down,
}
use noxis.Noxlib.Readline.Moves.{inserted_before, inserted_after, removed_before, removed_after}
use noxis.Noxlib.Readline.Lines.{
  Line, line, init, last, head, tail, line_press, init-before, prefix, split_at, none_after,
  first_after, last_before, line_if, line_either,
}

module _ (pr : Str) (hist : List Str) (s : Rl) (fits : s.cur ≤ s.len) where
  open s use {buf, len, cur}

  abbrev line_with : Str → Str → Line
  line_with b a = record (line s) { before = b; after = a }

  pub press-plain : (c : ℕ) → line (press pr hist (plain c) s) ≡ line_press hist (plain c) (line s)
  unfolding press
  press-plain c = rw filled (
      line_if (leb 32 c) _ _
        (λ t.
          line_if (ltb len (rl_max - 1)) _ _
            (λ t. λ i. record (line_with (grown i) (moved i)) { browsing = false }) (λ t. refl))
        (λ t. refl))
    where
      filled : length (slice buf 0 cur) + length (slice buf cur (len - cur)) ≡ len
      filled = omega (arith, length-slice buf 0 cur, length-slice buf cur (len - cur))

      total : len ≡ cur + (len - cur)
      total = omega arith

      count : len + 1 - (cur + 1) ≡ len - cur
      count = omega arith

      grow : ℕ → ℕ → ℕ
      grow k = update (shift_up (len - cur) k buf) cur c

      grown :
          slice (update (shift_up (len - cur) len buf) cur c) 0 (cur + 1)
          ≡ slice buf 0 cur ++ c ∷ []
      grown =
          prefix (grow len) cur 1
          ∙ ap₂ ◌++◌ (ap (λ k. slice (grow k) 0 cur) total ∙ inserted_before buf cur (len - cur) c)
              (ap (λ v. v ∷ []) (update_self (shift_up (len - cur) len buf) cur c))

      moved :
          slice (update (shift_up (len - cur) len buf) cur c) (cur + 1) (len + 1 - (cur + 1))
          ≡ slice buf cur (len - cur)
      moved =
          ap (λ k. slice (grow k) (cur + 1) (len + 1 - (cur + 1))) total
          ∙ ap (slice (grow (cur + (len - cur))) (cur + 1)) count
          ∙ inserted_after buf cur (len - cur) c

  pub press-erase : line (press pr hist erase s) ≡ line_press hist erase (line s)
  unfolding press
  press-erase =
      line_either (ltb 0 cur) _ _ (λ t. λ i. line_with (before_gone t i) (after_gone t i))
        (λ t. λ i. line_with (in_front t i) (slice buf cur (len - cur)))
    where
      gone : ℕ → ℕ
      gone = shift_down (len - cur) (cur - 1) buf

      before_gone : ltb 0 cur ≡ true → slice gone 0 (cur - 1) ≡ init (slice buf 0 cur)
      before_gone t = removed_before buf (cur - 1) (len - cur) ∙ sym (init-before buf cur)

      after_gone :
          ltb 0 cur ≡ true → slice gone (cur - 1) (len - 1 - (cur - 1)) ≡ slice buf cur (len - cur)
      after_gone t =
          let count : len - 1 - (cur - 1) ≡ len - cur = omega tests in
          let next : cur - 1 + 1 ≡ cur = omega tests in
          ap (slice gone (cur - 1)) count
          ∙ removed_after buf (cur - 1) (len - cur)
          ∙ ap (λ k. slice buf k (len - cur)) next

      in_front : ltb 0 cur ≡ false → slice buf 0 cur ≡ init (slice buf 0 cur)
      in_front t =
          let zero_cur : cur ≡ cur - 1 = ground arith in
          ap (slice buf 0) zero_cur ∙ sym (init-before buf cur)

  pub press-home : line (press pr hist home s) ≡ line_press hist home (line s)
  unfolding press
  press-home =
      let all : len - 0 ≡ len = omega arith in
      let split : slice buf 0 (len - 0) ≡ slice buf 0 cur ++ slice buf cur (len - cur) =
        ap (slice buf 0) all ∙ split_at buf cur len fits in
      λ i. line_with [] (split i)

  pub press-line_end : line (press pr hist line_end s) ≡ line_press hist line_end (line s)
  unfolding press
  press-line_end =
      λ i. line_with (split_at buf cur len fits i) (none_after buf len len len (omega arith) i)

  pub press-kill : line (press pr hist kill s) ≡ line_press hist kill (line s)
  unfolding press
  press-kill = λ i. line_with (slice buf 0 cur) (none_after buf cur cur cur (omega arith) i)

  pub press-left : line (press pr hist left s) ≡ line_press hist left (line s)
  unfolding press
  press-left =
      line_either (ltb 0 cur) _ _
        (λ t. λ i.
          line_with (sym (init-before buf cur) i)
            (sym (last_before buf cur len (ltb→lt _ _ t) fits) i))
        (λ t. λ i. line_with (shorter t i) (longer t i))
    where
      front : ltb 0 cur ≡ false → cur ≡ 0
      front t = ground arith

      shorter : ltb 0 cur ≡ false → slice buf 0 cur ≡ init (slice buf 0 cur)
      shorter t = ap (slice buf 0) (front t) ∙ sym (ap (λ k. init (slice buf 0 k)) (front t))

      longer :
          ltb 0 cur ≡ false
          → slice buf cur (len - cur) ≡ last (slice buf 0 cur) ++ slice buf cur (len - cur)
      longer t = sym (ap (λ k. last (slice buf 0 k) ++ slice buf cur (len - cur)) (front t))

  pub press-right : line (press pr hist right s) ≡ line_press hist right (line s)
  unfolding press
  press-right =
      line_either (ltb cur len) _ _ (λ t. λ i. line_with (taken t i) (left_over t i))
        (λ t. λ i. line_with (same t i) (empty t i))
    where
      taken :
          ltb cur len ≡ true
          → slice buf 0 (cur + 1) ≡ slice buf 0 cur ++ head (slice buf cur (len - cur))
      taken t =
          prefix buf cur 1
          ∙ ap (λ l. slice buf 0 cur ++ head l) (sym (first_after buf cur len (ltb→lt _ _ t)))

      left_over :
          ltb cur len ≡ true
          → slice buf (cur + 1) (len - (cur + 1)) ≡ tail (slice buf cur (len - cur))
      left_over t =
          ap (slice buf (cur + 1)) (omega arith)
          ∙ ap tail (sym (first_after buf cur len (ltb→lt _ _ t)))

      none_left : ltb cur len ≡ false → slice buf cur (len - cur) ≡ []
      none_left t = none_after buf cur len cur (ground arith)

      same :
          ltb cur len ≡ false
          → slice buf 0 cur ≡ slice buf 0 cur ++ head (slice buf cur (len - cur))
      same t =
          sym (ap (λ l. slice buf 0 cur ++ head l) (none_left t) ∙ append-nil (slice buf 0 cur))

      empty : ltb cur len ≡ false → slice buf cur (len - cur) ≡ tail (slice buf cur (len - cur))
      empty t = none_left t ∙ ap tail (sym (none_left t))

  pub press-delete : line (press pr hist delete s) ≡ line_press hist delete (line s)
  unfolding press
  press-delete =
      line_either (ltb cur len) _ _
        (λ t. λ i. line_with (removed_before buf cur (len - 1 - cur) i) (closed t i))
        (λ t. λ i. line_with (slice buf 0 cur) (empty t i))
    where
      closed :
          ltb cur len ≡ true
          → slice (shift_down (len - 1 - cur) cur buf) cur (len - 1 - cur)
            ≡ tail (slice buf cur (len - cur))
      closed t =
          removed_after buf cur (len - 1 - cur)
          ∙ ap tail (sym (first_after buf cur len (ltb→lt _ _ t)))

      none_left : ltb cur len ≡ false → slice buf cur (len - cur) ≡ []
      none_left t = none_after buf cur len cur (ground arith)

      empty : ltb cur len ≡ false → slice buf cur (len - cur) ≡ tail (slice buf cur (len - cur))
      empty t = none_left t ∙ ap tail (sym (none_left t))
