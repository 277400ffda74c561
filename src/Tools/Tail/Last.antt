-- ===== src/Tools/Tail/Last.antt =====
-- About what tail writes, in src/bin/tail/tail.c.
use noxis.Prelude.{
  ℕ, zero, suc, ◌+◌, ◌-◌, ◌%◌, ◌≤◌, ◌<◌, ◌≡◌, refl, sym, ap, ◌∙◌, ◌⊎◌, inl, inr, arith, Bool, true,
  false, List, [], ◌∷◌, ◌++◌, length,
}
use noxis.Prelude.{ltb, ltb→lt, ◌==◌, Bool-cases, update, if◌then◌else◌}
use noxis.Prelude.Ring.{window, length-window, window-append, mod_once, next-lt}
use native.Mathlib.Nat.{mod-add-mod, mod-eq_of_lt, add-mod_right}
use mathlib.Core.Path.{subst}
use mathlib.Core.List.{append_assoc, append-nil}
use noxis.Paths.{Str}
use noxis.Tools.Tail.{Ring, tail_line_max, commit, feed, write_lines, clamp, oldest, tail}

-- The lines of a text, of at most 511 bytes, without carriage returns.
pub lines_of : List ℕ → List ℕ → List Str
lines_of line [] = if ltb 0 (length line) then line ∷ [] else []
lines_of line (c ∷ cs) =
    let skipped = lines_of line cs in
    let ended = lines_of [] cs in
    let kept = lines_of (line ++ (c ∷ [])) cs in
    if c == b'\r'
    then skipped
    else if c == b'\n'
    then line ∷ ended
    else if ltb (length line) (tail_line_max - 1)
    then kept
    else skipped

-- Each line with its end.
pub unlines : List Str → List ℕ
unlines [] = []
unlines (l ∷ ls) = l ++ (b'\n' ∷ unlines ls)

-- The ring has the last lines of those so far.
record HasLast (n : ℕ) (r : Ring) (lines : List Str) : Type 0 where
  start : ℕ
  older : List Str
  start_in : start < n
  head_at : r.head ≡ (start + r.count) % n
  count_le : r.count ≤ n
  suffix : lines ≡ older ++ window n r.slot start r.count
  all_kept : (older ≡ []) ⊎ (r.count ≡ n)

commit_room : (n : ℕ) (line : Str) (r : Ring) → r.count < n → (commit n line r).count ≡ suc r.count
commit_room n line r h = ground (arith, h)

commit_full : (n : ℕ) (line : Str) (r : Ring) → r.count ≡ n → (commit n line r).count ≡ n
commit_full n line r h = ground (arith, h)

onward : (n a h : ℕ) → h ≡ a % n → (h + 1) % n ≡ (a + 1) % n
onward n a h e = ap (λ k. (k + 1) % n) e ∙ mod-add-mod a n 1

-- A ring with room takes a line behind the others.
commit_behind :
    (n : ℕ) (line : Str) (r : Ring) (lines : List Str)
    → HasLast n r lines
    → r.count < n
    → HasLast n (commit n line r) (lines ++ (line ∷ []))
commit_behind n line r lines v room =
    let grown = commit_room n line r room in
    let nothing : v.older ≡ [] = elim v.all_kept [
      | inl e ↦ e
      | inr e ↦ absurd (omega (arith, e, room))
    ] in
    record {
      start = v.start;
      older = v.older;
      start_in = v.start_in;
      head_at =
          onward n (v.start + r.count) r.head v.head_at ∙ ap (λ k. k % n) (omega (arith, grown));
      count_le = omega (arith, grown, room);
      suffix =
          ap (λ xs. xs ++ (line ∷ [])) v.suffix
          ∙ append_assoc v.older _ _
          ∙ ap (λ xs. v.older ++ xs)
              (sym (window-append n r.slot r.count v.start r.head line v.start_in room v.head_at)
                ∙ ap (window n (update r.slot r.head line) v.start) (sym grown));
      all_kept = inl nothing;
    }

-- A full ring has its oldest line at the head; the new line takes its place.
full_head : (n start head : ℕ) → start < n → head ≡ (start + n) % n → head ≡ start
full_head n start head h e = e ∙ add-mod_right start n ∙ mod-eq_of_lt h

round : (n m start : ℕ) → n ≡ suc m → start < n → start ≡ ((start + 1) % n + m) % n
round n m start e h = sym (
    mod-add-mod (start + 1) n m
    ∙ ap (λ k. k % n) {x = start + 1 + m} {y = start + n} (omega (arith, e))
    ∙ add-mod_right start n
    ∙ mod-eq_of_lt h)

commit_over :
    (n m : ℕ) (line : Str) (r : Ring) (lines : List Str)
    → HasLast n r lines
    → n ≡ suc m
    → r.count ≡ n
    → HasLast n (commit n line r) (lines ++ (line ∷ []))
commit_over n m line r lines v e full =
    let same =
      full_head n v.start r.head v.start_in (v.head_at ∙ ap (λ k. (v.start + k) % n) full) in
    let kept = commit_full n line r full in
    let at_head : r.head ≡ ((v.start + 1) % n + m) % n = same ∙ round n m v.start e v.start_in in
    let size = full ∙ e in
    record {
      start = (v.start + 1) % n;
      older = v.older ++ (r.slot v.start ∷ []);
      start_in = next-lt n v.start v.start_in;
      head_at =
          ap (λ k. (k + 1) % n) same
          ∙ sym (add-mod_right ((v.start + 1) % n) n ∙ mod-eq_of_lt (next-lt n v.start v.start_in))
          ∙ ap (λ k. ((v.start + 1) % n + k) % n) (sym kept);
      count_le = omega (arith, kept);
      suffix =
          ap (λ xs. xs ++ (line ∷ []))
            (v.suffix ∙ ap (λ k. v.older ++ window n r.slot v.start k) size)
          ∙ append_assoc v.older _ _
          ∙ ap (λ xs. v.older ++ (r.slot v.start ∷ xs))
              (sym (
                  window-append n r.slot m ((v.start + 1) % n) r.head line
                    (next-lt n v.start v.start_in) (omega (arith, e)) at_head)
                ∙ ap (window n (update r.slot r.head line) ((v.start + 1) % n)) (sym (kept ∙ e)))
          ∙ sym (append_assoc v.older (r.slot v.start ∷ []) _);
      all_kept = inr kept;
    }

commit-HasLast :
    (n m : ℕ) (line : Str) (r : Ring) (lines : List Str)
    → n ≡ suc m
    → HasLast n r lines
    → HasLast n (commit n line r) (lines ++ (line ∷ []))
commit-HasLast n m line r lines e v = elim (Bool-cases (ltb r.count n)) [
  | inl t ↦ commit_behind n line r lines v (ltb→lt r.count n t)
  | inr t ↦ commit_over n m line r lines v e (ground (arith, t, v.count_le))
]

-- A test that the loop and the list of lines share.
pick :
    (n : ℕ) (lines : List Str) (b : Bool) (r q : Ring) (xs ys : List Str)
    → HasLast n r (lines ++ xs)
    → HasLast n q (lines ++ ys)
    → HasLast n (if b then r else q) (lines ++ (if b then xs else ys))
pick n lines true r q xs ys h g = h
pick n lines false r q xs ys h g = g

feed-HasLast :
    (n m : ℕ) (input line : List ℕ) (r : Ring) (lines : List Str)
    → n ≡ suc m
    → HasLast n r lines
    → HasLast n (feed n input line r) (lines ++ lines_of line input)
unfolding feed lines_of
feed-HasLast n m [] line r lines e v =
    pick n lines (ltb 0 (length line)) (commit n line r) r (line ∷ []) []
      (commit-HasLast n m line r lines e v) (subst (HasLast n r) (sym (append-nil lines)) v)
feed-HasLast n m (c ∷ cs) line r lines e v =
    let skipped = feed-HasLast n m cs line r lines e v in
    let behind =
      feed-HasLast n m cs [] (commit n line r) (lines ++ (line ∷ [])) e
        (commit-HasLast n m line r lines e v) in
    let ended =
      subst (HasLast n (feed n cs [] (commit n line r)))
        (append_assoc lines (line ∷ []) (lines_of [] cs)) behind in
    let kept = feed-HasLast n m cs (line ++ (c ∷ [])) r lines e v in
    pick n lines (c == b'\r') _ _ _ _ skipped (
      pick n lines (c == b'\n') _ _ _ _ ended
        (pick n lines (ltb (length line) (tail_line_max - 1)) _ _ _ _ kept skipped))

oldest-start : (n : ℕ) (r : Ring) (lines : List Str) (v : HasLast n r lines) → oldest n r ≡ v.start
oldest-start n r lines v =
    elim (mod_once n (v.start + r.count) (omega (arith, v.start_in, v.count_le))) [
      | inl (h, e) ↦
          let back : r.head + n - r.count ≡ v.start + n = omega (arith, v.head_at, e) in
          ap (λ k. k % n) back ∙ add-mod_right v.start n ∙ mod-eq_of_lt v.start_in
      | inr (h, e) ↦
          let back : r.head + n - r.count ≡ v.start = omega (arith, v.head_at, e) in
          ap (λ k. k % n) back ∙ mod-eq_of_lt v.start_in
    ]

-- The bytes that are written are those of the ring's lines.
write_lines-window :
    (k i start n : ℕ) (slot : ℕ → Str)
    → write_lines k i start n slot ≡ unlines (window n slot ((start + i) % n) k)
unfolding write_lines unlines
write_lines-window zero i start n slot = refl
write_lines-window (suc k) i start n slot =
    ap (λ w. slot ((start + i) % n) ++ (b'\n' ∷ w))
      (write_lines-window k (i + 1) start n slot
        ∙ ap (λ z. unlines (window n slot z k))
            (ap (λ z. z % n) {x = start + (i + 1)} {y = start + i + 1} (omega arith)
              ∙ sym (mod-add-mod (start + i) n 1)))

-- What is written: the last lines, as many as `n` tells, or all if there are fewer.
pub record WritesLast (n : ℕ) (slot : ℕ → Str) (input : List ℕ) : Type 0 where
  pub before : List Str
  pub last : List Str
  pub all_lines : lines_of [] input ≡ before ++ last
  pub how_many : (before ≡ []) ⊎ (length last ≡ clamp n)
  pub at_most : length last ≤ clamp n
  pub written : tail n slot input ≡ unlines last

clamp-suc : (n : ℕ) → clamp n ≡ suc (clamp n - 1)
clamp-suc n = ground arith

empty-HasLast :
    (n : ℕ) (slot : ℕ → Str) → 0 < n → HasLast n (record { slot = slot; head = 0; count = 0 }) []
empty-HasLast n slot h = record {
  start = 0;
  older = [];
  start_in = h;
  head_at = sym (mod-eq_of_lt h);
  count_le = omega arith;
  suffix = refl;
  all_kept = inl refl;
}

-- tail writes the last lines of its input, in their order and each with its end: as many as its count
-- tells, 100 for a count of 0 or of more than 100, or all of them if there are fewer. The lines are those
-- of the input without carriage returns, cut at 511 bytes, with a last line without its end.
pub tail-WritesLast : (n : ℕ) (slot : ℕ → Str) (input : List ℕ) → WritesLast n slot input
unfolding tail
tail-WritesLast n slot input =
    let v =
      feed-HasLast (clamp n) (clamp n - 1) input [] (record { slot = slot; head = 0; count = 0 }) []
        (clamp-suc n) (empty-HasLast (clamp n) slot (omega (arith, clamp-suc n))) in
    let r = feed (clamp n) input [] (record { slot = slot; head = 0; count = 0 }) in
    let last = window (clamp n) r.slot v.start r.count in
    let size = length-window (clamp n) r.slot v.start r.count in
    record {
      before = v.older;
      last = last;
      all_lines = v.suffix;
      how_many = elim v.all_kept [ inl e ↦ inl e | inr e ↦ inr (size ∙ e) ];
      at_most = omega (arith, size, v.count_le);
      written =
          write_lines-window r.count 0 (oldest (clamp n) r) (clamp n) r.slot
          ∙ ap (λ z. unlines (window (clamp n) r.slot z r.count))
              (ap (λ z. (z + 0) % clamp n) (oldest-start (clamp n) r _ v)
                ∙ at_zero v.start (clamp n) v.start_in);
    }
  where
    at_zero : (a n : ℕ) → a < n → (a + 0) % n ≡ a
    at_zero a n h = ap (λ z. z % n) (omega arith) ∙ mod-eq_of_lt h
