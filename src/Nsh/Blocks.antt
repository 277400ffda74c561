-- ===== src/Nsh/Blocks.antt =====
-- find_end and find_done on nested blocks, and where collect_block misses the end of one.
use noxis.Prelude.{ℕ, ◌+◌, ◌-◌, ◌≡◌, refl, ap, ◌∙◌, Bool, true, false, List, [], ◌∷◌, ◌++◌, arith}
use mathlib.Core.List.{append_assoc}
use noxis.Prelude.{◌||◌, ==-ne, length, length-append}
use noxis.Paths.{Str}
use noxis.Nsh.{is_kw, find_close, find_end, find_done, kw_while, kw_for, kw_done}

-- Lines in which every block that is opened is closed.
pub data Nested (opens closes : Str → Bool) : List Str → Type 0 where
  nothing : Nested opens closes []
  plain :
      {l : Str} {ls : List Str}
      → opens l ≡ false
      → closes l ≡ false
      → Nested opens closes ls
      → Nested opens closes (l ∷ ls)
  block :
      {l m : Str} {body ls all : List Str}
      → opens l ≡ true
      → Nested opens closes body
      → opens m ≡ false
      → closes m ≡ true
      → Nested opens closes ls
      → all ≡ l ∷ body ++ m ∷ ls
      → Nested opens closes all

module _ (opens closes : Str → Bool) where
  open_round :
      (l : Str) (ls : List Str) (i d : ℕ)
      → opens l ≡ true
      → find_close opens closes (l ∷ ls) i d ≡ find_close opens closes ls (i + 1) (d + 1)
  unfolding find_close
  open_round l ls i d o = rw (o, find_close)

  close_round :
      (m : Str) (ls : List Str) (i d : ℕ)
      → opens m ≡ false
      → closes m ≡ true
      → find_close opens closes (m ∷ ls) i (d + 1) ≡ find_close opens closes ls (i + 1) d
  unfolding find_close
  close_round m ls i d o c =
      let deep : d + 1 - 1 ≡ d = omega arith in
      rw (o, find_close)
        (rw c (rw (==-ne (d + 1) 0 (omega arith)) (ap (find_close opens closes ls (i + 1)) deep)))

  -- Nested lines are passed at any depth.
  find_close-Nested :
      {ls : List Str} (rest : List Str) (i depth : ℕ)
      → Nested opens closes ls
      → find_close opens closes (ls ++ rest) i depth
        ≡ find_close opens closes rest (i + length ls) depth
  unfolding find_close
  find_close-Nested rest i depth nothing =
      ap (λ k. find_close opens closes rest k depth) (omega arith)
  find_close-Nested rest i depth (plain {l = l} {ls = ls} o c n) =
      rw (o, find_close)
        (rw c (
          find_close-Nested rest (i + 1) depth n
          ∙ ap (λ k. find_close opens closes rest k depth) (omega arith)))
  find_close-Nested rest i depth
        (block {l = l} {m = m} {body = body} {ls = ls} {all = all} o b p c n e) =
      let size : i + 1 + length body + 1 + length ls ≡ i + length all =
        omega (arith, ap length e, length-append (l ∷ body) (m ∷ ls)) in
      ap (λ a. find_close opens closes (a ++ rest) i depth) e
      ∙ ap (λ a. find_close opens closes (l ∷ a) i depth) (append_assoc body (m ∷ ls) rest)
      ∙ open_round l (body ++ m ∷ (ls ++ rest)) i depth o
      ∙ find_close-Nested (m ∷ (ls ++ rest)) (i + 1) (depth + 1) b
      ∙ close_round m (ls ++ rest) (i + 1 + length body) depth p c
      ∙ find_close-Nested rest (i + 1 + length body + 1) depth n
      ∙ ap (λ k. find_close opens closes rest k depth) size

  -- The line that closes the block around nested lines is found.
  find_close_lem :
      {ls : List Str} (m : Str) (rest : List Str) (i : ℕ)
      → Nested opens closes ls
      → opens m ≡ false
      → closes m ≡ true
      → find_close opens closes (ls ++ m ∷ rest) i 0 ≡ i + length ls
  unfolding find_close
  find_close_lem m rest i n o c =
      find_close-Nested (m ∷ rest) i 0 n ∙ rw (o, find_close) (rw c refl)

-- find_end finds the line that closes the block it is called in: behind lines in which every block of
-- the keyword is closed, the first line with the closing keyword.
pub find_end-closes :
    (open_kw close_kw : Str) {ls : List Str} (m : Str) (rest : List Str) (from : ℕ)
    → Nested (λ l. is_kw l open_kw) (λ l. is_kw l close_kw) ls
    → is_kw m open_kw ≡ false
    → is_kw m close_kw ≡ true
    → find_end (ls ++ m ∷ rest) from open_kw close_kw ≡ from + length ls
unfolding find_end
find_end-closes open_kw close_kw m rest from n o c =
    find_close_lem (λ l. is_kw l open_kw) (λ l. is_kw l close_kw) m rest from n o c

pub find_done-closes :
    {ls : List Str} (m : Str) (rest : List Str) (from : ℕ)
    → Nested (λ l. is_kw l kw_while || is_kw l kw_for) (λ l. is_kw l kw_done) ls
    → is_kw m kw_while || is_kw m kw_for ≡ false
    → is_kw m kw_done ≡ true
    → find_done (ls ++ m ∷ rest) from ≡ from + length ls
unfolding find_done
find_done-closes m rest from n o c =
    find_close_lem (λ l. is_kw l kw_while || is_kw l kw_for) (λ l. is_kw l kw_done) m rest from n o
      c
