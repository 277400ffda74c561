-- ===== src/Tools/Grep/Selected.antt =====
-- About the lines that grep_fd of src/bin/grep/grep.c prints.
use noxis.Prelude.{
  ℕ, ◌+◌, ◌≤◌, ◌≡◌, ◌≢◌, refl, sym, ap, ◌∙◌, inl, inr, arith, Bool, true, false, List, [], ◌∷◌,
  ◌++◌, length, length-append, All,
}
use noxis.Prelude.{==-ne, Bool-cases, if◌then◌else◌}
use mathlib.Core.Bool.{true≢false}
use mathlib.Core.List.{append-nil, append_assoc}
use noxis.Paths.{Str}
use noxis.Tools.Sort.{until_nul}
use noxis.Tools.Grep.{matches_line, line_end, grep_fd}
use noxis.Tools.Grep.Found.{Occurs, matches_line-Occurs}

-- A line that fits the buffer: at most 511 bytes, none of them a NUL or a newline.
pub record IsLine (l : Str) : Type 0 where
  pub fits : length l ≤ 511
  pub plain : All (λ c. (c ≢ 0) × (c ≢ b'\n')) l

-- Each line with its newline.
abbrev pub unlines : List Str → List ℕ
unlines [] = []
unlines (l ∷ ls) = l ++ (b'\n' ∷ unlines ls)

-- `Selected ls out found`: `out` has the lines with the pattern, in order, each behind the name and a
-- colon if names are shown, and `found` tells whether there are any.
pub data Selected (pat : Str) (show_name : Bool) (name : Str)
    : List Str → List ℕ → Bool → Type 0 where
  no_lines : Selected pat show_name name [] [] false
  taken :
      {l : Str} {ls : List Str} {out : List ℕ} {found : Bool}
      → Occurs pat l
      → Selected pat show_name name ls out found
      → Selected pat show_name name
          (l ∷ ls)
          (((if show_name then name ++ (b':' ∷ []) else []) ++ (l ++ (b'\n' ∷ []))) ++ out)
          true
  passed :
      {l : Str} {ls : List Str} {out : List ℕ} {found : Bool}
      → ¬ Occurs pat l
      → Selected pat show_name name ls out found
      → Selected pat show_name name (l ∷ ls) out found

until_nul_lem : (l : Str) → All (λ c. (c ≢ 0) × (c ≢ b'\n')) l → until_nul l ≡ l
unfolding until_nul
until_nul_lem [] a = refl
until_nul_lem (c ∷ cs) a = rw (==-ne c 0 a.0.0) (ap (λ z. c ∷ z) (until_nul_lem cs a.1))

module _ (pat : Str) (show_name : Bool) (name : Str) where
  -- The bytes of a line go into the buffer, and its newline ends it.
  read_line :
      (acc l : Str) (rest : List ℕ)
      → length acc + length l ≤ 511
      → All (λ c. (c ≢ 0) × (c ≢ b'\n')) l
      → grep_fd pat false show_name name acc (l ++ (b'\n' ∷ rest))
        ≡ line_end pat false show_name name (acc ++ l) (grep_fd pat false show_name name [] rest)
  unfolding grep_fd
  read_line acc [] rest h a =
      ap (λ z. line_end pat false show_name name z (grep_fd pat false show_name name [] rest))
        (sym (append-nil acc))
  read_line acc (c ∷ cs) rest h a =
      let longer = length-append acc (c ∷ []) in
      rw (==-ne c b'\n' a.0.1, ==-ne (length acc) 511 (omega (arith, h)), grep_fd)
        (read_line (acc ++ (c ∷ [])) cs rest (omega (arith, h, longer)) a.1
          ∙ ap (λ z. line_end pat false show_name name z (grep_fd pat false show_name name [] rest))
              (append_assoc acc (c ∷ []) cs))

  -- Without -i, on lines of at most 511 bytes without NUL, each ended by a newline, grep_fd prints exactly
  -- the lines in which the pattern stands somewhere, in order, each with a newline, and behind the name of
  -- the file and a colon if names are shown; it tells whether there was any.
  pub grep_fd-Selected :
      (ls : List Str)
      → All IsLine ls
      → let r = grep_fd pat false show_name name [] (unlines ls) in
        Selected pat show_name name ls r.0 r.1
  unfolding grep_fd
  grep_fd-Selected [] a = no_lines
  grep_fd-Selected (l ∷ ls) a =
      let rest = grep_fd-Selected ls a.1 in
      let read = read_line [] l (unlines ls) (omega (arith, a.0.fits)) a.0.plain in
      let whole = until_nul_lem l a.0.plain in
      rw read (elim (Bool-cases (matches_line l pat false)) [
        | inl t ↦ rw (whole, t) (taken ((matches_line-Occurs l pat).0 t) rest)
        | inr t ↦
            rw (whole, t)
              (passed (λ o. absurd (true≢false (sym ((matches_line-Occurs l pat).1 o) ∙ t))) rest)
      ])
