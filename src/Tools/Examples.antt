-- ===== src/Tools/Examples.antt =====
-- Concrete runs of the user programs of src/bin.
use noxis.Prelude.{ℕ, ◌≡◌, ◌≢◌, ◌↔◌, refl, arith, true, false, List, [], ◌∷◌, get_or, All, ◌==◌}
use noxis.Paths.{Str}
use noxis.Tools.Text.{strstr, starts_with}
use noxis.Tools.Sort.{until_nul, Lines, insertion_sort}
use noxis.Tools.Sort.Order.{IsSorted, insertion_sort-IsSorted}
use noxis.Tools.Tail.Last.{WritesLast, tail-WritesLast}
use noxis.Tools.Grep.{matches_line, grep_fd}
use noxis.Tools.Grep.Selected.{IsLine, unlines, Selected, grep_fd-Selected}
use noxis.Tools.Grep.Found.{Occurs, matches_line-Occurs}

-- "b", "a" and "c"
abbrev three : Lines
three = record {
  line = λ k. get_or ((b'b' ∷ []) ∷ (b'a' ∷ []) ∷ (b'c' ∷ []) ∷ []) k [];
  nlines = 3;
}

insertion_sort-IsSorted_example : IsSorted true three (insertion_sort true three)
insertion_sort-IsSorted_example = insertion_sort-IsSorted true three

tail-WritesLast_example : WritesLast 1 (λ _. []) (b'a' ∷ b'\n' ∷ b'b' ∷ [])
tail-WritesLast_example = tail-WritesLast 1 (λ _. []) (b'a' ∷ b'\n' ∷ b'b' ∷ [])

matches_line-Occurs_run :
    (matches_line (b'a' ∷ b'b' ∷ b'c' ∷ []) (b'b' ∷ []) false ≡ true)
    ↔ Occurs (b'b' ∷ []) (b'a' ∷ b'b' ∷ b'c' ∷ [])
matches_line-Occurs_run = matches_line-Occurs (b'a' ∷ b'b' ∷ b'c' ∷ []) (b'b' ∷ [])

-- "ab", "c" and "xb", of which the first and the last have a "b".
abbrev letters : List Str
letters = (b'a' ∷ b'b' ∷ []) ∷ (b'c' ∷ []) ∷ (b'x' ∷ b'b' ∷ []) ∷ []

differs : {x y : ℕ} → (x == y) ≡ false → x ≢ y
differs {x} {y} e = ground arith

letters-IsLine : All IsLine letters
letters-IsLine = (
  record {
    fits = omega arith;
    plain = ((differs refl, differs refl), ((differs refl, differs refl), tt));
  },
  (
    record { fits = omega arith; plain = ((differs refl, differs refl), tt) },
    (
      record {
        fits = omega arith;
        plain = ((differs refl, differs refl), ((differs refl, differs refl), tt));
      },
      tt,
    ),
  ),
)

grep_fd_run :
    grep_fd (b'b' ∷ []) false true (b'f' ∷ []) [] (unlines letters)
    ≡ (b'f' ∷ b':' ∷ b'a' ∷ b'b' ∷ b'\n' ∷ b'f' ∷ b':' ∷ b'x' ∷ b'b' ∷ b'\n' ∷ [], true)
unfolding grep_fd matches_line strstr starts_with until_nul
grep_fd_run = refl

grep_fd-Selected_example :
    let r = grep_fd (b'b' ∷ []) false true (b'f' ∷ []) [] (unlines letters) in
    Selected (b'b' ∷ []) true (b'f' ∷ []) letters r.0 r.1
grep_fd-Selected_example = grep_fd-Selected (b'b' ∷ []) true (b'f' ∷ []) letters letters-IsLine
