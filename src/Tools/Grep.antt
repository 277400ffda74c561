-- ===== src/Tools/Grep.antt =====
-- The program grep, src/bin/grep/grep.c.
pub mod Found
pub mod Selected
use noxis.Prelude.{
  ℕ, zero, suc, ◌+◌, ◌-◌, Bool, true, false, Option, none, some, List, [], ◌∷◌, ◌++◌, length,
}
use noxis.Prelude.{ltb, leb, ◌==◌, ◌||◌, ◌&&◌, not, if◌then◌else◌}
use noxis.Paths.{Str}
use noxis.Tools.Text.{str_eq, starts_with, strstr}
use noxis.Tools.Sort.{until_nul}

-- _lo
abbrev pub lower : ℕ → ℕ
lower c = if leb b'A' c && leb c b'Z' then c + 32 else c

-- while (n && _lo(*h) == _lo(*p)): whether the pattern starts the line but for the case of letters.
pub starts_lower : Str → Str → Bool
starts_lower h [] = true
starts_lower [] (p ∷ ps) = false
starts_lower (x ∷ xs) (p ∷ ps) = if lower x == lower p then starts_lower xs ps else false

-- The loop over the line. An empty line is never looked at.
pub match_lower : Str → Str → Bool
match_lower [] pat = false
match_lower (x ∷ xs) pat =
    let rest = match_lower xs pat in if starts_lower (x ∷ xs) pat then true else rest

unfoldable pub matches_line : Str → Str → Bool → Bool
matches_line line pat ci =
    if ci then match_lower line pat else (elim (strstr line pat) [ some _ ↦ true | none ↦ false ])

-- What is printed for a line that matches.
abbrev pub printed : Bool → Str → Str → List ℕ
printed show_name name line =
    (if show_name then name ++ (b':' ∷ []) else []) ++ (line ++ (b'\n' ∷ []))

-- A line that is over: what is printed of it, in front of what the rest gives, and whether any matched.
abbrev pub line_end : Str → Bool → Bool → Str → List ℕ → List ℕ × Bool → List ℕ × Bool
line_end pat ci show_name name line rest =
    if matches_line (until_nul line) pat ci
    then (printed show_name name (until_nul line) ++ rest.0, true)
    else rest

-- The loop of grep_fd over the bytes, with those of `line` so far. A byte that comes when the buffer has
-- its 511 bytes ends the line and is lost.
unfoldable pub grep_fd : Str → Bool → Bool → Str → List ℕ → List ℕ → List ℕ × Bool
grep_fd pat ci show_name name line [] =
    if ltb 0 (length line) then line_end pat ci show_name name line ([], false) else ([], false)
grep_fd pat ci show_name name line (c ∷ cs) =
    let ended = grep_fd pat ci show_name name [] cs in
    let kept = grep_fd pat ci show_name name (line ++ (c ∷ [])) cs in
    if c == b'\n' || length line == 511 then line_end pat ci show_name name line ended else kept

-- The files in turn: what is printed, whether any line matched, and whether any file could not be opened.
-- The messages about those files are left out.
pub grep_files : (Str → Option (List ℕ)) → Str → Bool → Bool → List Str → List ℕ × Bool × Bool
grep_files contents pat ci show_name [] = ([], false, false)
grep_files contents pat ci show_name (f ∷ fs) =
    let (out, found, failed) = grep_files contents pat ci show_name fs in
    elim (contents f) [
      | none ↦ (out, found, true)
      | some d ↦
          let here = grep_fd pat ci show_name f [] d in (here.0 ++ out, here.1 || found, failed)
    ]

-- Behind the pattern: the files, or standard input. The number is the exit status.
pub grep_with : (Str → Option (List ℕ)) → List ℕ → Str → Bool → List Str → List ℕ × ℕ
grep_with contents input pat ci [] =
    let (out, found) = grep_fd pat ci false [] [] input in (out, if found then 0 else 1)
grep_with contents input pat ci (f ∷ fs) =
    let (out, found, failed) = grep_files contents pat ci (ltb 1 (length (f ∷ fs))) (f ∷ fs) in
    (out, if found then 0 else if failed then 2 else 1)

-- Without a pattern, the usage line is left out.
pub grep_main : (Str → Option (List ℕ)) → List ℕ → List Str → List ℕ × ℕ
grep_main contents input [] = ([], 2)
grep_main contents input (a ∷ rest) =
    if str_eq a (b'-' ∷ b'i' ∷ []) then behind rest else grep_with contents input a false rest
  where
    behind : List Str → List ℕ × ℕ
    behind [] = ([], 2)
    behind (pat ∷ files) = grep_with contents input pat true files
