-- ===== src/Tools/Count.antt =====
-- The programs wc, src/bin/wc/wc.c, head, src/bin/head/head.c, and echo, src/bin/echo/echo.c.
use noxis.Prelude.{ℕ, ◌+◌, Bool, true, false, List, [], ◌∷◌, ◌++◌}
use noxis.Prelude.{ltb, ◌==◌, ◌&&◌, ◌||◌, not, if◌then◌else◌}
use noxis.Paths.{Str}

-- What wc counts.
pub record Counts : Type 0 where
  pub lines : ℕ
  pub words : ℕ
  pub bytes : ℕ

abbrev pub is_space : ℕ → Bool
is_space c = c == b' ' || c == b'\t' || c == b'\n' || c == b'\r'

-- One byte, and whether the byte before it is in a word.
pub count_byte : ℕ → Bool → Counts → Bool × Counts
count_byte c in_word k =
    let more = record k {
      bytes = k.bytes + 1;
      lines = if c == b'\n' then k.lines + 1 else k.lines;
    } in
    if is_space c
    then (false, more)
    else if in_word
    then (true, more)
    else (true, record more { words = k.words + 1 })

-- The loop of `count` in wc.
pub count_from : List ℕ → Bool → Counts → Counts
count_from [] in_word k = k
count_from (c ∷ cs) in_word k = count_from cs (count_byte c in_word k).0 (count_byte c in_word k).1

-- The loop of `head`: the bytes that are written, from the lines so far on.
pub head_from : ℕ → ℕ → List ℕ → List ℕ
head_from lines n [] = []
head_from lines n (c ∷ cs) =
    let rest = head_from (if c == b'\n' then lines + 1 else lines) n cs in
    if ltb lines n then c ∷ rest else []

-- echo_str with -e.
pub echo_escaped : Str → List ℕ
echo_escaped [] = []
echo_escaped (c ∷ []) = c ∷ []
echo_escaped (c ∷ d ∷ cs) =
    let behind = echo_escaped cs in
    let onward = echo_escaped (d ∷ cs) in if c == b'\\' then escaped d ++ behind else c ∷ onward
  where
    escaped : ℕ → List ℕ
    escaped d =
        if d == b'n'
        then b'\n' ∷ []
        else if d == b't'
        then b'\t' ∷ []
        else if d == b'r'
        then b'\r' ∷ []
        else if d == b'\\'
        then b'\\' ∷ []
        else b'\\' ∷ d ∷ []

abbrev pub echo_str : Str → Bool → List ℕ
echo_str s escape = if escape then echo_escaped s else s

-- Whether the bytes behind a '-' are all flags, and whether one of them is `x`.
pub are_flags : Str → Bool
are_flags [] = true
are_flags (c ∷ cs) = if c == b'n' || c == b'e' then are_flags cs else false

pub has_flag : ℕ → Str → Bool
has_flag x [] = false
has_flag x (c ∷ cs) = c == x || has_flag x cs

-- The loop over the arguments, with a space in front of each but the first.
pub echo_args : Bool → Bool → List Str → List ℕ
echo_args escape is_first [] = []
echo_args escape is_first (a ∷ rest) =
    (if is_first then [] else b' ' ∷ []) ++ (echo_str a escape ++ echo_args escape false rest)

-- The arguments behind the program's name; flags come first.
pub echo_main : Bool → Bool → List Str → List ℕ
echo_main newline escape [] = if newline then b'\n' ∷ [] else []
echo_main newline escape ([] ∷ rest) =
    echo_args escape true ([] ∷ rest) ++ (if newline then b'\n' ∷ [] else [])
echo_main newline escape ((c ∷ f) ∷ rest) =
    let more = echo_main (newline && not (has_flag b'n' f)) (escape || has_flag b'e' f) rest in
    if c == b'-' && are_flags f
    then more
    else echo_args escape true ((c ∷ f) ∷ rest) ++ (if newline then b'\n' ∷ [] else [])
