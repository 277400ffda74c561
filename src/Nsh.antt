-- ===== src/Nsh.antt =====
-- The reading side of the shell, src/bin/nsh/nsh.c: the words of a command line with its redirections,
-- the keywords of a script and where its blocks end and are collected. A line is the bytes of
-- its string, a script the list of its lines; what commands do is not modelled.
pub mod Words
pub mod Blocks
mod Examples
use noxis.Prelude.{
  ℕ, zero, suc, ◌+◌, ◌-◌, Bool, true, false, List, [], ◌∷◌, ◌++◌, Option, none, some,
}
use noxis.Prelude.{ltb, leb, ◌==◌, ◌||◌, ◌&&◌, if◌then◌else◌, get_or, drop, length}
use noxis.Paths.{Str}
use noxis.Tools.Text.{str_eq}

abbrev pub max_args : ℕ
max_args = 32

abbrev pub is_blank : ℕ → Bool
is_blank c = c == b' ' || c == 9

-- _trim
pub trim : Str → Str
trim [] = []
trim (c ∷ cs) = if is_blank c then trim cs else c ∷ cs

-- strncmp(a, b, n) == 0
pub strncmp_eq : ℕ → Str → Str → Bool
strncmp_eq zero a b = true
strncmp_eq (suc n) [] [] = true
strncmp_eq (suc n) [] (y ∷ ys) = false
strncmp_eq (suc n) (x ∷ xs) [] = false
strncmp_eq (suc n) (x ∷ xs) (y ∷ ys) = if x == y then strncmp_eq n xs ys else false

-- !next || next == ' ' || next == '\t' || next == ';'
abbrev pub ends_word : ℕ → Bool
ends_word c = c == 0 || c == b' ' || c == 9 || c == b';'

pub is_kw : Str → Str → Bool
is_kw line kw =
    strncmp_eq (length kw) (trim line) kw && ends_word (get_or (trim line) (length kw) 0)

-- while (*t && *t != ';' && n < outsz - 1) out[n++] = *t++
pub copy_part : ℕ → Str → Str
copy_part zero t = []
copy_part (suc n) [] = []
copy_part (suc n) (c ∷ cs) = elim (c == b';') [ true ↦ [] | false ↦ c ∷ copy_part n cs ]

-- while (n > 0 && (out[n-1] == ' ' || out[n-1] == '\t')) n--
pub trim_end : Str → Str
trim_end [] = []
trim_end (c ∷ cs) = elim (trim_end cs) [
  | [] ↦ if is_blank c then [] else c ∷ []
  | d ∷ ds ↦ c ∷ d ∷ ds
]

pub after_kw : Str → Str → ℕ → Str
unfolding copy_part
after_kw line kw outsz = trim_end (copy_part (outsz - 1) (trim (drop (length kw) (trim line))))

-- The loop of find_end and find_done over the lines from `i` on: the line that closes at depth 0, or
-- the end.
pub find_close : (Str → Bool) → (Str → Bool) → List Str → ℕ → ℕ → ℕ
find_close opens closes [] i depth = i
find_close opens closes (l ∷ ls) i depth = elim (opens l) [
  | true ↦ find_close opens closes ls (i + 1) (depth + 1)
  | false ↦ elim (closes l) [
    | true ↦ elim (depth == 0) [ true ↦ i | false ↦ find_close opens closes ls (i + 1) (depth - 1) ]
    | false ↦ find_close opens closes ls (i + 1) depth
  ]
]

-- find_end(from, end, open_kw, close_kw), with the lines from `from` to `end`
pub find_end : List Str → ℕ → Str → Str → ℕ
unfolding find_close
find_end lines from open_kw close_kw =
    find_close (λ l. is_kw l open_kw) (λ l. is_kw l close_kw) lines from 0

abbrev pub kw_if : Str
kw_if = b'i' ∷ b'f' ∷ []

abbrev pub kw_fi : Str
kw_fi = b'f' ∷ b'i' ∷ []

abbrev pub kw_while : Str
kw_while = b'w' ∷ b'h' ∷ b'i' ∷ b'l' ∷ b'e' ∷ []

abbrev pub kw_for : Str
kw_for = b'f' ∷ b'o' ∷ b'r' ∷ []

abbrev pub kw_done : Str
kw_done = b'd' ∷ b'o' ∷ b'n' ∷ b'e' ∷ []

pub find_done : List Str → ℕ → ℕ
unfolding find_close
find_done lines from =
    find_close (λ l. is_kw l kw_while || is_kw l kw_for) (λ l. is_kw l kw_done) lines from 0

-- The words of a command, the files of its redirections, and whether the output is appended.
pub record Command : Type 0 where
  pub argv : List Str
  pub inf : Option Str
  pub outf : Option Str
  pub app : Bool

pub skip_spaces : Str → Str
skip_spaces [] = []
skip_spaces (c ∷ cs) = if c == b' ' then skip_spaces cs else c ∷ cs

-- while (*p && *p != ' ') p++; if (*p) *p++ = 0: the word, and what follows its space.
pub word : Str → Str × Str
word [] = ([], [])
word (c ∷ cs) = if c == b' ' then ([], cs) else (c ∷ (word cs).0, (word cs).1)

abbrev pub in_mark : Str
in_mark = b'<' ∷ []

abbrev pub out_mark : Str
out_mark = b'>' ∷ []

abbrev pub add_mark : Str
add_mark = b'>' ∷ b'>' ∷ []

-- One token, and what the round leaves of the line.
pub take_token : Str → Command → Command × Str
unfolding skip_spaces word
take_token t c =
    let tok = (word t).0 in
    let rest = (word t).1 in
    let file = word (skip_spaces rest) in
    if str_eq tok in_mark
    then (record c { inf = some file.0 }, file.1)
    else if str_eq tok out_mark || str_eq tok add_mark
    then (record c { outf = some file.0; app = get_or tok 1 0 == b'>' }, file.1)
    else (record c { argv = c.argv ++ tok ∷ [] }, rest)

-- while (*p && n < MAX_ARGS - 1), with at most one round for each byte.
pub parse_from : ℕ → Str → Command → Command
parse_from zero line c = c
parse_from (suc n) [] c = c
parse_from (suc n) (x ∷ xs) c = elim (ltb (length c.argv) (max_args - 1)) [
  | false ↦ c
  | true ↦ elim (skip_spaces (x ∷ xs)) [
    | [] ↦ c
    | y ∷ ys ↦ parse_from n (take_token (y ∷ ys) c).1 (take_token (y ∷ ys) c).0
  ]
]

abbrev pub no_command : Command
no_command = record { argv = []; inf = none; outf = none; app = false }

pub parse : Str → Command
unfolding parse_from take_token
parse line = parse_from (length line) line no_command

-- The state of collect_block behind a line: how deep the blocks are nested, or `none` where it stops.
abbrev pub opens_block : Str → Bool
opens_block l = is_kw l kw_if || is_kw l kw_while || is_kw l kw_for

abbrev pub close_of : Str → Str
close_of first = if is_kw first kw_if then kw_fi else kw_done

pub collect_depth : Str → Str → ℕ → Option ℕ
collect_depth close_kw got depth =
    let d = if opens_block (trim got) then depth + 1 else depth in
    if is_kw (trim got) close_kw then (if d == 0 then none else some (d - 1)) else some d

-- The lines that collect_block stores behind the first, from those that next_line gives.
pub collect_from : Str → ℕ → List Str → List Str
collect_from close_kw depth [] = []
collect_from close_kw depth (l ∷ ls) = elim (collect_depth close_kw l depth) [
  | none ↦ l ∷ []
  | some d ↦ l ∷ collect_from close_kw d ls
]

pub collect_block : Str → List Str → List Str
unfolding collect_from collect_depth
collect_block first lines = first ∷ collect_from (close_of first) 0 lines
