-- ===== src/Tools/Sort.antt =====
-- The program sort, src/bin/sort/sort.c.
pub mod Order
use noxis.Prelude.{
  ℕ, zero, suc, ◌+◌, ◌-◌, Bool, true, false, Option, none, some, List, [], ◌∷◌, ◌++◌, length,
  get_or,
}
use noxis.Prelude.{ltb, leb, ◌==◌, ◌&&◌, update, if◌then◌else◌}
use noxis.Paths.{Str}
use noxis.Tools.Text.{str_eq, str_lt, str_gt}

abbrev pub sort_max_lines : ℕ
sort_max_lines = 512

abbrev pub sort_line_max : ℕ
sort_line_max = 256

-- The bytes of a buffer that a C string keeps.
unfoldable pub until_nul : List ℕ → Str
until_nul [] = []
until_nul (c ∷ cs) = if c == 0 then [] else c ∷ until_nul cs

-- `_lines` and `_nlines`.
pub record Lines : Type 0 where
  pub line : ℕ → Str
  pub nlines : ℕ

abbrev pub add_line : Str → Lines → Lines
add_line s l = record { line = update l.line l.nlines s; nlines = l.nlines + 1 }

-- The loop of read_lines: the bytes that are left, and those in `buf`. `memory k` tells whether malloc
-- succeeds for line `k`. True is 0, false is -1.
pub read_lines : (ℕ → Bool) → List ℕ → List ℕ → Lines → Bool × Lines
read_lines memory [] buf l =
    if ltb l.nlines sort_max_lines && ltb 0 (length buf)
    then (if memory l.nlines then (true, add_line (until_nul buf) l) else (false, l))
    else (true, l)
read_lines memory (c ∷ cs) buf l =
    let skipped = read_lines memory cs buf l in
    let ended = read_lines memory cs [] (add_line (until_nul buf) l) in
    let kept = read_lines memory cs (buf ++ (c ∷ [])) l in
    if leb sort_max_lines l.nlines
    then (true, l)
    else if c == b'\r'
    then skipped
    else if c == b'\n'
    then (if memory l.nlines then ended else (false, l))
    else if ltb (length buf) (sort_line_max - 1)
    then kept
    else skipped

-- rev ? cmp < 0 : cmp > 0
unfoldable pub moves : Bool → Str → Str → Bool
moves true a b = str_lt a b
moves false a b = str_gt a b

-- The loop over `j`, with j + 1 places left, and _lines[j + 1] = key behind it.
pub shift : Bool → ℕ → Str → (ℕ → Str) → ℕ → Str
shift rev zero key a = update a 0 key
shift rev (suc j) key a =
    let further = shift rev j key (update a (suc j) (a j)) in
    if moves rev (a j) key then further else update a (suc j) key

-- The loop over `i`, with the rounds left.
pub sort_from : Bool → ℕ → ℕ → (ℕ → Str) → ℕ → Str
sort_from rev zero i a = a
sort_from rev (suc n) i a = sort_from rev n (i + 1) (shift rev i (a i) a)

unfoldable pub insertion_sort : Bool → Lines → Lines
insertion_sort rev l = record l { line = sort_from rev (l.nlines - 1) 1 l.line }

-- Every file that can be opened is read; the result of read_lines is not looked at.
pub read_files : (ℕ → Bool) → List (Option (List ℕ)) → Lines → Lines
read_files memory [] l = l
read_files memory (none ∷ fs) l = read_files memory fs l
read_files memory (some d ∷ fs) l = read_files memory fs (read_lines memory d [] l).1

-- The bytes that are printed.
pub print_lines : ℕ → ℕ → (ℕ → Str) → List ℕ
print_lines zero i a = []
print_lines (suc n) i a = a i ++ (b'\n' ∷ print_lines n (i + 1) a)

-- Standard input, what each name opens, and the arguments behind the program's name; the messages about
-- files that cannot be opened are left out.
pub sort_main : (ℕ → Bool) → List ℕ → (Str → Option (List ℕ)) → List Str → List ℕ
sort_main memory input contents args =
    let rev = reversed args in
    let empty : Lines = record { line = λ _. []; nlines = 0 } in
    let l = read_all (names args) empty in print_lines l.nlines 0 (insertion_sort rev l).line
  where
    reversed : List Str → Bool
    reversed [] = false
    reversed (a ∷ rest) = str_eq a (b'-' ∷ b'r' ∷ [])

    names : List Str → List Str
    names [] = []
    names (a ∷ rest) = if str_eq a (b'-' ∷ b'r' ∷ []) then rest else a ∷ rest

    opened : List Str → List (Option (List ℕ))
    opened [] = []
    opened (f ∷ fs) = contents f ∷ opened fs

    read_all : List Str → Lines → Lines
    read_all [] l = (read_lines memory input [] l).1
    read_all (f ∷ fs) l = read_files memory (opened (f ∷ fs)) l
