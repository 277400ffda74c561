-- ===== src/Tools/Condition.antt =====
-- The program test, src/bin/test/test.c.
use noxis.Prelude.{ℕ, ◌+◌, Bool, true, false, Option, none, some, List, [], ◌∷◌, length}
use noxis.Prelude.{ltb, ◌==◌, ◌!=◌, ◌||◌, not, if◌then◌else◌, bit_and}
use noxis.Paths.{Str}
use noxis.Tools.Text.{str_eq, str_lt, str_gt, atoi}

-- The values of atoi, compared: each is a sign and a size.
unfoldable pub int_eq : Bool × ℕ → Bool × ℕ → Bool
int_eq (true, a) (true, b) = a == b
int_eq (true, a) (false, b) = a + b == 0
int_eq (false, a) (true, b) = a + b == 0
int_eq (false, a) (false, b) = a == b

unfoldable pub int_lt : Bool × ℕ → Bool × ℕ → Bool
int_lt (true, a) (true, b) = ltb b a
int_lt (true, a) (false, b) = ltb 0 (a + b)
int_lt (false, a) (true, b) = false
int_lt (false, a) (false, b) = ltb a b

abbrev pub word : ℕ → ℕ → Str
word a b = b'-' ∷ a ∷ b ∷ []

-- The lines from the string comparisons on: the operator between two arguments. An operator that is
-- none of these is false.
pub eval_binary : Str → Str → Str → Bool
eval_binary a op b =
    let av = atoi a in
    let bv = atoi b in
    if str_eq op (b'=' ∷ []) || str_eq op (b'=' ∷ b'=' ∷ [])
    then str_eq a b
    else if str_eq op (b'!' ∷ b'=' ∷ [])
    then not (str_eq a b)
    else if str_eq op (b'<' ∷ [])
    then str_lt a b
    else if str_eq op (b'>' ∷ [])
    then str_gt a b
    else if str_eq op (word b'e' b'q')
    then int_eq av bv
    else if str_eq op (word b'n' b'e')
    then not (int_eq av bv)
    else if str_eq op (word b'l' b't')
    then int_lt av bv
    else if str_eq op (word b'l' b'e')
    then not (int_lt bv av)
    else if str_eq op (word b'g' b't')
    then int_lt bv av
    else if str_eq op (word b'g' b'e')
    then not (int_lt av bv)
    else false

-- The mode and the size that stat gives; `none` is an error.
abbrev pub Stat : Type 0
Stat = Option (ℕ × ℕ)

abbrev pub has_type : ℕ → Stat → Bool
has_type t none = false
has_type t (some (mode, size)) = bit_and mode t != 0

abbrev pub exists_file : Stat → Bool
exists_file none = false
exists_file (some _) = true

abbrev pub is_filled : Stat → Bool
is_filled none = false
is_filled (some (mode, size)) = ltb 0 size

abbrev pub flag : ℕ → Str
flag c = b'-' ∷ c ∷ []

-- Two arguments of which the first starts with '-'.
pub eval_unary : (Str → Stat) → Str → Str → Bool
eval_unary stat op arg =
    if str_eq op (flag b'z')
    then length arg == 0
    else if str_eq op (flag b'n')
    then length arg != 0
    else if str_eq op (flag b'e')
    then exists_file (stat arg)
    else if str_eq op (flag b'f')
    then has_type 0x8000 (stat arg)
    else if str_eq op (flag b'd')
    then has_type 0x4000 (stat arg)
    else if str_eq op (flag b'r')
    then exists_file (stat arg)
    else if str_eq op (flag b's')
    then is_filled (stat arg)
    else false

abbrev pub is_option : Str → Bool
is_option [] = false
is_option (c ∷ cs) = c == b'-'

-- _eval: true is 1. The number of arguments is that of the list.
unfoldable pub evaluate : (Str → Stat) → List Str → Bool
evaluate stat [] = false
evaluate stat (a ∷ rest) =
    let negated = evaluate stat rest in if str_eq a (b'!' ∷ []) then not negated else behind a rest
  where
    behind : Str → List Str → Bool
    behind a [] = length a != 0
    behind a (b ∷ []) = if is_option a then eval_unary stat a b else false
    behind a (op ∷ b ∷ []) = eval_binary a op b
    behind a (x ∷ y ∷ z ∷ zs) = false

-- The arguments without a last "]".
pub without_bracket : List Str → List Str
without_bracket [] = []
without_bracket (a ∷ []) = if str_eq a (b']' ∷ []) then [] else a ∷ []
without_bracket (a ∷ b ∷ rest) = let more = without_bracket (b ∷ rest) in a ∷ more

-- The exit status of main, from the arguments behind the program's name.
pub test_main : (Str → Stat) → List Str → ℕ
test_main stat args = if evaluate stat (without_bracket args) then 1 else 0
