-- ===== src/Tools/Text.antt =====
-- The string helpers of src/lib/noxlib/noxlib.h.
use noxis.Prelude.{ℕ, ◌+◌, ◌-◌, ◌*◌, Bool, true, false, Option, none, some, [], ◌∷◌}
use noxis.Prelude.{ltb, leb, ◌==◌, ◌&&◌, if◌then◌else◌}
use noxis.Paths.{Str}

-- The two bytes at which strcmp stops: it returns the first less the second.
unfoldable pub stop_bytes : Str → Str → ℕ × ℕ
stop_bytes [] [] = (0, 0)
stop_bytes [] (y ∷ ys) = (0, y)
stop_bytes (x ∷ xs) [] = (x, 0)
stop_bytes (x ∷ xs) (y ∷ ys) = if x == y then stop_bytes xs ys else (x, y)

-- strcmp(a, b) == 0, < 0 and > 0
abbrev pub str_eq : Str → Str → Bool
str_eq a b = (stop_bytes a b).0 == (stop_bytes a b).1

abbrev pub str_lt : Str → Str → Bool
str_lt a b = ltb (stop_bytes a b).0 (stop_bytes a b).1

abbrev pub str_gt : Str → Str → Bool
str_gt a b = ltb (stop_bytes a b).1 (stop_bytes a b).0

abbrev pub is_digit : ℕ → Bool
is_digit c = leb b'0' c && leb c b'9'

-- The digits of atoi, after the value so far. It is not bounded: an overflow of `int` is undefined in C.
pub digits_from : ℕ → Str → ℕ
digits_from v [] = v
digits_from v (c ∷ cs) = if is_digit c then digits_from (v * 10 + (c - b'0')) cs else v

-- The value of atoi: whether it is negative, and its size.
pub atoi : Str → Bool × ℕ
atoi [] = (false, 0)
atoi (c ∷ cs) =
    if c == b'-'
    then (true, digits_from 0 cs)
    else if c == b'+'
    then (false, digits_from 0 cs)
    else (false, digits_from 0 (c ∷ cs))

-- while (*nn && *hh == *nn): whether the needle starts the haystack.
unfoldable pub starts_with : Str → Str → Bool
starts_with h [] = true
starts_with [] (n ∷ ns) = false
starts_with (x ∷ xs) (n ∷ ns) = if x == n then starts_with xs ns else false

-- strstr: the place of the first match, from its start on; `none` is NULL.
unfoldable pub strstr : Str → Str → Option Str
strstr h [] = some h
strstr [] (n ∷ ns) = none
strstr (x ∷ xs) (n ∷ ns) =
    let rest = strstr xs (n ∷ ns) in if starts_with (x ∷ xs) (n ∷ ns) then some (x ∷ xs) else rest
