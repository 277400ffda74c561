-- ===== src/Noxlib/Number.antt =====
-- The conversion of numbers in src/lib/noxlib/noxlib.h: strtol, puti, and the digits that vsnprintf
-- prints. A signed number is a sign and a size; an overflow of `long`, in strtol or in the negation of
-- the smallest long in puti and vsnprintf, is undefined in C and not modelled.
pub mod RoundTrip
mod Examples
use noxis.Prelude.{
  ℕ, zero, suc, ◌+◌, ◌-◌, ◌*◌, ◌/◌, ◌%◌, ◌^◌, ◌<◌, ◌≤◌, ◌≡◌, refl, sym, ap, ◌∙◌, Bool, true, false,
  List, [], ◌∷◌, ◌++◌, Option, none, some, arith,
}
use noxis.Prelude.{ltb, leb, ◌==◌, ◌||◌, ◌&&◌, if◌then◌else◌, get_or, drop}
use noxis.Paths.{Str}
use noxis.Tools.Text.{is_digit}

-- The digit that a byte stands for in strtol.
pub digit_value : ℕ → Option ℕ
digit_value c =
    if is_digit c
    then some (c - b'0')
    else if leb b'a' c && leb c b'f'
    then some (c - b'a' + 10)
    else if leb b'A' c && leb c b'F'
    then some (c - b'A' + 10)
    else none

-- for (; *s; s++) of strtol: the value, and what is left.
pub scan_digits : ℕ → ℕ → Str → ℕ × Str
scan_digits base v [] = (v, [])
scan_digits base v (c ∷ cs) = elim (digit_value c) [
  | none ↦ (v, c ∷ cs)
  | some d ↦ elim (leb base d) [ true ↦ (v, c ∷ cs) | false ↦ scan_digits base (v * base + d) cs ]
]

pub skip_blanks : Str → Str
skip_blanks [] = []
skip_blanks (c ∷ cs) = if c == b' ' || c == 9 then skip_blanks cs else c ∷ cs

-- The sign of a number, and what follows it.
pub take_sign : Str → Bool × Str
take_sign [] = (false, [])
take_sign (c ∷ cs) =
    if c == b'-' then (true, cs) else if c == b'+' then (false, cs) else (false, c ∷ cs)

-- if (base == 0): the base that the prefix tells, and what follows it.
pub take_base : ℕ → Str → ℕ × Str
take_base base s =
    if base == 0
    then (if get_or s 0 0 == b'0' && (get_or s 1 0 == b'x' || get_or s 1 0 == b'X')
        then (16, drop 2 s)
        else if get_or s 0 0 == b'0'
        then (8, drop 1 s)
        else (10, s))
    else (base, s)

-- Whether the number is negative, its size, and *end.
pub strtol : Str → ℕ → Bool × ℕ × Str
strtol s base =
    let (neg, t) = take_sign (skip_blanks s) in
    let (b, u) = take_base base t in let (v, rest) = scan_digits b 0 u in (neg, v, rest)

-- while (u) { tb[--ti] = digit(u % base); u /= base }, with as many rounds as tb has room for.
unfoldable pub put_digits : ℕ → ℕ → (ℕ → ℕ) → ℕ → Str → Str
put_digits zero base digit u tb = tb
put_digits (suc n) base digit u tb = elim (u == 0) [
  | true ↦ tb
  | false ↦ put_digits n base digit (u / base) (digit (u % base) ∷ tb)
]

-- char tb[24]; if (!u) tb[--ti] = '0'; else while (u) …
unfoldable pub number_text : ℕ → (ℕ → ℕ) → ℕ → Str
number_text base digit u = if u == 0 then b'0' ∷ [] else put_digits 24 base digit u []

abbrev pub dec_digit : ℕ → ℕ
dec_digit d = b'0' + d

abbrev lower_digits : Str
lower_digits =
    b'0' ∷ b'1' ∷ b'2' ∷ b'3' ∷ b'4' ∷ b'5' ∷ b'6' ∷ b'7' ∷ b'8' ∷ b'9' ∷ b'a' ∷ b'b' ∷ b'c' ∷ b'd'
    ∷ b'e' ∷ b'f' ∷ []

abbrev upper_digits : Str
upper_digits =
    b'0' ∷ b'1' ∷ b'2' ∷ b'3' ∷ b'4' ∷ b'5' ∷ b'6' ∷ b'7' ∷ b'8' ∷ b'9' ∷ b'A' ∷ b'B' ∷ b'C' ∷ b'D'
    ∷ b'E' ∷ b'F' ∷ []

-- hx[u & 15]
abbrev pub hex_digit : ℕ → ℕ
hex_digit d = get_or lower_digits d 0

abbrev pub hex_digit_upper : ℕ → ℕ
hex_digit_upper d = get_or upper_digits d 0

-- The sign and size of a word of w bits.
abbrev pub signed : ℕ → ℕ → Bool × ℕ
signed w x = if leb (2 ^ (w - 1)) x then (true, 2 ^ w - x) else (false, x)

abbrev pub with_sign : Bool → Str → Str
with_sign neg t = if neg then b'-' ∷ t else t

-- puti: what it writes for a 64-bit word. Its loop makes the first digit before it tests.
pub puti : ℕ → Str
puti x =
    let (neg, u) = signed 64 x in
    with_sign neg (put_digits 22 10 dec_digit (u / 10) (dec_digit (u % 10) ∷ []))
