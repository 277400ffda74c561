-- ===== src/Noxlib/Format.antt =====
-- vsnprintf of src/lib/noxlib/noxlib.h. The variable arguments are a list of 64-bit words and strings;
-- where the format asks for an argument of the other kind, or for one too many, C is undefined and the
-- model returns `none`. What is written to the buffer stands in order, without the final NUL.
pub mod Whole
pub mod Text
pub mod Numeral
pub mod Spelled
pub mod Formats
mod Examples
use noxis.Prelude.{
  ℕ, zero, suc, ◌+◌, ◌-◌, ◌*◌, ◌^◌, ◌%◌, Bool, true, false, not, List, [], ◌∷◌, ◌++◌, Option, none,
  some,
}
use noxis.Prelude.{ltb, leb, ◌==◌, ◌||◌, ◌&&◌, if◌then◌else◌, get_or, drop, length, replicate}
use noxis.Paths.{Str}
use noxis.Tools.Text.{is_digit}
use noxis.Noxlib.Number.{number_text, dec_digit, hex_digit, hex_digit_upper, signed, with_sign}

pub data Arg : Type 0 where
  word : ℕ → Arg
  string : Option Str → Arg

-- A directive behind its '%': the flags '-' and '0', the width, the count of 'l', and the last byte.
pub record Directive : Type 0 where
  pub left : Bool
  pub zeros : Bool
  pub width : ℕ
  pub longs : ℕ
  pub conv : ℕ

-- for (;;) { if (*fmt == '-') … else if (*fmt == '0') … else break; }
pub take_flags : Bool → Bool → Str → Bool × Bool × Str
take_flags left zeros [] = (left, zeros, [])
take_flags left zeros (c ∷ cs) = elim (c == b'-') [
  | true ↦ take_flags true zeros cs
  | false ↦ elim (c == b'0') [ true ↦ take_flags left true cs | false ↦ (left, zeros, c ∷ cs) ]
]

-- An overflow of `int wid`, undefined in C, is not modelled.
pub take_width : ℕ → Str → ℕ × Str
take_width wid [] = (wid, [])
take_width wid (c ∷ cs) = elim (is_digit c) [
  | true ↦ take_width (wid * 10 + (c - b'0')) cs
  | false ↦ (wid, c ∷ cs)
]

pub take_longs : ℕ → Str → ℕ × Str
take_longs n [] = (n, [])
take_longs n (c ∷ cs) = elim (c == b'l') [ true ↦ take_longs (n + 1) cs | false ↦ (n, c ∷ cs) ]

-- `none` where the format ends within the directive: if (!sp) break.
pub directive : Str → Option (Directive × Str)
unfolding take_flags take_width take_longs
directive s =
    let (left, zeros, t) = take_flags false false s in
    let (width, u) = take_width 0 t in
    let (longs, v) = take_longs 0 u in
    elim v [
      | [] ↦ none
      | c ∷ cs ↦
          some (record { left = left; zeros = zeros; width = width; longs = longs; conv = c }, cs)
    ]

-- if (p < sz-1) b[p++] = c
abbrev pub put : ℕ → ℕ → Str → Str
put lim c b = if ltb (length b) lim then b ++ c ∷ [] else b

-- A loop that puts bytes while there is room.
pub put_all : ℕ → Str → Str → Str
put_all lim [] b = b
put_all lim (c ∷ cs) b = put_all lim cs (put lim c b)

abbrev pub blanks : ℕ → Str
blanks n = replicate n b' '

-- The case sp == 's', for a string of length sl.
pub put_string : ℕ → Directive → Str → Str → Str
put_string lim d s b =
    let pad = blanks (d.width - length s) in
    let b' = if not d.left && ltb (length s) d.width then put_all lim pad b else b in
    let b'' = put_all lim s b' in
    if d.left && ltb (length s) d.width then put_all lim pad b'' else b''

-- The end of a round: `tmp` is put, filled up to the width.
pub put_field : ℕ → Directive → Str → Str → Str
put_field lim d tmp b =
    let gap = d.width - length tmp in
    let filled = put_all lim (replicate gap (if d.zeros then b'0' else b' ')) b in
    if not d.left && ltb (length tmp) d.width
    then (if (d.zeros && get_or tmp 0 0 == b'-') && ltb (length b) lim
        then put_all lim (drop 1 tmp) (put_all lim (replicate gap b'0') (put lim b'-' b))
        else put_all lim tmp filled)
    else if d.left && ltb (length tmp) d.width
    then put_all lim (blanks gap) (put_all lim tmp b)
    else put_all lim tmp b

-- The width of the word that va_arg takes.
abbrev pub bits : Directive → ℕ
bits d = if d.longs == 0 then 32 else 64

abbrev pub low : Directive → ℕ → ℕ
low d w = w % 2 ^ bits d

-- tmp for the conversions of a word, none for the others.
pub word_text : Directive → ℕ → Option Str
word_text d w =
    if d.conv == b'c'
    then some (w % 256 ∷ [])
    else if d.conv == b'd' || d.conv == b'i'
    then (let (neg, u) = signed (bits d) (low d w) in
        some (with_sign neg (number_text 10 dec_digit u)))
    else if d.conv == b'u'
    then some (number_text 10 dec_digit (low d w))
    else if d.conv == b'x'
    then some (number_text 16 hex_digit (low d w))
    else if d.conv == b'X'
    then some (number_text 16 hex_digit_upper (low d w))
    else if d.conv == b'p'
    then some (b'0' ∷ b'x' ∷ number_text 16 hex_digit w)
    else none

abbrev pub is_word : ℕ → Bool
is_word c = c == b'c' || c == b'd' || c == b'i' || c == b'u' || c == b'x' || c == b'X' || c == b'p'

-- tmp where no argument is taken: "%%", or the unknown conversion itself.
abbrev pub other_text : Directive → Str
other_text d = if d.conv == b'%' then b'%' ∷ [] else b'%' ∷ d.conv ∷ []

abbrev null_text : Str
null_text = b'(' ∷ b'n' ∷ b'u' ∷ b'l' ∷ b'l' ∷ b')' ∷ []

abbrev pub or_null : Option Str → Str
or_null none = null_text
or_null (some s) = s

-- One directive: the buffer behind it, and the arguments left.
pub put_string_arg : ℕ → Directive → List Arg → Str → Option (Str × List Arg)
unfolding put_string
put_string_arg lim d (string s ∷ args) b = some (put_string lim d (or_null s) b, args)
put_string_arg lim d args b = none

pub put_word_arg : ℕ → Directive → List Arg → Str → Option (Str × List Arg)
unfolding put_field
put_word_arg lim d (word w ∷ args) b = elim (word_text d w) [
  | none ↦ none
  | some tmp ↦ some (put_field lim d tmp b, args)
]
put_word_arg lim d args b = none

pub put_directive : ℕ → Directive → List Arg → Str → Option (Str × List Arg)
unfolding put_string_arg put_word_arg
put_directive lim d args b =
    if d.conv == b's'
    then put_string_arg lim d args b
    else if is_word d.conv
    then put_word_arg lim d args b
    else some (put_field lim d (other_text d) b, args)

-- while (*fmt), with one round for each byte of the format.
pub format_loop : ℕ → ℕ → Str → List Arg → Str → Option Str
format_loop n lim [] args b = some b
format_loop zero lim (c ∷ cs) args b = none
format_loop (suc n) lim (c ∷ cs) args b = elim (c == b'%') [
  | false ↦ format_loop n lim cs args (put lim c b)
  | true ↦ elim (directive cs) [
    | none ↦ some b
    | some (d, rest) ↦ elim (put_directive lim d args b) [
      | none ↦ none
      | some (b', left_over) ↦ format_loop n lim rest left_over b'
    ]
  ]
]

-- What stands in the buffer; the result of the call is its length.
pub vsnprintf : ℕ → Str → List Arg → Option Str
unfolding format_loop
vsnprintf sz fmt args = if sz == 0 then some [] else format_loop (length fmt) (sz - 1) fmt args []
