-- ===== src/Noxlib/Format/Formats.antt =====
-- What vsnprintf of src/lib/noxlib/noxlib.h makes of a format, as a printer manual says it: flags, widths,
-- letters and numerals, without the code's scanner.
use noxis.Prelude.{
  ℕ, ◌-◌, ◌%◌, ◌^◌, ◌<◌, ◌≤◌, ◌≡◌, ◌≢◌, inl, inr, refl, ap, ◌∙◌, Bool, true, false, List, [], ◌∷◌,
  ◌++◌, Option, none, some, arith,
}
use noxis.Prelude.{take, leb, ◌==◌, if◌then◌else◌, Bool-cases}
use noxis.Paths.{Str}
use noxis.Noxlib.Number.{number_text, with_sign, signed, dec_digit}
use noxis.Noxlib.Format.{Arg, word, string, directive, word_text, or_null, vsnprintf}
use noxis.Noxlib.Format.Whole.{
  string_text, field_text, directive_text, string_arg_text, word_arg_text,
}
use noxis.Noxlib.Format.Numeral.{
  Numeral, decimal, hexadecimal, capital, decimal_lem, hexadecimal_lem, capital_lem,
}
use noxis.Noxlib.Format.Spelled.{
  Spec, spelled, IsSpec, IsConversion, directive_of, directive-spelled,
}
use noxis.Noxlib.Format.Text.{Runs, vsnprintf-Runs}

-- The bits of a number: an int, or a long behind at least one 'l'.
abbrev pub word_bits : ℕ → ℕ
word_bits n = if n == 0 then 32 else 64

-- The letters of a signed decimal.
pub data SignedLetter : ℕ → Type 0 where
  letter_d : SignedLetter b'd'
  letter_i : SignedLetter b'i'

-- `Converts longs w c t`: the text of the word w under the letter c. A negative number is a '-' and the
-- numeral of its size; the smallest long, whose negation overflows, has none.
pub data Converts (longs w : ℕ) : ℕ → Str → Type 0 where
  character : Converts longs w b'c' (w % 256 ∷ [])
  positive :
      {c : ℕ} {t : Str}
      → SignedLetter c
      → w % 2 ^ word_bits longs < 2 ^ (word_bits longs - 1)
      → Numeral 10 decimal (w % 2 ^ word_bits longs) t
      → Converts longs w c t
  negative :
      {c : ℕ} {t : Str}
      → SignedLetter c
      → 2 ^ (word_bits longs - 1) ≤ w % 2 ^ word_bits longs
      → w % 2 ^ word_bits longs ≢ 2 ^ 63
      → Numeral 10 decimal (2 ^ word_bits longs - w % 2 ^ word_bits longs) t
      → Converts longs w c (b'-' ∷ t)
  unsigned : {t : Str} → Numeral 10 decimal (w % 2 ^ word_bits longs) t → Converts longs w b'u' t
  hex : {t : Str} → Numeral 16 hexadecimal (w % 2 ^ word_bits longs) t → Converts longs w b'x' t
  hex_upper : {t : Str} → Numeral 16 capital (w % 2 ^ word_bits longs) t → Converts longs w b'X' t
  pointer :
      {t : Str} → w < 2 ^ 64 → Numeral 16 hexadecimal w t → Converts longs w b'p' (b'0' ∷ b'x' ∷ t)

-- `Formats fmt args t`: the text t of a format and its arguments.
pub data Formats : Str → List Arg → Str → Type 0 where
  ended : {args : List Arg} → Formats [] args []
  literal :
      {c : ℕ} {cs : Str} {args : List Arg} {t : Str}
      → (c == b'%') ≡ false
      → Formats cs args t
      → Formats (c ∷ cs) args (c ∷ t)
  word_field :
      {s : Spec} {c w : ℕ} {rest x t : Str} {args : List Arg}
      → IsSpec s
      → Converts s.longs w c x
      → Formats rest args t
      → Formats (b'%' ∷ spelled s c rest) (word w ∷ args) (field_text (directive_of s c) x ++ t)
  string_field :
      {s : Spec} {rest x t : Str} {args : List Arg}
      → IsSpec s
      → Formats rest args t
      → Formats
          (b'%' ∷ spelled s b's' rest)
          (string (some x) ∷ args)
          (string_text (directive_of s b's') x ++ t)
  null_field :
      {s : Spec} {rest t : Str} {args : List Arg}
      → IsSpec s
      → Formats rest args t
      → Formats
          (b'%' ∷ spelled s b's' rest)
          (string none ∷ args)
          (string_text (directive_of s b's') (b'(' ∷ b'n' ∷ b'u' ∷ b'l' ∷ b'l' ∷ b')' ∷ []) ++ t)
  percent_field :
      {s : Spec} {rest t : Str} {args : List Arg}
      → IsSpec s
      → Formats rest args t
      → Formats
          (b'%' ∷ spelled s b'%' rest)
          args
          (field_text (directive_of s b'%') (b'%' ∷ []) ++ t)
  stopped : {args : List Arg} → Formats (b'%' ∷ []) args []

word_small : (longs w : ℕ) → w % 2 ^ word_bits longs < 2 ^ 64
word_small longs w = elim (Bool-cases (longs == 0)) [
  | inl e ↦ rw e (omega arith)
  | inr e ↦ rw e (omega arith)
]

size_small :
    (longs w : ℕ)
    → 2 ^ (word_bits longs - 1) ≤ w % 2 ^ word_bits longs
    → 2 ^ word_bits longs - w % 2 ^ word_bits longs < 2 ^ 64
size_small longs w = elim (Bool-cases (longs == 0)) [
  | inl e ↦ rw e (λ h. omega arith)
  | inr e ↦ rw e (λ h. omega arith)
]

signed_text :
    (bits x : ℕ) (t : Str) (neg : Bool) (u : ℕ)
    → leb (2 ^ (bits - 1)) x ≡ neg
    → (if neg then 2 ^ bits - x else x) ≡ u
    → number_text 10 dec_digit u ≡ t
    → (let (n, v) = signed bits x in with_sign n (number_text 10 dec_digit v)) ≡ with_sign neg t
signed_text bits x t true u e f g = rw e (ap (b'-' ∷◌) (ap (number_text 10 dec_digit) f ∙ g))
signed_text bits x t false u e f g = rw e (ap (number_text 10 dec_digit) f ∙ g)

leb-gt : (a b : ℕ) → b < a → leb a b ≡ false
leb-gt a b h = ground arith

leb-le : (a b : ℕ) → a ≤ b → leb a b ≡ true
leb-le a b h = ground arith

-- The letter is read, takes a word, and has the text of the manual.
word_directive :
    (s : Spec) {c w : ℕ} {x : Str} (args : List Arg)
    → Converts s.longs w c x
    → IsConversion c
      × (directive_text (directive_of s c) (word w ∷ args)
          ≡ some (field_text (directive_of s c) x, args))
unfolding directive_text word_arg_text word_text
word_directive s args character = (record { no_dash = refl; no_digit = refl; no_long = refl }, refl)
word_directive s {w = w} args (positive {t = t} letter_d l m) = (
  record { no_dash = refl; no_digit = refl; no_long = refl },
  ap (λ y. some (field_text (directive_of s b'd') y, args))
      (signed_text _ _ t false _ (leb-gt _ _ l) refl (decimal_lem _ (word_small s.longs w) m)),
)
word_directive s {w = w} args (positive {t = t} letter_i l m) = (
  record { no_dash = refl; no_digit = refl; no_long = refl },
  ap (λ y. some (field_text (directive_of s b'i') y, args))
      (signed_text _ _ t false _ (leb-gt _ _ l) refl (decimal_lem _ (word_small s.longs w) m)),
)
word_directive s {w = w} args (negative {t = t} letter_d l n m) = (
  record { no_dash = refl; no_digit = refl; no_long = refl },
  ap (λ y. some (field_text (directive_of s b'd') y, args))
      (signed_text _ _ t true _ (leb-le _ _ l) refl (decimal_lem _ (size_small s.longs w l) m)),
)
word_directive s {w = w} args (negative {t = t} letter_i l n m) = (
  record { no_dash = refl; no_digit = refl; no_long = refl },
  ap (λ y. some (field_text (directive_of s b'i') y, args))
      (signed_text _ _ t true _ (leb-le _ _ l) refl (decimal_lem _ (size_small s.longs w l) m)),
)
word_directive s {w = w} args (unsigned m) = (
  record { no_dash = refl; no_digit = refl; no_long = refl },
  ap (λ y. some (field_text (directive_of s b'u') y, args))
      (decimal_lem _ (word_small s.longs w) m),
)
word_directive s {w = w} args (hex m) = (
  record { no_dash = refl; no_digit = refl; no_long = refl },
  ap (λ y. some (field_text (directive_of s b'x') y, args))
      (hexadecimal_lem _ (word_small s.longs w) m),
)
word_directive s {w = w} args (hex_upper m) = (
  record { no_dash = refl; no_digit = refl; no_long = refl },
  ap (λ y. some (field_text (directive_of s b'X') y, args))
      (capital_lem _ (word_small s.longs w) m),
)
word_directive s {w = w} args (pointer l m) = (
  record { no_dash = refl; no_digit = refl; no_long = refl },
  ap (λ y. some (field_text (directive_of s b'p') (b'0' ∷ b'x' ∷ y), args)) (hexadecimal_lem w l m),
)

percent_text :
    (s : Spec) (args : List Arg)
    → directive_text (directive_of s b'%') args
      ≡ some (field_text (directive_of s b'%') (b'%' ∷ []), args)
unfolding directive_text
percent_text s args = refl

string_directive :
    (s : Spec) (x : Option Str) (args : List Arg)
    → directive_text (directive_of s b's') (string x ∷ args)
      ≡ some (string_text (directive_of s b's') (or_null x), args)
unfolding directive_text string_arg_text
string_directive s x args = refl

Formats-Runs : {fmt : Str} {args : List Arg} {t : Str} → Formats fmt args t → Runs fmt args t
unfolding directive
Formats-Runs ended = Runs.ended
Formats-Runs (literal e f) = Runs.literal e (Formats-Runs f)
Formats-Runs (word_field {s = s} {c = c} {rest = rest} {args = args} v k f) =
    let (is, text) = word_directive s args k in
    Runs.field refl (directive-spelled s c rest v is) text (Formats-Runs f)
Formats-Runs (string_field {s = s} {rest = rest} {x = x} {args = args} v f) =
    Runs.field refl
      (directive-spelled s b's' rest v (record { no_dash = refl; no_digit = refl; no_long = refl }))
      (string_directive s (some x) args) (Formats-Runs f)
Formats-Runs (null_field {s = s} {rest = rest} {args = args} v f) =
    Runs.field refl
      (directive-spelled s b's' rest v (record { no_dash = refl; no_digit = refl; no_long = refl }))
      (string_directive s none args) (Formats-Runs f)
Formats-Runs (percent_field {s = s} {rest = rest} {args = args} v f) =
    Runs.field refl
      (directive-spelled s b'%' rest v (record { no_dash = refl; no_digit = refl; no_long = refl }))
      (percent_text s args) (Formats-Runs f)
Formats-Runs stopped = Runs.stopped refl refl

-- Into a buffer of at least one byte, vsnprintf puts the text of a format, cut to the bytes that leave room
-- for the NUL. The text is that of the manual: each byte other than '%' for itself; for a directive with
-- flags, a width below 2^31 and letters 'l', the word as a character, a decimal with its sign, an unsigned
-- decimal, a hexadecimal in small or capital digits or a pointer, the string, "(null)" for the null pointer,
-- or a '%', filled up to the width with blanks in front, or behind with the flag '-', and where it is no
-- string and has the flag '0' alone, with zeros behind the sign; and nothing for a '%' at the end. Other
-- letters, and the negation of -2^63, are not covered.
pub vsnprintf-Formats :
    (sz : ℕ) {fmt : Str} {args : List Arg} {t : Str}
    → 0 < sz
    → Formats fmt args t
    → vsnprintf sz fmt args ≡ some (take (sz - 1) t)
vsnprintf-Formats sz l f = vsnprintf-Runs sz l (Formats-Runs f)
