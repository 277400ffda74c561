-- ===== src/Noxlib/Format/Examples.antt =====
-- Tests of the formatter, and the theorem at a buffer that is too small.
use noxis.Prelude.{List, [], ◌∷◌, ◌++◌, ◌-◌, ◌^◌, ◌≡◌, refl, some, none, arith}
use noxis.Prelude.{length}
use noxis.Paths.{Str}
use noxis.Noxlib.Format.{Arg, word, string, word_text, vsnprintf, put_all, put_directive, directive}
use noxis.Noxlib.Format.Whole.{cut, format_text, vsnprintf-cut, field_text, string_text}
use noxis.Noxlib.Format.Numeral.{one_digit}
use noxis.Noxlib.Format.Spelled.{Spec, IsSpec}
use noxis.Noxlib.Format.Formats.{
  Formats, word_field, literal, null_field, ended, negative, letter_d, vsnprintf-Formats,
}
use noxis.Noxlib.Number.{put_digits, number_text}

-- "%5d|%s"
abbrev line_format : Str
line_format = b'%' ∷ b'5' ∷ b'd' ∷ b'|' ∷ b'%' ∷ b's' ∷ []

abbrev line_args : List Arg
line_args = word (2 ^ 32 - 7) ∷ string none ∷ []

vsnprintf_run :
    vsnprintf 64 line_format line_args
    ≡ some (b' ' ∷ b' ' ∷ b' ' ∷ b'-' ∷ b'7' ∷ b'|' ∷ b'(' ∷ b'n' ∷ b'u' ∷ b'l' ∷ b'l' ∷ b')' ∷ [])
unfolding vsnprintf directive put_directive put_all number_text put_digits word_text
vsnprintf_run = refl

-- "%04x" of 0xBEE, in a buffer of four bytes
vsnprintf_hex :
    vsnprintf 4 (b'%' ∷ b'0' ∷ b'4' ∷ b'x' ∷ []) (word 0xBEE ∷ []) ≡ some (b'0' ∷ b'b' ∷ b'e' ∷ [])
unfolding vsnprintf directive put_directive put_all number_text put_digits word_text
vsnprintf_hex = refl

vsnprintf-cut_run :
    vsnprintf 8 line_format line_args
    ≡ cut 7 (format_text (length line_format) line_format line_args)
vsnprintf-cut_run = vsnprintf-cut 8 line_format line_args (omega arith)

-- The digits of "%5d" and "%s".
abbrev five : Spec
five = record { flags = []; digits = 5 ∷ []; longs = 0 }

abbrev plain : Spec
plain = record { flags = []; digits = []; longs = 0 }

five-IsSpec : IsSpec five
five-IsSpec = record {
  are_digits = (omega arith, tt);
  starts_above = omega arith;
  small = omega arith;
}

plain-IsSpec : IsSpec plain
plain-IsSpec = record { are_digits = tt; starts_above = tt; small = omega arith }

-- The text of the format above: "   -7|(null)".
line_text-Formats : Formats line_format line_args (
    (b' ' ∷ b' ' ∷ b' ' ∷ b'-' ∷ b'7' ∷ [])
    ++ (b'|' ∷ ((b'(' ∷ b'n' ∷ b'u' ∷ b'l' ∷ b'l' ∷ b')' ∷ []) ++ [])))
unfolding field_text string_text
line_text-Formats =
    word_field {s = five} {c = b'd'} five-IsSpec
      (negative letter_d (omega arith) (λ e. omega arith) (one_digit (omega arith)))
      (literal refl (null_field {s = plain} plain-IsSpec ended))

vsnprintf-Formats_example :
    vsnprintf 8 line_format line_args ≡ some (b' ' ∷ b' ' ∷ b' ' ∷ b'-' ∷ b'7' ∷ b'|' ∷ b'(' ∷ [])
vsnprintf-Formats_example = vsnprintf-Formats 8 (omega arith) line_text-Formats
