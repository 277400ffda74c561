-- ===== src/Noxlib/Number/Examples.antt =====
-- Tests of the conversions, and the theorem on puti at an input.
use noxis.Prelude.{ℕ, [], ◌∷◌, ◌++◌, ◌-◌, ◌^◌, ◌≡◌, refl, arith, false}
use noxis.Noxlib.Number.{
  strtol, puti, put_digits, digit_value, scan_digits, take_sign, take_base, skip_blanks, signed,
}
use noxis.Noxlib.Number.RoundTrip.{Ends, strtol-puti}

-- -42, and a byte behind it
abbrev minus : ℕ
minus = 2 ^ 64 - 42

puti_run : puti minus ≡ b'-' ∷ b'4' ∷ b'2' ∷ []
unfolding puti put_digits
puti_run = refl

-- "  0x1fz" in base 0
strtol_hex : strtol (b' ' ∷ 9 ∷ b'0' ∷ b'x' ∷ b'1' ∷ b'F' ∷ b'z' ∷ []) 0 ≡ (false, 31, b'z' ∷ [])
unfolding strtol scan_digits digit_value take_sign take_base skip_blanks
strtol_hex = refl

strtol_octal : strtol (b'0' ∷ b'1' ∷ b'7' ∷ b'8' ∷ []) 0 ≡ (false, 15, b'8' ∷ [])
unfolding strtol scan_digits digit_value take_sign take_base skip_blanks
strtol_octal = refl

line_end-Ends : Ends 10 (10 ∷ [])
unfolding digit_value
line_end-Ends d e = ground arith

strtol-puti_example :
    strtol (puti minus ++ 10 ∷ []) 10 ≡ ((signed 64 minus).0, (signed 64 minus).1, 10 ∷ [])
strtol-puti_example = strtol-puti minus (10 ∷ []) (omega arith) (omega arith) line_end-Ends
