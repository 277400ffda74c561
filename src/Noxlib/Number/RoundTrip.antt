-- ===== src/Noxlib/Number/RoundTrip.antt =====
-- What puti of src/lib/noxlib/noxlib.h writes is read back by strtol.
use noxis.Prelude.{
  ℕ, zero, suc, ◌+◌, ◌*◌, ◌/◌, ◌%◌, ◌^◌, ◌<◌, ◌≤◌, ◌≡◌, ◌≢◌, refl, sym, ap, ◌∙◌, inl, inr, Bool,
  true, false, [], ◌∷◌, ◌++◌, some, arith,
}
use noxis.Prelude.{leb, ==-cases, Option-cases, le→leb, ==-ne, Bool-cases}
use native.Mathlib.Nat.{pow-suc, pow-zero, mod-lt, div-lt_iff_lt-mul, div-add-mod'}
use noxis.Paths.{Str}
use noxis.Noxlib.Number.{
  digit_value, scan_digits, skip_blanks, take_sign, take_base, strtol, put_digits, number_text,
  dec_digit, signed, with_sign, puti,
}

-- A byte that is not a digit of the base, as the one behind a number.
abbrev pub Ends : ℕ → Str → Type 0
Ends base [] = Unit
Ends base (c ∷ cs) = (d : ℕ) → digit_value c ≡ some d → base ≤ d

abbrev signed_scan : Bool → ℕ × Str → Bool × ℕ × Str
signed_scan neg (v, left) = (neg, v, left)

with_sign-append : (neg : Bool) (t rest : Str) → with_sign neg t ++ rest ≡ with_sign neg (t ++ rest)
with_sign-append true t rest = refl
with_sign-append false t rest = refl

dec_valued : (d : ℕ) → d < 10 → digit_value (dec_digit d) ≡ some d
unfolding digit_value
dec_valued d h = ground arith

module _ (base : ℕ) (digit : ℕ → ℕ) (two : 2 ≤ base)
    (valued : (d : ℕ) → d < base → digit_value (digit d) ≡ some d) where
  scan-digit :
      (v d : ℕ) (rest : Str)
      → d < base
      → scan_digits base v (digit d ∷ rest) ≡ scan_digits base (v * base + d) rest
  unfolding scan_digits
  scan-digit v d rest h = ground (arith, valued d h)

  -- The digits put in front of a text are scanned to the number.
  scan-put_digits :
      (n u : ℕ) (tb : Str)
      → u < base ^ n
      → scan_digits base 0 (put_digits n base digit u tb) ≡ scan_digits base u tb
  unfolding put_digits
  scan-put_digits zero u tb h =
      let none_left : u ≡ 0 = omega (arith, pow-zero base) in
      ap (λ k. scan_digits base k tb) (sym none_left)
  scan-put_digits (suc n) u tb h = elim (==-cases u 0) [
    | inl (e, t) ↦ rw (t, put_digits) (ap (λ k. scan_digits base k tb) (sym e))
    | inr (ne, t) ↦
        rw (t, put_digits)
          (scan-put_digits n (u / base) (digit (u % base) ∷ tb)
              ((div-lt_iff_lt-mul (omega arith)).1 (rw (← pow-suc) h))
            ∙ scan-digit (u / base) (u % base) tb (mod-lt u (omega arith))
            ∙ ap (λ k. scan_digits base k tb) (div-add-mod' u base))
  ]

  -- The scan stops where the number ends.
  scan_stop : (v : ℕ) (rest : Str) → Ends base rest → scan_digits base v rest ≡ (v, rest)
  unfolding scan_digits
  scan_stop v [] e = refl
  scan_stop v (c ∷ cs) e = elim (Option-cases (digit_value c)) [
    | inl none_there ↦ rw (none_there, scan_digits)
    | inr (d, there) ↦ rw (there, scan_digits) (rw (le→leb base d (e d there)))
  ]

  put_digits-append :
      (n u : ℕ) (tb rest : Str)
      → put_digits n base digit u tb ++ rest ≡ put_digits n base digit u (tb ++ rest)
  unfolding put_digits
  put_digits-append zero u tb rest = refl
  put_digits-append (suc n) u tb rest =
      ground (arith, put_digits-append n (u / base) (digit (u % base) ∷ tb) rest)

  -- A text that starts with a digit still does when more digits are put in front.
  put_digits-cons :
      (n u d : ℕ) (tb : Str)
      → d < base
      → (d' : ℕ) × (t : Str) × (put_digits n base digit u (digit d ∷ tb) ≡ digit d' ∷ t)
        × (d' < base)
  unfolding put_digits
  put_digits-cons zero u d tb h = (d, tb, refl, h)
  put_digits-cons (suc n) u d tb h = elim (==-cases u 0) [
    | inl (e, t) ↦ (d, tb, rw (t, put_digits), h)
    | inr (ne, t) ↦
        let (d', tb', same, small) =
          put_digits-cons n (u / base) (u % base) (digit d ∷ tb) (mod-lt u (omega arith)) in
        (d', tb', rw (t, put_digits) same, small)
  ]

  -- A text that starts with a digit has no blank and no sign in front.
  unsigned-digit :
      (d : ℕ) (t : Str)
      → d < base
      → (skip_blanks (digit d ∷ t) ≡ digit d ∷ t) × (take_sign (digit d ∷ t) ≡ (false, digit d ∷ t))
  unfolding skip_blanks take_sign digit_value
  unsigned-digit d t h = (ground (arith, valued d h), ground (arith, valued d h))

  strtol-digits :
      (neg : Bool) (d : ℕ) (t : Str)
      → d < base
      → strtol (with_sign neg (digit d ∷ t)) base
        ≡ (let (v, rest) = scan_digits base 0 (digit d ∷ t) in (neg, v, rest))
  unfolding strtol take_base take_sign skip_blanks
  strtol-digits true d t h = rw (==-ne base 0 (omega arith))
  strtol-digits false d t h =
      rw ((unsigned-digit d t h).0, strtol)
        (rw ((unsigned-digit d t h).1, strtol) (rw (==-ne base 0 (omega arith))))

  number_read :
      (neg : Bool) (n u d : ℕ) (tb : Str)
      → u < base ^ n
      → d < base
      → strtol (with_sign neg (put_digits n base digit u (digit d ∷ tb))) base
        ≡ signed_scan neg (scan_digits base u (digit d ∷ tb))
  number_read neg n u d tb h k =
      let (d', t, same, small) = put_digits-cons n u d tb k in
      ap (λ s. strtol (with_sign neg s) base) same
      ∙ strtol-digits neg d' t small
      ∙ ap (λ s. signed_scan neg (scan_digits base 0 s)) (sym same)
      ∙ ap (signed_scan neg) (scan-put_digits n u (digit d ∷ tb) h)

  -- A number whose digits fit the buffer is read back, with its sign, up to what stands behind it.
  strtol-put_digits :
      (neg : Bool) (n u : ℕ) (rest : Str)
      → u / base < base ^ n
      → Ends base rest
      → strtol
          (with_sign neg (put_digits n base digit (u / base) (digit (u % base) ∷ [])) ++ rest)
          base
        ≡ (neg, u, rest)
  strtol-put_digits neg n u rest h e =
      ap (λ s. strtol s base)
        (with_sign-append neg (put_digits n base digit (u / base) (digit (u % base) ∷ [])) rest)
      ∙ ap (λ s. strtol (with_sign neg s) base)
          (put_digits-append n (u / base) (digit (u % base) ∷ []) rest)
      ∙ number_read neg n (u / base) (u % base) rest h (mod-lt u (omega arith))
      ∙ ap (signed_scan neg) (
          scan-digit (u / base) (u % base) rest (mod-lt u (omega arith))
          ∙ ap (λ k. scan_digits base k rest) (div-add-mod' u base)
          ∙ scan_stop u rest e)

  put_digits-zero : (n : ℕ) (tb : Str) → put_digits n base digit 0 tb ≡ tb
  unfolding put_digits
  put_digits-zero zero tb = refl
  put_digits-zero (suc n) tb = refl

  put_digits_ne :
      (n u : ℕ) (tb : Str)
      → u ≢ 0
      → put_digits (suc n) base digit u tb
        ≡ put_digits n base digit (u / base) (digit (u % base) ∷ tb)
  unfolding put_digits
  put_digits_ne n u tb h = rw (==-ne u 0 h, put_digits)

  -- The buffer of vsnprintf, with its first digit made.
  number_text_lem :
      (u : ℕ)
      → digit 0 ≡ b'0'
      → number_text base digit u ≡ put_digits 23 base digit (u / base) (digit (u % base) ∷ [])
  unfolding number_text
  number_text_lem u z = elim (==-cases u 0) [
    | inl (e, t) ↦
        let quotient : u / base ≡ 0 = omega arith in
        let digit_zero : digit (u % base) ≡ b'0' = ap digit (omega arith) ∙ z in
        rw (t, number_text) (rw (quotient, digit_zero, put_digits-zero) refl)
    | inr (ne, t) ↦ rw (t, number_text) (put_digits_ne 23 u [] ne)
  ]

  pub strtol-number_text :
      (neg : Bool) (u : ℕ) (rest : Str)
      → digit 0 ≡ b'0'
      → u / base < base ^ 23
      → Ends base rest
      → strtol (with_sign neg (number_text base digit u) ++ rest) base ≡ (neg, u, rest)
  strtol-number_text neg u rest z h e =
      ap (λ t. strtol (with_sign neg t ++ rest) base) (number_text_lem u z)
      ∙ strtol-put_digits neg 23 u rest h e

signed-lt : (x : ℕ) → x < 2 ^ 64 → (signed 64 x).1 / 10 < 10 ^ 22
signed-lt x h = elim (Bool-cases (leb (2 ^ 63) x)) [
  | inl t ↦ rw t (omega arith)
  | inr t ↦ rw t (omega arith)
]

-- What puti writes for a 64-bit word other than 2^63, the bits of the smallest long, is read by strtol in
-- base 10 as the signed number of the word, up to what stands behind it, if that does not start with a
-- digit.
pub strtol-puti :
    (x : ℕ) (rest : Str)
    → x < 2 ^ 64
    → x ≢ 2 ^ 63
    → Ends 10 rest
    → strtol (puti x ++ rest) 10 ≡ ((signed 64 x).0, (signed 64 x).1, rest)
unfolding puti
strtol-puti x rest h smallest e =
    strtol-put_digits 10 dec_digit (omega arith) dec_valued (signed 64 x).0 22 (signed 64 x).1 rest
      (signed-lt x h) e
