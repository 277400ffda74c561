-- ===== src/Noxlib/Format/Spelled.antt =====
-- How a directive of a format is spelled, and that vsnprintf of src/lib/noxlib/noxlib.h reads it so.
use noxis.Prelude.{
  ℕ, zero, suc, ◌+◌, ◌-◌, ◌*◌, ◌^◌, ◌<◌, ◌≡◌, refl, sym, ap, ◌∙◌, Bool, true, false, List, [], ◌∷◌,
  ◌++◌, Option, none, some, arith,
}
use noxis.Prelude.{◌==◌, ◌||◌, replicate}
use noxis.Paths.{Str}
use noxis.Tools.Text.{is_digit}
use noxis.Noxlib.Format.{Directive, directive, take_flags, take_width, take_longs}

-- The flags '-' and '0'.
pub data Flag : Type 0 where
  dash nought : Flag

pub record Spec : Type 0 where
  pub flags : List Flag
  pub digits : List ℕ
  pub longs : ℕ

abbrev pub flag_bytes : List Flag → Str → Str
flag_bytes [] rest = rest
flag_bytes (dash ∷ fs) rest = b'-' ∷ flag_bytes fs rest
flag_bytes (nought ∷ fs) rest = b'0' ∷ flag_bytes fs rest

abbrev pub digit_bytes : List ℕ → Str → Str
digit_bytes [] rest = rest
digit_bytes (d ∷ ds) rest = (b'0' + d) ∷ digit_bytes ds rest

-- The flags, the width in decimal, the letters 'l' and the conversion, in front of the rest.
abbrev pub spelled : Spec → ℕ → Str → Str
spelled s c rest = flag_bytes s.flags (digit_bytes s.digits (replicate s.longs b'l' ++ c ∷ rest))

abbrev pub has_dash : List Flag → Bool
has_dash [] = false
has_dash (dash ∷ fs) = true
has_dash (nought ∷ fs) = has_dash fs

abbrev pub has_nought : List Flag → Bool
has_nought [] = false
has_nought (dash ∷ fs) = has_nought fs
has_nought (nought ∷ fs) = true

-- The number that the digits write behind `v`.
abbrev pub value : ℕ → List ℕ → ℕ
value v [] = v
value v (d ∷ ds) = value (v * 10 + d) ds

-- Decimal digits.
abbrev pub AreDigits : List ℕ → Type 0
AreDigits [] = Unit
AreDigits (d ∷ ds) = (d < 10) × AreDigits ds

-- The first is not 0, which would be a flag.
abbrev pub StartsAbove : List ℕ → Type 0
StartsAbove [] = Unit
StartsAbove (d ∷ ds) = 0 < d

-- The width fits an int.
pub record IsSpec (s : Spec) : Type 0 where
  pub are_digits : AreDigits s.digits
  pub starts_above : StartsAbove s.digits
  pub small : value 0 s.digits < 2 ^ 31

-- The byte of a conversion: no flag, no digit, no 'l'.
pub record IsConversion (c : ℕ) : Type 0 where
  pub no_dash : (c == b'-') ≡ false
  pub no_digit : is_digit c ≡ false
  pub no_long : (c == b'l') ≡ false

abbrev pub directive_of : Spec → ℕ → Directive
directive_of s c = record {
  left = has_dash s.flags;
  zeros = has_nought s.flags;
  width = value 0 s.digits;
  longs = s.longs;
  conv = c;
}

or_true : (b : Bool) → true ≡ (b || true)
or_true true = refl
or_true false = refl

flags_read :
    (fs : List Flag) (left zeros : Bool) (c : ℕ) (rest : Str)
    → (c == b'-') ≡ false
    → (c == b'0') ≡ false
    → take_flags left zeros (flag_bytes fs (c ∷ rest))
      ≡ (left || has_dash fs, zeros || has_nought fs, c ∷ rest)
unfolding take_flags
flags_read [] true true c rest d n = rw (d, n, take_flags) refl
flags_read [] true false c rest d n = rw (d, n, take_flags) refl
flags_read [] false true c rest d n = rw (d, n, take_flags) refl
flags_read [] false false c rest d n = rw (d, n, take_flags) refl
flags_read (dash ∷ fs) left zeros c rest d n =
    flags_read fs true zeros c rest d n
    ∙ ap (λ (b : Bool). (b, zeros || has_nought fs, c ∷ rest)) (or_true left)
flags_read (nought ∷ fs) left zeros c rest d n =
    flags_read fs left true c rest d n
    ∙ ap (λ (b : Bool). (left || has_dash fs, b, c ∷ rest)) (or_true zeros)

width_read :
    (ds : List ℕ) (v c : ℕ) (rest : Str)
    → AreDigits ds
    → is_digit c ≡ false
    → take_width v (digit_bytes ds (c ∷ rest)) ≡ (value v ds, c ∷ rest)
unfolding take_width
width_read [] v c rest a n = rw (n, take_width) refl
width_read (d ∷ ds) v c rest a n =
    let is : is_digit (b'0' + d) ≡ true = ground (arith, a.0) in
    let same : b'0' + d - b'0' ≡ d = omega arith in
    rw (is, same, take_width) (width_read ds (v * 10 + d) c rest a.1 n)

longs_read :
    (k n c : ℕ) (rest : Str)
    → (c == b'l') ≡ false
    → take_longs n (replicate k b'l' ++ c ∷ rest) ≡ (n + k, c ∷ rest)
unfolding take_longs
longs_read zero n c rest e =
    let same : n ≡ n + 0 = omega arith in rw (e, take_longs) (ap (λ k. (k, c ∷ rest)) same)
longs_read (suc k) n c rest e =
    let same : n + 1 + k ≡ n + suc k = omega arith in
    longs_read k (n + 1) c rest e ∙ ap (λ k. (k, c ∷ rest)) same

digit_not_l : is_digit b'l' ≡ false
digit_not_l = refl

-- What stands behind the width, and behind the flags, as its first byte and the rest.
behind_width :
    (k c : ℕ) (rest : Str)
    → IsConversion c
    → (x : ℕ) × (xs : Str) × (replicate k b'l' ++ c ∷ rest ≡ x ∷ xs)
      × (is_digit x ≡ false)
      × ((x == b'-') ≡ false)
behind_width zero c rest v = (c, rest, refl, v.no_digit, v.no_dash)
behind_width (suc k) c rest v = (b'l', replicate k b'l' ++ c ∷ rest, refl, refl, refl)

abbrev behind_longs : Bool → Bool → ℕ → ℕ × Str → Option (Directive × Str)
behind_longs l z w p = elim p.1 [
  | [] ↦ none
  | c ∷ cs ↦ some (record { left = l; zeros = z; width = w; longs = p.0; conv = c }, cs)
]

abbrev behind_digits : Bool → Bool → ℕ × Str → Option (Directive × Str)
behind_digits l z p = behind_longs l z p.0 (take_longs 0 p.1)

abbrev behind_flags : Bool × Bool × Str → Option (Directive × Str)
behind_flags p = behind_digits p.0 p.1 (take_width 0 p.2)

directive_steps :
    (s : Str) {t u rest : Str} {l z : Bool} {w n k c : ℕ}
    → take_flags false false s ≡ (l, z, t)
    → take_width 0 t ≡ (w, u)
    → take_longs 0 u ≡ (n, c ∷ rest)
    → n ≡ k
    → directive s ≡ some (record { left = l; zeros = z; width = w; longs = k; conv = c }, rest)
unfolding directive
directive_steps s {rest = rest} {l = l} {z = z} {w = w} {c = c} e f g h =
    ap behind_flags e
    ∙ ap (behind_digits l z) f
    ∙ ap (behind_longs l z w) (g ∙ ap (λ (i : ℕ). (i, c ∷ rest)) h)

pub directive-spelled :
    (s : Spec) (c : ℕ) (rest : Str)
    → IsSpec s
    → IsConversion c
    → directive (spelled s c rest) ≡ some (directive_of s c, rest)
directive-spelled s c rest v w =
    let (x, xs, e, digit, minus) = behind_width s.longs c rest w in
    let flags = read_flags s.digits v.are_digits v.starts_above x xs digit minus in
    directive_steps (spelled s c rest)
      (ap (λ l. take_flags false false (flag_bytes s.flags (digit_bytes s.digits l))) e ∙ flags)
      (width_read s.digits 0 x xs v.are_digits digit)
      (sym (ap (take_longs 0) e) ∙ longs_read s.longs 0 c rest w.no_long) (omega arith)
  where
    read_flags :
        (ds : List ℕ)
        → AreDigits ds
        → StartsAbove ds
        → (x : ℕ) (xs : Str) → is_digit x ≡ false
        → (x == b'-') ≡ false
        → take_flags false false (flag_bytes s.flags (digit_bytes ds (x ∷ xs)))
          ≡ (has_dash s.flags, has_nought s.flags, digit_bytes ds (x ∷ xs))
    read_flags [] a p x xs n m = flags_read s.flags false false x xs m (ground (arith, n))
    read_flags (d ∷ ds) a p x xs n m =
        flags_read s.flags false false (b'0' + d) (digit_bytes ds (x ∷ xs)) (ground (arith, a.0))
          (ground (arith, p))
