-- ===== src/Noxlib/Format/Text.antt =====
-- About vsnprintf of src/lib/noxlib/noxlib.h: the text of a format, without bounds and rounds.
use noxis.Prelude.{
  ℕ, zero, suc, ◌+◌, ◌-◌, ◌*◌, ◌≤◌, ◌<◌, ◌≡◌, inl, inr, refl, ap, ◌∙◌, Bool, true, false, List, [],
  ◌∷◌, ◌++◌, none, some, arith,
}
use noxis.Prelude.{length, take, ◌==◌, Bool-cases, Option-cases}
use noxis.Paths.{Str}
use noxis.Noxlib.Format.{
  Arg, Directive, directive, put, put_directive, format_loop, vsnprintf, take_flags, take_width,
  take_longs,
}
use noxis.Noxlib.Format.{format_loop}
use noxis.Noxlib.Format.Whole.{directive_text, prepend, format_text, cut, vsnprintf-cut}

-- `Runs fmt args t`: the text t that the directives of a format give one after the other.
pub data Runs : Str → List Arg → Str → Type 0 where
  ended : {args : List Arg} → Runs [] args []
  literal :
      {c : ℕ} {cs : Str} {args : List Arg} {t : Str}
      → (c == b'%') ≡ false
      → Runs cs args t
      → Runs (c ∷ cs) args (c ∷ t)
  stopped :
      {c : ℕ} {cs : Str} {args : List Arg}
      → (c == b'%') ≡ true
      → directive cs ≡ none
      → Runs (c ∷ cs) args []
  field :
      {c : ℕ} {cs rest : Str} {d : Directive} {args left_over : List Arg} {x t : Str}
      → (c == b'%') ≡ true
      → directive cs ≡ some (d, rest)
      → directive_text d args ≡ some (x, left_over)
      → Runs rest left_over t
      → Runs (c ∷ cs) args (x ++ t)

take_flags-le : (l z : Bool) (s : Str) → length (take_flags l z s).2 ≤ length s
unfolding take_flags
take_flags-le l z [] = omega arith
take_flags-le l z (c ∷ cs) = ground (arith, take_flags-le true z cs, take_flags-le l true cs)

take_width-le : (w : ℕ) (s : Str) → length (take_width w s).1 ≤ length s
unfolding take_width
take_width-le w [] = omega arith
take_width-le w (c ∷ cs) = ground (arith, take_width-le (w * 10 + (c - b'0')) cs)

take_longs-le : (n : ℕ) (s : Str) → length (take_longs n s).1 ≤ length s
unfolding take_longs
take_longs-le n [] = omega arith
take_longs-le n (c ∷ cs) = ground (arith, take_longs-le (n + 1) cs)

-- A directive takes at least one byte.
directive-lt :
    (s : Str) {d : Directive} {rest : Str} → directive s ≡ some (d, rest) → length rest < length s
unfolding directive
directive-lt s {d} {rest} h =
    let flags = (take_flags false false s).2 in
    let wide = (take_width 0 flags).1 in
    ground (arith, take_flags-le false false s, take_width-le 0 flags, take_longs-le 0 wide)

-- As many rounds as there are bytes are enough: one more changes nothing.
pub format_loop-enough :
    (n lim : ℕ) (fmt : Str) (args : List Arg) (b : Str)
    → length fmt ≤ n
    → format_loop (suc n) lim fmt args b ≡ format_loop n lim fmt args b
unfolding format_loop
format_loop-enough zero lim [] args b h = refl
format_loop-enough (suc n) lim [] args b h = refl
format_loop-enough zero lim (c ∷ cs) args b h = absurd (omega arith)
format_loop-enough (suc n) lim (c ∷ cs) args b h = elim (Bool-cases (c == b'%')) [
  | inr e ↦ rw (e, format_loop) (format_loop-enough n lim cs args (put lim c b) (omega arith))
  | inl e ↦ elim (Option-cases (directive cs)) [
    | inl f ↦ rw (e, format_loop) (rw f refl)
    | inr ((d, rest), f) ↦ elim (Option-cases (put_directive lim d args b)) [
      | inl g ↦ rw (e, format_loop) (rw f (rw g refl))
      | inr ((b', left_over), g) ↦
          rw (e, format_loop)
            (rw f (
              rw g (format_loop-enough n lim rest left_over b' (omega (arith, directive-lt cs f)))))
    ]
  ]
]

format_text-Runs :
    {fmt : Str} {args : List Arg} {t : Str} (n : ℕ)
    → length fmt ≤ n
    → Runs fmt args t
    → format_text n fmt args ≡ some t
unfolding format_text
format_text-Runs zero h ended = refl
format_text-Runs (suc n) h ended = refl
format_text-Runs zero h (literal e f) = absurd (omega arith)
format_text-Runs zero h (stopped e f) = absurd (omega arith)
format_text-Runs zero h (field e f g k) = absurd (omega arith)
format_text-Runs (suc n) h (literal {c = c} e f) =
    rw (e, format_text) (ap (prepend (c ∷ [])) (format_text-Runs n (omega arith) f))
format_text-Runs (suc n) h (stopped e f) = rw (e, format_text) (rw f refl)
format_text-Runs (suc n) h (field {cs = cs} {x = x} e f g k) =
    rw (e, format_text)
      (rw f (rw g (ap (prepend x) (format_text-Runs n (omega (arith, directive-lt cs f)) k))))

-- Into a buffer of at least one byte, vsnprintf puts such a text, cut to the bytes that leave room for the
-- NUL.
pub vsnprintf-Runs :
    (sz : ℕ) {fmt : Str} {args : List Arg} {t : Str}
    → 0 < sz
    → Runs fmt args t
    → vsnprintf sz fmt args ≡ some (take (sz - 1) t)
vsnprintf-Runs sz {fmt} {args} l f =
    vsnprintf-cut sz fmt args l ∙ ap (cut (sz - 1)) (format_text-Runs (length fmt) (omega arith) f)
