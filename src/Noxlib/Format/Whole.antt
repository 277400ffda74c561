-- ===== src/Noxlib/Format/Whole.antt =====
-- vsnprintf against a formatter with no bound: what does not fit the buffer is cut off.
use noxis.Prelude.{
  ℕ, zero, suc, ◌-◌, ◌<◌, ◌≡◌, inl, inr, refl, sym, ap, ◌∙◌, true, false, not, List, [], ◌∷◌, ◌++◌,
  Option, none, some, arith,
}
use mathlib.Core.List.{append-nil, append_assoc}
use noxis.Prelude.{
  length, take, drop, get_or, replicate, ltb, ◌==◌, ◌&&◌, if◌then◌else◌, Bool-cases, Option-cases,
  ==-ne,
}
use noxis.Paths.{Str}
use noxis.Noxlib.Format.{
  Arg, word, string, Directive, directive, put, put_all, blanks, put_string, put_field, word_text,
  is_word, other_text, or_null, put_string_arg, put_word_arg, put_directive, format_loop, vsnprintf,
}

-- A text at its width, after a format's directive.
unfoldable pub string_text : Directive → Str → Str
string_text d s =
    if ltb (length s) d.width
    then (if d.left then s ++ blanks (d.width - length s) else blanks (d.width - length s) ++ s)
    else s

unfoldable pub field_text : Directive → Str → Str
field_text d tmp =
    let gap = d.width - length tmp in
    if not d.left && ltb (length tmp) d.width
    then (if d.zeros && get_or tmp 0 0 == b'-'
        then b'-' ∷ replicate gap b'0' ++ drop 1 tmp
        else replicate gap (if d.zeros then b'0' else b' ') ++ tmp)
    else if d.left && ltb (length tmp) d.width
    then tmp ++ blanks gap
    else tmp

unfoldable pub string_arg_text : Directive → List Arg → Option (Str × List Arg)
string_arg_text d (string s ∷ args) = some (string_text d (or_null s), args)
string_arg_text d args = none

unfoldable pub word_arg_text : Directive → List Arg → Option (Str × List Arg)
word_arg_text d (word w ∷ args) = elim (word_text d w) [
  | none ↦ none
  | some tmp ↦ some (field_text d tmp, args)
]
word_arg_text d args = none

unfoldable pub directive_text : Directive → List Arg → Option (Str × List Arg)
unfolding string_arg_text word_arg_text
directive_text d args =
    if d.conv == b's'
    then string_arg_text d args
    else if is_word d.conv
    then word_arg_text d args
    else some (field_text d (other_text d), args)

abbrev pub prepend : Str → Option Str → Option Str
prepend t none = none
prepend t (some s) = some (t ++ s)

-- The whole text of a format.
unfoldable pub format_text : ℕ → Str → List Arg → Option Str
format_text n [] args = some []
format_text zero (c ∷ cs) args = none
format_text (suc n) (c ∷ cs) args = elim (c == b'%') [
  | false ↦ prepend (c ∷ []) (format_text n cs args)
  | true ↦ elim (directive cs) [
    | none ↦ some []
    | some (d, rest) ↦ elim (directive_text d args) [
      | none ↦ none
      | some (t, left_over) ↦ prepend t (format_text n rest left_over)
    ]
  ]
]

abbrev pub cut : ℕ → Option Str → Option Str
cut lim none = none
cut lim (some t) = some (take lim t)

take-nil : (n : ℕ) → take {A = ℕ} n [] ≡ []
take-nil zero = refl
take-nil (suc n) = refl

put-take : (lim c : ℕ) (t : Str) → put lim c (take lim t) ≡ take lim (t ++ c ∷ [])
put-take zero c t = refl
put-take (suc n) c [] = ground (arith, take-nil n)
put-take (suc n) c (x ∷ t) = ground (arith, put-take n c t)

put_all-take : (lim : ℕ) (xs t : Str) → put_all lim xs (take lim t) ≡ take lim (t ++ xs)
unfolding put_all
put_all-take lim [] t = ap (take lim) (sym (append-nil t))
put_all-take lim (c ∷ cs) t =
    ap (put_all lim cs) (put-take lim c t)
    ∙ put_all-take lim cs (t ++ c ∷ [])
    ∙ ap (take lim) (append_assoc t (c ∷ []) cs)

-- Two loops, one after the other.
put_both :
    (lim : ℕ) (xs ys t : Str)
    → put_all lim ys (put_all lim xs (take lim t)) ≡ take lim (t ++ (xs ++ ys))
put_both lim xs ys t =
    ap (put_all lim ys) (put_all-take lim xs t)
    ∙ put_all-take lim ys (t ++ xs)
    ∙ ap (take lim) (append_assoc t xs ys)

-- A full buffer stays as it is.
take_full :
    (lim : ℕ) (t xs : Str) → ltb (length (take lim t)) lim ≡ false → take lim (t ++ xs) ≡ take lim t
take_full zero t xs h = refl
take_full (suc n) [] xs h = ground arith
take_full (suc n) (x ∷ t) xs h = ap (x ∷◌) (take_full n t xs (ground arith))

put_string-take :
    (lim : ℕ) (d : Directive) (s t : Str)
    → put_string lim d s (take lim t) ≡ take lim (t ++ string_text d s)
unfolding put_string string_text
put_string-take lim d s t = elim (Bool-cases (ltb (length s) d.width)) [
  | inl wide ↦ elim (Bool-cases d.left) [
    | inl l ↦ rw (wide, l) (put_both lim s (blanks (d.width - length s)) t)
    | inr l ↦ rw (wide, l) (put_both lim (blanks (d.width - length s)) s t)
  ]
  | inr narrow ↦ elim (Bool-cases d.left) [
    | inl l ↦ rw (narrow, l) (put_all-take lim s t)
    | inr l ↦ rw (narrow, l) (put_all-take lim s t)
  ]
]

put_field-take :
    (lim : ℕ) (d : Directive) (tmp t : Str)
    → put_field lim d tmp (take lim t) ≡ take lim (t ++ field_text d tmp)
unfolding put_field field_text
put_field-take lim d tmp t = elim (Bool-cases (not d.left && ltb (length tmp) d.width)) [
  | inl wide ↦ elim (Bool-cases (d.zeros && get_or tmp 0 0 == b'-')) [
    | inl minus ↦ elim (Bool-cases (ltb (length (take lim t)) lim)) [
      | inl room ↦
          rw (wide, minus, room)
            (ap (λ b. put_all lim (drop 1 tmp) (put_all lim zeros b))
                (rw room at (put-take lim b'-' t))
              ∙ put_both lim zeros (drop 1 tmp) (t ++ b'-' ∷ [])
              ∙ ap (take lim) (append_assoc t (b'-' ∷ []) (zeros ++ drop 1 tmp)))
      | inr full ↦
          rw (wide, minus, full)
            (put_both lim fill tmp t
              ∙ take_full lim t (fill ++ tmp) full
              ∙ sym (take_full lim t (b'-' ∷ zeros ++ drop 1 tmp) full))
    ]
    | inr plus ↦ rw (wide, plus) (put_both lim fill tmp t)
  ]
  | inr narrow ↦ elim (Bool-cases (d.left && ltb (length tmp) d.width)) [
    | inl behind ↦ rw (narrow, behind) (put_both lim tmp (blanks (d.width - length tmp)) t)
    | inr exact ↦ rw (narrow, exact) (put_all-take lim tmp t)
  ]
]
  where
    zeros : Str
    zeros = replicate (d.width - length tmp) b'0'

    fill : Str
    fill = replicate (d.width - length tmp) (if d.zeros then b'0' else b' ')

-- A directive puts its text, as far as there is room.
put_result : ℕ → Str → Option (Str × List Arg) → Option (Str × List Arg)
put_result lim t none = none
put_result lim t (some (x, args)) = some (take lim (t ++ x), args)

put_string_arg-take :
    (lim : ℕ) (d : Directive) (args : List Arg) (t : Str)
    → put_string_arg lim d args (take lim t) ≡ put_result lim t (string_arg_text d args)
unfolding put_string_arg string_arg_text put_result
put_string_arg-take lim d (string s ∷ args) t =
    ap (λ x. some (x, args)) (put_string-take lim d (or_null s) t)
put_string_arg-take lim d [] t = refl
put_string_arg-take lim d (word w ∷ args) t = refl

put_word_arg-take :
    (lim : ℕ) (d : Directive) (args : List Arg) (t : Str)
    → put_word_arg lim d args (take lim t) ≡ put_result lim t (word_arg_text d args)
unfolding put_word_arg word_arg_text put_result
put_word_arg-take lim d (word w ∷ args) t = elim (Option-cases (word_text d w)) [
  | inl e ↦ rw (e, put_word_arg, word_arg_text) refl
  | inr (tmp, e) ↦
      rw (e, put_word_arg, word_arg_text) (ap (λ x. some (x, args)) (put_field-take lim d tmp t))
]
put_word_arg-take lim d [] t = refl
put_word_arg-take lim d (string s ∷ args) t = refl

put_directive-take :
    (lim : ℕ) (d : Directive) (args : List Arg) (t : Str)
    → put_directive lim d args (take lim t) ≡ put_result lim t (directive_text d args)
unfolding put_directive directive_text put_result
put_directive-take lim d args t = elim (Bool-cases (d.conv == b's')) [
  | inl e ↦ rw e (put_string_arg-take lim d args t)
  | inr e ↦ elim (Bool-cases (is_word d.conv)) [
    | inl w ↦ rw (e, w) (put_word_arg-take lim d args t)
    | inr w ↦ rw (e, w) (ap (λ x. some (x, args)) (put_field-take lim d (other_text d) t))
  ]
]

cut-prepend :
    (lim : ℕ) (t x : Str) (o : Option Str)
    → cut lim (prepend (t ++ x) o) ≡ cut lim (prepend t (prepend x o))
cut-prepend lim t x none = refl
cut-prepend lim t x (some s) = ap (λ y. some (take lim y)) (append_assoc t x s)

format_loop-take :
    (n lim : ℕ) (fmt : Str) (args : List Arg) (t : Str)
    → format_loop n lim fmt args (take lim t) ≡ cut lim (prepend t (format_text n fmt args))
unfolding format_loop format_text put_result
format_loop-take zero lim [] args t = ap (λ y. some (take lim y)) (sym (append-nil t))
format_loop-take (suc n) lim [] args t = ap (λ y. some (take lim y)) (sym (append-nil t))
format_loop-take zero lim (c ∷ cs) args t = refl
format_loop-take (suc n) lim (c ∷ cs) args t = elim (Bool-cases (c == b'%')) [
  | inr e ↦
      rw (e, format_loop, format_text)
        (ap (format_loop n lim cs args) (put-take lim c t)
          ∙ format_loop-take n lim cs args (t ++ c ∷ [])
          ∙ cut-prepend lim t (c ∷ []) (format_text n cs args))
  | inl e ↦ elim (Option-cases (directive cs)) [
    | inl f ↦
        rw (e, format_loop, format_text) (rw f (ap (λ y. some (take lim y)) (sym (append-nil t))))
    | inr ((d, rest), f) ↦ elim (Option-cases (directive_text d args)) [
      | inl g ↦
          rw (e, format_loop, format_text)
            (rw f (rw (put_directive-take lim d args t) (rw (g, put_result) refl)))
      | inr ((x, left_over), g) ↦
          rw (e, format_loop, format_text)
            (rw f (
              rw (put_directive-take lim d args t) (
                rw (g, put_result)
                  (format_loop-take n lim rest left_over (t ++ x)
                    ∙ cut-prepend lim t x (format_text n rest left_over)))))
    ]
  ]
]

-- vsnprintf into a buffer of at least one byte puts what as many rounds give of the text of the format,
-- cut to the bytes that leave room for the NUL.
pub vsnprintf-cut :
    (sz : ℕ) (fmt : Str) (args : List Arg)
    → 0 < sz
    → vsnprintf sz fmt args ≡ cut (sz - 1) (format_text (length fmt) fmt args)
unfolding vsnprintf
vsnprintf-cut sz fmt args h = rw (==-ne sz 0 (omega arith)) (
    ap (format_loop (length fmt) (sz - 1) fmt args) (sym (take-nil (sz - 1)))
    ∙ format_loop-take (length fmt) (sz - 1) fmt args []
    ∙ ap (cut (sz - 1)) (prepend-nil (format_text (length fmt) fmt args)))
  where
    prepend-nil : (o : Option Str) → prepend [] o ≡ o
    prepend-nil none = refl
    prepend-nil (some s) = refl
