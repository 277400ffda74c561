-- ===== src/Noxlib/Format/Numeral.antt =====
-- The digits that vsnprintf of src/lib/noxlib/noxlib.h prints are the numeral of the number.
use noxis.Prelude.{
  ℕ, zero, suc, ◌+◌, ◌*◌, ◌/◌, ◌%◌, ◌^◌, ◌<◌, ◌≤◌, ◌≡◌, refl, sym, ap, ◌∙◌, inl, inr, [], ◌∷◌, ◌++◌,
  arith,
}
use noxis.Prelude.{get_or, ==-cases, ==-ne}
use mathlib.Core.List.{append_assoc, append-nil}
use native.Mathlib.Nat.{pow-suc, pow-zero, div-lt_iff_lt-mul}
use noxis.Paths.{Str}
use noxis.Noxlib.Number.{put_digits, number_text, dec_digit, hex_digit, hex_digit_upper}

abbrev pub decimal : Str
decimal = b'0' ∷ b'1' ∷ b'2' ∷ b'3' ∷ b'4' ∷ b'5' ∷ b'6' ∷ b'7' ∷ b'8' ∷ b'9' ∷ []

abbrev pub hexadecimal : Str
hexadecimal =
    b'0' ∷ b'1' ∷ b'2' ∷ b'3' ∷ b'4' ∷ b'5' ∷ b'6' ∷ b'7' ∷ b'8' ∷ b'9' ∷ b'a' ∷ b'b' ∷ b'c' ∷ b'd'
    ∷ b'e' ∷ b'f' ∷ []

abbrev pub capital : Str
capital =
    b'0' ∷ b'1' ∷ b'2' ∷ b'3' ∷ b'4' ∷ b'5' ∷ b'6' ∷ b'7' ∷ b'8' ∷ b'9' ∷ b'A' ∷ b'B' ∷ b'C' ∷ b'D'
    ∷ b'E' ∷ b'F' ∷ []

-- The text is the numeral of the number in the base, without a zero in front.
pub data Numeral (base : ℕ) (digits : Str) : ℕ → Str → Type 0 where
  one_digit : {v : ℕ} → v < base → Numeral base digits v (get_or digits v 0 ∷ [])
  more_digits :
      {u v d : ℕ} {t : Str}
      → 0 < u
      → d < base
      → v ≡ u * base + d
      → Numeral base digits u t
      → Numeral base digits v (t ++ get_or digits d 0 ∷ [])

put_nothing :
    (n base : ℕ) (digit : ℕ → ℕ) (v : ℕ) (tb : Str) → v ≡ 0 → put_digits n base digit v tb ≡ tb
unfolding put_digits
put_nothing zero base digit v tb e = refl
put_nothing (suc n) base digit v tb e = rw (e, put_digits) refl

put_step :
    (n base : ℕ) (digit : ℕ → ℕ) (v : ℕ) (tb : Str)
    → 0 < v
    → put_digits (suc n) base digit v tb
      ≡ put_digits n base digit (v / base) (digit (v % base) ∷ tb)
unfolding put_digits
put_step n base digit v tb l = rw (==-ne v 0 (omega (arith, l)), put_digits) refl

module _ (base : ℕ) (two : 2 ≤ base) (digits : Str) (digit : ℕ → ℕ)
    (same : (d : ℕ) → d < base → digit d ≡ get_or digits d 0)
    (quotient : (u d : ℕ) → d < base → (u * base + d) / base ≡ u)
    (remainder : (u d : ℕ) → d < base → (u * base + d) % base ≡ d)
    (of_small : (d : ℕ) → d < base → (d / base ≡ 0) × (d % base ≡ d)) where
  put_digits-Numeral :
      (n v : ℕ) {t : Str} (tb : Str)
      → 0 < v
      → v < base ^ n
      → Numeral base digits v t
      → put_digits n base digit v tb ≡ t ++ tb
  put_digits-Numeral zero v tb p l m = absurd (omega (arith, p, l, pow-zero base))
  put_digits-Numeral (suc n) v tb p l (one_digit h) =
      put_step n base digit v tb p
      ∙ put_nothing n base digit (v / base) _ (of_small v h).0
      ∙ ap (λ d. digit d ∷ tb) (of_small v h).1
      ∙ ap (λ c. c ∷ tb) (same v h)
  put_digits-Numeral (suc n) v tb p l (more_digits {u = u} {d = d} {t = t} some_u h e m) =
      let over : v / base ≡ u = ap (λ k. k / base) e ∙ quotient u d h in
      let under : v % base ≡ d = ap (λ k. k % base) e ∙ remainder u d h in
      let smaller : v / base < base ^ n =
        (div-lt_iff_lt-mul (omega (arith, two))).1 (rw (← pow-suc) l) in
      put_step n base digit v tb p
      ∙ ap (λ k. put_digits n base digit k (digit (v % base) ∷ tb)) over
      ∙ put_digits-Numeral n u (digit (v % base) ∷ tb) some_u (rw over at smaller) m
      ∙ ap (λ k. t ++ digit k ∷ tb) under
      ∙ ap (λ c. t ++ c ∷ tb) (same d h)
      ∙ sym (append_assoc t (get_or digits d 0 ∷ []) tb)

  pub number_text-Numeral :
      (v : ℕ) {t : Str}
      → get_or digits 0 0 ≡ b'0'
      → v < base ^ 24
      → Numeral base digits v t
      → number_text base digit v ≡ t
  unfolding number_text
  number_text-Numeral v z l (one_digit h) = elim (==-cases v 0) [
    | inl (e, b) ↦
        rw (b, number_text) (sym (ap (λ k. get_or digits k 0 ∷ []) e ∙ ap (λ c. c ∷ []) z))
    | inr (ne, b) ↦
        rw (b, number_text) (put_digits-Numeral 24 v [] (omega (arith, ne)) l (one_digit h))
  ]
  number_text-Numeral v z l (more_digits {u = u} {d = d} {t = t} some_u h e m) =
      elim (==-cases v 0) [
        | inl (zero_v, b) ↦
            let none_u : u ≡ 0 =
              sym (ap (λ k. k / base) (sym zero_v ∙ e) ∙ quotient u d h)
              ∙ (of_small 0 (omega (arith, two))).0 in
            absurd (omega (arith, none_u, some_u))
        | inr (ne, b) ↦
            rw (b, number_text)
              (put_digits-Numeral 24 v [] (omega (arith, ne)) l (more_digits some_u h e m)
                ∙ append-nil (t ++ get_or digits d 0 ∷ []))
      ]

pub decimal_lem :
    (v : ℕ) {t : Str} → v < 2 ^ 64 → Numeral 10 decimal v t → number_text 10 dec_digit v ≡ t
decimal_lem v l m =
    number_text-Numeral 10 (omega arith) decimal dec_digit decimal_digit (λ u d h. omega arith)
      (λ u d h. omega arith) (λ d h. (omega arith, omega arith)) v refl (omega (arith, l)) m
  where
    decimal_digit : (d : ℕ) → d < 10 → dec_digit d ≡ get_or decimal d 0
    decimal_digit zero h = refl
    decimal_digit (suc zero) h = refl
    decimal_digit (suc (suc zero)) h = refl
    decimal_digit (suc (suc (suc zero))) h = refl
    decimal_digit (suc (suc (suc (suc zero)))) h = refl
    decimal_digit (suc (suc (suc (suc (suc zero))))) h = refl
    decimal_digit (suc (suc (suc (suc (suc (suc zero)))))) h = refl
    decimal_digit (suc (suc (suc (suc (suc (suc (suc zero))))))) h = refl
    decimal_digit (suc (suc (suc (suc (suc (suc (suc (suc zero)))))))) h = refl
    decimal_digit (suc (suc (suc (suc (suc (suc (suc (suc (suc zero))))))))) h = refl
    decimal_digit (suc (suc (suc (suc (suc (suc (suc (suc (suc (suc d)))))))))) h =
        absurd (omega arith)

pub hexadecimal_lem :
    (v : ℕ) {t : Str} → v < 2 ^ 64 → Numeral 16 hexadecimal v t → number_text 16 hex_digit v ≡ t
hexadecimal_lem v l m =
    number_text-Numeral 16 (omega arith) hexadecimal hex_digit (λ d h. refl) (λ u d h. omega arith)
      (λ u d h. omega arith) (λ d h. (omega arith, omega arith)) v refl (omega (arith, l)) m

pub capital_lem :
    (v : ℕ) {t : Str} → v < 2 ^ 64 → Numeral 16 capital v t → number_text 16 hex_digit_upper v ≡ t
capital_lem v l m =
    number_text-Numeral 16 (omega arith) capital hex_digit_upper (λ d h. refl)
      (λ u d h. omega arith) (λ u d h. omega arith) (λ d h. (omega arith, omega arith)) v refl
      (omega (arith, l)) m
