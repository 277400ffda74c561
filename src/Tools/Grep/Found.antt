-- ===== src/Tools/Grep/Found.antt =====
-- About the lines that grep finds, in src/bin/grep/grep.c, and strstr of src/lib/noxlib/noxlib.h.
use noxis.Prelude.{
  ℕ, ◌≡◌, ◌↔◌, refl, sym, ap, ◌∙◌, inl, inr, arith, Bool, true, false, none, some, [], ◌∷◌, ◌++◌,
}
use noxis.Prelude.{==-cases, ==-self, Bool-cases, if◌then◌else◌}
use mathlib.Core.Path.{ap₂}
use noxis.Paths.{Str}
use noxis.Tools.Text.{starts_with, strstr}
use noxis.Tools.Grep.{matches_line}

starts_on : (x : ℕ) (xs ns : Str) → starts_with (x ∷ xs) (x ∷ ns) ≡ starts_with xs ns
unfolding starts_with
starts_on x xs ns = rw (==-self x) refl

starts_with-append : (pat back : Str) → starts_with (pat ++ back) pat ≡ true
unfolding starts_with
starts_with-append [] back = refl
starts_with-append (n ∷ ns) back = starts_on n (ns ++ back) ns ∙ starts_with-append ns back

starts_with-split : (h pat : Str) → starts_with h pat ≡ true → (back : Str) × (h ≡ pat ++ back)
unfolding starts_with
starts_with-split h [] e = (h, refl)
starts_with-split [] (n ∷ ns) e = absurd (ground (arith, e))
starts_with-split (x ∷ xs) (n ∷ ns) e = elim (==-cases x n) [
  | inl (same, b) ↦
      let rest : starts_with xs ns ≡ true =
        sym (ap (λ z. if z then starts_with xs ns else false) b) ∙ e in
      let (back, q) = starts_with-split xs ns rest in (back, ap₂ ◌∷◌ same q)
  | inr (ne, b) ↦
      absurd (ground (arith, sym (ap (λ z. if z then starts_with xs ns else false) b) ∙ e))
]

-- The pattern stands in the line.
pub record Occurs (pat line : Str) : Type 0 where
  pub front : Str
  pub back : Str
  pub is_line : line ≡ front ++ (pat ++ back)

is_found : Str → Str → Bool
is_found line pat = elim (strstr line pat) [ some _ ↦ true | none ↦ false ]

strstr_first :
    (x n : ℕ) (xs ns : Str)
    → starts_with (x ∷ xs) (n ∷ ns) ≡ true
    → is_found (x ∷ xs) (n ∷ ns) ≡ true
unfolding strstr is_found
strstr_first x n xs ns e =
    ap
      (λ b. elim (if b then some (x ∷ xs) else strstr xs (n ∷ ns)) [ some _ ↦ true | none ↦ false ])
      e

strstr_later :
    (x n : ℕ) (xs ns : Str)
    → starts_with (x ∷ xs) (n ∷ ns) ≡ false
    → is_found (x ∷ xs) (n ∷ ns) ≡ is_found xs (n ∷ ns)
unfolding strstr is_found
strstr_later x n xs ns e =
    ap
      (λ b. elim (if b then some (x ∷ xs) else strstr xs (n ∷ ns)) [ some _ ↦ true | none ↦ false ])
      e

found-Occurs : (line pat : Str) → is_found line pat ≡ true → Occurs pat line
unfolding is_found strstr
found-Occurs line [] e = record { front = []; back = line; is_line = refl }
found-Occurs [] (n ∷ ns) e = absurd (ground (arith, e))
found-Occurs (x ∷ xs) (n ∷ ns) e = elim (Bool-cases (starts_with (x ∷ xs) (n ∷ ns))) [
  | inl t ↦
      let (back, q) = starts_with-split (x ∷ xs) (n ∷ ns) t in
      record { front = []; back = back; is_line = q }
  | inr t ↦
      let o = found-Occurs xs (n ∷ ns) (sym (strstr_later x n xs ns t) ∙ e) in
      record { front = x ∷ o.front; back = o.back; is_line = ap (λ z. x ∷ z) o.is_line }
]

found_tail : (x : ℕ) (xs pat : Str) → is_found xs pat ≡ true → is_found (x ∷ xs) pat ≡ true
unfolding is_found strstr
found_tail x xs [] e = refl
found_tail x xs (n ∷ ns) e = elim (Bool-cases (starts_with (x ∷ xs) (n ∷ ns))) [
  | inl t ↦ strstr_first x n xs ns t
  | inr t ↦ strstr_later x n xs ns t ∙ e
]

found_here : (pat back : Str) → is_found (pat ++ back) pat ≡ true
unfolding is_found strstr
found_here [] back = refl
found_here (n ∷ ns) back = strstr_first n n (ns ++ back) ns (starts_with-append (n ∷ ns) back)

found_behind : (front pat back : Str) → is_found (front ++ (pat ++ back)) pat ≡ true
found_behind [] pat back = found_here pat back
found_behind (x ∷ xs) pat back = found_tail x (xs ++ (pat ++ back)) pat (found_behind xs pat back)

-- Without -i, grep takes a line exactly when the pattern stands somewhere in it.
pub matches_line-Occurs : (line pat : Str) → (matches_line line pat false ≡ true) ↔ Occurs pat line
unfolding matches_line is_found
matches_line-Occurs line pat = (
  found-Occurs line pat,
  λ o. ap (λ l. is_found l pat) o.is_line ∙ found_behind o.front pat o.back,
)
