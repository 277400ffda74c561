-- ===== src/Env/Lookup.antt =====
-- About the entries of the environment in src/proc/syscalls.c, and the search for a key.
use noxis.Prelude.{◌≡◌, ◌≢◌, refl, inl, inr, arith}
use noxis.Prelude.{List, [], ◌∷◌, ◌++◌, All, none, some, ==-cases, Option-cases, none≢some}
use noxis.Env.{Str, value_of, find_value, entry, overwrite}

pub value_of-entry : (key val : Str) → value_of key (entry key val) ≡ some val
unfolding value_of
value_of-entry [] val = refl
value_of-entry (k ∷ ks) val = ground (arith, value_of-entry ks val)

-- A key has no '='.
abbrev pub IsKey : Str → Type 0
IsKey = All (λ c. c ≢ b'=')

pub value_of-other :
    (k key val : Str) → IsKey k → IsKey key → k ≢ key → value_of k (entry key val) ≡ none
unfolding value_of
value_of-other [] [] val a b ne = absurd (ne refl)
value_of-other [] (c ∷ cs) val a (b, bs) ne = ground arith
value_of-other (k ∷ ks) [] val (a, rest) b ne = ground arith
value_of-other (k ∷ ks) (c ∷ cs) val (a, rest) (b, bs) ne = elim (==-cases c k) [
  | inl (e, t) ↦ ground (arith, t, value_of-other ks cs val rest bs (λ e'. ne (rw (e, e') refl)))
  | inr (_, t) ↦ ground (arith, t)
]

-- An entry belongs to one key only.
pub value_of_unique :
    (k key e : Str) {v v' : Str}
    → IsKey k
    → IsKey key
    → value_of k e ≡ some v
    → value_of key e ≡ some v'
    → k ≡ key
unfolding value_of
value_of_unique [] [] e a b p q = refl
value_of_unique [] (c ∷ cs) [] a b p q = absurd (none≢some p)
value_of_unique [] (c ∷ cs) (x ∷ xs) a (b, bs) p q = ground arith
value_of_unique (k ∷ ks) key [] a b p q = absurd (none≢some p)
value_of_unique (k ∷ ks) [] (x ∷ xs) (a, rest) b p q = ground arith
value_of_unique (k ∷ ks) (c ∷ cs) (x ∷ xs) {v = v} {v' = v'} (a, rest) (b, bs) p q =
    ground (arith, value_of_unique ks cs xs {v = v} {v' = v'} rest bs)

pub find_value-append :
    (k : Str) (es : List Str) (e : Str)
    → find_value k es ≡ none
    → find_value k (es ++ (e ∷ [])) ≡ find_value k (e ∷ [])
unfolding find_value
find_value-append k [] e h = refl
find_value-append k (x ∷ xs) e h = ground (arith, find_value-append k xs e)

pub overwrite-find :
    (key val : Str) (es : List Str) {es' : List Str}
    → overwrite key val es ≡ some es'
    → find_value key es' ≡ some val
unfolding overwrite find_value
overwrite-find key val [] h = absurd (none≢some h)
overwrite-find key val (e ∷ es) {es' = es'} h = elim (Option-cases (value_of key e)) [
  | inl none_of ↦ elim (Option-cases (overwrite key val es)) [
    | inl missing ↦ ground arith
    | inr (rest, r) ↦
        let is : e ∷ rest ≡ es' = ground arith in
        rw (← is) (ground (arith, overwrite-find key val es {es' = rest} r))
  ]
  | inr (v, some_of) ↦
      let is : entry key val ∷ es ≡ es' = ground arith in
      rw (← is) (ground (arith, value_of-entry key val))
]

pub overwrite-other :
    (k key val : Str) (es : List Str) {es' : List Str}
    → IsKey k
    → IsKey key
    → k ≢ key
    → overwrite key val es ≡ some es'
    → find_value k es' ≡ find_value k es
unfolding overwrite find_value
overwrite-other k key val [] a b ne h = absurd (none≢some h)
overwrite-other k key val (e ∷ es) {es' = es'} a b ne h = elim (Option-cases (value_of key e)) [
  | inl none_of ↦ elim (Option-cases (overwrite key val es)) [
    | inl missing ↦ ground arith
    | inr (rest, r) ↦
        let is : e ∷ rest ≡ es' = ground arith in
        rw (← is) (ground (arith, overwrite-other k key val es {es' = rest} a b ne r))
  ]
  | inr (v, some_of) ↦
      let is : entry key val ∷ es ≡ es' = ground arith in
      let not_here : value_of k e ≡ none = elim (Option-cases (value_of k e)) [
        | inl n ↦ n
        | inr (w, q) ↦ absurd (ne (value_of_unique k key e a b q some_of))
      ] in
      rw (← is) (ground (arith, value_of-other k key val a b ne))
]

pub overwrite-none :
    (key val : Str) (es : List Str) → overwrite key val es ≡ none → find_value key es ≡ none
unfolding overwrite find_value
overwrite-none key val [] h = refl
overwrite-none key val (e ∷ es) h = ground (arith, overwrite-none key val es)
