-- ===== src/Env/Calls.antt =====
-- What sys_setenv and sys_unsetenv do to a later sys_getenv, and the invariant of the table.
use noxis.Prelude.{
  ℕ, zero, suc, ◌+◌, ◌-◌, ◌%◌, ◌^◌, ◌≤◌, ◌<◌, ◌≡◌, ◌≢◌, refl, sym, ap, ◌∙◌, take, ltb, false,
  Bool-cases, ==-ne, ◌⊎◌, inl, inr, arith,
}
use noxis.Prelude.{List, [], ◌∷◌, ◌++◌, length, All, Option, none, some, Option-cases, none≢some}
use noxis.Env.{
  Str, holds, env_max, env_slot, value_of, find_value, entry, overwrite, copied, sys_getenv,
  sys_setenv, sys_unsetenv,
}
use noxis.Env.Lookup.{
  IsKey, value_of-entry, value_of-other, value_of_unique, find_value-append, overwrite-find,
  overwrite-other, overwrite-none,
}

pub setenv_cases :
    (key val : Str) (env : List Str) {env' : List Str}
    → sys_setenv key val env ≡ some env'
    → (length key + 1 + length val + 1 ≤ env_slot)
      × ((overwrite key val env ≡ some env')
          ⊎ (overwrite key val env ≡ none)
            × (length env < env_max)
            × (env' ≡ env ++ (entry key val ∷ [])))
unfolding sys_setenv
setenv_cases key val env h = ground arith

find-set :
    (key val : Str) (env : List Str) {env' : List Str}
    → sys_setenv key val env ≡ some env'
    → find_value key env' ≡ some val
unfolding find_value
find-set key val env {env'} h = elim ((setenv_cases key val env h).1) [
  | inl o ↦ overwrite-find key val env o
  | inr (o, _, e) ↦ rw e (
      find_value-append key env (entry key val) (overwrite-none key val env o)
      ∙ ground (arith, value_of-entry key val))
]

take_all : (n : ℕ) (v : Str) → length v ≤ n → take n v ≡ v
take_all zero [] h = refl
take_all zero (c ∷ cs) h = absurd (omega arith)
take_all (suc n) [] h = refl
take_all (suc n) (c ∷ cs) h = ap (λ l. c ∷ l) (take_all n cs (omega arith))

copied_part : (n : ℕ) (v : Str) → 0 < n → n < 2 ^ 31 → copied (some n) v ≡ holds (take (n - 1) v)
copied_part n v l h =
    let same : n % 2 ^ 32 ≡ n = omega arith in
    rw (same, ==-ne n 0 (omega arith), ==-ne n (2 ^ 31) (omega arith))
      (elim (Bool-cases (ltb (length v) (n - 1))) [
        | inl t ↦
            rw (ltb_far n h, t)
              (ap holds (
                take_all (length v) v (omega arith) ∙ sym (take_all (n - 1) v (ground (arith, t)))))
        | inr t ↦ rw (ltb_far n h, t) refl
      ])
  where
    ltb_far : (n : ℕ) → n < 2 ^ 31 → ltb (2 ^ 31) n ≡ false
    ltb_far n h = ground (arith, h)

-- After a successful sys_setenv, sys_getenv of the key into a buffer of 1 to 2^31 - 1 bytes returns the
-- length of the value, and the buffer holds the part of the value that leaves room for the NUL.
pub sys_getenv-setenv :
    (key val : Str) (env : List Str) {env' : List Str} (n : ℕ)
    → 0 < n
    → n < 2 ^ 31
    → sys_setenv key val env ≡ some env'
    → sys_getenv key (some n) env' ≡ some (length val, holds (take (n - 1) val))
unfolding sys_getenv
sys_getenv-setenv key val env {env'} n l w h =
    rw (find-set key val env h, sys_getenv) (ap (λ b. some (length val, b)) (copied_part n val l w))

find-append_other :
    (k : Str) (es : List Str) (e : Str)
    → value_of k e ≡ none
    → find_value k (es ++ (e ∷ [])) ≡ find_value k es
unfolding find_value
find-append_other k [] e h = ground arith
find-append_other k (x ∷ xs) e h = ground (arith, find-append_other k xs e h)

-- Among keys without '=', a successful sys_setenv changes what sys_getenv returns for no other key.
pub sys_getenv-setenv_other :
    (k key val : Str) (env : List Str) {env' : List Str} (buf : Option ℕ)
    → IsKey k
    → IsKey key
    → k ≢ key
    → sys_setenv key val env ≡ some env'
    → sys_getenv k buf env' ≡ sys_getenv k buf env
unfolding sys_getenv
sys_getenv-setenv_other k key val env {env'} buf a b ne h = elim ((setenv_cases key val env h).1) [
  | inl o ↦ ground (arith, overwrite-other k key val env a b ne o)
  | inr (o, _, e) ↦ ground (
    arith,
    ap (find_value k) e,
    find-append_other k env (entry key val) (value_of-other k key val a b ne),
  )
]

-- No two entries have the same key.
abbrev pub IsDistinct : List Str → Type 0
IsDistinct [] = Unit
IsDistinct (e ∷ es) =
    ((key v : Str) → IsKey key → value_of key e ≡ some v → find_value key es ≡ none) × IsDistinct es

pub record IsEnv (env : List Str) : Type 0 where
  pub few : length env ≤ env_max
  pub short : All (λ e. length e < env_slot) env
  pub distinct : IsDistinct env

unset-other :
    (k key : Str) (env : List Str) {env' : List Str}
    → IsKey k
    → IsKey key
    → k ≢ key
    → sys_unsetenv key env ≡ some env'
    → find_value k env' ≡ find_value k env
unfolding sys_unsetenv find_value
unset-other k key [] a b ne h = absurd (none≢some h)
unset-other k key (e ∷ es) {env' = env'} a b ne h = elim (Option-cases (value_of key e)) [
  | inl none_of ↦ elim (Option-cases (sys_unsetenv key es)) [
    | inl missing ↦ ground arith
    | inr (rest, r) ↦
        let is : e ∷ rest ≡ env' = ground arith in
        rw (← is) (ground (arith, unset-other k key es {env' = rest} a b ne r))
  ]
  | inr (v, some_of) ↦
      let is : es ≡ env' = ground arith in
      let not_here : value_of k e ≡ none = elim (Option-cases (value_of k e)) [
        | inl n ↦ n
        | inr (w, q) ↦ absurd (ne (value_of_unique k key e a b q some_of))
      ] in
      rw (← is) (ground arith)
]

unset-gone :
    (key : Str) (env : List Str) {env' : List Str}
    → IsKey key
    → IsDistinct env
    → sys_unsetenv key env ≡ some env'
    → find_value key env' ≡ none
unfolding sys_unsetenv find_value
unset-gone key [] b d h = absurd (none≢some h)
unset-gone key (e ∷ es) {env' = env'} b (d, ds) h = elim (Option-cases (value_of key e)) [
  | inl none_of ↦ elim (Option-cases (sys_unsetenv key es)) [
    | inl missing ↦ ground arith
    | inr (rest, r) ↦
        let is : e ∷ rest ≡ env' = ground arith in
        rw (← is) (ground (arith, unset-gone key es {env' = rest} b ds r))
  ]
  | inr (v, some_of) ↦ let is : es ≡ env' = ground arith in rw (← is) (d key v b some_of)
]

-- In a valid table and for keys without '=', a successful sys_unsetenv leaves sys_getenv without an answer for the key, and
-- with the same answer for every other one.
pub sys_getenv-unsetenv :
    (key k : Str) (env : List Str) {env' : List Str} (buf : Option ℕ)
    → IsKey key
    → IsKey k
    → k ≢ key
    → IsEnv env
    → sys_unsetenv key env ≡ some env'
    → (sys_getenv key buf env' ≡ none) × (sys_getenv k buf env' ≡ sys_getenv k buf env)
unfolding sys_getenv
sys_getenv-unsetenv key k env buf b a ne v h = (
  ground (arith, unset-gone key env b v.distinct h),
  ground (arith, unset-other k key env a b ne h),
)
