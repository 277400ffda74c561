-- ===== src/Env/Valid.antt =====
-- About the invariant of the environment's table in src/proc/syscalls.c.
use noxis.Prelude.{suc, ◌+◌, ◌≤◌, ◌<◌, ◌≡◌, refl, sym, ap, ◌∙◌, inl, inr, arith}
use noxis.Prelude.{
  List, [], ◌∷◌, ◌++◌, length, length-append, All, none, some, Option-cases, none≢some,
}
use mathlib.Core.Path.{subst}
use noxis.Env.{Str, env_slot, value_of, find_value, entry, overwrite, sys_setenv}
use noxis.Env.Lookup.{IsKey, value_of-entry, value_of_unique, overwrite-none, find_value-append}
use noxis.Env.Calls.{IsDistinct, IsEnv, setenv_cases}

-- The entry of a key has no other.
entry-key :
    (k key val : Str) {v : Str}
    → IsKey k
    → IsKey key
    → value_of k (entry key val) ≡ some v
    → k ≡ key
entry-key k key val a b h = value_of_unique k key (entry key val) a b h (value_of-entry key val)

overwrite-absent :
    (k key val : Str) (es : List Str) {es' : List Str}
    → IsKey k
    → IsKey key
    → find_value k es ≡ none
    → overwrite key val es ≡ some es'
    → find_value k es' ≡ none
unfolding overwrite find_value
overwrite-absent k key val [] a b f h = absurd (none≢some h)
overwrite-absent k key val (e ∷ es) {es' = es'} a b f h = elim (Option-cases (value_of key e)) [
  | inl none_of ↦ elim (Option-cases (overwrite key val es)) [
    | inl missing ↦ ground arith
    | inr (rest, r) ↦
        let is : e ∷ rest ≡ es' = ground arith in
        rw (← is) (ground (arith, overwrite-absent k key val es {es' = rest} a b (ground arith) r))
  ]
  | inr (v, some_of) ↦
      let is : entry key val ∷ es ≡ es' = ground arith in
      let not_here : value_of k (entry key val) ≡ none =
        elim (Option-cases (value_of k (entry key val))) [
          | inl n ↦ n
          | inr (w, q) ↦ absurd (
              none≢some
                (sym (ground arith) ∙ ap (λ x. value_of x e) (entry-key k key val a b q) ∙ some_of))
        ] in
      rw (← is) (ground arith)
]

overwrite-IsDistinct :
    (key val : Str) (es : List Str) {es' : List Str}
    → IsKey key
    → IsDistinct es
    → overwrite key val es ≡ some es'
    → IsDistinct es'
unfolding overwrite
overwrite-IsDistinct key val [] b d h = absurd (none≢some h)
overwrite-IsDistinct key val (e ∷ es) {es' = es'} b (d, ds) h =
    elim (Option-cases (value_of key e)) [
      | inl none_of ↦ elim (Option-cases (overwrite key val es)) [
        | inl missing ↦ ground arith
        | inr (rest, r) ↦
            let is : e ∷ rest ≡ es' = ground arith in
            subst IsDistinct is (
              (λ k v a q. overwrite-absent k key val es a b (d k v a q) r),
              overwrite-IsDistinct key val es b ds r,
            )
      ]
      | inr (v, some_of) ↦
          let is : entry key val ∷ es ≡ es' = ground arith in
          subst IsDistinct is (
            (λ k w a q.
                subst (λ x. find_value x es ≡ none) (sym (entry-key k key val a b q))
                  (d key v b some_of)),
            ds,
          )
    ]

length-entry : (key val : Str) → length (entry key val) ≡ length key + 1 + length val
length-entry key val = omega (arith, length-append key (b'=' ∷ val))

overwrite-short :
    (key val : Str) (es : List Str) {es' : List Str}
    → length key + 1 + length val + 1 ≤ env_slot
    → All (λ e. length e < env_slot) es
    → overwrite key val es ≡ some es'
    → (length es' ≡ length es) × All (λ e. length e < env_slot) es'
unfolding overwrite
overwrite-short key val [] p s h = absurd (none≢some h)
overwrite-short key val (e ∷ es) {es' = es'} p (s, ss) h = elim (Option-cases (value_of key e)) [
  | inl none_of ↦ elim (Option-cases (overwrite key val es)) [
    | inl missing ↦ ground arith
    | inr (rest, r) ↦
        let is : e ∷ rest ≡ es' = ground arith in
        let (l, q) = overwrite-short key val es p ss r in rw (← is) (ap suc l, (s, q))
  ]
  | inr (v, some_of) ↦
      let is : entry key val ∷ es ≡ es' = ground arith in
      rw (← is) (refl, (omega (arith, length-entry key val), ss))
]

append-IsDistinct :
    (key val : Str) (es : List Str)
    → IsKey key
    → find_value key es ≡ none
    → IsDistinct es
    → IsDistinct (es ++ (entry key val ∷ []))
unfolding find_value
append-IsDistinct key val [] b f d = ((λ k v a q. refl), tt)
append-IsDistinct key val (e ∷ es) b f (d, ds) = (
  (λ k v a q. find_value-append k es (entry key val) (d k v a q) ∙ apart k v a q),
  append-IsDistinct key val es b (ground arith) ds,
)
  where
    apart : (k v : Str) → IsKey k → value_of k e ≡ some v → find_value k (entry key val ∷ []) ≡ none
    apart k v a q = elim (Option-cases (value_of k (entry key val))) [
      | inl n ↦ ground arith
      | inr (w, q') ↦ absurd (
          none≢some
            (sym (ground arith) ∙ ap (λ x. value_of x e) (sym (entry-key k key val a b q')) ∙ q))
    ]

append-short :
    (e : Str) (es : List Str)
    → length e < env_slot
    → All (λ x. length x < env_slot) es
    → All (λ x. length x < env_slot) (es ++ (e ∷ []))
append-short e [] p s = (p, tt)
append-short e (x ∷ xs) p (s, ss) = (s, append-short e xs p ss)

-- A successful sys_setenv of a key without '=' keeps the table valid: at most 32 entries, each with its NUL in its slot, and no two
-- with the same key.
pub sys_setenv-IsEnv :
    (key val : Str) (env : List Str) {env' : List Str}
    → IsKey key
    → IsEnv env
    → sys_setenv key val env ≡ some env'
    → IsEnv env'
sys_setenv-IsEnv key val env {env' = env'} b v h =
    let (fits, found) = setenv_cases key val env h in
    elim found [
      | inl o ↦
          let (l, s) = overwrite-short key val env fits v.short o in
          record {
            few = omega (arith, l, v.few);
            short = s;
            distinct = overwrite-IsDistinct key val env b v.distinct o;
          }
      | inr (o, room, e) ↦ rw e (record {
        few = omega (arith, length-append env (entry key val ∷ []));
        short = append-short (entry key val) env (omega (arith, length-entry key val)) v.short;
        distinct = append-IsDistinct key val env b (overwrite-none key val env o) v.distinct;
      })
    ]
