-- ===== src/Noxfs/Dir/Resolve.antt =====
-- About noxfs_resolve of src/fs/noxfs/noxfs.c.
use noxis.Prelude.{
  ℕ, zero, suc, ◌≤◌, ◌<◌, ◌≡◌, refl, ap, ◌∙◌, arith, true, false, Option, none, some, List, [], ◌∷◌,
  ◌++◌, length, length-append, All,
}
use noxis.Prelude.{◌==◌, pass, ◌≢◌, sym, inl, inr, ==-cases}
use noxis.Paths.{Str, slash, skip_slashes, is_dot, is_dot_dot}
use mathlib.Core.Path.{ap₂}
use noxis.Noxfs.Layout.{Fs}
use noxis.Noxfs.Dir.{dir_lookup_name, take_component, step_into, resolve_from, noxfs_resolve}

-- A component of a path: ".", "..", or a name.
pub data Component : Type 0 where
  here top : Component
  name : Str → Component

abbrev pub spelled : Component → Str
spelled here = b'.' ∷ []
spelled top = b'.' ∷ b'.' ∷ []
spelled (name c) = c

-- A component that the loop reads whole.
record IsWhole (c : Str) : Type 0 where
  pub some_bytes : 0 < length c
  pub short : length c ≤ 31
  pub no_slash : All (λ b. (b == slash) ≡ false) c

-- A name of 1 to 31 bytes without '/', which is not "." or "..".
pub record IsName (c : Str) : Type 0 where
  pub some_bytes : 0 < length c
  pub short : length c ≤ 31
  pub no_slash : All (λ b. (b == slash) ≡ false) c
  pub not_here : c ≢ spelled here
  pub not_top : c ≢ spelled top

abbrev pub IsComponent : Component → Type 0
IsComponent here = Unit
IsComponent top = Unit
IsComponent (name c) = IsName c

-- Each component after a slash.
pub path_of : List Component → Str
path_of [] = []
path_of (c ∷ cs) = slash ∷ (spelled c ++ path_of cs)

-- "." stays, ".." goes to the root, and each name is looked up in the directory reached so far.
pub walk : List Component → ℕ → Fs → Option ℕ
walk [] cur s = some cur
walk (here ∷ cs) cur s = walk cs cur s
walk (top ∷ cs) cur s = walk cs s.sb.root_ino s
walk (name c ∷ cs) cur s = elim (dir_lookup_name cur c s) [
  | none ↦ none
  | some next ↦ walk cs next s
]

is_dot-other : (c : Str) → c ≢ spelled here → is_dot c ≡ false
is_dot-other [] ne = refl
is_dot-other (x ∷ []) ne = elim (==-cases x b'.') [
  | inl (e, t) ↦ absurd (ne (ap (λ (k : ℕ). k ∷ []) e))
  | inr (n, t) ↦ t
]
is_dot-other (x ∷ y ∷ ys) ne = refl

is_dot_dot-other : (c : Str) → c ≢ spelled top → is_dot_dot c ≡ false
is_dot_dot-other [] ne = refl
is_dot_dot-other (x ∷ []) ne = refl
is_dot_dot-other (x ∷ y ∷ z ∷ zs) ne = refl
is_dot_dot-other (x ∷ y ∷ []) ne = elim (==-cases x b'.') [
  | inr (n, t) ↦ rw t refl
  | inl (e, t) ↦ elim (==-cases y b'.') [
    | inr (n, u) ↦ rw (t, u) refl
    | inl (f, u) ↦ absurd (ne (ap₂ (λ (j k : ℕ). j ∷ k ∷ []) e f))
  ]
]

-- What the loop does with a component.
step_into-name :
    (c : Str) (cur : ℕ) (s : Fs) → IsName c → step_into c cur s ≡ dir_lookup_name cur c s
unfolding step_into
step_into-name c cur s v = rw (is_dot-other c v.not_here, is_dot_dot-other c v.not_top) refl

walk_step :
    (c : Component) (cs : List Component) (cur : ℕ) (s : Fs)
    → IsComponent c
    → walk (c ∷ cs) cur s
      ≡ (elim (step_into (spelled c) cur s) [ none ↦ none | some next ↦ walk cs next s ])
unfolding walk step_into
walk_step here cs cur s v = refl
walk_step top cs cur s v = refl
walk_step (name c) cs cur s v =
    ap (λ (o : Option ℕ). elim o [ none ↦ none | some next ↦ walk cs next s ])
      (sym (step_into-name c cur s v))

component-IsWhole : (c : Component) → IsComponent c → IsWhole (spelled c)
component-IsWhole here v = record {
  some_bytes = omega arith;
  short = omega arith;
  no_slash = (refl, tt);
}
component-IsWhole top v = record {
  some_bytes = omega arith;
  short = omega arith;
  no_slash = (refl, (refl, tt));
}
component-IsWhole (name c) v = record {
  some_bytes = v.some_bytes;
  short = v.short;
  no_slash = v.no_slash;
}

option_ext :
    (o : Option ℕ) (f g : ℕ → Option ℕ)
    → ((k : ℕ) → f k ≡ g k)
    → (elim o [ none ↦ none | some k ↦ f k ]) ≡ (elim o [ none ↦ none | some k ↦ g k ])
option_ext none f g h = refl
option_ext (some k) f g h = h k

-- Nothing is left, or what is left starts with a slash.
Ends : Str → Type 0
Ends [] = Unit
Ends (c ∷ cs) = (c == slash) ≡ true

path_of-Ends : (cs : List Component) → Ends (path_of cs)
unfolding path_of Ends
path_of-Ends [] = tt
path_of-Ends (c ∷ cs) = refl

taken :
    (n x : ℕ) (p : Str)
    → (x == slash) ≡ false
    → take_component (suc n) (x ∷ p) ≡ (x ∷ (take_component n p).0, (take_component n p).1)
unfolding take_component
taken n x p a = ground (arith, a)

take_component_lem :
    (n : ℕ) (c rest : Str)
    → length c ≤ n
    → All (λ b. (b == slash) ≡ false) c
    → Ends rest
    → take_component n (c ++ rest) ≡ (c, rest)
unfolding take_component Ends
take_component_lem zero [] rest h a e = refl
take_component_lem zero (x ∷ xs) rest h a e = absurd (omega arith)
take_component_lem (suc n) [] [] h a e = refl
take_component_lem (suc n) [] (c ∷ cs) h a e = ground (arith, e)
take_component_lem (suc n) (x ∷ xs) rest h (a, rest_ok) e =
    taken n x (xs ++ rest) a
    ∙ ap (λ (r : Str × Str). (x ∷ r.0, r.1)) (take_component_lem n xs rest (omega arith) rest_ok e)

resolve_step :
    (n cur : ℕ) (p : Str) (c : ℕ) (cs : Str) (s : Fs)
    → skip_slashes p ≡ c ∷ cs
    → resolve_from (suc n) cur p s ≡ (elim (step_into (take_component 31 (c ∷ cs)).0 cur s) [
      | none ↦ none
      | some next ↦ resolve_from n next (take_component 31 (c ∷ cs)).1 s
    ])
unfolding resolve_from
resolve_step n cur p c cs s e = rw (e, resolve_from) refl

skip_name : (x : ℕ) (xs : Str) → (x == slash) ≡ false → skip_slashes (x ∷ xs) ≡ x ∷ xs
unfolding skip_slashes
skip_name x xs e = ground (arith, e)

skip_slash : (p : Str) → skip_slashes (slash ∷ p) ≡ skip_slashes p
unfolding skip_slashes
skip_slash p = refl

nothing_left : (n cur : ℕ) (s : Fs) → resolve_from n cur [] s ≡ some cur
unfolding resolve_from skip_slashes
nothing_left zero cur s = refl
nothing_left (suc n) cur s = refl

-- One component is read, and the rest is a path again.
resolve_name :
    (n cur : ℕ) (p c rest : Str) (s : Fs)
    → IsWhole c
    → Ends rest
    → skip_slashes p ≡ c ++ rest
    → resolve_from (suc n) cur p s
      ≡ (elim (step_into c cur s) [ none ↦ none | some next ↦ resolve_from n next rest s ])
resolve_name n cur p [] rest s v e h = absurd (omega (arith, v.some_bytes))
resolve_name n cur p (x ∷ xs) rest s v e h =
    resolve_step n cur p x (xs ++ rest) s h
    ∙ ap
        (λ (r : Str × Str). elim (step_into r.0 cur s) [
          | none ↦ none
          | some next ↦ resolve_from n next r.1 s
        ])
        (take_component_lem 31 (x ∷ xs) rest v.short v.no_slash e)

skip_whole : (c rest : Str) → IsWhole c → skip_slashes (c ++ rest) ≡ c ++ rest
skip_whole [] rest v = absurd (omega (arith, v.some_bytes))
skip_whole (x ∷ xs) rest v = skip_name x (xs ++ rest) v.no_slash.0

resolve-walk :
    (cs : List Component) (n cur : ℕ) (s : Fs)
    → All IsComponent cs
    → length (path_of cs) ≤ n
    → resolve_from n cur (path_of cs) s ≡ walk cs cur s
unfolding path_of walk
resolve-walk [] n cur s v h = nothing_left n cur s
resolve-walk (c ∷ cs) zero cur s v h = absurd (omega arith)
resolve-walk (c ∷ cs) (suc n) cur s (v, vs) h =
    let len = length-append (spelled c) (path_of cs) in
    let w = component-IsWhole c v in
    resolve_name n cur (slash ∷ (spelled c ++ path_of cs)) (spelled c) (path_of cs) s w
      (path_of-Ends cs)
      (skip_slash (spelled c ++ path_of cs) ∙ skip_whole (spelled c) (path_of cs) w)
    ∙ option_ext (step_into (spelled c) cur s) _ _
        (λ next. resolve-walk cs n next s vs (omega (arith, h, len)))
    ∙ sym (walk_step c cs cur s v)

absolute :
    (base : ℕ) (p : Str) (s : Fs)
    → s.ready ≡ true
    → noxfs_resolve base (slash ∷ p) s ≡ resolve_from (length p) s.sb.root_ino p s
unfolding noxfs_resolve
absolute base p s r = pass s.ready (resolve_from (length p) s.sb.root_ino p s) r

-- The path behind its first slash.
behind_slash :
    (c : Str) (cs : List Component) (n cur : ℕ) (s : Fs)
    → IsWhole c
    → All IsComponent cs
    → length (c ++ path_of cs) ≤ n
    → resolve_from n cur (c ++ path_of cs) s
      ≡ (elim (step_into c cur s) [ none ↦ none | some next ↦ walk cs next s ])
behind_slash [] cs n cur s w vs h = absurd (omega (arith, w.some_bytes))
behind_slash (x ∷ xs) cs zero cur s w vs h = absurd (omega arith)
behind_slash (x ∷ xs) cs (suc n) cur s w vs h =
    let len = length-append xs (path_of cs) in
    resolve_name n cur ((x ∷ xs) ++ path_of cs) (x ∷ xs) (path_of cs) s w (path_of-Ends cs)
      (skip_whole (x ∷ xs) (path_of cs) w)
    ∙ option_ext (step_into (x ∷ xs) cur s) _ _
        (λ next. resolve-walk cs n next s vs (omega (arith, h, len)))

-- When the file system is ready, noxfs_resolve of a path of one or more components, each after a slash,
-- starts at the root, whatever the base: "." stays, ".." goes to the root, and each name, of 1 to 31
-- bytes, is looked up in the directory reached so far; the result is where the last component leads, or
-- none at the first name that is not found.
pub noxfs_resolve-walk :
    (base : ℕ) (c : Component) (cs : List Component) (s : Fs)
    → s.ready ≡ true
    → All IsComponent (c ∷ cs)
    → noxfs_resolve base (path_of (c ∷ cs)) s ≡ walk (c ∷ cs) s.sb.root_ino s
unfolding path_of
noxfs_resolve-walk base c cs s r (v, vs) =
    absolute base (spelled c ++ path_of cs) s r
    ∙ behind_slash (spelled c) cs (length (spelled c ++ path_of cs)) s.sb.root_ino s
        (component-IsWhole c v) vs (omega arith)
    ∙ sym (walk_step c cs s.sb.root_ino s v)
