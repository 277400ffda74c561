-- ===== src/Paths/Resolve.antt =====
-- About `path_resolve_str` of src/proc/syscalls.c: its buffers and its components.
use noxis.Prelude.{
  ℕ, zero, suc, ◌+◌, ◌-◌, ◌≤◌, ◌<◌, ◌≡◌, ◌≢◌, refl, sym, ap, ◌∙◌, ◌⊎◌, inl, inr, arith,
}
use noxis.Prelude.{
  true, false, List, [], ◌∷◌, ◌++◌, length, length-append, take, All, ◌&&◌, ltb, ==-cases,
  Bool-cases, ltb→lt,
}
use mathlib.Core.List.{append_assoc, append-nil}
use noxis.Paths.{
  Str, slash, joined, with_slash, is_absolute, skip_slashes, token, is_dot, is_dot_dot, pop,
  push_component, components, bottom_first, write_components, path_resolve_str,
}
use noxis.Paths.Split.{length-take_le}

length-with_slash : (b : Str) → length (with_slash b) ≤ length b + 1
unfolding with_slash
length-with_slash b = ground (arith, length-append b (slash ∷ []))

length-take_base : (n : ℕ) (s : Str) → length (take n s) ≤ length s
length-take_base zero s = omega arith
length-take_base (suc n) [] = omega arith
length-take_base (suc n) (c ∷ cs) = omega (arith, length-take_base n cs)

-- When the base has fewer than 128 bytes, as cwd_path has, the path joined to it and its NUL fit the
-- buffer of 256 bytes.
pub joined-fits : (base rel : Str) → length base < 128 → length (joined base rel) ≤ 255
unfolding joined
joined-fits base rel h =
    let b = with_slash (take 255 base) in
    let room : length b ≤ 129 =
      omega (arith, length-with_slash (take 255 base), length-take_base 255 base) in
    let both : length (b ++ take (255 - length b) rel) ≤ 255 =
      omega
        (arith, length-append b (take (255 - length b) rel), length-take_le (255 - length b) rel) in
    elim (Bool-cases (is_absolute rel)) [
      | inl yes_it_is ↦ rw (yes_it_is, joined) (length-take_le 255 rel)
      | inr relative ↦ rw (relative, joined) both
    ]

-- A component of a canonical path.
pub record IsComponent (c : Str) : Type 0 where
  pub short : length c < 32
  pub has_bytes : 0 < length c
  pub no_slash : All (λ b. b ≢ slash) c
  pub not_dot : is_dot c ≡ false
  pub not_dot_dot : is_dot_dot c ≡ false

pub record IsStack (comps : List Str) : Type 0 where
  pub few : length comps ≤ 16
  pub all : All IsComponent comps

token-byte : (c : ℕ) (cs : Str) → c ≢ slash → token (c ∷ cs) ≡ (c ∷ (token cs).0, (token cs).1)
unfolding token
token-byte c cs ne = ground (arith, ne)

token-slash : (c : ℕ) (cs : Str) → c ≡ slash → token (c ∷ cs) ≡ ([], c ∷ cs)
unfolding token
token-slash c cs e = ground (arith, e)

-- A token has no '/', and takes its bytes from the string.
token_lem :
    (p : Str)
    → All (λ b. b ≢ slash) (token p).0 × (length (token p).0 + length (token p).1 ≡ length p)
unfolding token
token_lem [] = (tt, omega arith)
token_lem (c ∷ cs) = elim (==-cases c slash) [
  | inl (e, _) ↦ rw (token-slash c cs e) (tt, omega arith)
  | inr (ne, _) ↦
      let (no_slashes, sum) = token_lem cs in
      rw (token-byte c cs ne) ((ne, no_slashes), omega (arith, sum))
]

-- Either nothing but slashes is left, or a byte that is not one.
skip_cases :
    (p : Str)
    → (skip_slashes p ≡ [])
      ⊎ ((c : ℕ) × (cs : Str) × (skip_slashes p ≡ c ∷ cs)
          × (c ≢ slash)
          × (suc (length cs) ≤ length p))
unfolding skip_slashes
skip_cases [] = inl refl
skip_cases (c ∷ cs) = elim (==-cases c slash) [
  | inl (e, b) ↦ elim (skip_cases cs) [
    | inl none_left ↦ inl (ground arith)
    | inr (d, ds, e', ne, l) ↦ inr (d, ds, ground arith, ne, omega arith)
  ]
  | inr (ne, b) ↦ inr (c, cs, ground arith, ne, omega arith)
]

push_component-IsStack :
    {comps : List Str} (c : Str)
    → 0 < length c
    → All (λ b. b ≢ slash) c
    → IsStack comps
    → IsStack (push_component c comps)
unfolding push_component
push_component-IsStack {comps} c h a v = elim (Bool-cases (is_dot c)) [
  | inl dot ↦ rw (dot, push_component) v
  | inr not_dot ↦ elim (Bool-cases (is_dot_dot c)) [
    | inl dots ↦ rw (not_dot, dots, push_component) (popped comps v)
    | inr not_dots ↦ elim (Bool-cases (ltb (length comps) 16 && ltb (length c) 32)) [
      | inl fits ↦
          rw (not_dot, not_dots, fits, push_component)
            (record {
              few = ground arith;
              all = (
                record {
                  short = ground arith;
                  has_bytes = h;
                  no_slash = a;
                  not_dot = not_dot;
                  not_dot_dot = not_dots;
                },
                v.all,
              );
            })
      | inr full ↦ rw (not_dot, not_dots, full, push_component) v
    ]
  ]
]
  where
    popped : (cs : List Str) → IsStack cs → IsStack (pop cs)
    popped [] v = v
    popped (x ∷ xs) v = record { few = omega (arith, v.few); all = v.all.1 }

components_end :
    (n : ℕ) (p : Str) (comps : List Str) → skip_slashes p ≡ [] → components (suc n) p comps ≡ comps
unfolding components
components_end n p comps e = rw (e, components) refl

components_step :
    (n : ℕ) (p : Str) (comps : List Str) (c : ℕ) (cs : Str)
    → skip_slashes p ≡ c ∷ cs
    → components (suc n) p comps
      ≡ components n (token (c ∷ cs)).1 (push_component (token (c ∷ cs)).0 comps)
unfolding components
components_step n p comps c cs e = rw (e, components) refl

-- The loop over the components keeps the stack: at most 16 components, each of 1 to 31 bytes without '/', none '.' or '..'.
pub components-IsStack :
    (n : ℕ) (p : Str) {comps : List Str} → IsStack comps → IsStack (components n p comps)
unfolding components
components-IsStack zero p v = v
components-IsStack (suc n) p {comps = comps} v = elim (skip_cases p) [
  | inl none_left ↦ rw (components_end n p comps none_left) v
  | inr (c, cs, e, ne, l) ↦
      let byte = token-byte c cs ne in
      rw (components_step n p comps c cs e) (
        components-IsStack n (token (c ∷ cs)).1 (
          push_component-IsStack (token (c ∷ cs)).0 (rw byte (omega arith)) ((token_lem (c ∷ cs)).0)
            v))
]

-- As many rounds of the loop over the components as there are bytes are enough: one more changes
-- nothing.
pub components-enough :
    (n : ℕ) (p : Str) (comps : List Str)
    → length p ≤ n
    → components (suc n) p comps ≡ components n p comps
unfolding components skip_slashes
components-enough zero [] comps h = components_end 0 [] comps refl
components-enough zero (c ∷ cs) comps h = absurd (omega arith)
components-enough (suc n) p comps h = elim (skip_cases p) [
  | inl none_left ↦
      components_end (suc n) p comps none_left ∙ sym (components_end n p comps none_left)
  | inr (c, cs, e, ne, l) ↦
      let shorter : length (token (c ∷ cs)).1 ≤ n =
        omega (arith, (token_lem cs).1, ap (λ (r : Str × Str). length r.1) (token-byte c cs ne)) in
      components_step (suc n) p comps c cs e
      ∙ components-enough n (token (c ∷ cs)).1 (push_component (token (c ∷ cs)).0 comps) shorter
      ∙ sym (components_step n p comps c cs e)
]

-- The loop adds to what is written, and leaves room for the NUL.
write_components_lem :
    (size : ℕ) (sep : Str) (comps : List Str) (dst : Str)
    → 2 ≤ size
    → length sep ≤ 1
    → length dst < size
    → (length (write_components size sep comps dst) < size)
      × ((more : Str) × (write_components size sep comps dst ≡ dst ++ more))
unfolding write_components
write_components_lem size sep [] dst h s p = (p, ([], sym (append-nil dst)))
write_components_lem size sep (c ∷ cs) dst h s p = elim (Bool-cases (ltb (length dst) (size - 2))) [
  | inl room ↦
      let dst' = dst ++ sep in
      let part = take (size - 1 - length dst') c in
      let fits : length (dst' ++ part) < size = omega (
        arith,
        ltb→lt _ _ room,
        length-append dst sep,
        length-append dst' part,
        length-take_le (size - 1 - length dst') c,
      ) in
      let (l, (more, e)) =
        write_components_lem size (slash ∷ []) cs (dst' ++ part) h (omega arith) fits in
      rw (room, write_components)
        (
          l,
          (
            sep ++ (part ++ more),
            e ∙ append_assoc dst' part more ∙ append_assoc dst sep (part ++ more),
          ),
        )
  | inr full ↦ rw (full, write_components) (p, ([], sym (append-nil dst)))
]

-- For a buffer of at least 2 bytes, a resolved path starts with '/', and with its NUL it fits the buffer of `size` bytes.
pub path_resolve_str-absolute :
    (size : ℕ) (base rel : Str)
    → 2 ≤ size
    → (length (path_resolve_str size base rel) < size)
      × (is_absolute (path_resolve_str size base rel) ≡ true)
unfolding path_resolve_str
path_resolve_str-absolute size base rel h =
    let tmp = joined base rel in
    let (l, (more, e)) =
      write_components_lem size [] (bottom_first (components (length tmp) tmp []) []) (slash ∷ []) h
        (omega arith) (omega arith) in
    (l, ap is_absolute e)
