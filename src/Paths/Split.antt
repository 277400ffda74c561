-- ===== src/Paths/Split.antt =====
-- About `path_split` of src/proc/syscalls.c.
use noxis.Prelude.{ℕ, zero, suc, ◌+◌, ◌-◌, ◌≤◌, ◌<◌, ◌≡◌, ◌≢◌, refl, sym, ap, ◌∙◌, inl, inr, arith}
use noxis.Prelude.{[], ◌∷◌, ◌++◌, length, get_or, take, drop, some, none≢some, ==-cases}
use noxis.Paths.{Str, slash, last_slash, path_split}

take-all : (n : ℕ) (s : Str) → length s ≤ n → take n s ≡ s
take-all zero [] h = refl
take-all zero (c ∷ cs) h = absurd (omega arith)
take-all (suc n) [] h = refl
take-all (suc n) (c ∷ cs) h = ap (λ r. c ∷ r) (take-all n cs (omega arith))

take-get-drop : (i : ℕ) (s : Str) → i < length s → take i s ++ (get_or s i 0 ∷ drop (suc i) s) ≡ s
take-get-drop i [] h = absurd (omega arith)
take-get-drop zero (c ∷ cs) h = refl
take-get-drop (suc i) (c ∷ cs) h = ap (λ r. c ∷ r) (take-get-drop i cs (omega arith))

-- The byte found is a '/', and no later one is.
last_slash-found :
    (n : ℕ) (s : Str) {i : ℕ}
    → last_slash n s ≡ some i
    → (i < n) × (get_or s i 0 ≡ slash) × ((j : ℕ) → i < j → j < n → get_or s j 0 ≢ slash)
unfolding last_slash
last_slash-found zero s h = absurd (none≢some h)
last_slash-found (suc n) s {i = i} h = elim (==-cases (get_or s n 0) slash) [
  | inl (e, b) ↦
      let is : n ≡ i = ground arith in
      (omega arith, ap (λ k. get_or s k 0) (sym is) ∙ e, λ j p q. absurd (omega arith))
  | inr (ne, b) ↦
      let (p, e, later) = last_slash-found n s {i = i} (ground arith) in
      (
        omega arith,
        e,
        λ j q r. elim (==-cases j n) [
          | inl (is, _) ↦ λ x. ne (ap (λ k. get_or s k 0) (sym is) ∙ x)
          | inr (other, _) ↦ later j q (omega arith)
        ],
      )
]

get_or-drop : (i j : ℕ) (s : Str) → get_or (drop i s) j 0 ≡ get_or s (i + j) 0
get_or-drop zero j s = let e : j ≡ 0 + j = omega arith in ap (λ k. get_or s k 0) e
get_or-drop (suc i) j [] = refl
get_or-drop (suc i) j (c ∷ cs) =
    let e : suc (i + j) ≡ suc i + j = omega arith in
    get_or-drop i j cs ∙ ap (λ k. get_or (c ∷ cs) k 0) e

length-drop : (i : ℕ) (s : Str) → length (drop i s) ≡ length s - i
length-drop zero s = omega arith
length-drop (suc i) [] = omega arith
length-drop (suc i) (c ∷ cs) = omega (arith, length-drop i cs)

split_at :
    (path : Str) (i : ℕ)
    → last_slash (length path) path ≡ some (suc i)
    → path_split path ≡ (take 127 (take (suc i) path), take 31 (drop (suc (suc i)) path))
unfolding path_split
split_at path i h = rw (h, path_split) refl

pub length-take_le : (n : ℕ) (s : Str) → length (take n s) ≤ n
length-take_le zero s = omega arith
length-take_le (suc n) [] = omega arith
length-take_le (suc n) (c ∷ cs) = omega (arith, length-take_le n cs)

-- A path with a '/' behind its first byte, whose parent has at most 127 bytes and whose name at most
-- 31, is its parent, a '/' and its name, and the name has no '/'.
pub path_split-join :
    (path : Str) (i : ℕ)
    → last_slash (length path) path ≡ some (suc i)
    → suc i ≤ 127
    → length path ≤ suc i + 32
    → let (parent, name) = path_split path in
      (parent ++ (slash ∷ name) ≡ path) × ((j : ℕ) → j < length name → get_or name j 0 ≢ slash)
path_split-join path i h p q =
    let (below, here, later) = last_slash-found (length path) path h in
    let parent : take 127 (take (suc i) path) ≡ take (suc i) path =
      take-all 127 _ (omega (arith, length-take_le (suc i) path)) in
    let name : take 31 (drop (suc (suc i)) path) ≡ drop (suc (suc i)) path =
      take-all 31 _ (omega (arith, length-drop (suc (suc i)) path)) in
    rw (split_at path i h, parent, name)
      (
        ap (λ c. take (suc i) path ++ (c ∷ drop (suc (suc i)) path)) (sym here)
            ∙ take-get-drop (suc i) path below,
        λ j r e.
            later (suc (suc i) + j) (omega arith) (omega (arith, length-drop (suc (suc i)) path))
              (sym (get_or-drop (suc (suc i)) j path) ∙ e),
      )
