-- ===== src/Noxlib/Readline/Moves.antt =====
-- The loops of readline over its buffer, cell by cell: what is moved, and what stays.
use noxis.Prelude.{ℕ, zero, suc, ◌+◌, ◌-◌, ◌≤◌, ◌<◌, ◌≡◌, refl, ap, ◌∙◌, inl, inr, [], ◌∷◌, arith}
use mathlib.Core.Path.{ap₂}
use noxis.Prelude.{update, slice, slice_agree, length, ==-cases, update_self, update_ne}
use noxis.Paths.{Str}
use noxis.Noxlib.Readline.{shift_up, shift_down, copy_str}

shift_up_above : (n i : ℕ) (b : ℕ → ℕ) (j : ℕ) → i < j → shift_up n i b j ≡ b j
unfolding shift_up
shift_up_above zero i b j h = refl
shift_up_above (suc n) i b j h = ground (arith, shift_up_above n (i - 1) (update b i (b (i - 1))) j)

shift_up_below : (n i : ℕ) (b : ℕ → ℕ) (j : ℕ) → n ≤ i → j + n ≤ i → shift_up n i b j ≡ b j
unfolding shift_up
shift_up_below zero i b j k h = refl
shift_up_below (suc n) i b j k h =
    ground (arith, shift_up_below n (i - 1) (update b i (b (i - 1))) j)

shift_up_moved :
    (n i : ℕ) (b : ℕ → ℕ) (j : ℕ) → n ≤ i → i ≤ j + n → j < i → shift_up n i b (suc j) ≡ b j
unfolding shift_up
shift_up_moved zero i b j k h p = absurd (omega arith)
shift_up_moved (suc n) i b j k h p = elim (==-cases (suc j) i) [
  | inl (e, t) ↦
      shift_up_above n (i - 1) (update b i (b (i - 1))) (suc j) (omega arith)
      ∙ ap (update b i (b (i - 1))) e
      ∙ update_self b i (b (i - 1))
      ∙ ap b (omega arith)
  | inr (ne, t) ↦ ground (
    arith,
    shift_up_moved n (i - 1) (update b i (b (i - 1))) j (omega arith) (omega arith) (omega arith),
  )
]

shift_down_below : (n i : ℕ) (b : ℕ → ℕ) (j : ℕ) → j < i → shift_down n i b j ≡ b j
unfolding shift_down
shift_down_below zero i b j h = refl
shift_down_below (suc n) i b j h =
    ground (arith, shift_down_below n (i + 1) (update b i (b (i + 1))) j)

shift_down_moved :
    (n i : ℕ) (b : ℕ → ℕ) (j : ℕ) → i ≤ j → j < i + n → shift_down n i b j ≡ b (j + 1)
unfolding shift_down
shift_down_moved zero i b j k h = absurd (omega arith)
shift_down_moved (suc n) i b j k h = ground (
  arith,
  shift_down_moved n (i + 1) (update b i (b (i + 1))) j,
  shift_down_below n (i + 1) (update b i (b (i + 1))) j,
)

copy_str_below : (s : Str) (i : ℕ) (b : ℕ → ℕ) (j : ℕ) → j < i → copy_str s i b j ≡ b j
unfolding copy_str
copy_str_below [] i b j h = refl
copy_str_below (c ∷ cs) i b j h = ground (arith, copy_str_below cs (i + 1) (update b i c) j)

-- A copied string stands in the buffer.
pub slice-copy_str : (s : Str) (i : ℕ) (b : ℕ → ℕ) → slice (copy_str s i b) i (length s) ≡ s
unfolding copy_str
slice-copy_str [] i b = refl
slice-copy_str (c ∷ cs) i b =
    let first : copy_str cs (i + 1) (update b i c) i ≡ c =
      copy_str_below cs (i + 1) (update b i c) i (omega arith) ∙ update_self b i c in
    let next : suc i ≡ i + 1 = omega arith in
    ap₂ ◌∷◌ first (
      ap (λ j. slice (copy_str cs (i + 1) (update b i c)) j (length cs)) next
      ∙ slice-copy_str cs (i + 1) (update b i c))

-- What stays of a slice whose cells are left alone.
pub slice-update : (b : ℕ → ℕ) (i n k v : ℕ) → i + n ≤ k → slice (update b k v) i n ≡ slice b i n
slice-update b i n k v h =
    slice_agree (update b k v) b i i n (λ j p. update_ne b k (i + j) v (omega arith))

-- An insertion at `cur` in `len` cells: what is before it stays, and what is behind it moves up.
module _ (b : ℕ → ℕ) (cur n c : ℕ) where
  abbrev inserted : ℕ → ℕ
  inserted = update (shift_up n (cur + n) b) cur c

  pub inserted_before : slice inserted 0 cur ≡ slice b 0 cur
  inserted_before = slice_agree inserted b 0 0 cur (λ k p.
      update_ne (shift_up n (cur + n) b) cur (0 + k) c (omega arith)
      ∙ shift_up_below n (cur + n) b (0 + k) (omega arith) (omega arith))

  pub inserted_after : slice inserted (cur + 1) n ≡ slice b cur n
  inserted_after = slice_agree inserted b (cur + 1) cur n (λ k p.
      let up : cur + 1 + k ≡ suc (cur + k) = omega arith in
      update_ne (shift_up n (cur + n) b) cur (cur + 1 + k) c (omega arith)
      ∙ ap (shift_up n (cur + n) b) up
      ∙ shift_up_moved n (cur + n) b (cur + k) (omega arith) (omega arith) (omega arith))

-- A removal at `cur` from `cur + suc n` cells.
module _ (b : ℕ → ℕ) (cur n : ℕ) where
  abbrev pub removed : ℕ → ℕ
  removed = shift_down n cur b

  pub removed_before : slice removed 0 cur ≡ slice b 0 cur
  removed_before =
      slice_agree removed b 0 0 cur (λ k p. shift_down_below n cur b (0 + k) (omega arith))

  pub removed_after : slice removed cur n ≡ slice b (cur + 1) n
  removed_after =
      slice_agree removed b cur (cur + 1) n
        (λ k p. shift_down_moved n cur b (cur + k) (omega arith) (omega arith) ∙ ap b (omega arith))
