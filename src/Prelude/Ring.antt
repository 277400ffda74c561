-- ===== src/Prelude/Ring.antt =====
-- Ring buffers: the bytes from an index on, going round at the capacity.
use Prim.Native.Nat.{ℕ, zero, suc, ◌+◌, ◌-◌, ◌%◌, ◌≤◌, ◌<◌}
use mathlib.Core.Path.{◌≡◌, refl, sym, ap, ap₂, ◌∙◌}
use mathlib.Core.Logic.{◌≢◌, ◌⊎◌, inl, inr}
use mathlib.Core.List.{List, [], ◌∷◌, ◌++◌}
use native.Mathlib.Nat.{mod-eq_of_lt, mod-eq-sub-mod, mod-add-mod, mod-lt}
use native.Mathlib.Decide.{dec_lt}
use native.Mathlib.Omega.{arith}
use noxis.Prelude.Arrays.{update, update_self, update_ne}
use noxis.Prelude.Lists.{length}

-- An index that passes the end at most once.
pub mod_once :
    (cap k : ℕ) → k < cap + cap → (k < cap) × (k % cap ≡ k) ⊎ (cap ≤ k) × (k % cap + cap ≡ k)
mod_once cap k h = elim (dec_lt k cap) [
  | yes p ↦ inl (p, mod-eq_of_lt p)
  | no p ↦ inr (
    omega arith,
    omega (
      arith,
      mod-eq-sub-mod {n = k} {m = cap} (omega arith),
      mod-eq_of_lt {n = k - cap} {m = cap} (omega arith),
    ),
  )
]

module _ {ℓ} {A : Type ℓ} (cap : ℕ) where
  abbrev pub window : (ℕ → A) → ℕ → ℕ → List A
  window buf h zero = []
  window buf h (suc n) = buf h ∷ window buf ((h + 1) % cap) n

  pub length-window : (buf : ℕ → A) (h n : ℕ) → length (window buf h n) ≡ n
  length-window buf h zero = refl
  length-window buf h (suc n) = ap suc (length-window buf ((h + 1) % cap) n)

module _ (cap : ℕ) where
  pub next-lt : (h : ℕ) → h < cap → (h + 1) % cap < cap
  next-lt h p = mod-lt (h + 1) (omega arith)

  -- Fewer steps than the capacity do not come back to the start.
  step-ne : (h k : ℕ) → h < cap → suc k < cap → (h + suc k) % cap ≢ h
  step-ne h k p q = elim (mod_once cap (h + suc k) (omega arith)) [
    | inl (below, e) ↦ omega arith
    | inr (above, e) ↦ omega arith
  ]

module _ {ℓ} {A : Type ℓ} (cap : ℕ) where
  -- What is written just past the window joins it.
  pub window-append :
      (buf : ℕ → A) (n h i : ℕ) (x : A)
      → h < cap
      → n < cap
      → i ≡ (h + n) % cap
      → window cap (update buf i x) h (suc n) ≡ window cap buf h n ++ (x ∷ [])
  window-append buf zero h i x p q e =
      let here : i ≡ h = e ∙ ap (λ k. k % cap) (omega arith) ∙ mod-eq_of_lt p in
      rw here (rw (update_self buf h x))
  window-append buf (suc n) h i x p q e =
      let onward : i ≡ ((h + 1) % cap + n) % cap =
        e ∙ ap (λ k. k % cap) (omega arith) ∙ sym (mod-add-mod (h + 1) cap n) in
      ap₂ ◌∷◌ (update_ne buf i h x (rw e (step-ne cap h n p q)))
        (window-append buf n ((h + 1) % cap) i x (next-lt cap h p) (omega arith) onward)
