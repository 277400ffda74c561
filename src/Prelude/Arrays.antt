-- ===== src/Prelude/Arrays.antt =====
-- C arrays as functions of the index: a read or a write at an index is total.
use Prim.Native.Nat.{ℕ, zero, suc, ◌+◌, ◌<◌}
use mathlib.Core.Path.{◌≡◌, refl, ap, ap₂, ◌∙◌, fun_ext}
use mathlib.Core.Logic.{◌≢◌}
use mathlib.Core.List.{List, [], ◌∷◌, ◌++◌}
use native.Mathlib.Omega.{arith}
use noxis.Prelude.Tests.{◌==◌, if◌then◌else◌}
use noxis.Prelude.Lists.{length}

module _ {ℓ} {A : Type ℓ} where
  abbrev pub update : (ℕ → A) → ℕ → A → ℕ → A
  update a i v j = if i == j then v else a j

  pub update_self : (a : ℕ → A) (i : ℕ) (v : A) → update a i v i ≡ v
  update_self a i v = ground arith

  pub update_ne : (a : ℕ → A) (i j : ℕ) (v : A) → i ≢ j → update a i v j ≡ a j
  update_ne a i j v h = ground arith

  pub update-update : (a : ℕ → A) (i : ℕ) (v w : A) → update (update a i v) i w ≡ update a i w
  update-update a i v w = fun_ext λ j. ground arith

  -- The n cells from i on.
  abbrev pub slice : (ℕ → A) → ℕ → ℕ → List A
  slice a i zero = []
  slice a i (suc n) = a i ∷ slice a (suc i) n

  pub length-slice : (a : ℕ → A) (i n : ℕ) → length (slice a i n) ≡ n
  length-slice a i zero = refl
  length-slice a i (suc n) = ap suc (length-slice a (suc i) n)

  -- Two slices whose cells agree, one after the other.
  pub slice_agree :
      (a b : ℕ → A) (i j n : ℕ)
      → ((k : ℕ) → k < n → a (i + k) ≡ b (j + k))
      → slice a i n ≡ slice b j n
  slice_agree a b i j zero h = refl
  slice_agree a b i j (suc n) h =
      let first : a i ≡ b j = ap a (omega arith) ∙ h 0 (omega arith) ∙ ap b (omega arith) in
      let later : (k : ℕ) → k < n → a (suc i + k) ≡ b (suc j + k) =
        λ k p. ap a (omega arith) ∙ h (k + 1) (omega arith) ∙ ap b (omega arith) in
      ap₂ ◌∷◌ first (slice_agree a b (suc i) (suc j) n later)

  pub slice-add : (a : ℕ → A) (i m n : ℕ) → slice a i (m + n) ≡ slice a i m ++ slice a (i + m) n
  slice-add a i zero n = ap₂ (λ j k. slice a j k) (omega arith) (omega arith)
  slice-add a i (suc m) n =
      let start : suc i + m ≡ i + suc m = omega arith in
      let total : suc m + n ≡ suc (m + n) = omega arith in
      rw total
        (ap (a i ∷◌) (slice-add a (suc i) m n ∙ ap (λ j. slice a (suc i) m ++ slice a j n) start))
