-- ===== src/Prelude/Bits.antt =====
-- The bits of a machine word: what `|`, `&` and `~` do to the bit that `(w >> i) & 1` reads.
use Prim.Native.Nat.{
  ℕ, zero, suc, ◌+◌, ◌-◌, ◌*◌, ◌/◌, ◌%◌, ◌^◌, ◌≤◌, ◌<◌, min, max, bit_and, bit_or, digits, bitwise,
  bit_and-bitwise, bit_or-bitwise,
}
use mathlib.Core.Path.{◌≡◌, refl, sym, ap, ◌∙◌}
use mathlib.Core.Logic.{◌≢◌, ◌⊎◌, inl, inr}
use noxis.Prelude.Tests.{◌==◌, if◌then◌else◌, ==-cases}
use native.Mathlib.Nat.{
  le_refl, pow-suc, one-le-pow, pow-le-pow_right, mul_comm, div-div-eq-div-mul,
}
use native.Mathlib.Omega.{arith}

-- A native operation on bits, at any count of rounds that is large enough.
module _ (z : ℕ → ℕ) (f : ℕ → ℕ → ℕ) where
  digits-zero : (rounds b : ℕ) → digits z f rounds 0 b ≡ z b
  digits-zero zero b = refl
  digits-zero (suc rounds) b = refl

  digits_spare :
      (least : ℕ) {rounds x : ℕ} (y : ℕ)
      → x ≤ least
      → least ≤ rounds
      → digits z f rounds x y ≡ digits z f least x y
  digits_spare least {rounds = rounds} {x = zero} y _ _ =
      digits-zero rounds y ∙ sym (digits-zero least y)
  digits_spare zero {x = suc x} y low _ = absurd (omega (arith, low))
  digits_spare (suc least) {rounds = zero} {x = suc x} y _ high = absurd (omega (arith, high))
  digits_spare (suc least) {rounds = suc rounds} {x = suc x} y low high =
      let halves =
        digits_spare least {rounds = rounds} {x = suc x / 2} (y / 2) (omega (arith, low))
          (omega (arith, high)) in
      ap (λ h. h * 2 + f (suc x % 2) (y % 2)) halves

  -- The lowest digit, where `z` agrees with `f` on numbers that have run out.
  bitwise_low :
      ((y : ℕ) → z y ≡ z (y / 2) * 2 + f 0 (y % 2))
      → (x y : ℕ) → bitwise z f x y ≡ bitwise z f (x / 2) (y / 2) * 2 + f (x % 2) (y % 2)
  bitwise_low agree zero y = agree y
  bitwise_low agree (suc x) y =
      ap (λ h. h * 2 + f (suc x % 2) (y % 2))
        (digits_spare (suc x / 2) {rounds = x} (y / 2) (omega arith) (omega arith))

pub bit_or_step : (x y : ℕ) → bit_or x y ≡ bit_or (x / 2) (y / 2) * 2 + max (x % 2) (y % 2)
bit_or_step x y =
    bit_or-bitwise x y
    ∙ bitwise_low (λ k. k) max (λ k. omega arith) x y
    ∙ ap (λ h. h * 2 + max (x % 2) (y % 2)) (sym (bit_or-bitwise (x / 2) (y / 2)))

pub bit_and_step : (x y : ℕ) → bit_and x y ≡ bit_and (x / 2) (y / 2) * 2 + min (x % 2) (y % 2)
bit_and_step x y =
    bit_and-bitwise x y
    ∙ bitwise_low (λ k. 0) min (λ k. omega arith) x y
    ∙ ap (λ h. h * 2 + min (x % 2) (y % 2)) (sym (bit_and-bitwise (x / 2) (y / 2)))

-- `(w >> i) & 1`, by recursion on `i`.
abbrev pub test_bit : ℕ → ℕ → ℕ
test_bit w zero = w % 2
test_bit w (suc i) = test_bit (w / 2) i

pub test_bit-le : (w i : ℕ) → test_bit w i ≤ 1
test_bit-le w zero = omega arith
test_bit-le w (suc i) = test_bit-le (w / 2) i

pub test_bit-or : (i a b : ℕ) → test_bit (bit_or a b) i ≡ max (test_bit a i) (test_bit b i)
test_bit-or zero a b = omega (arith, bit_or_step a b)
test_bit-or (suc i) a b =
    let half : bit_or a b / 2 ≡ bit_or (a / 2) (b / 2) = omega (arith, bit_or_step a b) in
    rw half (test_bit-or i (a / 2) (b / 2))

pub test_bit-and : (i a b : ℕ) → test_bit (bit_and a b) i ≡ min (test_bit a i) (test_bit b i)
test_bit-and zero a b = omega (arith, bit_and_step a b)
test_bit-and (suc i) a b =
    let half : bit_and a b / 2 ≡ bit_and (a / 2) (b / 2) = omega (arith, bit_and_step a b) in
    rw half (test_bit-and i (a / 2) (b / 2))

pub test_bit-zero : (i : ℕ) → test_bit 0 i ≡ 0
test_bit-zero zero = refl
test_bit-zero (suc i) = test_bit-zero i

halve_pow : (k : ℕ) → 2 ^ suc k / 2 ≡ 2 ^ k
halve_pow k = omega (arith, pow-suc 2 k)

pub test_bit-pow_self : (k : ℕ) → test_bit (2 ^ k) k ≡ 1
test_bit-pow_self zero = refl
test_bit-pow_self (suc k) = rw (halve_pow k) (test_bit-pow_self k)

pub test_bit-pow_ne : (k i : ℕ) → k ≢ i → test_bit (2 ^ k) i ≡ 0
test_bit-pow_ne zero zero h = absurd (h refl)
test_bit-pow_ne zero (suc i) h = test_bit-zero i
test_bit-pow_ne (suc k) zero h = omega (arith, pow-suc 2 k)
test_bit-pow_ne (suc k) (suc i) h = rw (halve_pow k) (test_bit-pow_ne k i (λ e. h (ap suc e)))

-- `~w` of an n-bit word.
abbrev pub bit_not : ℕ → ℕ → ℕ
bit_not n w = 2 ^ n - 1 - w

pub test_bit-not : (n w i : ℕ) → w < 2 ^ n → i < n → test_bit (bit_not n w) i ≡ 1 - test_bit w i
test_bit-not zero w i h p = absurd (omega arith)
test_bit-not (suc n) w zero h p = omega (arith, pow-suc 2 n)
test_bit-not (suc n) w (suc i) h p =
    let half : bit_not (suc n) w / 2 ≡ bit_not n (w / 2) = omega (arith, pow-suc 2 n) in
    rw half (test_bit-not n (w / 2) i (omega (arith, pow-suc 2 n)) (omega arith))

shift_suc : (w i : ℕ) → w / 2 ^ suc i ≡ w / 2 / 2 ^ i
shift_suc w i = rw (pow-suc, mul_comm) (sym (div-div-eq-div-mul w 2 (2 ^ i)))

bit_and-zero : (a : ℕ) → bit_and 0 a ≡ 0
bit_and-zero a = bit_and-bitwise 0 a

bit_and_zero_fuel : (n a : ℕ) → a ≤ n → bit_and a 0 ≡ 0
bit_and_zero_fuel n zero h = refl
bit_and_zero_fuel zero (suc a) h = absurd (omega arith)
bit_and_zero_fuel (suc n) (suc a) h =
    omega (arith, bit_and_step (suc a) 0, bit_and_zero_fuel n (suc a / 2) (omega arith))

pub bit_and-one : (a : ℕ) → bit_and a 1 ≡ a % 2
bit_and-one a = omega (arith, bit_and_step a 1, bit_and_zero_fuel (a / 2) (a / 2) (le_refl _))

-- The source's expression for a bit.
pub shift_and-one : (i w : ℕ) → bit_and (w / 2 ^ i) 1 ≡ test_bit w i
shift_and-one zero w = omega (arith, bit_and-one (w / 2 ^ 0))
shift_and-one (suc i) w = rw (shift_suc w i) (shift_and-one i (w / 2))

pub bit_or-lt : (n a b : ℕ) → a < 2 ^ n → b < 2 ^ n → bit_or a b < 2 ^ n
bit_or-lt zero a b p q =
    let ea : a ≡ 0 = omega arith in let eb : b ≡ 0 = omega arith in rw (ea, eb) (omega arith)
bit_or-lt (suc n) a b p q = omega (
  arith,
  pow-suc 2 n,
  bit_or_step a b,
  bit_or-lt n (a / 2) (b / 2) (omega (arith, pow-suc 2 n)) (omega (arith, pow-suc 2 n)),
)

pub bit_and-lt : (n a b : ℕ) → a < 2 ^ n → bit_and a b < 2 ^ n
bit_and-lt zero a b p = let ea : a ≡ 0 = omega arith in rw (ea, bit_and-zero b) (omega arith)
bit_and-lt (suc n) a b p = omega (
  arith,
  pow-suc 2 n,
  bit_and_step a b,
  bit_and-lt n (a / 2) (b / 2) (omega (arith, pow-suc 2 n)),
)

pub pow-lt : (k n : ℕ) → k < n → 2 ^ k < 2 ^ n
pow-lt k n h =
    let below : 2 ^ suc k ≤ 2 ^ n = pow-le-pow_right (omega arith) h in
    omega (arith, below, pow-suc 2 k, one-le-pow k 2)

-- Masking with one bit.
pub bit_and-pow :
    (k a : ℕ)
    → (test_bit a k ≡ 0) × (bit_and a (2 ^ k) ≡ 0)
      ⊎ (test_bit a k ≡ 1) × (bit_and a (2 ^ k) ≡ 2 ^ k)
bit_and-pow zero a = elim (bit_of a) [
  | inl e ↦ inl (e, omega (arith, bit_and-one a))
  | inr e ↦ inr (e, omega (arith, bit_and-one a))
]
  where
    bit_of : (a : ℕ) → (a % 2 ≡ 0) ⊎ (a % 2 ≡ 1)
    bit_of a = ground arith
bit_and-pow (suc k) a =
    let step : bit_and a (2 ^ suc k) ≡ bit_and (a / 2) (2 ^ k) * 2 =
      omega (arith, bit_and_step a (2 ^ suc k), pow-suc 2 k, ap (bit_and (a / 2)) (halve_pow k)) in
    elim (bit_and-pow k (a / 2)) [
      | inl (e, b) ↦ inl (e, omega (arith, step))
      | inr (e, b) ↦ inr (e, omega (arith, step, pow-suc 2 k))
    ]

-- Clearing one bit of an n-bit word.
pub test_bit-clear :
    (n k w j : ℕ)
    → k < n
    → j < n
    → test_bit (bit_and w (bit_not n (2 ^ k))) j ≡ (if k == j then 0 else test_bit w j)
test_bit-clear n k w j p q =
    let both = test_bit-and j w (bit_not n (2 ^ k)) in
    let flipped = test_bit-not n (2 ^ k) j (pow-lt k n p) q in
    elim (==-cases k j) [
      | inl (e, b) ↦
          rw b (
            omega (arith, both, flipped, ap (λ i. test_bit (2 ^ k) i) (sym e), test_bit-pow_self k))
      | inr (ne, b) ↦ rw b (omega (arith, both, flipped, test_bit-pow_ne k j ne, test_bit-le w j))
    ]

-- The n low bits of 2^n - 1 are set, and no other is.
pub ones-bit : (n z : ℕ) → z < n → test_bit (2 ^ n - 1) z ≡ 1
ones-bit zero z h = absurd (omega arith)
ones-bit (suc n) zero h = omega (arith, pow-suc 2 n, one-le-pow n 2)
ones-bit (suc n) (suc z) h =
    let half : (2 ^ suc n - 1) / 2 ≡ 2 ^ n - 1 = omega (arith, pow-suc 2 n, one-le-pow n 2) in
    rw half (ones-bit n z (omega arith))

pub ones-bit_high : (n z : ℕ) → n ≤ z → test_bit (2 ^ n - 1) z ≡ 0
ones-bit_high zero z h = test_bit-zero z
ones-bit_high (suc n) zero h = absurd (omega arith)
ones-bit_high (suc n) (suc z) h =
    let half : (2 ^ suc n - 1) / 2 ≡ 2 ^ n - 1 = omega (arith, pow-suc 2 n, one-le-pow n 2) in
    rw half (ones-bit_high n z (omega arith))

pub bit_and-lt_right : (n a b : ℕ) → b < 2 ^ n → bit_and a b < 2 ^ n
bit_and-lt_right zero a b p =
    let e : b ≡ 0 = omega arith in rw e (omega (arith, bit_and_zero_fuel a a (le_refl _)))
bit_and-lt_right (suc n) a b p = omega (
  arith,
  pow-suc 2 n,
  bit_and_step a b,
  bit_and-lt_right n (a / 2) (b / 2) (omega (arith, pow-suc 2 n)),
)
