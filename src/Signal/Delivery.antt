-- ===== src/Signal/Delivery.antt =====
-- Which signal a delivery takes, and what it leaves pending.
use noxis.Prelude.{ℕ, zero, suc, ◌+◌, ◌^◌, ◌≤◌, ◌<◌, ◌≡◌, ◌≢◌, refl, sym, ap, ◌∙◌, ◌⊎◌, inl, inr}
use noxis.Prelude.{
  Bool, true, false, arith, ◌==◌, ◌!=◌, ◌&&◌, ◌||◌, if◌then◌else◌, Bool-cases, ==-cases,
}
use noxis.Prelude.{bit_and, ◌-◌, ◌%◌}
use noxis.Prelude.Bits.{test_bit, bit_not, bit_and-pow, test_bit-clear, test_bit-zero}
use native.Mathlib.Nat.{one-le-pow}
use noxis.Signal.{
  Frame, Outcome, returns, handles, exits, is_fatal, enter_handler, deliver_from, deliver_signals,
}

-- A pending signal that is not ignored.
abbrev pub acts : (ℕ → ℕ) → ℕ → ℕ → Bool
acts handler pending sig = test_bit pending sig == 1 && (handler sig != 0 || is_fatal sig)

-- What a signal that acts does. Where it has a handler, the program goes on there, with the signal's
-- number as the argument, on a stack that is 8 bytes longer and has the old rip on top.
abbrev pub act : (ℕ → ℕ) → ℕ → Frame → Outcome
act handler sig f =
    let top = (f.rsp + 2 ^ 64 - 8) % 2 ^ 64 in
    if handler sig != 0
    then handles (record { rsp = top; rip = handler sig; rdi = sig }) top f.rip
    else exits (128 + sig)

-- The mask `left` is `pending` without the signals from `a` up to `b`.
pub record IsCleared (a b pending left : ℕ) : Type 0 where
  pub gone : (j : ℕ) → a ≤ j → j < b → test_bit left j ≡ 0
  pub kept : (j : ℕ) → j < 32 → (j < a) ⊎ (b ≤ j) → test_bit left j ≡ test_bit pending j

-- Among the signals from `a` on, `sig` is the first that acts; it and those below are cleared.
pub record IsTaken (a : ℕ) (handler : ℕ → ℕ) (f : Frame) (pending : ℕ) (o : Outcome) (left sig : ℕ)
    : Type 0 where
  pub from_a : a ≤ sig
  pub below : sig < 32
  pub does : acts handler pending sig ≡ true
  pub first : (j : ℕ) → a ≤ j → j < sig → acts handler pending j ≡ false
  pub outcome : o ≡ act handler sig f
  pub cleared : IsCleared a (suc sig) pending left

-- None of them acts, and all are cleared.
pub record IsQuiet (a : ℕ) (handler : ℕ → ℕ) (pending : ℕ) (o : Outcome) (left : ℕ) : Type 0 where
  pub idle : (j : ℕ) → a ≤ j → j < 32 → acts handler pending j ≡ false
  pub outcome : o ≡ returns
  pub cleared : IsCleared a 32 pending left

abbrev pub IsDelivery : ℕ → (ℕ → ℕ) → Frame → ℕ → Outcome × ℕ → Type 0
IsDelivery a handler f pending (o, left) =
    IsQuiet a handler pending o left ⊎ ((sig : ℕ) × IsTaken a handler f pending o left sig)

widen :
    (a b pending later left : ℕ)
    → test_bit later a ≡ 0
    → ((j : ℕ) → j < 32 → a ≢ j → test_bit later j ≡ test_bit pending j)
    → a < b
    → b ≤ 32
    → IsCleared (a + 1) b later left
    → IsCleared a b pending left
widen a b pending later left zero_bit same p p' c = record {
  gone = λ j h h'. elim (==-cases a j) [
    | inl (e, _) ↦
        ap (test_bit left) (sym e) ∙ c.kept a (omega arith) (inl (omega arith)) ∙ zero_bit
    | inr (ne, _) ↦ c.gone j (omega arith) h'
  ];
  kept = λ j h h'. c.kept j h (beyond j h') ∙ same j h (apart j h');
}
  where
    beyond : (j : ℕ) → (j < a) ⊎ (b ≤ j) → (j < a + 1) ⊎ (b ≤ j)
    beyond j (inl q) = inl (omega arith)
    beyond j (inr q) = inr q

    apart : (j : ℕ) → (j < a) ⊎ (b ≤ j) → a ≢ j
    apart j (inl q) = omega arith
    apart j (inr q) = omega arith

-- A first signal that is not pending, or that is ignored, makes no difference.
skip :
    {handler : ℕ → ℕ} {f : Frame} (a pending later : ℕ) (r : Outcome × ℕ)
    → a < 32
    → acts handler pending a ≡ false
    → test_bit later a ≡ 0
    → ((j : ℕ) → j < 32 → a ≢ j → test_bit later j ≡ test_bit pending j)
    → IsDelivery (a + 1) handler f later r
    → IsDelivery a handler f pending r
skip {handler} {f} a pending later (o, left) p ignored zero_bit same (inl q) = inl (record {
  idle = λ j h h'. elim (==-cases a j) [
    | inl (e, _) ↦ ap (acts handler pending) (sym e) ∙ ignored
    | inr (ne, _) ↦
        ap (λ t. t == 1 && (handler j != 0 || is_fatal j)) (sym (same j h' ne))
        ∙ q.idle j (omega arith) h'
  ];
  outcome = q.outcome;
  cleared = widen a 32 pending later left zero_bit same p (omega arith) q.cleared;
})
skip {handler} {f} a pending later (o, left) p ignored zero_bit same (inr (sig, t)) = inr (
  sig,
  record {
    from_a = omega (arith, t.from_a);
    below = t.below;
    does =
        ap (λ b. b == 1 && (handler sig != 0 || is_fatal sig))
          (sym (same sig t.below (omega (arith, t.from_a))))
        ∙ t.does;
    first = λ j h h'. elim (==-cases a j) [
      | inl (e, _) ↦ ap (acts handler pending) (sym e) ∙ ignored
      | inr (ne, _) ↦
          ap (λ b. b == 1 && (handler j != 0 || is_fatal j))
            (sym (same j (omega (arith, t.below)) ne))
          ∙ t.first j (omega arith) h'
    ];
    outcome = t.outcome;
    cleared =
        widen a (suc sig) pending later left zero_bit same (omega (arith, t.from_a))
          (omega (arith, t.below)) t.cleared;
  },
)

step_absent :
    (n a : ℕ) (handler : ℕ → ℕ) (f : Frame) (pending : ℕ)
    → bit_and pending (2 ^ a) ≡ 0
    → deliver_from (suc n) a handler f pending ≡ deliver_from n (a + 1) handler f pending
unfolding deliver_from
step_absent n a handler f pending e = ground (arith, e)

-- The three cases of a signal that is pending.
step_present :
    (n a : ℕ) (handler : ℕ → ℕ) (f : Frame) (pending : ℕ)
    → (bit_and pending (2 ^ a) == 0) ≡ false
    → deliver_from (suc n) a handler f pending ≡ (
        if handler a != 0 || is_fatal a
        then (act handler a f, bit_and pending (bit_not 32 (2 ^ a)))
        else deliver_from n (a + 1) handler f (bit_and pending (bit_not 32 (2 ^ a))))
unfolding deliver_from enter_handler
step_present n a handler f pending e = ground (arith, e)

taken :
    {handler : ℕ → ℕ} {f : Frame} (a pending : ℕ)
    → a < 32
    → acts handler pending a ≡ true
    → IsTaken a handler f pending (act handler a f) (bit_and pending (bit_not 32 (2 ^ a))) a
taken {handler} {f} a pending p e = record {
  from_a = omega arith;
  below = p;
  does = e;
  first = λ j h h'. absurd (omega arith);
  outcome = refl;
  cleared = record {
    gone = λ j h h'. ground (arith, test_bit-clear 32 a pending j p (omega arith));
    kept = λ j h h'. test_bit-clear 32 a pending j p h ∙ ground arith;
  };
}

pub deliver_from-IsDelivery :
    (n a : ℕ) (handler : ℕ → ℕ) (f : Frame) (pending : ℕ)
    → a + n ≡ 32
    → IsDelivery a handler f pending (deliver_from n a handler f pending)
unfolding deliver_from
deliver_from-IsDelivery zero a handler f pending e = inl (record {
  idle = λ j h h'. absurd (omega arith);
  outcome = refl;
  cleared = record { gone = λ j h h'. absurd (omega arith); kept = λ j h h'. refl };
})
deliver_from-IsDelivery (suc n) a handler f pending e = elim (bit_and-pow a pending) [
  | inl (off, m) ↦ rw (step_absent n a handler f pending m) (
      skip a pending pending _ (omega arith) (ground (arith, off)) off (λ j h h'. refl)
        (deliver_from-IsDelivery n (a + 1) handler f pending (omega arith)))
  | inr (on, m) ↦
      let left = bit_and pending (bit_not 32 (2 ^ a)) in
      let set : (bit_and pending (2 ^ a) == 0) ≡ false =
        ground (arith, m, one-le-pow a 2 (omega arith)) in
      rw (step_present n a handler f pending set)
        (elim (Bool-cases (handler a != 0 || is_fatal a)) [
          | inl b ↦ rw b (inr (a, taken a pending (omega arith) (ground (arith, on, b))))
          | inr b ↦ rw b (
              skip a pending left _ (omega arith) (ground (arith, b))
                (ground (arith, test_bit-clear 32 a pending a (omega arith) (omega arith)))
                (λ j h ne. ground (arith, test_bit-clear 32 a pending j (omega arith) h))
                (deliver_from-IsDelivery n (a + 1) handler f left (omega arith)))
        ])
]

-- A delivery takes the lowest pending signal that has a handler or is fatal. With a handler, rip becomes
-- the handler, rdi the number of the signal, rsp is lowered by 8, and the old rip is stored there;
-- without one, the process exits with 128 and the number; it and the ignored ones below are no longer pending
-- and the others still are. If no pending signal acts, the call returns and none is pending.
pub deliver_signals-IsDelivery :
    (handler : ℕ → ℕ) (f : Frame) (pending : ℕ)
    → IsDelivery 1 handler f pending (deliver_signals handler f pending)
unfolding deliver_signals
deliver_signals-IsDelivery handler f pending = elim (==-cases pending 0) [
  | inl (e, b) ↦ rw b (
      inl (record {
        idle = λ j h h'. ground (arith, ap (λ w. test_bit w j) e, test_bit-zero j);
        outcome = refl;
        cleared = record {
          gone = λ j h h'. ap (λ w. test_bit w j) e ∙ test_bit-zero j;
          kept = λ j h h'. refl;
        };
      }))
  | inr (ne, b) ↦ rw b (deliver_from-IsDelivery 31 1 handler f pending refl)
]
