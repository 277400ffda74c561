-- ===== src/Signal.antt =====
-- Signals, src/proc/signal.c: the 32-bit mask of pending signals, the handlers, and the delivery on
-- the way back to user mode. `deliver_signals` (a syscall's frame) and `deliver_signals_isr` (an
-- interrupt's) are the same code on the three registers of a frame that both use. `sys_exit` does
-- not return, which is the outcome `exits`.
pub mod Delivery
mod Examples
use noxis.Prelude.{ℕ, zero, suc, ◌+◌, ◌-◌, ◌^◌, ◌%◌, Bool, true, false, Option, none, some}
use noxis.Prelude.{◌==◌, ◌!=◌, ◌||◌, leb, update, if◌then◌else◌, bit_and, bit_or}
use noxis.Prelude.Bits.{bit_not}

-- The registers of the user program that a delivery changes.
pub record Frame : Type 0 where
  pub rsp : ℕ
  pub rip : ℕ
  pub rdi : ℕ

pub data Outcome : Type 0 where
  -- No signal is delivered.
  returns : Outcome
  -- The frame continues in a handler; a word is stored on the user's stack: its address, its value.
  handles : (to : Frame) (address : ℕ) (value : ℕ) → Outcome
  exits : (code : ℕ) → Outcome

-- SIGKILL, SIGTERM, SIGINT
abbrev pub is_fatal : ℕ → Bool
is_fatal sig = (sig == 9 || sig == 15) || sig == 2

-- frame->rsp -= 8; *frame->rsp = frame->rip; frame->rip = h; frame->rdi = sig
pub enter_handler : ℕ → ℕ → Frame → Outcome
enter_handler h sig f =
    let top = (f.rsp + 2 ^ 64 - 8) % 2 ^ 64 in
    handles (record { rsp = top; rip = h; rdi = sig }) top f.rip

-- The loop over the signals from `sig` on, with the rounds left.
pub deliver_from : ℕ → ℕ → (ℕ → ℕ) → Frame → ℕ → Outcome × ℕ
deliver_from zero sig handler f pending = (returns, pending)
deliver_from (suc n) sig handler f pending =
    let left = bit_and pending (bit_not 32 (2 ^ sig)) in
    elim (bit_and pending (2 ^ sig) == 0) [
      | true ↦ deliver_from n (sig + 1) handler f pending
      | false ↦ elim (handler sig != 0) [
        | true ↦ (enter_handler (handler sig) sig f, left)
        | false ↦ elim (is_fatal sig) [
          | true ↦ (exits (128 + sig), left)
          | false ↦ deliver_from n (sig + 1) handler f left
        ]
      ]
    ]

pub deliver_signals : (ℕ → ℕ) → Frame → ℕ → Outcome × ℕ
deliver_signals handler f pending =
    if pending == 0 then (returns, pending) else deliver_from 31 1 handler f pending

-- A signal number in range; an `int` that is negative is too large as a bit pattern.
abbrev pub is_signal : ℕ → Bool
is_signal sig = if sig == 0 then false else if leb 32 sig then false else true

-- `none` is -1.
pub sys_signal : ℕ → ℕ → (ℕ → ℕ) → Option (ℕ → ℕ)
sys_signal sig h handler = if is_signal sig then some (update handler sig h) else none

-- sys_kill on the mask of the process found.
pub sys_kill : ℕ → Option ℕ → Option ℕ
sys_kill sig none = none
sys_kill sig (some pending) = if is_signal sig then some (bit_or pending (2 ^ sig)) else none
