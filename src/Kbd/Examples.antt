-- ===== src/Kbd/Examples.antt =====
-- Runs of the keyboard buffer.
use noxis.Prelude.{◌%◌, ◌≡◌, refl, true, false, [], ◌∷◌, none, some, arith, if◌then◌else◌, ◌==◌}
use noxis.Kbd.{
  Kbd, Keymap, quiet, sigint, kbd_isr, key_char, apply_caps, apply_ctrl, buf_push, kbd_poll,
}
use noxis.Kbd.Queue.{key, poll, contents, run, queue_run, run-queue_run}
use noxis.Kbd.Keys.{kbd_isr-release}

-- The C key of the US layout.
abbrev c_key : Keymap
c_key = record {
  low = λ n. if n == 0x2E then b'c' else 0;
  high = λ n. if n == 0x2E then b'C' else 0;
}

-- One character waits, at the end of the ring.
abbrev one_waits : Kbd
one_waits = record { buf = λ i. i % 256; head = 0; tail = 255; shift = 0; caps = false; ctrl = 1 }

types_and_reads : run one_waits (key 7 ∷ poll ∷ poll ∷ poll ∷ []) ≡ some 255 ∷ some 7 ∷ none ∷ []
unfolding run buf_push kbd_poll
types_and_reads = refl

run-queue_run_example :
    run one_waits (key 7 ∷ poll ∷ []) ≡ queue_run (contents one_waits) (key 7 ∷ poll ∷ [])
run-queue_run_example = run-queue_run (key 7 ∷ poll ∷ []) one_waits (omega arith)

kbd_isr-release_run :
    (kbd_isr c_key true 0xAA (kbd_isr c_key true 0x2A one_waits).1 ≡ (quiet, one_waits))
    × (kbd_isr c_key true 0xB6 (kbd_isr c_key true 0x36 one_waits).1 ≡ (quiet, one_waits))
    × (kbd_isr c_key true 0x9D (kbd_isr c_key true 0x1D one_waits).1 ≡ (quiet, one_waits))
kbd_isr-release_run = kbd_isr-release c_key true one_waits (omega arith) (omega arith)

ctrl_c : (kbd_isr c_key true 0x2E one_waits).0 ≡ sigint
unfolding kbd_isr key_char apply_caps apply_ctrl
ctrl_c = refl
