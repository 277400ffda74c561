-- ===== src/Kbd/Keys.antt =====
-- What a scancode does to the modifier keys and to the buffer.
use noxis.Prelude.{ℕ, ◌<◌, ◌≡◌, ◌≢◌}
use noxis.Prelude.{Bool, true, arith, bit_and}
use noxis.Kbd.{Kbd, Keymap, quiet, sigint, kbd_isr, key_char, press, release_key}

-- A press of either shift key or of control, and the release of the same key, leave the keyboard as
-- it was, if fewer than 255 presses are held: the count of a held key is a byte.
pub kbd_isr-release :
    (km : Keymap) (isig : Bool) (k : Kbd)
    → k.shift < 255
    → k.ctrl < 255
    → (kbd_isr km isig 0xAA (kbd_isr km isig 0x2A k).1 ≡ (quiet, k))
      × (kbd_isr km isig 0xB6 (kbd_isr km isig 0x36 k).1 ≡ (quiet, k))
      × (kbd_isr km isig 0x9D (kbd_isr km isig 0x1D k).1 ≡ (quiet, k))
unfolding kbd_isr press release_key
kbd_isr-release km isig k h h' = ground arith

-- A signal is raised only by the press of a key, with control held and signals on, and leaves the
-- keyboard's state as it was.
pub kbd_isr-sigint :
    (km : Keymap) (isig : Bool) (sc : ℕ) (k : Kbd)
    → (kbd_isr km isig sc k).0 ≡ sigint
    → (isig ≡ true) × (k.ctrl ≢ 0) × (bit_and sc 0x80 ≡ 0) × ((kbd_isr km isig sc k).1 ≡ k)
unfolding kbd_isr key_char
kbd_isr-sigint km isig sc k h = ground arith
