-- ===== src/Kbd.antt =====
-- The PS/2 keyboard, src/drivers/kbd.c: a ring of 256 bytes between the interrupt handler and
-- `kbd_poll`, and the state of the shift, control and caps-lock keys.
pub mod Queue
pub mod Keys
mod Examples
use noxis.Prelude.{ℕ, ◌+◌, ◌-◌, ◌/◌, ◌%◌, Bool, true, false, Option, none, some, ltb, leb}
use noxis.Prelude.{◌==◌, ◌!=◌, ◌&&◌, ◌||◌, update, if◌then◌else◌, bit_and}

abbrev pub kbd_buf : ℕ
kbd_buf = 256

pub record Kbd : Type 0 where
  pub buf : ℕ → ℕ
  pub head : ℕ
  pub tail : ℕ
  pub shift : ℕ
  pub caps : Bool
  pub ctrl : ℕ

-- A keymap's two tables; the tables themselves are in src/drivers/keymap.c.
pub record Keymap : Type 0 where
  pub low : ℕ → ℕ
  pub high : ℕ → ℕ

pub buf_push : ℕ → Kbd → Kbd
buf_push c k =
    let n = (k.head + 1) % kbd_buf in
    if n != k.tail then (record k { buf = update k.buf k.head c; head = n }) else k

-- `none` is the -1 of an empty ring.
pub kbd_poll : Kbd → Option ℕ × Kbd
kbd_poll k =
    if k.tail == k.head
    then (none, k)
    else (some (k.buf k.tail), record k { tail = (k.tail + 1) % kbd_buf })

-- `g_shift++` and `if (g_shift) g_shift--` on a uint8_t.
pub press : ℕ → ℕ
press n = (n + 1) % 256

pub release_key : ℕ → ℕ
release_key n = if n != 0 then n - 1 else n

abbrev pub is_lower : ℕ → Bool
is_lower c = leb b'a' c && leb c b'z'

abbrev pub is_upper : ℕ → Bool
is_upper c = leb b'A' c && leb c b'Z'

-- Caps lock swaps the case of a letter.
pub apply_caps : Bool → ℕ → ℕ
apply_caps caps c =
    if caps then if is_lower c then c - 32 else if is_upper c then c + 32 else c else c

-- Control turns a letter into its control code.
pub apply_ctrl : ℕ → ℕ → ℕ
apply_ctrl ctrl c = if ctrl != 0 then if is_lower c || is_upper c then bit_and c 0x1F else c else c

-- What the handler asks of the rest of the kernel.
pub data Effect : Type 0 where
  quiet sigint : Effect

-- A key that makes a character: the lines of `_kbd_isr` behind the modifier keys.
pub key_char : Keymap → Bool → ℕ → Kbd → Effect × Kbd
key_char km isig code k =
    let c = if k.shift != 0 then km.high code else km.low code in
    if c == 0
    then (quiet, k)
    else let d = apply_ctrl k.ctrl (apply_caps k.caps c) in
      if (k.ctrl != 0 && d == 0x03) && isig then (sigint, k) else (quiet, buf_push d k)

-- `_kbd_isr` on the byte read from the port; `isig` is tty_isig().
pub kbd_isr : Keymap → Bool → ℕ → Kbd → Effect × Kbd
kbd_isr km isig sc k =
    let released = bit_and sc 0x80 != 0 in
    let code = bit_and sc 0x7F in
    if code == 0x2A || code == 0x36
    then (quiet, record k { shift = if released then release_key k.shift else press k.shift })
    else if code == 0x1D
    then (quiet, record k { ctrl = if released then release_key k.ctrl else press k.ctrl })
    else if code == 0x3A
    then (quiet, record k { caps = if released then k.caps else if k.caps then false else true })
    else if released
    then (quiet, k)
    else key_char km isig code k
