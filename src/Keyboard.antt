-- ===== src/Keyboard.antt =====
-- sys/keyboard.c and include/keyboard.h: the keyboard driver. There is one layout, so the pointer
-- `current_layout` is the layout itself; the scan code is what `inb (0x60)` reads.
pub mod Layout
pub mod Queue
pub mod Controls
pub mod Keys
mod Tests
use fotix.Base.{
  ℕ, zero, suc, ◌+◌, ◌-◌, ◌*◌, ◌^◌, List, Bool, true, false, not, ◌&&◌, ◌==◌, if◌then◌else◌, get_or,
  set, u8, u32, sub32, bit_and, bit_or,
}
use fotix.Base.Bits.{not32}
use fotix.Keyboard.Layout.{Keymap}

pub record Keyboard : Type 0 where
  pub current_layout : Keymap
  pub keyboard_buffer_start : ℕ
  pub keyboard_buffer_end : ℕ
  pub keyboard_buffer : List ℕ

-- `switch_layout (&us)` sets the pointer to the one layout there is, which is left as it stands.
unfoldable pub init_keyboard_driver : Keyboard → Keyboard
init_keyboard_driver k = record k { keyboard_buffer_start = 0; keyboard_buffer_end = 0 }

-- A mask of ones: `&= 255` on an index.
unfoldable pub keyboard_getchar : Keyboard → ℕ × Keyboard
keyboard_getchar k =
    if not (k.keyboard_buffer_start == k.keyboard_buffer_end)
    then (
      get_or k.keyboard_buffer k.keyboard_buffer_start 0,
      record k { keyboard_buffer_start = bit_and (u32 (k.keyboard_buffer_start + 1)) 255 },
    )
    else (0, k)

abbrev pub control : ℕ
control = 0x1

abbrev pub lshift : ℕ
lshift = 0x8

abbrev pub rshift : ℕ
rshift = 0x10

abbrev pub capslock : ℕ
capslock = 0x20

abbrev pub released_mask : ℕ
released_mask = 0x80

-- The loop over a released key, with the rounds that `i < 5` allows.
unfoldable pub release_loop : Keymap → (scancode rounds i : ℕ) → Keymap
release_loop l scancode zero i = l
release_loop l scancode (suc rounds) i =
    let rest = release_loop l scancode rounds (i + 1) in
    if get_or l.control_map i 0 == bit_and scancode (not32 released_mask)
    then record l { controls = u8 (bit_and l.controls (not32 (2 ^ i))) }
    else rest

-- The loop over a pressed key, with the rounds that `i < 8` allows; it also says whether the
-- handler returned from inside it, which it does where it sets a bit.
unfoldable pub press_loop : Keymap → (scancode rounds i : ℕ) → Keymap × Bool
press_loop l scancode zero i = (l, false)
press_loop l scancode (suc rounds) i =
    let rest = press_loop l scancode rounds (i + 1) in
    let cleared =
      press_loop (record l { controls = u8 (bit_and l.controls (not32 (2 ^ i))) }) scancode rounds
        (i + 1) in
    let turned : Keymap × Bool = (record l { controls = u8 (bit_or l.controls (2 ^ i)) }, true) in
    if get_or l.control_map i 0 == scancode
    then (if bit_and l.controls (2 ^ i) == 0 then turned else cleared)
    else rest

-- `scancodes` or `shift_scancodes`, as the control keys stand.
unfoldable pub current_scancodes : Keymap → List ℕ
current_scancodes l =
    if not (bit_and l.controls (bit_or (bit_or lshift rshift) capslock) == 0)
      && (bit_and l.controls control == 0)
    then l.shift_scancodes
    else l.scancodes

-- The end of the handler: the character goes into the buffer unless it is taken to be full.
unfoldable pub buffer_char : ℕ → Keyboard → Keyboard
buffer_char c k =
    if not (k.keyboard_buffer_end == sub32 k.keyboard_buffer_start 1)
    then record k {
      keyboard_buffer_end = bit_and (u32 (k.keyboard_buffer_end + 1)) 255;
      keyboard_buffer = set k.keyboard_buffer k.keyboard_buffer_end c;
    }
    else k

unfoldable pub key_pressed : (scancode : ℕ) → Keyboard → Keyboard
key_pressed scancode k =
    let (layout, returned) = press_loop k.current_layout scancode 8 0 in
    let k' = record k { current_layout = layout } in
    if returned then k' else buffer_char (get_or (current_scancodes layout) scancode 0) k'

unfoldable pub keyboard_handler : (scancode : ℕ) → Keyboard → Keyboard
keyboard_handler scancode k =
    if not (bit_and scancode released_mask == 0)
    then record k { current_layout = release_loop k.current_layout scancode 5 0 }
    else key_pressed scancode k
