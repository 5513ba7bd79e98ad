-- ===== src/Keyboard/Tests.antt =====
-- Runs of the keyboard driver, and its theorems at concrete keyboards.
use fotix.Base.{
  ◌+◌, ◌≡◌, refl, arith, [], ◌∷◌, ◌++◌, ◌==◌, if◌then◌else◌, get_or, set, replicate, length,
}
use fotix.Base.Bits.{bit, not32}
use fotix.Keyboard.{
  Keyboard, keyboard_getchar, press_loop, current_scancodes, buffer_char, key_pressed,
  keyboard_handler,
}
use fotix.Keyboard.Layout.{us}
use fotix.Keyboard.Queue.{
  IsRing, queue, pop, getchar_refines, buffer_char_appends, buffer_char_full,
}
use fotix.Keyboard.Controls.{OnlyAt, Nowhere, cleared, turned}
use fotix.Keyboard.Keys.{released_control, pressed_control, pressed_key, chord_lem}

abbrev empty : Keyboard
empty = record {
  current_layout = us;
  keyboard_buffer_start = 0;
  keyboard_buffer_end = 0;
  keyboard_buffer = replicate 256 0;
}

-- 'x' at 255 and 'y' at 0.
abbrev two_waiting : Keyboard
two_waiting = record empty {
  keyboard_buffer_start = 255;
  keyboard_buffer_end = 1;
  keyboard_buffer = set (set (replicate 256 0) 255 b'x') 0 b'y';
}

-- 255 characters from index 0 on.
abbrev full : Keyboard
full = record empty { keyboard_buffer_end = 255 }

empty-IsRing : IsRing empty
empty-IsRing = record { start_in = omega arith; end_in = omega arith; room = refl }

two_waiting-IsRing : IsRing two_waiting
two_waiting-IsRing = record { start_in = omega arith; end_in = omega arith; room = refl }

full-IsRing : IsRing full
full-IsRing = record { start_in = omega arith; end_in = omega arith; room = refl }

tables_are_full : (length us.scancodes ≡ 128) × (length us.shift_scancodes ≡ 128)
unfolding us
tables_are_full = (refl, refl)

-- The keypad's minus stands at 73, one place before the comment's 74.
keypad_minus : (get_or us.scancodes 73 0 ≡ b'-') × (get_or us.scancodes 74 0 ≡ 0)
unfolding us
keypad_minus = (refl, refl)

-- Caps lock on leaves the buffer alone; caps lock off puts a NUL into it.
caps_lock_twice :
    (queue (keyboard_handler 58 empty) ≡ [])
    × (queue (keyboard_handler 58 (keyboard_handler 58 empty)) ≡ 0 ∷ [])
unfolding keyboard_handler key_pressed press_loop us current_scancodes buffer_char not32
caps_lock_twice = (refl, refl)

a_code-Nowhere : Nowhere us 30 0 8
unfolding us
a_code-Nowhere = λ j p q. ground arith

caps_lock-OnlyAt : OnlyAt us 58 5 0 8
unfolding us
caps_lock-OnlyAt = record {
  inside = omega arith;
  here = refl;
  elsewhere = λ j p q ne. ground arith;
}

alt-OnlyAt : OnlyAt us 56 1 0 5
unfolding us
alt-OnlyAt = record { inside = omega arith; here = refl; elsewhere = λ j p q ne. ground arith }

getchar_refines_example :
    let (c, k) = keyboard_getchar two_waiting in ((c, queue k) ≡ pop (queue two_waiting)) × IsRing k
getchar_refines_example = getchar_refines two_waiting two_waiting-IsRing

buffer_char_appends_example :
    (queue (buffer_char b'z' two_waiting) ≡ queue two_waiting ++ (b'z' ∷ []))
    × IsRing (buffer_char b'z' two_waiting)
buffer_char_appends_example = buffer_char_appends b'z' two_waiting two_waiting-IsRing (omega arith)

buffer_char_full_example :
    queue (buffer_char b'z' full) ≡ (if full.keyboard_buffer_start == 0 then [] else queue full)
buffer_char_full_example = buffer_char_full b'z' full full-IsRing refl

released_control_example :
    keyboard_handler (56 + 128) two_waiting ≡ record two_waiting { current_layout = cleared us 1 }
released_control_example = released_control two_waiting 56 1 (omega arith) alt-OnlyAt

pressed_control_example : keyboard_handler 58 two_waiting ≡ (
    if bit 5 us.controls == 0
    then record two_waiting { current_layout = turned us 5 }
    else buffer_char
        (get_or (current_scancodes (cleared us 5)) 58 0)
        (record two_waiting { current_layout = cleared us 5 }))
pressed_control_example = pressed_control two_waiting 58 5 (omega arith) caps_lock-OnlyAt

pressed_key_example :
    keyboard_handler 30 two_waiting ≡ buffer_char (get_or (current_scancodes us) 30 0) two_waiting
pressed_key_example = pressed_key two_waiting 30 (omega arith) a_code-Nowhere

chord_lem_example :
    let k = keyboard_handler (42 + 128) (keyboard_handler 30 (keyboard_handler 42 two_waiting)) in
    (queue k ≡ queue two_waiting ++ (get_or us.shift_scancodes 30 0 ∷ [])) × (k.current_layout ≡ us)
chord_lem_example =
    chord_lem two_waiting 30 two_waiting-IsRing (omega arith) refl (omega arith) a_code-Nowhere
