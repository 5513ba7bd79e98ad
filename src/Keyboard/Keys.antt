-- ===== src/Keyboard/Keys.antt =====
-- The handler on each kind of scan code.
use fotix.Base.{
  ℕ, ◌+◌, ◌^◌, ◌<◌, ◌≡◌, refl, ap, ◌∙◌, sym, subst, arith, List, [], ◌∷◌, ◌++◌, Bool, true, false,
  not, ◌&&◌, ◌||◌, Bool-cases, inl, inr, ◌==◌, if◌then◌else◌, get_or, bit_and, bit_or,
}
use fotix.Base.Bits.{bit, not32, all_below_sound}
use fotix.Keyboard.{
  Keyboard, released_mask, current_scancodes, buffer_char, key_pressed, keyboard_handler, control,
  lshift, rshift, capslock,
}
use fotix.Keyboard.Layout.{Keymap, us}
use fotix.Keyboard.Queue.{IsRing, count, queue, buffer_char_appends}
use fotix.Keyboard.Controls.{
  OnlyAt, Nowhere, cleared, turned, press_loop_lem, press_loop-Nowhere, release_loop_lem,
  release_loop-Nowhere,
}

-- Bit 7 of a scan code.
pressed_code : (code : ℕ) → code < 128 → (bit_and code released_mask == 0) ≡ true
pressed_code code h = all_below_sound 128 (λ c. bit_and c released_mask == 0) code refl h

released_code :
    (code : ℕ)
    → code < 128
    → ((bit_and (code + 128) released_mask == 0) ≡ false)
      × (bit_and (code + 128) (not32 released_mask) ≡ code)
unfolding not32
released_code code h =
    let both =
      all_below_sound 128
        (λ c.
          not (bit_and (c + 128) released_mask == 0)
          && (bit_and (c + 128) (not32 released_mask) == c))
        code refl h in
    ground (arith, both)

-- Releasing one of the first five control keys turns its bit off, and does nothing else.
pub released_control :
    (k : Keyboard) (code i : ℕ)
    → code < 128
    → OnlyAt k.current_layout code i 0 5
    → keyboard_handler (code + 128) k ≡ record k { current_layout = cleared k.current_layout i }
unfolding keyboard_handler
released_control k code i small at =
    let (is_release, same) = released_code code small in
    rw is_release (
      ap (λ l. record k { current_layout = l })
        (release_loop_lem k.current_layout (code + 128) i 5 0 5 refl (omega arith) (rw same at)))

-- Releasing any other key does nothing.
pub released_other :
    (k : Keyboard) (code : ℕ)
    → code < 128
    → Nowhere k.current_layout code 0 5
    → keyboard_handler (code + 128) k ≡ k
unfolding keyboard_handler
released_other k code small out =
    let (is_release, same) = released_code code small in
    rw is_release (
      ap (λ l. record k { current_layout = l })
        (release_loop-Nowhere k.current_layout (code + 128) 5 0 5 refl (rw same out)))

-- Pressing a control key whose bit is off turns it on, and does nothing else. Where the bit is on
-- it is turned off, and then the key's entry in the table of characters goes into the buffer.
pub pressed_control :
    (k : Keyboard) (code i : ℕ)
    → code < 128
    → OnlyAt k.current_layout code i 0 8
    → keyboard_handler code k ≡ (
        if bit i k.current_layout.controls == 0
        then record k { current_layout = turned k.current_layout i }
        else buffer_char
            (get_or (current_scancodes (cleared k.current_layout i)) code 0)
            (record k { current_layout = cleared k.current_layout i }))
unfolding keyboard_handler key_pressed
pressed_control k code i small at =
    rw (pressed_code code small, press_loop_lem k.current_layout code i 8 0 8 refl (omega arith) at)
      (elim (Bool-cases (bit i k.current_layout.controls == 0)) [ inl t ↦ rw t | inr f ↦ rw f ])

-- Pressing any other key puts its character into the buffer, from the table in force.
pub pressed_key :
    (k : Keyboard) (code : ℕ)
    → code < 128
    → Nowhere k.current_layout code 0 8
    → keyboard_handler code k ≡ buffer_char (get_or (current_scancodes k.current_layout) code 0) k
unfolding keyboard_handler key_pressed
pressed_key k code small out =
    rw (pressed_code code small, press_loop-Nowhere k.current_layout code 8 0 8 refl out) refl

-- A shift key or caps lock is on, and control is off.
abbrev pub shifted : ℕ → Bool
shifted controls =
    (bit 3 controls == 1 || bit 4 controls == 1 || bit 5 controls == 1) && (bit 0 controls == 0)

-- The masks of the code test those bits.
abbrev masked : ℕ → Bool
masked c = not (bit_and c (bit_or (bit_or lshift rshift) capslock) == 0) && (bit_and c control == 0)

masked-eq-shifted : (c : ℕ) → c < 256 → masked c ≡ shifted c
unfolding bit
masked-eq-shifted c h =
    let table =
      all_below_sound 256 (λ c. if masked c then shifted c else not (shifted c)) c refl h in
    same (masked c) (shifted c) table
  where
    same : (a b : Bool) → (if a then b else not b) ≡ true → a ≡ b
    same true b t = sym t
    same false true t = t
    same false false t = refl

-- The table in force is the shifted one exactly where a shift key or caps lock is on and control is
-- off.
pub current_scancodes_lem :
    (l : Keymap)
    → l.controls < 2 ^ 8
    → current_scancodes l ≡ (if shifted l.controls then l.shift_scancodes else l.scancodes)
unfolding current_scancodes
current_scancodes_lem l small =
    ap (λ b. if b then l.shift_scancodes else l.scancodes) (masked-eq-shifted l.controls small)

left_shift_press : OnlyAt us 42 3 0 8
unfolding us
left_shift_press = record {
  inside = omega arith;
  here = refl;
  elsewhere = λ j p q ne. ground arith;
}

abbrev us_shifted : Keymap
us_shifted = turned us 3

left_shift_release : OnlyAt us_shifted 42 3 0 5
unfolding us
left_shift_release = record {
  inside = omega arith;
  here = refl;
  elsewhere = λ j p q ne. ground arith;
}

us_released : cleared us_shifted 3 ≡ us
unfolding us not32
us_released = refl

us_shifted_table : current_scancodes us_shifted ≡ us.shift_scancodes
unfolding us current_scancodes
us_shifted_table = refl

us_tap : bit 3 us.controls == 0 ≡ true
unfolding us bit
us_tap = refl

current_layout-buffer_char :
    (c : ℕ) (k : Keyboard) → (buffer_char c k).current_layout ≡ k.current_layout
unfolding buffer_char
current_layout-buffer_char c k = ground arith

-- Left shift down, another key, left shift up, on the layout `us` with no control key on and room
-- in the buffer: the key's shifted character joins the queue, and the layout is as before.
pub chord_lem :
    (k : Keyboard) (code : ℕ)
    → IsRing k
    → count k < 255
    → k.current_layout ≡ us
    → code < 128
    → Nowhere us code 0 8
    → let k' = keyboard_handler (42 + 128) (keyboard_handler code (keyboard_handler 42 k)) in
      (queue k' ≡ queue k ++ (get_or us.shift_scancodes code 0 ∷ [])) × (k'.current_layout ≡ us)
chord_lem k code ring room layout small out =
    rw (down, typed, up) ((buffer_char_appends c held (omega arith) room).0, us_released)
  where
    c : ℕ
    c = get_or us.shift_scancodes code 0

    held : Keyboard
    held = record k { current_layout = us_shifted }

    down : keyboard_handler 42 k ≡ held
    down =
        let at = subst (λ l. OnlyAt l 42 3 0 8) (sym layout) left_shift_press in
        pressed_control k 42 3 (omega arith) at ∙ ground (arith, us_tap)

    typed : keyboard_handler code held ≡ buffer_char c held
    typed =
        pressed_key held code small out
        ∙ ap (λ (t : List ℕ). buffer_char (get_or t code 0) held) us_shifted_table

    up :
        keyboard_handler (42 + 128) (buffer_char c held)
        ≡ record (buffer_char c held) { current_layout = cleared us_shifted 3 }
    up =
        let same = current_layout-buffer_char c held in
        let at = subst (λ l. OnlyAt l 42 3 0 5) (sym same) left_shift_release in
        released_control (buffer_char c held) 42 3 (omega arith) at
        ∙ ap (λ l. record (buffer_char c held) { current_layout = cleared l 3 }) same
