-- ===== src/Boot/Typing.antt =====
-- A key, from its interrupt to the screen.
use fotix.Base.{
  ℕ, ◌^◌, ◌<◌, ◌≡◌, ◌≢◌, if◌then◌else◌, refl, ap, sym, subst, ◌∙◌, arith, List, [], ◌∷◌, length,
  get_or, ◌==◌, ok, false,
}
use fotix.Monitor.{monitor_put}
use fotix.Keyboard.{
  Keyboard, init_keyboard_driver, current_scancodes, keyboard_getchar, keyboard_handler,
  buffer_char,
}
use fotix.Keyboard.Layout.{Keymap, us}
use fotix.Keyboard.Queue.{IsRing, queue, pop, getchar_refines, buffer_char_appends}
use fotix.Keyboard.Controls.{Nowhere}
use fotix.Keyboard.Keys.{shifted, pressed_key, current_scancodes_lem}
use fotix.Interrupts.{handler_of, acknowledge, irq_handler, start_keyboard}
use fotix.Interrupts.Registry.{Registers, at_keyboard_handler}
use fotix.Interrupts.Handlers.{Machine, Input, returns, call}
use fotix.Interrupts.Calls.{handler_of-register}
use fotix.Boot.{echo}

-- The character of a key on the layout us, as the control keys stand.
abbrev pub typed_char : (controls scancode : ℕ) → ℕ
typed_char controls scancode =
    get_or (if shifted controls then us.shift_scancodes else us.scancodes) scancode 0

-- The keyboard's interrupt where its handler is registered.
irq_handler-keyboard :
    (fuel : ℕ) (input : Input) (regs : Registers) (m : Machine)
    → handler_of m 33 ≡ at_keyboard_handler
    → regs.int_no ≡ 33
    → irq_handler fuel input regs m
      ≡ ok (
          returns regs
            (record (acknowledge 33 m) { keyboard = keyboard_handler input.scancode m.keyboard }))
unfolding irq_handler acknowledge call
irq_handler-keyboard fuel input regs m registered number = rw (number, registered) refl

-- A character that waits alone.
getchar-only :
    (k : Keyboard) (c : ℕ)
    → IsRing k
    → queue k ≡ c ∷ []
    → ((keyboard_getchar k).0 ≡ c) × (queue (keyboard_getchar k).1 ≡ [])
getchar-only k c v only =
    let (taken, _) = getchar_refines k v in
    let eq = taken ∙ ap pop only in
    (ap (λ (r : ℕ × List ℕ). r.0) eq, ap (λ (r : ℕ × List ℕ). r.1) eq)

echo-prints :
    (m : Machine) (c : ℕ)
    → (keyboard_getchar m.keyboard).0 ≡ c
    → c ≢ 0
    → ((echo m).monitor ≡ monitor_put c m.monitor)
      × ((echo m).keyboard ≡ (keyboard_getchar m.keyboard).1)
unfolding echo
echo-prints m c got some =
    let no : (c == 0) ≡ false = ground (arith, some) in (rw (got, no) refl, refl)

-- Once the keyboard has started on a table of 256 places and a buffer of 256, the layout being us with
-- its control keys in any state, an interrupt 33 for a key that is no control key and has a character:
-- the interrupt returns to where it came from, a round of the last loop of `kernel_start` puts on the
-- screen the key's character in the shifted table of us, where a shift key or caps lock is on and
-- control is off, and else the one in the other table; and nothing waits in the buffer any more.
pub typed_lem :
    (fuel : ℕ) (input : Input) (regs : Registers) (m : Machine) (controls : ℕ)
    → m.keyboard.current_layout ≡ record us { controls = controls }
    → controls < 2 ^ 8
    → length m.descriptors.interrupt_handlers ≡ 256
    → length m.keyboard.keyboard_buffer ≡ 256
    → regs.int_no ≡ 33
    → input.scancode < 128
    → Nowhere us input.scancode 0 8
    → typed_char controls input.scancode ≢ 0
    → (m' : Machine) × (irq_handler fuel input regs (start_keyboard m) ≡ ok (returns regs m'))
      × ((echo m').monitor ≡ monitor_put (typed_char controls input.scancode) m.monitor)
      × (queue (echo m').keyboard ≡ [])
unfolding start_keyboard init_keyboard_driver acknowledge
typed_lem fuel input regs m controls layout byte size buffer number small plain printable =
    let l : Keymap = record us { controls = controls } in
    let c = typed_char controls input.scancode in
    let m1 = start_keyboard m in
    let k = m1.keyboard in
    let k' = keyboard_handler input.scancode k in
    let ring : IsRing k = record { start_in = omega arith; end_in = omega arith; room = buffer } in
    let off : Nowhere k.current_layout input.scancode 0 8 =
      subst (λ (l : Keymap). Nowhere l input.scancode 0 8) (sym layout) plain in
    let table : current_scancodes k.current_layout
        ≡ (if shifted controls then us.shift_scancodes else us.scancodes) =
      ap current_scancodes layout ∙ current_scancodes_lem l byte in
    let pressed : k' ≡ buffer_char c k =
      pressed_key k input.scancode small off
      ∙ ap (λ (t : List ℕ). buffer_char (get_or t input.scancode 0) k) table in
    let (appended, ring') = buffer_char_appends c k ring (omega arith) in
    let m' = record (acknowledge 33 m1) { keyboard = k' } in
    let (got, none) =
      getchar-only k' c (subst IsRing (sym pressed) ring') (ap queue pressed ∙ appended) in
    let (printed, kept) = echo-prints m' c got printable in
    (
      m',
      irq_handler-keyboard fuel input regs m1
          (handler_of-register 33 33 at_keyboard_handler m (omega arith)) number,
      printed,
      ap queue kept ∙ none,
    )
