-- ===== src/Monitor.antt =====
-- The screen of sys/monitor.c: the framebuffer as words from `video_memory` on, the cursor, and
-- what went out over the ports, latest first. A C string is the list of its bytes before the NUL.
pub mod Screen
pub mod Numbers
mod Tests
use fotix.Base.{
  ℕ, zero, suc, ◌+◌, ◌-◌, ◌*◌, ◌/◌, ◌%◌, ◌^◌, Bool, true, false, not, ◌&&◌, ◌||◌, ◌==◌, ltb, leb,
  if◌then◌else◌, List, [], ◌∷◌, ◌++◌, set, length, Outcome, ok, undefined, u8, u16, bit_and, bit_or,
}
use fotix.Base.Bits.{not32}

pub record Monitor : Type 0 where
  pub video_memory : ℕ → ℕ
  pub cursor_x : ℕ
  pub cursor_y : ℕ
  pub ports : List (ℕ × ℕ)

abbrev pub outb : (port value : ℕ) → Monitor → Monitor
outb port value s = record s { ports = (port, u8 value) ∷ s.ports }

unfoldable pub move_cursor : Monitor → Monitor
move_cursor s =
    let cursor_location = u16 (s.cursor_y * 80 + s.cursor_x) in
    outb 0x3D5 cursor_location
      (outb 0x3D4 15 (outb 0x3D5 (cursor_location / 2 ^ 8) (outb 0x3D4 14 s)))

-- A space, white on black: `0x20 | (attributeByte << 8)`.
abbrev pub blank : ℕ
blank = 0x0F20

-- An assignment to one word of the framebuffer.
abbrev pub poke : (ℕ → ℕ) → (counter value : ℕ) → ℕ → ℕ
poke video counter value i = if i == counter then value else video i

-- The loops of `scroll` and `monitor_clear`, with the rounds left.
unfoldable pub copy_up : (ℕ → ℕ) → (rounds counter : ℕ) → ℕ → ℕ
copy_up video zero counter = video
copy_up video (suc rounds) counter =
    copy_up (poke video counter (video (counter + 80))) rounds (counter + 1)

unfoldable pub fill_blank : (ℕ → ℕ) → (rounds counter : ℕ) → ℕ → ℕ
fill_blank video zero counter = video
fill_blank video (suc rounds) counter = fill_blank (poke video counter blank) rounds (counter + 1)

unfoldable pub scroll : Monitor → Monitor
scroll s =
    if leb 25 s.cursor_y
    then record s {
      video_memory = fill_blank (copy_up s.video_memory 1920 0) 80 1920;
      cursor_y = 24;
    }
    else s

-- The chain of tests for the kind of character. A `char` is signed: from 128 on it is below a space.
unfoldable pub put_char : (c : ℕ) → Monitor → Monitor
put_char c s =
    if (c == 0x08) && not (s.cursor_x == 0)
    then record s { cursor_x = s.cursor_x - 1 }
    else if c == 0x09
    then record s { cursor_x = u8 (bit_and (s.cursor_x + 8) (not32 7)) }
    else if c == 13
    then record s { cursor_x = 0 }
    else if c == 10
    then record s { cursor_x = 0; cursor_y = u8 (s.cursor_y + 1) }
    else if leb 32 c && ltb c 128
    then record s {
      video_memory = poke s.video_memory (s.cursor_y * 80 + s.cursor_x) (u16 (bit_or c 0x0F00));
      cursor_x = u8 (s.cursor_x + 1);
    }
    else s

-- The line break at the end of a line.
unfoldable pub wrap_line : Monitor → Monitor
wrap_line s =
    if leb 80 s.cursor_x then record s { cursor_x = 0; cursor_y = u8 (s.cursor_y + 1) } else s

unfoldable pub monitor_put : (c : ℕ) → Monitor → Monitor
monitor_put c s = move_cursor (scroll (wrap_line (put_char c s)))

unfoldable pub monitor_clear : Monitor → Monitor
monitor_clear s =
    move_cursor
      (record s { video_memory = fill_blank s.video_memory 2000 0; cursor_x = 0; cursor_y = 0 })

unfoldable pub monitor_write : List ℕ → Monitor → Monitor
monitor_write [] s = s
monitor_write (c ∷ cs) s = monitor_write cs (monitor_put c s)

-- The digits of `monitor_write_dec`, lowest first. `acc` is signed, so `acc > 0` fails from 2^31 on.
unfoldable pub dec_loop : (rounds acc : ℕ) → List ℕ
dec_loop zero acc = []
dec_loop (suc rounds) acc =
    let rest = dec_loop rounds (acc / 10) in
    if ltb 0 acc && ltb acc (2 ^ 31) then (b'0' + acc % 10) ∷ rest else []

-- The second loop, which turns the digits round.
unfoldable pub turn_round : (done left : List ℕ) → List ℕ
turn_round done [] = done
turn_round done (c ∷ left) = turn_round (c ∷ done) left

-- The buffer has 32 bytes, one of them for the NUL.
unfoldable pub monitor_write_dec : (number : ℕ) → Monitor → Monitor
monitor_write_dec number s =
    if number == 0 then monitor_put b'0' s else monitor_write (turn_round [] (dec_loop 31 number)) s

abbrev pub hex_digit : (temp : ℕ) → ℕ
hex_digit temp = if leb 0xA temp then temp - 0xA + b'a' else temp + b'0'

-- The digits above the last, from bit `4 * rounds` down; leading zeroes are left out.
unfoldable pub hex_loop : (rounds number : ℕ) (no_zeroes : Bool) → List ℕ
hex_loop zero number no_zeroes = []
hex_loop (suc rounds) number no_zeroes =
    let temp = number / 2 ^ (4 * suc rounds) % 16 in
    let skipped = hex_loop rounds number no_zeroes in
    let rest = hex_loop rounds number false in
    if (temp == 0) && no_zeroes then skipped else hex_digit temp ∷ rest

-- Each `monitor_put` of the loop in turn, with "0x" before and the last digit after.
unfoldable pub monitor_write_hex : (number : ℕ) → Monitor → Monitor
monitor_write_hex number s =
    monitor_write (b'0' ∷ b'x' ∷ hex_loop 7 number true ++ hex_digit (number % 16) ∷ []) s

-- The buffer of `monitor_write_padded`: the message from index `i` on, dots, and the verdict.
unfoldable pub copy_message : List ℕ → (i : ℕ) (message : List ℕ) → List ℕ
copy_message buff i [] = buff
copy_message buff i (c ∷ cs) = copy_message (set buff i c) (i + 1) cs

unfoldable pub fill_dots : List ℕ → (rounds index : ℕ) → List ℕ
fill_dots buff zero index = buff
fill_dots buff (suc rounds) index = fill_dots (set buff index b'.') rounds (index + 1)

unfoldable pub padded : (buff message : List ℕ) (success : Bool) → List ℕ
padded buff message success =
    copy_message (fill_dots (copy_message buff 0 message) (75 - length message) (length message)) 75
      (if success then b'[' ∷ b'O' ∷ b'K' ∷ b']' ∷ 10 ∷ [] else b'[' ∷ b'F' ∷ b'L' ∷ b']' ∷ 10 ∷ [])

-- The buffer holds no NUL: what is on the stack behind it, `behind`, is printed as well. A message
-- that does not fit overruns the buffer.
unfoldable pub monitor_write_padded :
    (buff behind message : List ℕ) (success : Bool) → Monitor → Outcome Monitor
monitor_write_padded buff behind message success s =
    if leb (length message) 80
    then ok (monitor_write (padded buff message success ++ behind) s)
    else undefined
