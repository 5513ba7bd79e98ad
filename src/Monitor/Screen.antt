-- ===== src/Monitor/Screen.antt =====
-- The cursor stays on the screen, and what the screen shows.
use fotix.Base.{
  ℕ, zero, suc, ◌+◌, ◌-◌, ◌*◌, ◌/◌, ◌%◌, ◌≤◌, ◌<◌, ◌≡◌, ap, arith, ◌&&◌, ◌==◌, ==_iff, Bool-cases,
  inl, inr, ltb, leb, if◌then◌else◌, List, [], ◌∷◌, length, get_or, bit_and, bit_or, u8, u16,
}
use fotix.Base.Bits.{not32, bit_and_high, bit_or_split, bit_or-zero}
use fotix.Monitor.{
  Monitor, move_cursor, blank, poke, copy_up, fill_blank, scroll, put_char, wrap_line, monitor_put,
  monitor_clear, monitor_write,
}

abbrev pub OnScreen : Monitor → Type 0
OnScreen s = (s.cursor_x < 80) × (s.cursor_y < 25)

-- The word of the framebuffer under the cursor.
abbrev pub location : Monitor → ℕ
location s = s.cursor_y * 80 + s.cursor_x

-- What a word holds after the loops.
copy_up_lem :
    (video : ℕ → ℕ) (rounds counter i : ℕ)
    → copy_up video rounds counter i
      ≡ (if leb counter i && ltb i (counter + rounds) then video (i + 80) else video i)
unfolding copy_up
copy_up_lem video zero counter i = ground arith
copy_up_lem video (suc rounds) counter i =
    ground (arith, copy_up_lem (poke video counter (video (counter + 80))) rounds (counter + 1) i)

fill_blank_lem :
    (video : ℕ → ℕ) (rounds counter i : ℕ)
    → fill_blank video rounds counter i
      ≡ (if leb counter i && ltb i (counter + rounds) then blank else video i)
unfolding fill_blank
fill_blank_lem video zero counter i = ground arith
fill_blank_lem video (suc rounds) counter i =
    ground (arith, fill_blank_lem (poke video counter blank) rounds (counter + 1) i)

-- A cursor below the last line moves the lines up by one and blanks the last.
scroll-down :
    (s : Monitor) (i : ℕ)
    → 25 ≤ s.cursor_y
    → (scroll s).video_memory i ≡ (
        if ltb i 1920
        then s.video_memory (i + 80)
        else if ltb i 2000
        then blank
        else s.video_memory i)
unfolding scroll
scroll-down s i h = ground (
  arith,
  fill_blank_lem (copy_up s.video_memory 1920 0) 80 1920 i,
  copy_up_lem s.video_memory 1920 0 i,
)

scroll-same : (s : Monitor) → s.cursor_y < 25 → scroll s ≡ s
unfolding scroll
scroll-same s h = ground arith

tab_stop : (x : ℕ) → x < 256 → bit_and (x + 8) (not32 7) ≡ (x + 8) / 8 * 8
unfolding not32
tab_stop x h = bit_and_high 3 29 (x + 8) (omega arith)

-- What the character does before the screen scrolls: at most one line too far down, one word
-- written under the cursor.
put_char-column :
    (c : ℕ) (s : Monitor) → OnScreen s → (put_char c s).cursor_x ≤ 80 × (put_char c s).cursor_y ≤ 25
unfolding put_char
put_char-column c s (x, y) = (ground (arith, tab_stop s.cursor_x), ground arith)

put_char-last :
    (c : ℕ) (s : Monitor) → OnScreen s → (put_char c s).cursor_y ≡ 25 → (put_char c s).cursor_x ≡ 0
unfolding put_char
put_char-last c s (x, y) h = ground arith

put_char-video :
    (c : ℕ) (s : Monitor) (i : ℕ)
    → OnScreen s
    → 2000 ≤ i
    → (put_char c s).video_memory i ≡ s.video_memory i
unfolding put_char
put_char-video c s i (x, y) h = ground arith

wrapped : (s : Monitor) → s.cursor_x ≤ 80 → (wrap_line s).cursor_x < 80
unfolding wrap_line
wrapped s h = ground arith

wrapped_row : (c : ℕ) (s : Monitor) → OnScreen s → (wrap_line (put_char c s)).cursor_y ≤ 25
unfolding wrap_line
wrapped_row c s on = ground (arith, put_char-column c s on, put_char-last c s on)

-- The steps before the hardware cursor moves.
abbrev shown : ℕ → Monitor → Monitor
shown c s = scroll (wrap_line (put_char c s))

shown-OnScreen : (c : ℕ) (s : Monitor) → OnScreen s → OnScreen (shown c s)
unfolding scroll
shown-OnScreen c s on =
    ground (arith, wrapped (put_char c s) ((put_char-column c s on).0), wrapped_row c s on)

shown-video :
    (c : ℕ) (s : Monitor) (i : ℕ)
    → OnScreen s
    → 2000 ≤ i
    → (shown c s).video_memory i ≡ s.video_memory i
unfolding wrap_line
shown-video c s i on h = ground (
  arith,
  put_char-video c s i on h,
  scroll-down (wrap_line (put_char c s)) i,
  scroll-same (wrap_line (put_char c s)),
)

shown-ports : (c : ℕ) (s : Monitor) → (shown c s).ports ≡ s.ports
unfolding scroll wrap_line put_char
shown-ports c s = ground arith

told :
    (at : ℕ) (ps qs : List (ℕ × ℕ))
    → at < 2000
    → ps ≡ qs
    → (0x3D5, u8 (u16 at)) ∷ (0x3D4, 15) ∷ (0x3D5, u8 (u16 at / 256)) ∷ (0x3D4, 14) ∷ ps
      ≡ (0x3D5, at % 256) ∷ (0x3D4, 15) ∷ (0x3D5, at / 256) ∷ (0x3D4, 14) ∷ qs
told at ps qs h e = ground arith

-- Whatever the character, `monitor_put` leaves a cursor that is on the screen on it, writes no word
-- behind the 2000 of the screen, and last tells the hardware where the cursor is, the high byte first.
pub monitor_put_lem :
    (c : ℕ) (s : Monitor)
    → OnScreen s
    → OnScreen (monitor_put c s)
      × ((i : ℕ) → 2000 ≤ i → (monitor_put c s).video_memory i ≡ s.video_memory i)
      × ((monitor_put c s).ports
          ≡ (0x3D5, location (monitor_put c s) % 256)
            ∷ (0x3D4, 15)
            ∷ (0x3D5, location (monitor_put c s) / 256)
            ∷ (0x3D4, 14)
            ∷ s.ports)
unfolding monitor_put move_cursor
monitor_put_lem c s on =
    let (x, y) = shown-OnScreen c s on in
    (
      (x, y),
      λ i h. shown-video c s i on h,
      told (location (shown c s)) (shown c s).ports s.ports (omega arith) (shown-ports c s),
    )

attribute_lem : (c : ℕ) → c < 128 → bit_or c 0x0F00 ≡ 0x0F00 + c
attribute_lem c h = ground (arith, bit_or_split 8 0 c 15 0, bit_or-zero c c)

-- A printable character before the last word of the screen goes under the cursor, and the cursor
-- moves on by one word.
put_printable :
    (c : ℕ) (s : Monitor)
    → OnScreen s
    → 32 ≤ c
    → c < 128
    → location s < 1999
    → (location (monitor_put c s) ≡ location s + 1)
      × ((i : ℕ)
          → (monitor_put c s).video_memory i ≡ poke s.video_memory (location s) (0x0F00 + c) i)
unfolding monitor_put move_cursor scroll wrap_line put_char
put_printable c s on lo hi h = (ground arith, λ i. ground (arith, attribute_lem c))

get_or-later : (c : ℕ) (cs : List ℕ) (n : ℕ) → 0 < n → get_or (c ∷ cs) n 32 ≡ get_or cs (n - 1) 32
get_or-later c cs zero h = absurd (omega arith)
get_or-later c cs (suc n) h = ap (λ (k : ℕ). get_or cs k 32) {y = suc n - 1} (omega arith)

-- A printable string that ends before the last word of the screen stands on it from the old cursor
-- on, one word for each character, white on black; all else is as before, and the cursor stands
-- behind the string.
pub monitor_write_lem :
    (cs : List ℕ) (s : Monitor)
    → OnScreen s
    → ((j : ℕ) → j < length cs → 32 ≤ get_or cs j 32)
    → ((j : ℕ) → j < length cs → get_or cs j 32 < 128)
    → location s + length cs < 2000
    → OnScreen (monitor_write cs s)
      × (location (monitor_write cs s) ≡ location s + length cs)
      × ((i : ℕ)
          → (monitor_write cs s).video_memory i ≡ (
              if leb (location s) i && ltb i (location s + length cs)
              then 0x0F00 + get_or cs (i - location s) 32
              else s.video_memory i))
unfolding monitor_write
monitor_write_lem [] s on lo hi room = (on, omega arith, λ i. ground arith)
monitor_write_lem (c ∷ cs) s on lo hi room =
    let (next, video) =
      put_printable c s on (lo 0 (omega arith)) (hi 0 (omega arith)) (omega arith) in
    let (on', at, rest) =
      monitor_write_lem cs (monitor_put c s) ((monitor_put_lem c s on).0)
        (λ j p. lo (suc j) (omega arith)) (λ j p. hi (suc j) (omega arith)) (omega arith) in
    (
      on',
      omega arith,
      λ i. elim (Bool-cases (i == location s)) [
        | inl t ↦
            let same = (==_iff i (location s)).0 t in
            let first : get_or (c ∷ cs) (i - location s) 32 ≡ c =
              ap (λ n. get_or (c ∷ cs) n 32) {y = 0} (omega arith) in
            ground (arith, rest i, video i)
        | inr f ↦ ground (arith, rest i, video i, next, get_or-later c cs (i - location s))
      ],
    )

-- `monitor_clear` blanks the screen, and nothing else, and puts the cursor into its corner.
pub monitor_clear_lem :
    (s : Monitor)
    → OnScreen (monitor_clear s)
      × (location (monitor_clear s) ≡ 0)
      × ((i : ℕ)
          → (monitor_clear s).video_memory i ≡ (if ltb i 2000 then blank else s.video_memory i))
unfolding monitor_clear move_cursor
monitor_clear_lem s = (
  (omega arith, omega arith),
  omega arith,
  λ i. ground (arith, fill_blank_lem s.video_memory 2000 0 i),
)
