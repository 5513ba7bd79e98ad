-- ===== src/Monitor/Tests.antt =====
-- Runs of the screen, and its theorems at concrete screens.
use fotix.Base.{
  true, ℕ, zero, suc, ◌+◌, ◌-◌, ◌/◌, ◌%◌, ◌≤◌, ◌<◌, ◌≡◌, refl, arith, ◌&&◌, leb, ltb, if◌then◌else◌,
  List, [], ◌∷◌, length, get_or,
}
use fotix.Monitor.{
  Monitor, monitor_put, monitor_write, monitor_write_dec, monitor_write_hex, blank, dec_loop,
  turn_round, hex_loop,
}
use fotix.Monitor.Screen.{OnScreen, location, monitor_put_lem, monitor_write_lem}
use fotix.Monitor.Numbers.{
  AllDec, AllHex, NoLeadingZero, read_dec, read_hex, monitor_write_dec_lem,
  monitor_write_dec-negative, monitor_write_hex_lem,
}

abbrev clear : Monitor
clear = record { video_memory = λ i. blank; cursor_x = 0; cursor_y = 0; ports = [] }

abbrev last_word : Monitor
last_word = record clear { cursor_x = 79; cursor_y = 24 }

digits_of_1305 : turn_round [] (dec_loop 31 1305) ≡ b'1' ∷ b'3' ∷ b'0' ∷ b'5' ∷ []
unfolding dec_loop turn_round
digits_of_1305 = refl

digits_of_0xA30 : hex_loop 7 0xA30 true ≡ b'a' ∷ b'3' ∷ []
unfolding hex_loop
digits_of_0xA30 = refl

monitor_put_lem_example :
    OnScreen (monitor_put 10 last_word)
    × ((i : ℕ) → 2000 ≤ i → (monitor_put 10 last_word).video_memory i ≡ blank)
    × ((monitor_put 10 last_word).ports
        ≡ (0x3D5, location (monitor_put 10 last_word) % 256)
          ∷ (0x3D4, 15)
          ∷ (0x3D5, location (monitor_put 10 last_word) / 256)
          ∷ (0x3D4, 14)
          ∷ [])
monitor_put_lem_example = monitor_put_lem 10 last_word (omega arith, omega arith)

abbrev hi : List ℕ
hi = b'H' ∷ b'i' ∷ []

hi_low : (j : ℕ) → j < length hi → 32 ≤ get_or hi j 32
hi_low zero h = omega arith
hi_low (suc zero) h = omega arith
hi_low (suc (suc j)) h = absurd (omega arith)

hi_high : (j : ℕ) → j < length hi → get_or hi j 32 < 128
hi_high zero h = omega arith
hi_high (suc zero) h = omega arith
hi_high (suc (suc j)) h = absurd (omega arith)

monitor_write_lem_example :
    OnScreen (monitor_write hi clear)
    × (location (monitor_write hi clear) ≡ 0 + 2)
    × ((i : ℕ)
        → (monitor_write hi clear).video_memory i
          ≡ (if leb 0 i && ltb i 2 then 0x0F00 + get_or hi (i - 0) 32 else blank))
monitor_write_lem_example =
    monitor_write_lem hi clear (omega arith, omega arith) hi_low hi_high (omega arith)

monitor_write_dec_lem_example :
    (digits : List ℕ) × (monitor_write_dec 1305 clear ≡ monitor_write digits clear)
    × AllDec digits
    × NoLeadingZero digits
    × (read_dec 0 digits ≡ 1305)
monitor_write_dec_lem_example = monitor_write_dec_lem 1305 clear (omega arith) (omega arith)

monitor_write_dec-negative_example : monitor_write_dec 0x8000_0000 clear ≡ clear
monitor_write_dec-negative_example = monitor_write_dec-negative 0x8000_0000 clear (omega arith)

monitor_write_hex_lem_example :
    (digits : List ℕ) × (monitor_write_hex 0xA30 clear ≡ monitor_write (b'0' ∷ b'x' ∷ digits) clear)
    × AllHex digits
    × (read_hex 0 digits ≡ 0xA30)
    × (0 < 0xA30 → NoLeadingZero digits)
monitor_write_hex_lem_example = monitor_write_hex_lem 0xA30 clear (omega arith)
