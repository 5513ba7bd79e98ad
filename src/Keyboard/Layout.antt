-- ===== src/Keyboard/Layout.antt =====
-- The type of a layout and the layout `us`. An initializer that is shorter than its array leaves
-- the rest zero.
use fotix.Base.{ℕ, List, [], ◌∷◌, ◌++◌, replicate}

-- `keymap_t`, with two tables of 128 characters and the scan codes of the eight control keys.
pub record Keymap : Type 0 where
  pub scancodes : List ℕ
  pub shift_scancodes : List ℕ
  pub control_map : List ℕ
  pub controls : ℕ

-- The four rows of keys and the keypad's `*`, up to ALT (56).
abbrev rows : List ℕ
rows =
    0 ∷ 27 ∷ b'1' ∷ b'2' ∷ b'3' ∷ b'4' ∷ b'5' ∷ b'6' ∷ b'7' ∷ b'8' ∷ b'9' ∷ b'0' ∷ b'-' ∷ b'=' ∷ 8
    ∷ 9 ∷ b'q' ∷ b'w' ∷ b'e' ∷ b'r' ∷ b't' ∷ b'y' ∷ b'u' ∷ b'i' ∷ b'o' ∷ b'p' ∷ b'[' ∷ b']' ∷ 10 ∷ 0
    ∷ b'a' ∷ b's' ∷ b'd' ∷ b'f' ∷ b'g' ∷ b'h' ∷ b'j' ∷ b'k' ∷ b'l' ∷ b';' ∷ 92 ∷ b'`' ∷ 0 ∷ 92
    ∷ b'z' ∷ b'x' ∷ b'c' ∷ b'v' ∷ b'b' ∷ b'n' ∷ b'm' ∷ b',' ∷ b'.' ∷ b'/' ∷ 0 ∷ b'*' ∷ []

abbrev shift_rows : List ℕ
shift_rows =
    0 ∷ 27 ∷ b'!' ∷ b'@' ∷ b'#' ∷ b'$' ∷ b'%' ∷ b'^' ∷ b'&' ∷ b'*' ∷ b'(' ∷ b')' ∷ b'_' ∷ b'+' ∷ 8
    ∷ 9 ∷ b'Q' ∷ b'W' ∷ b'E' ∷ b'R' ∷ b'T' ∷ b'Y' ∷ b'U' ∷ b'I' ∷ b'O' ∷ b'P' ∷ b'{' ∷ b'}' ∷ 10 ∷ 0
    ∷ b'A' ∷ b'S' ∷ b'D' ∷ b'F' ∷ b'G' ∷ b'H' ∷ b'J' ∷ b'K' ∷ b'L' ∷ b':' ∷ 34 ∷ b'~' ∷ 0 ∷ b'|'
    ∷ b'Z' ∷ b'X' ∷ b'C' ∷ b'V' ∷ b'B' ∷ b'N' ∷ b'M' ∷ b'<' ∷ b'>' ∷ b'?' ∷ 0 ∷ b'*' ∷ []

-- From ALT on: the same in both tables, and zero up to the end.
abbrev special : List ℕ
special =
    (0 ∷ 32 ∷ replicate 10 0)
    ++ ((0 ∷ 0 ∷ 0 ∷ 0 ∷ 0 ∷ b'-' ∷ 0 ∷ 0 ∷ 0 ∷ b'+' ∷ 0 ∷ 0 ∷ 0 ∷ 0 ∷ 0 ∷ []) ++ replicate 45 0)

unfoldable pub us : Keymap
us = record {
  scancodes = rows ++ special;
  shift_scancodes = shift_rows ++ special;
  control_map = 29 ∷ 56 ∷ 0 ∷ 42 ∷ 54 ∷ 58 ∷ 70 ∷ 69 ∷ [];
  controls = 0;
}
