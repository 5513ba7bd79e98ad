-- ===== src/Monitor/Numbers.antt =====
-- The numerals that `monitor_write_dec` and `monitor_write_hex` print, and the padded line.
use fotix.Base.{
  ℕ, zero, suc, ◌+◌, ◌-◌, ◌*◌, ◌/◌, ◌%◌, ◌^◌, ◌≤◌, ◌<◌, ◌≡◌, ◌≢◌, refl, sym, subst, ap, ◌∙◌, arith,
  Bool, true, false, Bool-cases, inl, inr, ◌&&◌, ◌==◌, ==_iff, leb, if◌then◌else◌, List, [], ◌∷◌,
  ◌++◌, ◌⊎◌, append-nil,
}
use native.Mathlib.Nat.{pow-suc, div-div-eq-div-mul}
use fotix.Monitor.{
  Monitor, monitor_write, dec_loop, turn_round, monitor_write_dec, hex_digit, hex_loop,
  monitor_write_hex,
}

-- The value of a decimal numeral, highest digit first, behind digits of value `acc`.
abbrev pub read_dec : (acc : ℕ) → List ℕ → ℕ
read_dec acc [] = acc
read_dec acc (c ∷ cs) = read_dec (10 * acc + (c - b'0')) cs

abbrev pub AllDec : List ℕ → Type 0
AllDec [] = Unit
AllDec (c ∷ cs) = (b'0' ≤ c) × (c ≤ b'9') × AllDec cs

-- A numeral that does not begin with a zero.
abbrev pub NoLeadingZero : List ℕ → Type 0
NoLeadingZero [] = Unit
NoLeadingZero (c ∷ cs) = c ≢ b'0'

dec_loop-step :
    (rounds acc : ℕ)
    → 0 < acc
    → acc < 2 ^ 31
    → dec_loop (suc rounds) acc ≡ (b'0' + acc % 10) ∷ dec_loop rounds (acc / 10)
unfolding dec_loop
dec_loop-step rounds acc lo hi = ground arith

dec_loop-zero : (rounds : ℕ) → dec_loop rounds 0 ≡ []
unfolding dec_loop
dec_loop-zero zero = refl
dec_loop-zero (suc rounds) = refl

dec_loop-negative : (rounds acc : ℕ) → 2 ^ 31 ≤ acc → dec_loop rounds acc ≡ []
unfolding dec_loop
dec_loop-negative zero acc h = refl
dec_loop-negative (suc rounds) acc h = ground arith

-- `s` is the numeral of a positive number that `acc` in front of `done` reads as.
abbrev Prepends : (acc : ℕ) (done s : List ℕ) → Type 0
Prepends acc done s = AllDec s × NoLeadingZero s × (read_dec 0 s ≡ read_dec acc done)

-- With rounds enough, turning the digits of `acc` round in front of a numeral prepends them.
turn_round-dec_loop :
    (rounds acc : ℕ) (done : List ℕ)
    → acc < 10 ^ rounds
    → acc < 2 ^ 31
    → 0 < acc
    → AllDec done
    → Prepends acc done (turn_round done (dec_loop rounds acc))
unfolding turn_round
turn_round-dec_loop zero acc done few small pos ok = absurd (omega arith)
turn_round-dec_loop (suc rounds) acc done few small pos ok =
    rw (dec_loop-step rounds acc pos small) (elim (Bool-cases (acc / 10 == 0)) [
      | inl t ↦
          let last : acc / 10 ≡ 0 = (==_iff (acc / 10) 0).0 t in
          subst (λ (cs : List ℕ). Prepends acc done (turn_round ((b'0' + acc % 10) ∷ done) cs))
            (sym (dec_loop-zero rounds) ∙ ap (dec_loop rounds) (sym last))
            (
              (omega arith, omega arith, ok),
              (λ e. omega arith),
              ap (λ (n : ℕ). read_dec n done) {x = 10 * 0 + (b'0' + acc % 10 - b'0')} (omega arith),
            )
      | inr f ↦
          let (all, lead, value) =
            turn_round-dec_loop rounds (acc / 10) ((b'0' + acc % 10) ∷ done)
              (omega (arith, pow-suc 10 rounds)) (omega arith) (ground arith)
              (omega arith, omega arith, ok) in
          (
            all,
            lead,
            value
                ∙ ap (λ (n : ℕ). read_dec n done) {x = 10 * (acc / 10) + (b'0' + acc % 10 - b'0')}
                    (omega arith),
          )
    ])

-- A number below 2^31 is printed as its decimal numeral, without leading zeroes; 0 as one digit.
pub monitor_write_dec_lem :
    (number : ℕ) (s : Monitor)
    → 0 < number
    → number < 2 ^ 31
    → (digits : List ℕ) × (monitor_write_dec number s ≡ monitor_write digits s)
      × AllDec digits
      × NoLeadingZero digits
      × (read_dec 0 digits ≡ number)
unfolding monitor_write_dec
monitor_write_dec_lem number s lo hi = (
  turn_round [] (dec_loop 31 number),
  ground arith,
  (turn_round-dec_loop 31 number [] (omega arith) hi lo tt).0,
  (turn_round-dec_loop 31 number [] (omega arith) hi lo tt).1,
  (turn_round-dec_loop 31 number [] (omega arith) hi lo tt).2,
)

-- From 2^31 on the accumulator is negative, and nothing is printed.
pub monitor_write_dec-negative :
    (number : ℕ) (s : Monitor) → 2 ^ 31 ≤ number → monitor_write_dec number s ≡ s
unfolding monitor_write_dec monitor_write turn_round
monitor_write_dec-negative number s h = ground (arith, dec_loop-negative 31 number)

-- The value of a hexadecimal numeral in lower case.
abbrev pub read_hex : (acc : ℕ) → List ℕ → ℕ
read_hex acc [] = acc
read_hex acc (c ∷ cs) = read_hex (16 * acc + (if leb b'a' c then c - b'a' + 10 else c - b'0')) cs

-- A digit of such a numeral.
abbrev pub IsHexDigit : ℕ → Type 0
IsHexDigit c = ((b'0' ≤ c) × (c ≤ b'9')) ⊎ ((b'a' ≤ c) × (c ≤ b'f'))

abbrev pub AllHex : List ℕ → Type 0
AllHex [] = Unit
AllHex (c ∷ cs) = IsHexDigit c × AllHex cs

hex_digit-IsHexDigit : (temp : ℕ) → temp < 16 → IsHexDigit (hex_digit temp)
hex_digit-IsHexDigit temp h = elim (Bool-cases (leb 0xA temp)) [
  | inl t ↦ rw t (inr (ground arith, ground arith))
  | inr f ↦ rw f (inl (ground arith, ground arith))
]

hex_loop-AllHex :
    (rounds number : ℕ) (no_zeroes : Bool) (tail : List ℕ)
    → AllHex tail
    → AllHex (hex_loop rounds number no_zeroes ++ tail)
unfolding hex_loop
hex_loop-AllHex zero number no_zeroes tail ok = ok
hex_loop-AllHex (suc rounds) number no_zeroes tail ok =
    let temp = number / 2 ^ (4 * suc rounds) % 16 in
    elim (Bool-cases ((temp == 0) && no_zeroes)) [
      | inl t ↦ rw t (hex_loop-AllHex rounds number no_zeroes tail ok)
      | inr f ↦
          rw f
            (hex_digit-IsHexDigit temp (omega arith), hex_loop-AllHex rounds number false tail ok)
    ]

-- The leading zeroes are left out, and where nothing is left they were all there was.
hex_loop-NoLeadingZero : (rounds number : ℕ) → NoLeadingZero (hex_loop rounds number true)
unfolding hex_loop
hex_loop-NoLeadingZero zero number = tt
hex_loop-NoLeadingZero (suc rounds) number =
    let temp = number / 2 ^ (4 * suc rounds) % 16 in
    elim (Bool-cases (temp == 0)) [
      | inl t ↦ rw t (hex_loop-NoLeadingZero rounds number)
      | inr f ↦ rw f (λ e. ground arith)
    ]

NoLeadingZero-append :
    (xs : List ℕ) (c : ℕ) → NoLeadingZero xs → (xs ≡ [] → c ≢ b'0') → NoLeadingZero (xs ++ c ∷ [])
NoLeadingZero-append [] c lead last = last refl
NoLeadingZero-append (x ∷ xs) c lead last = lead

read_hex-hex_digit :
    (acc temp : ℕ) (cs : List ℕ)
    → temp < 16
    → read_hex acc (hex_digit temp ∷ cs) ≡ read_hex (16 * acc + temp) cs
read_hex-hex_digit acc temp cs h = ap (λ (n : ℕ). read_hex n cs) (ground arith)

-- One digit on from bit `4 * (rounds + 2)` of a number.
next_digit :
    (rounds number : ℕ)
    → number / 2 ^ (4 * suc rounds)
      ≡ 16 * (number / 2 ^ (4 * suc (suc rounds))) + number / 2 ^ (4 * suc rounds) % 16
next_digit rounds number =
    let p = 2 ^ (4 * suc rounds) in
    let wider : 2 ^ (4 * suc (suc rounds)) ≡ p * 16 =
      ap (λ (n : ℕ). 2 ^ n) {y = suc (suc (suc (suc (4 * suc rounds))))} (omega arith)
      ∙ omega (
        arith,
        pow-suc 2 (4 * suc rounds),
        pow-suc 2 (suc (4 * suc rounds)),
        pow-suc 2 (suc (suc (4 * suc rounds))),
        pow-suc 2 (suc (suc (suc (4 * suc rounds)))),
      ) in
    let deeper : number / 2 ^ (4 * suc (suc rounds)) ≡ number / p / 16 =
      ap (λ (d : ℕ). number / d) wider ∙ sym (div-div-eq-div-mul number p 16) in
    omega (arith, deeper)

hex_loop-reads :
    (rounds number acc : ℕ) (no_zeroes : Bool) (tail : List ℕ)
    → acc ≡ number / 2 ^ (4 * suc rounds)
    → (no_zeroes ≡ true → acc ≡ 0)
    → read_hex acc (hex_loop rounds number no_zeroes ++ tail) ≡ read_hex (number / 16) tail
unfolding hex_loop
hex_loop-reads zero number acc no_zeroes tail e z = ap (λ (n : ℕ). read_hex n tail) e
hex_loop-reads (suc rounds) number acc no_zeroes tail e z =
    let temp = number / 2 ^ (4 * suc rounds) % 16 in
    let next = next_digit rounds number in
    elim (Bool-cases ((temp == 0) && no_zeroes)) [
      | inl t ↦
          let none_yet : no_zeroes ≡ true = ground arith in
          let skip : temp ≡ 0 = ground arith in
          rw t (hex_loop-reads rounds number acc no_zeroes tail (omega (arith, z none_yet)) z)
      | inr f ↦ rw f (
          read_hex-hex_digit acc temp (hex_loop rounds number false ++ tail) (omega arith)
          ∙ hex_loop-reads rounds number (16 * acc + temp) false tail (omega arith)
              (λ b. ground arith))
    ]

hex_loop-high : (number : ℕ) → number < 2 ^ 32 → read_hex 0 (hex_loop 7 number true) ≡ number / 16
hex_loop-high number small =
    ap (read_hex 0) (sym (append-nil (hex_loop 7 number true)))
    ∙ hex_loop-reads 7 number 0 true [] (omega arith) (λ e. refl)

-- `monitor_write_hex` prints "0x" and a numeral of the digits 0 to 9 and a to f that reads as the
-- number and, unless the number is 0, does not begin with a zero.
pub monitor_write_hex_lem :
    (number : ℕ) (s : Monitor)
    → number < 2 ^ 32
    → (digits : List ℕ) × (monitor_write_hex number s ≡ monitor_write (b'0' ∷ b'x' ∷ digits) s)
      × AllHex digits
      × (read_hex 0 digits ≡ number)
      × (0 < number → NoLeadingZero digits)
unfolding monitor_write_hex
monitor_write_hex_lem number s small =
    let last = hex_digit (number % 16) ∷ [] in
    (
      hex_loop 7 number true ++ last,
      refl,
      hex_loop-AllHex 7 number true last (hex_digit-IsHexDigit (number % 16) (omega arith), tt),
      hex_loop-reads 7 number 0 true last (omega arith) (λ e. refl)
          ∙ read_hex-hex_digit (number / 16) (number % 16) [] (omega arith)
          ∙ omega arith,
      λ pos.
          NoLeadingZero-append (hex_loop 7 number true) (hex_digit (number % 16))
            (hex_loop-NoLeadingZero 7 number)
            (λ none e.
              let high : number / 16 ≡ 0 =
                sym (hex_loop-high number small) ∙ ap (read_hex 0) none in
              ground arith),
    )
