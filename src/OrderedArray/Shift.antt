-- ===== src/OrderedArray/Shift.antt =====
-- The two loops that move words, as operations on the words of the array.
use fotix.Base.{
  ℕ, zero, suc, ◌+◌, ◌*◌, ◌^◌, ◌≤◌, ◌<◌, ◌≡◌, refl, ap, ap₂, ◌∙◌, sym, inl, arith, [], ◌∷◌, ◌++◌,
}
use fotix.Memory.{Memory, load32, store32}
use fotix.Memory.Words.{words, load32-lt, load32-store32, load32-store32_apart, words-store32_apart}
use fotix.OrderedArray.{OrderedArray, slot, shift_up, shift_down}

-- Words below the first that `shift_up` writes are as before.
pub words-shift_up_below :
    (m : Memory) (a : OrderedArray) (rounds i temp b n : ℕ)
    → b + 4 * n ≤ slot a (i + 1)
    → words (shift_up m a rounds i temp) b n ≡ words m b n
unfolding shift_up
words-shift_up_below m a zero i temp b n h = refl
words-shift_up_below m a (suc rounds) i temp b n h =
    words-shift_up_below (store32 m (slot a (i + 1)) temp) a rounds (i + 1)
      (load32 m (slot a (i + 1))) b n (omega arith)
    ∙ words-store32_apart m (slot a (i + 1)) temp b n (inl h)

pub load32-shift_up_below :
    (m : Memory) (a : OrderedArray) (rounds i temp b : ℕ)
    → b + 4 ≤ slot a (i + 1)
    → load32 (shift_up m a rounds i temp) b ≡ load32 m b
unfolding shift_up
load32-shift_up_below m a zero i temp b h = refl
load32-shift_up_below m a (suc rounds) i temp b h =
    load32-shift_up_below (store32 m (slot a (i + 1)) temp) a rounds (i + 1)
      (load32 m (slot a (i + 1))) b (omega arith)
    ∙ load32-store32_apart m (slot a (i + 1)) temp b (inl h)

-- `temp` is pushed in front of the words behind place `i`, and the last one falls out.
pub words-shift_up :
    (m : Memory) (a : OrderedArray) (rounds i temp s : ℕ)
    → temp < 2 ^ 32
    → s ≡ slot a (i + 1)
    → words (shift_up m a (suc rounds) i temp) s (suc rounds) ≡ temp ∷ words m s rounds
unfolding shift_up
words-shift_up m a zero i temp s h e =
    rw e (ap (λ w. w ∷ []) (load32-store32 m (slot a (i + 1)) temp h))
words-shift_up m a (suc rounds) i temp s h e = ap₂ ◌∷◌ front (
    words-shift_up m' a rounds (i + 1) temp2 (s + 4) (load32-lt m (slot a (i + 1))) (omega arith)
    ∙ ap₂ ◌∷◌ (ap (load32 m) (sym e))
        (words-store32_apart m (slot a (i + 1)) temp (s + 4) rounds (omega arith)))
  where
    m' : Memory
    m' = store32 m (slot a (i + 1)) temp

    temp2 : ℕ
    temp2 = load32 m (slot a (i + 1))

    front : load32 (shift_up m' a (suc rounds) (i + 1) temp2) s ≡ temp
    front =
        load32-shift_up_below m' a (suc rounds) (i + 1) temp2 s (omega arith)
        ∙ (rw e (load32-store32 m (slot a (i + 1)) temp h))

-- Words that end where `shift_down` begins are as before.
pub load32-shift_down_below :
    (m : Memory) (a : OrderedArray) (rounds i b : ℕ)
    → b + 4 ≤ slot a i
    → load32 (shift_down m a rounds i) b ≡ load32 m b
unfolding shift_down
load32-shift_down_below m a zero i b h = refl
load32-shift_down_below m a (suc rounds) i b h =
    load32-shift_down_below (store32 m (slot a i) (load32 m (slot a (i + 1)))) a rounds (i + 1) b
      (omega arith)
    ∙ load32-store32_apart m (slot a i) (load32 m (slot a (i + 1))) b (inl h)

pub words-shift_down_below :
    (m : Memory) (a : OrderedArray) (rounds i b n : ℕ)
    → b + 4 * n ≤ slot a i
    → words (shift_down m a rounds i) b n ≡ words m b n
words-shift_down_below m a rounds i b zero h = refl
words-shift_down_below m a rounds i b (suc n) h =
    ap₂ ◌∷◌ (load32-shift_down_below m a rounds i b (omega arith))
      (words-shift_down_below m a rounds i (b + 4) n (omega arith))

-- `shift_down` moves the words behind place `i` one down; the last place keeps its word.
pub words-shift_down :
    (m : Memory) (a : OrderedArray) (rounds i s : ℕ)
    → s ≡ slot a i
    → words (shift_down m a rounds i) s (suc rounds)
      ≡ words m (s + 4) rounds ++ (load32 m (s + 4 * rounds) ∷ [])
unfolding shift_down
words-shift_down m a zero i s e = ap (λ b. load32 m b ∷ []) (omega arith)
words-shift_down m a (suc rounds) i s e = ap₂ ◌∷◌ front (
    words-shift_down m' a rounds (i + 1) (s + 4) (omega arith)
    ∙ ap₂ (λ xs x. xs ++ (x ∷ []))
        (words-store32_apart m (slot a i) word (s + 4 + 4) rounds (omega arith))
        (load32-store32_apart m (slot a i) word (s + 4 + 4 * rounds) (omega arith)
          ∙ ap (load32 m) (omega arith)))
  where
    word : ℕ
    word = load32 m (slot a (i + 1))

    m' : Memory
    m' = store32 m (slot a i) word

    next : slot a (i + 1) ≡ s + 4
    next = omega arith

    front : load32 (shift_down m' a rounds (i + 1)) s ≡ load32 m (s + 4)
    front =
        load32-shift_down_below m' a rounds (i + 1) s (omega arith)
        ∙ (rw e (load32-store32 m (slot a i) word (load32-lt m (slot a (i + 1)))))
        ∙ ap (load32 m) next
