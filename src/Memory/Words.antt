-- ===== src/Memory/Words.antt =====
-- Reading a word back, beside and behind a write, and arrays of words.
use fotix.Base.{
  ℕ, zero, suc, ◌+◌, ◌*◌, ◌^◌, ◌≤◌, ◌<◌, ◌≡◌, ◌⊎◌, refl, ap, ap₂, arith, List, [], ◌∷◌, ◌++◌, ◌∙◌,
  length,
}
use fotix.Memory.{Memory, load8, load32, store32}

pub load8-lt : (m : Memory) (a : ℕ) → load8 m a < 2 ^ 8
unfolding load8
load8-lt m a = omega arith

pub load32-lt : (m : Memory) (a : ℕ) → load32 m a < 2 ^ 32
unfolding load32
load32-lt m a = omega arith

-- A word that was written is read back.
pub load32-store32 : (m : Memory) (a v : ℕ) → v < 2 ^ 32 → load32 (store32 m a v) a ≡ v
unfolding load32 store32
load32-store32 m a v h = ground arith

-- A byte elsewhere is as before.
pub store32-outside : (m : Memory) (a v b : ℕ) → (b < a) ⊎ (a + 4 ≤ b) → store32 m a v b ≡ m b
unfolding store32
store32-outside m a v b h = ground arith

-- A word elsewhere is as before.
pub load32-store32_apart :
    (m : Memory) (a v b : ℕ) → (b + 4 ≤ a) ⊎ (a + 4 ≤ b) → load32 (store32 m a v) b ≡ load32 m b
unfolding load32 load8
load32-store32_apart m a v b h = ground (
  arith,
  store32-outside m a v b,
  store32-outside m a v (b + 1),
  store32-outside m a v (b + 2),
  store32-outside m a v (b + 3),
)

-- The `n` words from `a` on.
abbrev pub words : Memory → ℕ → ℕ → List ℕ
words m a zero = []
words m a (suc n) = load32 m a ∷ words m (a + 4) n

pub length-words : (m : Memory) (a n : ℕ) → length (words m a n) ≡ n
length-words m a zero = refl
length-words m a (suc n) = ap suc (length-words m (a + 4) n)

-- A write that misses an array leaves it.
pub words-store32_apart :
    (m : Memory) (a v b n : ℕ)
    → (b + 4 * n ≤ a) ⊎ (a + 4 ≤ b)
    → words (store32 m a v) b n ≡ words m b n
words-store32_apart m a v b zero h = refl
words-store32_apart m a v b (suc n) h =
    ap₂ ◌∷◌ (load32-store32_apart m a v b (omega arith))
      (words-store32_apart m a v (b + 4) n (omega arith))

-- An array read in two parts.
pub words-append :
    (m : Memory) (b j k n : ℕ) → n ≡ j + k → words m b n ≡ words m b j ++ words m (b + 4 * j) k
words-append m b zero k n e =
    let e' : n ≡ k = omega arith in let b' : b + 4 * 0 ≡ b = omega arith in rw (e', b')
words-append m b (suc j) k zero e = absurd (omega arith)
words-append m b (suc j) k (suc n) e =
    ap (λ ws. load32 m b ∷ ws)
      (words-append m (b + 4) j k n (omega arith)
        ∙ ap (λ c. words m (b + 4) j ++ words m c k) (omega arith))

-- A word is its four bytes.
pub load32-same :
    (m m' : Memory) (a : ℕ) → ((b : ℕ) → a ≤ b → b < a + 4 → m' b ≡ m b) → load32 m' a ≡ load32 m a
unfolding load32 load8
load32-same m m' a same = ground (arith, same a, same (a + 1), same (a + 2), same (a + 3))

pub words-same :
    (m m' : Memory) (a n : ℕ)
    → ((b : ℕ) → a ≤ b → b < a + 4 * n → m' b ≡ m b)
    → words m' a n ≡ words m a n
words-same m m' a zero same = refl
words-same m m' a (suc n) same =
    ap₂ ◌∷◌ (load32-same m m' a (λ b p q. same b p (omega arith)))
      (words-same m m' (a + 4) n (λ b p q. same b (omega arith) (omega arith)))
