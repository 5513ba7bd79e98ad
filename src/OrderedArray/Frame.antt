-- ===== src/OrderedArray/Frame.antt =====
-- The memory that the array's routines leave alone.
use fotix.Base.{
  ℕ, zero, suc, ◌+◌, ◌-◌, ◌≤◌, ◌<◌, ◌≡◌, refl, sym, ap, ◌∙◌, ◌^◌, arith, ◌⊎◌, some, ok,
}
use fotix.Memory.{Memory, load32, store32}
use fotix.Memory.Words.{store32-outside}
use fotix.OrderedArray.{
  OrderedArray, LessThan, slot, find_place, shift_up, insert_at, insert_ordered_array, shift_down,
  remove_ordered_array,
}
use fotix.OrderedArray.Items.{items, insert_by, insert-items}

-- Byte `b` is none of the first `n` words.
abbrev pub Outside : OrderedArray → (n b : ℕ) → Type 0
Outside a n b = (b < a.array) ⊎ (slot a n ≤ b)

shift_up-Outside :
    (m : Memory) (a : OrderedArray) (rounds i temp b : ℕ)
    → Outside a (i + 1 + rounds) b
    → shift_up m a rounds i temp b ≡ m b
unfolding shift_up
shift_up-Outside m a zero i temp b h = refl
shift_up-Outside m a (suc rounds) i temp b h =
    shift_up-Outside (store32 m (slot a (i + 1)) temp) a rounds (i + 1) (load32 m (slot a (i + 1)))
      b (omega arith)
    ∙ store32-outside m (slot a (i + 1)) temp b (omega arith)

shift_down-Outside :
    (m : Memory) (a : OrderedArray) (rounds i b : ℕ)
    → Outside a (i + rounds) b
    → shift_down m a rounds i b ≡ m b
unfolding shift_down
shift_down-Outside m a zero i b h = refl
shift_down-Outside m a (suc rounds) i b h =
    shift_down-Outside (store32 m (slot a i) (load32 m (slot a (i + 1)))) a rounds (i + 1) b
      (omega arith)
    ∙ store32-outside m (slot a i) (load32 m (slot a (i + 1))) b (omega arith)

find_place-le :
    (m : Memory) (less : LessThan) (a : OrderedArray) (item rounds i : ℕ)
    → find_place m less a item rounds i ≤ i + rounds
unfolding find_place
find_place-le m less a item zero i = omega arith
find_place-le m less a item (suc rounds) i =
    ground (arith, find_place-le m less a item rounds (i + 1))

insert_at-Outside :
    (m : Memory) (a : OrderedArray) (item i b : ℕ)
    → i ≤ a.size
    → Outside a (a.size + 1) b
    → (insert_at m a item i).0 b ≡ m b
unfolding insert_at
insert_at-Outside m a item i b le h = ground (
  arith,
  store32-outside m (slot a a.size) item b,
  store32-outside m (slot a i) item b,
  shift_up-Outside (store32 m (slot a i) item) a (a.size - i) i (load32 m (slot a i)) b,
)

-- `insert_ordered_array` writes only the words of the array and the one behind them.
pub insert-Outside :
    (m : Memory) (a : OrderedArray) (less : LessThan) (item : ℕ)
    → a.less_than ≡ some less
    → (r : Memory × OrderedArray) × (insert_ordered_array m a item ≡ ok r)
      × ((b : ℕ) → Outside a (a.size + 1) b → r.0 b ≡ m b)
unfolding insert_ordered_array
insert-Outside m a less item some_less = (
  insert_at m a item (find_place m less a item a.size 0),
  ground arith,
  λ b h.
      insert_at-Outside m a item (find_place m less a item a.size 0) b
        (omega (arith, find_place-le m less a item a.size 0)) h,
)

-- Both lemmas on the insertion speak of the same result.
pub insert-once :
    (m : Memory) (a : OrderedArray) (less : LessThan) (item : ℕ)
    → a.less_than ≡ some less
    → item < 2 ^ 32
    → a.size + 1 < 2 ^ 32
    → (r : Memory × OrderedArray) × (insert_ordered_array m a item ≡ ok r)
      × (r.1 ≡ record a { size = a.size + 1 })
      × (items r.0 r.1 ≡ insert_by (less m) item (items m a))
      × ((b : ℕ) → Outside a (a.size + 1) b → r.0 b ≡ m b)
insert-once m a less item order small fits =
    let (r, done, array, sorted) = insert-items m a less item order small fits in
    let (r', done', outside) = insert-Outside m a less item order in
    let eq : ok r' ≡ ok r = sym done' ∙ done in
    let same : r' ≡ r = cc eq in
    (
      r,
      done,
      array,
      sorted,
      λ b h. ap (λ (s : Memory × OrderedArray). s.0 b) (sym same) ∙ outside b h,
    )

-- `remove_ordered_array` writes only the words of the array.
pub remove-Outside :
    (m : Memory) (a : OrderedArray) (i b : ℕ)
    → i ≤ a.size
    → Outside a a.size b
    → (remove_ordered_array m i a).0 b ≡ m b
unfolding remove_ordered_array
remove-Outside m a i b le h = shift_down-Outside m a (a.size - i) i b (omega arith)
