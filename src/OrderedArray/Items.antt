-- ===== src/OrderedArray/Items.antt =====
-- The array as the list of its words: insertion and removal on that list.
use fotix.Base.{
  ℕ, zero, suc, ◌+◌, ◌-◌, ◌*◌, ◌^◌, ◌<◌, ◌≡◌, refl, ap, ap₂, ◌∙◌, sym, inl, inr, arith, List, [],
  ◌∷◌, ◌++◌, append_assoc, Bool, true, false, Bool-cases, some, ◌==◌, if◌then◌else◌, ok, u32,
  ==_iff,
}
use fotix.Memory.{Memory, load32, store32}
use fotix.Memory.Words.{words, words-append, load32-lt, load32-store32, words-store32_apart}
use fotix.OrderedArray.{
  OrderedArray, LessThan, slot, find_place, shift_up, insert_at, insert_ordered_array, shift_down,
  remove_ordered_array,
}
use fotix.OrderedArray.Shift.{
  load32-shift_up_below, words-shift_up, words-shift_up_below, words-shift_down,
  words-shift_down_below,
}

abbrev pub items : Memory → OrderedArray → List ℕ
items m a = words m a.array a.size

-- Insertion in front of the first item that is not less.
unfoldable pub insert_by : (ℕ → ℕ → Bool) → ℕ → List ℕ → List ℕ
insert_by less item [] = item ∷ []
insert_by less item (x ∷ xs) = if less x item then x ∷ insert_by less item xs else item ∷ x ∷ xs

unfoldable pub remove_nth : ℕ → List ℕ → List ℕ
remove_nth i [] = []
remove_nth zero (x ∷ xs) = xs
remove_nth (suc i) (x ∷ xs) = x ∷ remove_nth i xs

-- The place that the first loop finds is where `insert_by` puts the item.
find_place_lem :
    (m : Memory) (less : LessThan) (a : OrderedArray) (item rounds i s : ℕ)
    → s ≡ slot a i
    → (j k : ℕ) × (find_place m less a item rounds i ≡ i + j)
      × (rounds ≡ j + k)
      × (insert_by (less m) item (words m s rounds) ≡ words m s j ++ (item ∷ words m (s + 4 * j) k))
unfolding find_place insert_by
find_place_lem m less a item zero i s e = (0, 0, omega arith, omega arith, refl)
find_place_lem m less a item (suc rounds) i s e =
    elim (Bool-cases (less m (load32 m (slot a i)) item)) [
      | inl t ↦ further t (find_place_lem m less a item rounds (i + 1) (s + 4) (omega arith))
      | inr f ↦ (
        0,
        suc rounds,
        rw f (omega arith),
        omega arith,
        rw (e, f) (ap (λ b. item ∷ words m b (suc rounds)) (omega arith)),
      )
    ]
  where
    further :
        less m (load32 m (slot a i)) item ≡ true
        → ((j k : ℕ) × (find_place m less a item rounds (i + 1) ≡ i + 1 + j)
            × (rounds ≡ j + k)
            × (insert_by (less m) item (words m (s + 4) rounds)
                ≡ words m (s + 4) j ++ (item ∷ words m (s + 4 + 4 * j) k)))
        → (j k : ℕ) × (find_place m less a item (suc rounds) i ≡ i + j)
          × (suc rounds ≡ j + k)
          × (insert_by (less m) item (words m s (suc rounds))
              ≡ words m s j ++ (item ∷ words m (s + 4 * j) k))
    further t (j, k, at, split, same) = (
      suc j,
      k,
      rw t (omega arith),
      omega arith,
      rw (ap (load32 m) e, t)
          (ap (λ ws. load32 m (slot a i) ∷ ws)
            (same ∙ ap (λ b. words m (s + 4) j ++ (item ∷ words m b k)) (omega arith))),
    )

insert_at_last :
    (m : Memory) (a : OrderedArray) (item : ℕ)
    → insert_at m a item a.size
      ≡ (store32 m (slot a a.size) item, record a { size = u32 (a.size + 1) })
unfolding insert_at
insert_at_last m a item = rw ((==_iff a.size a.size).1 refl)

insert_at_end :
    (m : Memory) (a : OrderedArray) (item : ℕ)
    → item < 2 ^ 32
    → words (insert_at m a item a.size).0 a.array (suc a.size) ≡ items m a ++ (item ∷ [])
insert_at_end m a item h =
    ap (λ r. words r.0 a.array (suc a.size)) (insert_at_last m a item)
    ∙ (words-append (store32 m (slot a a.size) item) a.array a.size 1 (suc a.size) (omega arith)
        ∙ ap₂ (λ ws w. ws ++ (w ∷ []))
            (words-store32_apart m (slot a a.size) item a.array a.size (inl (omega arith)))
            (load32-store32 m (slot a a.size) item h))

insert_at_before :
    (m : Memory) (a : OrderedArray) (item j k : ℕ)
    → a.size ≡ j + suc k
    → insert_at m a item j ≡ (
      shift_up (store32 m (slot a j) item) a (suc k) j (load32 m (slot a j)),
      record a { size = u32 (a.size + 1) },
    )
unfolding insert_at
insert_at_before m a item j k e =
    let here : (j == a.size) ≡ false = ground arith in
    let left : a.size - j ≡ suc k = omega arith in rw (here, left)

insert_at_middle :
    (m : Memory) (a : OrderedArray) (item j k : ℕ)
    → item < 2 ^ 32
    → a.size ≡ j + suc k
    → words (insert_at m a item j).0 a.array (suc a.size)
      ≡ words m a.array j ++ (item ∷ words m (slot a j) (suc k))
insert_at_middle m a item j k h e =
    ap (λ r. words r.0 a.array (suc a.size)) (insert_at_before m a item j k e)
    ∙ (words-append m' a.array j (suc (suc k)) (suc a.size) (omega arith)
        ∙ ap₂ ◌++◌ front (ap₂ ◌∷◌ here behind))
  where
    m1 : Memory
    m1 = store32 m (slot a j) item

    temp : ℕ
    temp = load32 m (slot a j)

    m' : Memory
    m' = shift_up m1 a (suc k) j temp

    front : words m' a.array j ≡ words m a.array j
    front =
        words-shift_up_below m1 a (suc k) j temp a.array j (omega arith)
        ∙ words-store32_apart m (slot a j) item a.array j (inl (omega arith))

    here : load32 m' (slot a j) ≡ item
    here =
        load32-shift_up_below m1 a (suc k) j temp (slot a j) (omega arith)
        ∙ load32-store32 m (slot a j) item h

    behind : words m' (slot a j + 4) (suc k) ≡ words m (slot a j) (suc k)
    behind =
        words-shift_up m1 a k j temp (slot a j + 4) (load32-lt m (slot a j)) (omega arith)
        ∙ ap (λ ws. temp ∷ ws)
            (words-store32_apart m (slot a j) item (slot a j + 4) k (inr (omega arith)))

-- Either way the words are those in front, the item, and those behind.
words-insert_at :
    (m : Memory) (a : OrderedArray) (item j k : ℕ)
    → item < 2 ^ 32
    → a.size ≡ j + k
    → words (insert_at m a item j).0 a.array (suc a.size)
      ≡ words m a.array j ++ (item ∷ words m (slot a j) k)
words-insert_at m a item j zero h e =
    let at : j ≡ a.size = omega arith in
    ap (λ i. words (insert_at m a item i).0 a.array (suc a.size)) at
    ∙ insert_at_end m a item h
    ∙ ap (λ i. words m a.array i ++ (item ∷ [])) (sym at)
words-insert_at m a item j (suc k) h e = insert_at_middle m a item j k h e

insert_at_array :
    (m : Memory) (a : OrderedArray) (item j : ℕ)
    → (insert_at m a item j).1 ≡ record a { size = u32 (a.size + 1) }
unfolding insert_at
insert_at_array m a item j = ground arith

insert-insert_at :
    (m : Memory) (a : OrderedArray) (less : LessThan) (item i : ℕ)
    → a.less_than ≡ some less
    → find_place m less a item a.size 0 ≡ i
    → insert_ordered_array m a item ≡ ok (insert_at m a item i)
unfolding insert_ordered_array
insert-insert_at m a less item i some_less at = ground arith

-- `insert_ordered_array` returns, and the items are then the old ones with the new one in front of
-- the first that is not less; the capacity, the address and the predicate stay.
pub insert-items :
    (m : Memory) (a : OrderedArray) (less : LessThan) (item : ℕ)
    → a.less_than ≡ some less
    → item < 2 ^ 32
    → a.size + 1 < 2 ^ 32
    → (r : Memory × OrderedArray) × (insert_ordered_array m a item ≡ ok r)
      × (r.1 ≡ record a { size = a.size + 1 })
      × (items r.0 r.1 ≡ insert_by (less m) item (items m a))
insert-items m a less item some_less small room =
    placed (find_place_lem m less a item a.size 0 a.array (omega arith))
  where
    placed :
        ((j k : ℕ) × (find_place m less a item a.size 0 ≡ 0 + j)
          × (a.size ≡ j + k)
          × (insert_by (less m) item (items m a)
              ≡ words m a.array j ++ (item ∷ words m (a.array + 4 * j) k)))
        → (r : Memory × OrderedArray) × (insert_ordered_array m a item ≡ ok r)
          × (r.1 ≡ record a { size = a.size + 1 })
          × (items r.0 r.1 ≡ insert_by (less m) item (items m a))
    placed (j, k, at, split, same) = (
      insert_at m a item j,
      insert-insert_at m a less item j some_less (omega (arith, at)),
      grown,
      ap (λ b. words (insert_at m a item j).0 b.array b.size) grown
          ∙ ap (words (insert_at m a item j).0 a.array) {y = suc a.size} (omega arith)
          ∙ words-insert_at m a item j k small split
          ∙ sym same,
    )
      where
        grown : (insert_at m a item j).1 ≡ record a { size = a.size + 1 }
        grown = ground (arith, insert_at_array m a item j)

remove_words :
    (m : Memory) (b i n s : ℕ)
    → i < n
    → s ≡ b + 4 * i
    → remove_nth i (words m b n) ≡ words m b i ++ words m (s + 4) (n - i - 1)
unfolding remove_nth
remove_words m b i zero s h e = absurd (omega arith)
remove_words m b zero (suc n) s h e = ap₂ (words m) (omega arith) (omega arith)
remove_words m b (suc i) (suc n) s h e =
    ap (λ ws. load32 m b ∷ ws)
      (remove_words m (b + 4) i n s (omega arith) (omega arith)
        ∙ ap (λ k. words m (b + 4) i ++ words m (s + 4) k) (omega arith))

-- `remove_ordered_array` takes the item at `i` out, but it counts the array up: behind the
-- remaining items stands, twice, the word that was behind the array.
pub remove-items :
    (m : Memory) (a : OrderedArray) (i : ℕ)
    → i < a.size
    → a.size + 1 < 2 ^ 32
    → let (m', a') = remove_ordered_array m i a in
      let beyond = load32 m (slot a a.size) in
      (a' ≡ record a { size = a.size + 1 })
      × (items m' a' ≡ remove_nth i (items m a) ++ (beyond ∷ beyond ∷ []))
unfolding remove_ordered_array
remove-items m a i h room = (
  ap (λ n. record a { size = n }) wrapped,
  ap (words (shift_down m a k i) a.array) wrapped
      ∙ words-append (shift_down m a k i) a.array i (suc k) (a.size + 1) (omega arith)
      ∙ ap₂ ◌++◌ (words-shift_down_below m a k i a.array i (omega arith))
          (words-shift_down m a k i (slot a i) refl ∙ ap₂ (λ ws w. ws ++ (w ∷ [])) tail last)
      ∙ ap (λ ws. words m a.array i ++ ws) (append_assoc (words m (slot a i + 4) (k - 1)) _ _)
      ∙ sym (append_assoc (words m a.array i) (words m (slot a i + 4) (k - 1)) _)
      ∙ ap (λ ws. ws ++ (beyond ∷ beyond ∷ []))
          (sym (remove_words m a.array i a.size (slot a i) h refl)),
)
  where
    k : ℕ
    k = a.size - i

    beyond : ℕ
    beyond = load32 m (slot a a.size)

    wrapped : u32 (a.size + 1) ≡ a.size + 1
    wrapped = omega arith

    last : load32 m (slot a i + 4 * k) ≡ beyond
    last = ap (load32 m) (omega arith)

    tail : words m (slot a i + 4) k ≡ words m (slot a i + 4) (k - 1) ++ (beyond ∷ [])
    tail =
        words-append m (slot a i + 4) (k - 1) 1 k (omega arith)
        ∙ ap (λ b. words m (slot a i + 4) (k - 1) ++ (load32 m b ∷ [])) (omega arith)
