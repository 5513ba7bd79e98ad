-- ===== src/OrderedArray/Order.antt =====
-- Insertion keeps the array sorted and loses nothing.
use fotix.Base.{
  ℕ, ◌+◌, ◌^◌, ◌<◌, ◌≡◌, arith, List, [], ◌∷◌, Bool, true, false, Bool-cases, inl, inr, some, ok,
}
use mathlib.Core.List.{Perm}
use mathlib.Core.List.Perm
use fotix.Memory.{Memory}
use fotix.OrderedArray.{OrderedArray, LessThan, insert_ordered_array, standard_lessthan_predicate}
use fotix.OrderedArray.Items.{items, insert_by, insert-items}

-- No item is less than one in front of it.
abbrev pub NoneLess : (ℕ → ℕ → Bool) → ℕ → List ℕ → Type 0
NoneLess less x [] = Unit
NoneLess less x (y ∷ ys) = (less y x ≡ false) × NoneLess less x ys

abbrev pub IsSorted : (ℕ → ℕ → Bool) → List ℕ → Type 0
IsSorted less [] = Unit
IsSorted less (x ∷ xs) = NoneLess less x xs × IsSorted less xs

-- What a predicate owes: it never holds both ways, and its negation is transitive.
pub record IsOrder (less : ℕ → ℕ → Bool) : Type 0 where
  pub asym : (x y : ℕ) → less x y ≡ true → less y x ≡ false
  pub trans : (x y z : ℕ) → less y x ≡ false → less z y ≡ false → less z x ≡ false

pub standard-IsOrder : (m : Memory) → IsOrder (standard_lessthan_predicate m)
unfolding standard_lessthan_predicate
standard-IsOrder m = record { asym = λ x y h. ground arith; trans = λ x y z h k. ground arith }

module _ {less : ℕ → ℕ → Bool} (o : IsOrder less) where
  NoneLess-trans :
      (x y : ℕ) (ys : List ℕ) → less y x ≡ false → NoneLess less y ys → NoneLess less x ys
  NoneLess-trans x y [] h n = tt
  NoneLess-trans x y (z ∷ zs) h n = (o.trans x y z h n.0, NoneLess-trans x y zs h n.1)

  NoneLess-insert_by :
      (x item : ℕ) (ys : List ℕ)
      → less item x ≡ false
      → NoneLess less x ys
      → NoneLess less x (insert_by less item ys)
  unfolding insert_by
  NoneLess-insert_by x item [] h n = (h, tt)
  NoneLess-insert_by x item (y ∷ ys) h n = elim (Bool-cases (less y item)) [
    | inl t ↦ rw t (n.0, NoneLess-insert_by x item ys h n.1)
    | inr f ↦ rw f (h, n)
  ]

  pub insert_by-IsSorted :
      (item : ℕ) (xs : List ℕ) → IsSorted less xs → IsSorted less (insert_by less item xs)
  unfolding insert_by
  insert_by-IsSorted item [] s = (tt, tt)
  insert_by-IsSorted item (x ∷ xs) s = elim (Bool-cases (less x item)) [
    | inl t ↦
        rw t (NoneLess-insert_by x item xs (o.asym x item t) s.0, insert_by-IsSorted item xs s.1)
    | inr f ↦ rw f ((f, NoneLess-trans item x xs f s.0), s)
  ]

pub insert_by-perm :
    (less : ℕ → ℕ → Bool) (item : ℕ) (xs : List ℕ) → Perm (insert_by less item xs) (item ∷ xs)
unfolding insert_by
insert_by-perm less item [] = Perm.refl (item ∷ [])
insert_by-perm less item (x ∷ xs) = elim (Bool-cases (less x item)) [
  | inl t ↦ rw t (Perm.trans (Perm.cons x (insert_by-perm less item xs)) (Perm.swap item x xs))
  | inr f ↦ rw f (Perm.refl (item ∷ x ∷ xs))
]

-- An array that is sorted by an order is sorted after `insert_ordered_array`, and holds the old
-- items and the new one, each as often.
pub insert-IsSorted :
    (m : Memory) (a : OrderedArray) (less : LessThan) (item : ℕ)
    → a.less_than ≡ some less
    → item < 2 ^ 32
    → a.size + 1 < 2 ^ 32
    → IsOrder (less m)
    → IsSorted (less m) (items m a)
    → (r : Memory × OrderedArray) × (insert_ordered_array m a item ≡ ok r)
      × IsSorted (less m) (items r.0 r.1)
      × Perm (items r.0 r.1) (item ∷ items m a)
insert-IsSorted m a less item some_less small room o s =
    let (r, done, grown, same) = insert-items m a less item some_less small room in
    (
      r,
      done,
      rw same (insert_by-IsSorted o item (items m a) s),
      rw same (insert_by-perm (less m) item (items m a)),
    )
