-- ===== src/OrderedArray/Tests.antt =====
-- Runs of the ordered array, and its theorems at a concrete one.
use fotix.Base.{◌≡◌, refl, arith, [], ◌∷◌, ◌++◌, some, ok, halted}
use mathlib.Core.List.{Perm}
use fotix.Memory.{Memory, load32, store32}
use fotix.OrderedArray.{
  OrderedArray, slot, standard_lessthan_predicate, shift_down, insert_ordered_array,
  lookup_ordered_array, remove_ordered_array,
}
use fotix.OrderedArray.Items.{items, insert_by, remove_nth, insert-items, remove-items}
use fotix.OrderedArray.Order.{IsSorted, standard-IsOrder, insert-IsSorted}

-- 30 and 70 at 0x1000, and 9 behind them.
abbrev two : Memory
two = store32 (store32 (store32 (λ a. 0) 0x1000 30) 0x1004 70) 0x1008 9

abbrev array_of_two : OrderedArray
array_of_two = record {
  array = 0x1000;
  size = 2;
  max_size = 16;
  less_than = some standard_lessthan_predicate;
}

lookup_in_range : lookup_ordered_array two 1 array_of_two ≡ ok 70
unfolding lookup_ordered_array load32 store32
lookup_in_range = refl

lookup_behind : lookup_ordered_array two 2 array_of_two ≡ halted
unfolding lookup_ordered_array
lookup_behind = refl

remove_first : let (m, a) = remove_ordered_array two 0 array_of_two in items m a ≡ 70 ∷ 9 ∷ 9 ∷ []
unfolding remove_ordered_array shift_down load32 store32
remove_first = refl

insert-items_example :
    (r : Memory × OrderedArray) × (insert_ordered_array two array_of_two 50 ≡ ok r)
    × (r.1 ≡ record array_of_two { size = 3 })
    × (items r.0 r.1 ≡ insert_by (standard_lessthan_predicate two) 50 (items two array_of_two))
insert-items_example =
    insert-items two array_of_two standard_lessthan_predicate 50 refl (omega arith) (omega arith)

remove-items_example :
    let (m, a) = remove_ordered_array two 0 array_of_two in
    let beyond = load32 two (slot array_of_two array_of_two.size) in
    (a ≡ record array_of_two { size = 3 })
    × (items m a ≡ remove_nth 0 (items two array_of_two) ++ (beyond ∷ beyond ∷ []))
remove-items_example = remove-items two array_of_two 0 (omega arith) (omega arith)

insert-IsSorted_example :
    (r : Memory × OrderedArray) × (insert_ordered_array two array_of_two 50 ≡ ok r)
    × IsSorted (standard_lessthan_predicate two) (items r.0 r.1)
    × Perm (items r.0 r.1) (50 ∷ items two array_of_two)
unfolding load32 store32 standard_lessthan_predicate
insert-IsSorted_example =
    insert-IsSorted two array_of_two standard_lessthan_predicate 50 refl (omega arith) (omega arith)
      (standard-IsOrder two) ((refl, tt), (tt, tt))
