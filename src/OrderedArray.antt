-- ===== src/OrderedArray.antt =====
-- sys/ordered_array.c and include/ordered_array.h: an array of words in memory that is kept sorted.
pub mod Shift
pub mod Items
pub mod Order
pub mod Frame
mod Tests
use fotix.Base.{
  ℕ, zero, suc, ◌+◌, ◌-◌, ◌*◌, Bool, true, false, ◌&&◌, Option, none, some, ◌==◌, ltb,
  if◌then◌else◌, u32, Outcome, ok, halted, assert, ◌>>=◌, ◌>>◌,
}
use fotix.Memory.{Memory, load32, store32, memset}

-- `lessthan_predicate_t`: a predicate may read memory behind the pointers that it is given.
abbrev pub LessThan : Type 0
LessThan = Memory → ℕ → ℕ → Bool

-- `ordered_array_t`; `array` is an address, and `less_than` may be the null pointer.
pub record OrderedArray : Type 0 where
  pub array : ℕ
  pub size : ℕ
  pub max_size : ℕ
  pub less_than : Option LessThan

unfoldable pub standard_lessthan_predicate : LessThan
standard_lessthan_predicate m a b = ltb a b

-- `sizeof (type_t)` is 4.
unfoldable pub place_ordered_array :
    Memory → (addr max_size : ℕ) → Option LessThan → Memory × OrderedArray
place_ordered_array m addr max_size less_than = (
  memset m addr 0 (u32 (max_size * 4)),
  record { array = addr; size = 0; max_size = max_size; less_than = less_than },
)

-- The word `array->array[i]`.
abbrev pub slot : OrderedArray → ℕ → ℕ
slot a i = a.array + 4 * i

-- The first loop of `insert_ordered_array`, with the rounds that `iterator < array->size` allows.
unfoldable pub find_place : Memory → LessThan → OrderedArray → (item rounds iterator : ℕ) → ℕ
find_place m less a item zero iterator = iterator
find_place m less a item (suc rounds) iterator =
    let rest = find_place m less a item rounds (iterator + 1) in
    if less m (load32 m (slot a iterator)) item then rest else iterator

-- The second loop: each round moves `temp` one place up and takes out what stood there.
unfoldable pub shift_up : Memory → OrderedArray → (rounds iterator temp : ℕ) → Memory
shift_up m a zero iterator temp = m
shift_up m a (suc rounds) iterator temp =
    let temp2 = load32 m (slot a (iterator + 1)) in
    shift_up (store32 m (slot a (iterator + 1)) temp) a rounds (iterator + 1) temp2

-- The two ways in which `insert_ordered_array` ends, by the place that its first loop found.
unfoldable pub insert_at : Memory → OrderedArray → (item iterator : ℕ) → Memory × OrderedArray
insert_at m a item iterator =
    if iterator == a.size
    then (store32 m (slot a a.size) item, record a { size = u32 (a.size + 1) })
    else (let temp = load32 m (slot a iterator) in
        let m' = store32 m (slot a iterator) item in
        (shift_up m' a (a.size - iterator) iterator temp, record a { size = u32 (a.size + 1) }))

unfoldable pub insert_ordered_array : Memory → OrderedArray → ℕ → Outcome (Memory × OrderedArray)
insert_ordered_array m a item = elim a.less_than [
  | none ↦ halted
  | some less ↦ ok (insert_at m a item (find_place m less a item a.size 0))
]

unfoldable pub lookup_ordered_array : Memory → ℕ → OrderedArray → Outcome ℕ
lookup_ordered_array m i a = do assert (ltb i a.size); ok (load32 m (slot a i))

-- The loop of `remove_ordered_array`, with the rounds that `i < array->size` allows.
unfoldable pub shift_down : Memory → OrderedArray → (rounds i : ℕ) → Memory
shift_down m a zero i = m
shift_down m a (suc rounds) i =
    shift_down (store32 m (slot a i) (load32 m (slot a (i + 1)))) a rounds (i + 1)

-- The routine ends with `array->size++`.
unfoldable pub remove_ordered_array : Memory → ℕ → OrderedArray → Memory × OrderedArray
remove_ordered_array m i a = (shift_down m a (a.size - i) i, record a { size = u32 (a.size + 1) })
