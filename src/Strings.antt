-- ===== src/Strings.antt =====
-- The string routines of sys/common.c over memory. Each loop runs until a NUL, so it has fuel.
pub mod Facts
mod Tests
use fotix.Base.{
  ℕ, zero, suc, ◌+◌, Bool, true, false, not, ◌&&◌, ◌==◌, if◌then◌else◌, Outcome, ok, out_of_fuel,
  ◌>>=◌,
}
use fotix.Memory.{Memory, load8, store8}

unfoldable pub strlen : (fuel : ℕ) → Memory → (src : ℕ) → Outcome ℕ
strlen zero m src = out_of_fuel
strlen (suc fuel) m src =
    let rest = strlen fuel m (src + 1) in
    if load8 m src == 0 then ok 0 else (do n ← rest; ok (suc n))

-- 0 for equal strings and 1 for others: after the loop has left on two different characters, the
-- test on the ends changes nothing.
unfoldable pub strcmp : (fuel : ℕ) → Memory → (str1 str2 : ℕ) → Outcome ℕ
strcmp zero m str1 str2 = out_of_fuel
strcmp (suc fuel) m str1 str2 =
    let rest = strcmp fuel m (str1 + 1) (str2 + 1) in
    if not (load8 m str1 == 0) && not (load8 m str2 == 0)
    then (if load8 m str1 == load8 m str2 then rest else ok 1)
    else (if (load8 m str1 == 0) && (load8 m str2 == 0) then ok 0 else ok 1)

-- The first character is copied before any test, and the NUL is not copied.
unfoldable pub strcpy : (fuel : ℕ) → Memory → (dest src : ℕ) → Outcome Memory
strcpy zero m dest src = out_of_fuel
strcpy (suc fuel) m dest src =
    let m' = store8 m dest (load8 m src) in
    let rest = strcpy fuel m' (dest + 1) (src + 1) in
    if load8 m' (src + 1) == 0 then ok m' else rest
