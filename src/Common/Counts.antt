-- ===== src/Common/Counts.antt =====
-- How often a number stands in a list, and the list without it.
use Prim.Native.Nat.{ℕ, ◌+◌, ◌≤◌}
use mathlib.Core.Path.{◌≡◌}
use mathlib.Core.Bool.{not}
use mathlib.Core.List.{List, [], ◌∷◌, ◌++◌}
use native.Mathlib.Omega.{arith}
use cpv_cql_driver.Common.Tests.{◌==◌, if◌then◌else◌}
use cpv_cql_driver.Common.Lists.{length}

abbrev pub count : ℕ → List ℕ → ℕ
count i [] = 0
count i (x ∷ xs) = (if x == i then 1 else 0) + count i xs

abbrev pub without : ℕ → List ℕ → List ℕ
without i [] = []
without i (x ∷ xs) = let rest = without i xs in if not (x == i) then x ∷ rest else rest

pub count-append : (i : ℕ) (xs ys : List ℕ) → count i (xs ++ ys) ≡ count i xs + count i ys
count-append i [] ys = omega arith
count-append i (x ∷ xs) ys = omega (arith, count-append i xs ys)

pub count-without :
    (i j : ℕ) (xs : List ℕ) → count j (without i xs) ≡ (if i == j then 0 else count j xs)
count-without i j [] = ground arith
count-without i j (x ∷ xs) = ground (arith, count-without i j xs)

pub length-without : (i : ℕ) (xs : List ℕ) → length (without i xs) + count i xs ≡ length xs
length-without i [] = omega arith
length-without i (x ∷ xs) = ground (arith, length-without i xs)

pub count-le-length : (i : ℕ) (xs : List ℕ) → count i xs ≤ length xs
count-le-length i [] = omega arith
count-le-length i (x ∷ xs) = ground (arith, count-le-length i xs)
