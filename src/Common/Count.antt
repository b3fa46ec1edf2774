-- ===== src/Common/Count.antt =====
-- How often a number stands in a list.
use Prim.Native.Nat.{ℕ, suc, ◌+◌}
use mathlib.Core.Path.{◌≡◌}
use mathlib.Core.List.{List, [], ◌∷◌, ◌++◌}
use native.Mathlib.Omega.{arith}
use clickhouse_go.Common.Tests.{if◌then◌else◌, ◌==◌}

unfoldable pub count : ℕ → List ℕ → ℕ
count c [] = 0
count c (x ∷ xs) = if x == c then suc (count c xs) else count c xs

pub count-append : (c : ℕ) (xs ys : List ℕ) → count c (xs ++ ys) ≡ count c xs + count c ys
unfolding count
count-append c [] ys = omega arith
count-append c (x ∷ xs) ys = ground (arith, count-append c xs ys)

pub count_middle :
    (c d : ℕ) (xs ys : List ℕ) → count c (xs ++ d ∷ ys) ≡ count c (d ∷ []) + count c (xs ++ ys)
unfolding count
count_middle c d xs ys = ground (arith, count-append c xs (d ∷ ys), count-append c xs ys)

pub count_last : (c d : ℕ) (xs : List ℕ) → count c (xs ++ d ∷ []) ≡ count c xs + count c (d ∷ [])
count_last c d xs = count-append c xs (d ∷ [])
