-- ===== src/Column/Array/Tests.antt =====
-- lib/column/array.go over a column of numbers.
use clickhouse_go.Common.{ℕ, List, [], ◌∷◌, none, some, get_elem?, ◌≡◌, refl, arith}
use clickhouse_go.Block.Reads.{Reads}
use clickhouse_go.Column.Numbers.{some_numbers, some_numbers_lem, numbers}
use clickhouse_go.Column.Array.{
  Nested, State, append, append_each, append_offset, no_offsets, encode, decode, scan_slice,
}
use clickhouse_go.Column.Array.RoundTrip.{append-decode-scan_slice}

-- Two rows of slices of slices; the second slice of the first row is empty.
abbrev two_rows : List (Nested ℕ 2)
two_rows = ((1 ∷ 2 ∷ []) ∷ [] ∷ []) ∷ ((3 ∷ []) ∷ []) ∷ []

abbrev appended : State numbers 2
appended = ((2 ∷ 3 ∷ [], (2 ∷ 2 ∷ 3 ∷ [], tt)), 1 ∷ 2 ∷ 3 ∷ [])

appended_lem : append_each numbers (append numbers 2) two_rows (no_offsets 2, []) ≡ (appended, none)
unfolding append_each append append_offset
appended_lem = refl

array_example :
    Reads
      (decode numbers some_numbers 2 2 [])
      (encode numbers (λ o. o) 2 appended)
      (appended.0, 1 ∷ 2 ∷ 3 ∷ [])
    × ((i : ℕ) → scan_slice (get_elem? (1 ∷ 2 ∷ 3 ∷ [])) 2 appended.0 i ≡ get_elem? two_rows i)
array_example =
    append-decode-scan_slice numbers (λ o. o) some_numbers
      (λ offsets. record { apply = some_numbers_lem offsets }) (λ c. c) get_elem? (λ v. v)
      (λ v c ok. refl) (λ c j. refl) 2 two_rows [] [] (1 ∷ 2 ∷ 3 ∷ []) appended refl (omega arith)
      appended_lem (record { apply = some_numbers_lem (1 ∷ 2 ∷ 3 ∷ []) }) refl

first_row :
    scan_slice {X = ℕ} (get_elem? (1 ∷ 2 ∷ 3 ∷ [])) 2 appended.0 0 ≡ some ((1 ∷ 2 ∷ []) ∷ [] ∷ [])
unfolding scan_slice
first_row = refl
