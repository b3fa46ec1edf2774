-- ===== src/Column/Nullable/Tests.antt =====
-- lib/column/nullable.go over a column of numbers, where 0 stands for nil.
use clickhouse_go.Common.{
  ℕ, Bool, true, List, [], ◌∷◌, none, some, ◌⊎◌, inl, get_elem?, ◌==◌, ◌≡◌, refl,
}
use clickhouse_go.Block.Reads.{Reads}
use clickhouse_go.Column.Numbers.{some_numbers, some_numbers_lem, numbers}
use clickhouse_go.Column.Nullable.{Nullable, append_rows, encode, decode, row}
use clickhouse_go.Column.Nullable.Laws.{append_rows-decode-row}

abbrev is_nil : ℕ → Bool ⊎ ℕ
is_nil n = inl (n == 0)

abbrev empty : Nullable (List ℕ)
empty = record { base = []; nulls = []; enable = true }

abbrev appended : Nullable (List ℕ)
appended = record { base = 5 ∷ 0 ∷ 7 ∷ []; nulls = 0 ∷ 1 ∷ 0 ∷ []; enable = true }

appended_lem : append_rows numbers is_nil (5 ∷ 0 ∷ 7 ∷ []) empty ≡ (appended, none)
unfolding append_rows
appended_lem = refl

nullable_example :
    (t : Nullable (List ℕ)) × Reads
      (decode numbers some_numbers 3 empty)
      (encode numbers (λ o. o) appended)
      t
    × ((i : ℕ) → row get_elem? t i ≡ get_elem? (some 5 ∷ none ∷ some 7 ∷ []) i)
nullable_example =
    append_rows-decode-row numbers is_nil (λ c. c) (λ v. v) (λ v c ok. refl) (λ o. o) some_numbers
      (λ bytes. record { apply = some_numbers_lem bytes }) get_elem? (λ c j. refl) (5 ∷ 0 ∷ 7 ∷ [])
      empty appended empty (5 ∷ 0 ∷ 7 ∷ []) refl (refl, refl) appended_lem refl
      (record { apply = some_numbers_lem (5 ∷ 0 ∷ 7 ∷ []) }) refl
