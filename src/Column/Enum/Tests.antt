-- ===== src/Column/Enum/Tests.antt =====
-- Enum types of the test of lib/column/enum.go, and one with an escaped quote.
use clickhouse_go.Common.{
  false, not, ◌&&◌, List, [], ◌∷◌, Option, none, some, ◌⊎◌, length, leb, ltb, ◌==◌, if◌then◌else◌,
  keep_if, ◌≡◌, refl, arith,
}
use clickhouse_go.Common.Decimal.{read_decimal}
use mathlib.Core.List.{map}
use clickhouse_go.QueryParameters.{ℤ, pos}
use clickhouse_go.Bind.Format.{codes}
use clickhouse_go.Column.Enum.{
  Bytes, enum8, valid, invalid, panicked, extract_enum_named_values, extract_loop, round, switch,
  capture, cut_all, cut_at, type_of, index_text,
}
use clickhouse_go.Column.Enum.Steps.{Item, Fits, pair_of}
use clickhouse_go.Column.Enum.Extract.{extract-enum_text}
use clickhouse_go.Column.Enum.Escapes.{extract-panics}
use clickhouse_go.Column.Enum8.{
  int8, Enum8, enum, made8, append_row, row, string, int, appended, unknown_element, append_value,
}
use clickhouse_go.Column.Enum8.Laws.{column, append_row-int, has_name, enum-append_row}

-- Natural numbers with spaces around.
abbrev digits : Bytes → Option ℤ
digits text =
    let number = keep_if (λ c. not (c == 32)) text in
    if ltb 0 (length (keep_if (λ c. not (leb 48 c && leb c 57)) number))
    then none
    else some (pos (read_decimal 0 number))

abbrev a_is_1 : Item
a_is_1 = record { name = codes "a"; text = codes " 1"; index = pos 1 }

abbrev cd_is_2 : Item
cd_is_2 = record { name = codes "c,d"; text = codes " 2"; index = pos 2 }

a-Fits : Fits digits enum8 a_is_1
a-Fits = record {
  plain_lem = (λ h. absurd (omega arith), λ h. absurd (omega arith), tt);
  inner_lem = (refl, (refl, tt));
  atoi_lem = refl;
  range_lem = refl;
}

cd-Fits : Fits digits enum8 cd_is_2
cd-Fits = record {
  plain_lem = (
    λ h. absurd (omega arith),
    λ h. absurd (omega arith),
    (
      λ h. absurd (omega arith),
      λ h. absurd (omega arith),
      (λ h. absurd (omega arith), λ h. absurd (omega arith), tt),
    ),
  );
  inner_lem = (refl, (refl, tt));
  atoi_lem = refl;
  range_lem = refl;
}

enum_text_example :
    extract_enum_named_values digits (codes "Enum8('a' = 1, 'c,d' = 2)")
    ≡ valid (some enum8) ((codes "a", pos 1) ∷ (codes "c,d", pos 2) ∷ [])
enum_text_example = extract-enum_text digits enum8 a_is_1 (cd_is_2 ∷ []) (a-Fits, (cd-Fits, tt))

panic_example : extract_enum_named_values digits (codes "Enum8('it\\'s' = 3, 'a' = 1)") ≡ panicked
panic_example =
    extract-panics digits enum8 (codes "it") (codes "s") (codes " 3") (pos 3) a_is_1
      (
        λ h. absurd (omega arith),
        λ h. absurd (omega arith),
        (λ h. absurd (omega arith), λ h. absurd (omega arith), tt),
      )
      (λ h. absurd (omega arith), λ h. absurd (omega arith), tt) (refl, (refl, tt)) refl refl a-Fits
      (omega arith)

no_indexes :
    extract_enum_named_values digits (codes "Enum8('a'=5,'b')")
    ≡ valid (some enum8) ((codes "a", pos 5) ∷ (codes "b", pos 6) ∷ [])
unfolding extract_enum_named_values extract_loop round switch capture cut_all cut_at type_of
    index_text
no_indexes = refl

too_large : extract_enum_named_values digits (codes "Enum8('a'=1,'b'=256)") ≡ invalid
unfolding extract_enum_named_values extract_loop round switch capture cut_all cut_at type_of
    index_text
too_large = refl

no_integer : extract_enum_named_values digits (codes "Enum8('a'=1,'b'='c')") ≡ invalid
unfolding extract_enum_named_values extract_loop round switch capture cut_all cut_at type_of
    index_text
no_integer = refl

empty_enum_type : extract_enum_named_values digits (codes "Enum8()") ≡ invalid
unfolding extract_enum_named_values extract_loop round switch capture cut_all cut_at type_of
    index_text
empty_enum_type = refl

-- Two escapes in one value: the second cut is off by one, and the name is wrong.
two_escapes :
    extract_enum_named_values digits (codes "Enum8('a\\'b\\'c'=1)")
    ≡ valid (some enum8) ((codes "a'b\\c", pos 1) ∷ [])
unfolding extract_enum_named_values extract_loop round switch capture cut_all cut_at type_of
    index_text
two_escapes = refl

abbrev two_values : List (Bytes × ℤ)
two_values = (codes "a", pos 1) ∷ (codes "b", pos 200) ∷ []

-- 257 has the low byte of 1.
int_example :
    (append_row (int (pos 257)) (column two_values []) ≡ append_value (column two_values []) 1)
    × (append_row (int8 (pos 257)) (column two_values []) ≡ append_value (column two_values []) 1)
int_example = append_row-int two_values [] (pos 257)

enum_example :
    (c : Enum8) × (enum digits (codes "Enum8('a' = 1, 'c,d' = 2)") ≡ made8 c)
    × (((has_name (codes "c,d") (map pair_of (a_is_1 ∷ cd_is_2 ∷ [])) ≡ false)
          × (append_row (string (codes "c,d")) c ≡ unknown_element))
        ⊎ ((e : Enum8) × (append_row (string (codes "c,d")) c ≡ appended e)
            × (row e 0 ≡ some (codes "c,d"))))
enum_example =
    enum-append_row digits a_is_1 (cd_is_2 ∷ []) (a-Fits, (cd-Fits, tt)) (refl, (refl, tt))
      (codes "c,d")
