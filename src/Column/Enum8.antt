-- ===== src/Column/Enum8.antt =====
-- lib/column/enum.go's column of an Enum8, and enum8.go: the values by name, the names by value, and
-- the bits of the values that are declared. An int8 is its bit pattern, below 256.
pub mod Laws
use clickhouse_go.Common.{
  ℕ, suc, ◌-◌, ◌/◌, ◌%◌, Bool, true, false, ◌&&◌, ◌||◌, List, [], ◌∷◌, ◌++◌, Option, none, some,
  ◌==◌, if◌then◌else◌, length, get_elem?,
}
use clickhouse_go.Common.Bytes.{Bytes, same_bytes}
use clickhouse_go.QueryParameters.{ℤ, pos, negsuc}
use clickhouse_go.Column.Enum.{
  EnumType, enum8, enum16, Extracted, valid, invalid, panicked, extract_enum_named_values,
}

-- int8(z), of an int of 64 bits
abbrev pub to_int8 : ℤ → ℕ
to_int8 (pos n) = n % 256
to_int8 (negsuc n) = 255 - n % 256

-- The newest entry of `iv` and of `vi` stands first. `bits` is enumValuesBitset by word and bit.
pub record Enum8 : Type 0 where
  pub iv : List (Bytes × ℕ)
  pub vi : List (ℕ × Bytes)
  pub bits : ℕ → ℕ → Bool
  pub col : List ℕ

-- The kinds of values that AppendRow tells apart; a pointer that is not nil is what it points to.
-- `valuer_error` is a Valuer that answers an error.
pub data Value : Type 0 where
  int8 : ℤ → Value
  int : ℤ → Value
  string : Bytes → Value
  nil : Value
  nil_int8 : Value
  nil_pointer : Value
  valuer : Value → Value
  valuer_error : Value
  stringer : Bytes → Value
  other : Value

pub data Appended : Type 0 where
  appended : Enum8 → Appended
  unknown_element : Appended
  converter_error : Appended
  nil_dereference : Appended

abbrev pub empty_enum : Enum8
empty_enum = record { iv = []; vi = []; bits = λ word bit. false; col = [] }

-- A round of the loop over the values in Enum.
unfoldable pub declare : Enum8 → Bytes → ℤ → Enum8
declare e name index =
    let v = to_int8 index in
    record e {
      iv = (name, v) ∷ e.iv;
      vi = (v, name) ∷ e.vi;
      bits = λ word bit. (word == v / 64 && bit == v % 64) || e.bits word bit;
    }

unfoldable pub enum8_of : Enum8 → List (Bytes × ℤ) → Enum8
unfolding declare
enum8_of e [] = e
enum8_of e ((name, index) ∷ rest) = enum8_of (declare e name index) rest

-- What Enum makes of a type; the column of an Enum16 is given by its values.
pub data Made : Type 0 where
  made8 : Enum8 → Made
  made16 : List (Bytes × ℤ) → Made
  invalid_enum : Made
  slice_panic : Made

unfoldable pub made_of : Extracted → Made
unfolding enum8_of
made_of invalid = invalid_enum
made_of panicked = slice_panic
made_of (valid (some enum8) ps) = made8 (enum8_of empty_enum ps)
made_of (valid (some enum16) ps) = made16 ps
made_of (valid none ps) = made16 ps

unfoldable pub enum : (Bytes → Option ℤ) → Bytes → Made
unfolding made_of
enum atoi ch_type = made_of (extract_enum_named_values atoi ch_type)

abbrev pub value_of : Bytes → List (Bytes × ℕ) → Option ℕ
value_of name [] = none
value_of name ((n, v) ∷ rest) = if same_bytes name n then some v else value_of name rest

-- A value without a name is the empty string.
abbrev pub name_of : ℕ → List (ℕ × Bytes) → Bytes
name_of v [] = []
name_of v ((w, name) ∷ rest) = if v == w then name else name_of v rest

abbrev pub append_value : Enum8 → ℕ → Appended
append_value e v = appended (record e { col = e.col ++ v ∷ [] })

abbrev pub append_known : Enum8 → Option ℕ → Appended
append_known e none = unknown_element
append_known e (some v) = append_value e v

unfoldable pub append_int : Enum8 → ℤ → Appended
append_int e z =
    let v = to_int8 z in if e.bits (v / 64) (v % 64) then append_value e v else unknown_element

unfoldable pub append_row : Value → Enum8 → Appended
unfolding append_int
append_row (int8 z) e = append_int e z
append_row (int z) e = append_int e z
append_row (string s) e = append_known e (value_of s e.iv)
append_row nil e = append_value e 0
append_row nil_int8 e = nil_dereference
append_row nil_pointer e = append_value e 0
append_row (valuer v) e = append_row v e
append_row valuer_error e = converter_error
append_row (stringer s) e = append_known e (value_of s e.iv)
append_row other e = converter_error

abbrev pub named : Enum8 → Option ℕ → Option Bytes
named e none = none
named e (some v) = some (name_of v e.vi)

-- Row, with `none` out of range.
unfoldable pub row : Enum8 → ℕ → Option Bytes
row e i = named e (get_elem? e.col i)

unfoldable pub reset : Enum8 → Enum8
reset e = record e { col = [] }
