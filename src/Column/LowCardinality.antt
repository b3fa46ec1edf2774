-- ===== src/Column/LowCardinality.antt =====
-- lib/column/lowcardinality.go: a column as a dictionary and keys into it. A value is of any type
-- `A`; the dictionary, which is a column of another kind, is the list of its values, so a message
-- carries that list where its encoding is written. The four columns of keys are lists of numbers.
pub mod Good
pub mod Kept
pub mod Encoding
pub mod RoundTrip
mod Tests
use clickhouse_go.Common.{
  ℕ, zero, suc, ◌+◌, ◌-◌, ◌*◌, ◌/◌, ◌%◌, ◌^◌, Bool, true, false, not, ◌&&◌, ◌||◌, List, [], ◌∷◌,
  ◌++◌, Option, none, some, ◌⊎◌, inl, inr, ltb, leb, ◌==◌, if◌then◌else◌, length, get_elem?,
}
use mathlib.Core.List.{map}

pub record LowCardinality (A : Type 0) : Type 0 where
  pub key : ℕ
  pub rows : ℕ
  pub index : List A
  pub nullable : Bool
  pub keys8 : List ℕ
  pub keys16 : List ℕ
  pub keys32 : List ℕ
  pub keys64 : List ℕ
  pub append_keys : List ℕ
  pub append_index : List (A × ℕ)

-- What Encode writes, in order.
pub record Message (A : Type 0) : Type 0 where
  pub index_serialization_type : ℕ
  pub index_rows : ℕ
  pub index : List A
  pub keys_rows : ℕ
  pub keys : List ℕ

pub data DecodeError : Type 0 where
  invalid_index_version : DecodeError
  global_dictionary : DecodeError
  no_additional_keys : DecodeError

unfoldable pub new_column : {A : Type 0} → (nullable : Bool) → LowCardinality A
new_column nullable = record {
  key = 0;
  rows = 0;
  index = [];
  nullable = nullable;
  keys8 = [];
  keys16 = [];
  keys32 = [];
  keys64 = [];
  append_keys = [];
  append_index = [];
}

-- The keys cut to the width of the type that Encode takes by the size of the map.
abbrev pub cut : ℕ → List ℕ → List ℕ
cut bits keys = map (λ k. k % 2 ^ bits) keys

module _ {A : Type 0} where
  -- Reset, which leaves the kind of keys.
  unfoldable pub reset : LowCardinality A → LowCardinality A
  reset c = record c {
    rows = 0;
    index = [];
    keys8 = [];
    keys16 = [];
    keys32 = [];
    keys64 = [];
    append_keys = [];
    append_index = [];
  }

  -- keys()
  unfoldable pub keys_of : LowCardinality A → List ℕ
  keys_of c =
      if c.key == 0
      then c.keys8
      else if c.key == 1
      then c.keys16
      else if c.key == 2
      then c.keys32
      else c.keys64

  -- The cases of Encode's switch for new keys, by the size of the map.
  unfoldable pub fill_width : ℕ → LowCardinality A → LowCardinality A
  fill_width ix_len c =
      if ltb ix_len 255
      then record c { key = 0; keys8 = c.keys8 ++ cut 8 c.append_keys }
      else if ltb ix_len 65535
      then record c { key = 1; keys16 = c.keys16 ++ cut 16 c.append_keys }
      else if ltb ix_len 4294967295
      then record c { key = 2; keys32 = c.keys32 ++ cut 32 c.append_keys }
      else record c { key = 3; keys64 = c.keys64 ++ cut 64 c.append_keys }

  unfoldable pub fill_keys : LowCardinality A → LowCardinality A
  unfolding keys_of fill_width
  fill_keys c = if ltb 0 (length (keys_of c)) then c else fill_width (length c.append_index) c

  -- `updateAll | uint64(col.key)`, where updateAll is 1<<9 | 1<<10 and the key is below 4.
  abbrev pub written : LowCardinality A → Message A
  written c = record {
    index_serialization_type = 1536 + c.key;
    index_rows = length c.index;
    index = c.index;
    keys_rows = length (keys_of c);
    keys = keys_of c;
  }

  -- Encode: a column without rows writes nothing.
  unfoldable pub encode : LowCardinality A → Option (Message A) × LowCardinality A
  unfolding fill_keys
  encode c =
      if c.rows == 0
      then (none, c)
      else (let c' = fill_keys c in
          (some (written c'), record c' { append_keys = []; append_index = [] }))

  abbrev pub set_keys : LowCardinality A → ℕ → List ℕ → LowCardinality A
  set_keys c key keys =
      if key == 0
      then record c { keys8 = keys }
      else if key == 1
      then record c { keys16 = keys }
      else if key == 2
      then record c { keys32 = keys }
      else record c { keys64 = keys }

  -- Decode of a block with rows, into a column that holds no keys yet, from a message that can be read
  -- to its end.
  unfoldable pub decode : LowCardinality A → Message A → LowCardinality A ⊎ DecodeError
  decode c m =
      let ty = m.index_serialization_type in
      let key = ty % 256 in
      if ltb 3 key
      then inr invalid_index_version
      else if ty / 256 % 2 * 256 == 1
      then inr global_dictionary
      else if ty / 512 % 2 * 512 == 0
      then inr no_additional_keys
      else inl (set_keys (record c { key = key; index = m.index; rows = m.keys_rows }) key m.keys)

  unfoldable pub index_row_num : LowCardinality A → ℕ → Option ℕ
  unfolding keys_of
  index_row_num c i = get_elem? (keys_of c) i

  abbrev pub value_of : Option A → Option (Option A)
  value_of none = none
  value_of (some a) = some (some a)

  -- The value of a dictionary row, `none` where the row is out of range.
  abbrev pub row_at : LowCardinality A → Option ℕ → Option (Option A)
  row_at c none = none
  row_at c (some idx) =
      if idx == 0 && c.nullable then some none else value_of (get_elem? c.index idx)

  -- Row: `some none` is nil.
  unfoldable pub row : LowCardinality A → ℕ → Option (Option A)
  unfolding index_row_num
  row c i = row_at c (index_row_num c i)

-- `same` is the equality of map keys, `default` what AppendRow(nil) puts into the dictionary,
-- `accepts` whether the dictionary takes a value, and `normal` the truncation of a time.
module _ {A : Type 0} (same : A → A → Bool) (default : A) (accepts : A → Bool)
    (normal : A → A) where
  abbrev pub find : A → List (A × ℕ) → Option ℕ
  find a [] = none
  find a ((b, k) ∷ es) = if same a b then some k else find a es

  -- The dictionary behind `if col.index.Rows() == 0 { … }`.
  abbrev pub init_index : (nullable : Bool) → List A → List A
  init_index nullable index =
      if length index == 0 then if nullable then default ∷ default ∷ [] else default ∷ [] else index

  -- The value of a map read, 0 for a key that it does not have.
  abbrev pub read_key : Option ℕ → ℕ
  read_key none = 0
  read_key (some k) = k

  -- The value behind `found`; the second component says that AppendRow failed. The key of a new value
  -- is read from the map again, which does not have it if it is not the same as itself.
  unfoldable pub append_value : LowCardinality A → A → Option ℕ → LowCardinality A × Bool
  append_value c a (some k) = (record c { append_keys = c.append_keys ++ k ∷ [] }, false)
  append_value c a none =
      if accepts a
      then (let new_index = (a, length c.index) ∷ c.append_index in
          (
            record c {
              index = c.index ++ a ∷ [];
              append_index = new_index;
              append_keys = c.append_keys ++ read_key (find a new_index) ∷ [];
            },
            false,
          ))
      else (c, true)

  unfoldable pub append_row : LowCardinality A → Option A → LowCardinality A × Bool
  unfolding append_value
  append_row c none =
      let c1 : LowCardinality A = record c {
        rows = c.rows + 1;
        index = init_index c.nullable c.index;
      } in
      (record c1 { append_keys = c1.append_keys ++ 0 ∷ [] }, false)
  append_row c (some v) =
      let c1 : LowCardinality A = record c {
        rows = c.rows + 1;
        index = init_index c.nullable c.index;
      } in
      append_value c1 (normal v) (find (normal v) c1.append_index)

  -- Append: the rows up to the first that fails.
  unfoldable pub append : LowCardinality A → List (Option A) → LowCardinality A × Bool
  unfolding append_row
  append c [] = (c, false)
  append c (v ∷ vs) =
      let (c', failed) = append_row c v in
      let rest = append c' vs in if failed then (c', true) else rest
