-- ===== src/Column/LowCardinality/Tests.antt =====
-- lib/column/lowcardinality.go at small inputs.
use clickhouse_go.Common.{
  ℕ, ◌+◌, Bool, true, false, List, [], ◌∷◌, Option, none, some, ◌≡◌, refl, arith, ◌==◌, ==_iff,
  length, get_elem?, inl,
}
use clickhouse_go.Column.LowCardinality.{
  LowCardinality, Message, new_column, reset, append, append_row, append_value, encode, fill_keys,
  fill_width, keys_of, decode, row,
}
use clickhouse_go.Column.LowCardinality.RoundTrip.{shown, append-encode-decode}

abbrev same : ℕ → ℕ → Bool
same a b = a == b

same-sound : (a b : ℕ) → same a b ≡ true → a ≡ b
same-sound a b h = (==_iff a b).0 h

abbrev takes_all : ℕ → Bool
takes_all a = true

abbrev itself : ℕ → ℕ
itself a = a

abbrev values : List (Option ℕ)
values = some 7 ∷ none ∷ some 9 ∷ some 7 ∷ []

-- A column that was used before.
abbrev column : LowCardinality ℕ
column = record {
  key = 1;
  rows = 1;
  index = 0 ∷ 0 ∷ 4 ∷ [];
  nullable = true;
  keys8 = [];
  keys16 = 2 ∷ [];
  keys32 = [];
  keys64 = [];
  append_keys = [];
  append_index = [];
}

abbrev message : Message ℕ
message = record {
  index_serialization_type = 1536;
  index_rows = 4;
  index = 0 ∷ 0 ∷ 7 ∷ 9 ∷ [];
  keys_rows = 4;
  keys = 2 ∷ 0 ∷ 3 ∷ 2 ∷ [];
}

encoded : (encode (append same 0 takes_all itself (new_column true) values).0).0 ≡ some message
unfolding encode append append_row append_value new_column fill_keys fill_width keys_of
encoded = refl

-- A message that asks for a global dictionary is not refused: the test compares a bit of weight 256
-- with 1.
global_dictionary_taken :
    (d : LowCardinality ℕ) × (decode
        (new_column true)
        (record message { index_serialization_type = 1536 + 256 })
      ≡ inl d)
unfolding decode new_column
global_dictionary_taken = (_, refl)

-- A value that is not the same as itself, as a NaN is, gets the key 0: Row answers nil for it.
abbrev never_same : ℕ → ℕ → Bool
never_same a b = false

nan_is_nil :
    let c = (append never_same 0 takes_all itself (new_column true) (some 7 ∷ [])).0 in
    (c.append_keys ≡ 0 ∷ []) × (c.index ≡ 0 ∷ 0 ∷ 7 ∷ [])
unfolding append append_row append_value new_column
nan_is_nil = (refl, refl)

roundtrip_example :
    let r = append same 0 takes_all itself (reset column) values in
    (r.1 ≡ false)
    × (m : Message ℕ) × (d : LowCardinality ℕ) × ((encode r.0).0 ≡ some m)
    × (decode (reset column) m ≡ inl d)
    × (d.rows ≡ length values)
    × ((i : ℕ) (v : Option ℕ)
        → get_elem? values i ≡ some v
        → row d i ≡ some (shown same 0 takes_all itself same-sound column.nullable v))
roundtrip_example =
    append-encode-decode same 0 takes_all itself same-sound column column values refl
      ((refl, refl), ((refl, refl), ((refl, refl), tt))) (omega arith) (omega arith)
