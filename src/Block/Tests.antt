-- ===== src/Block/Tests.antt =====
-- lib/proto/block.go and sendData of conn.go on concrete columns of small numbers, over a wire whose
-- bytes are numbers. A column of the type 1 writes the state prefix 9.
mod Sorting
mod Sending
use clickhouse_go.Common.{
  ℕ, zero, suc, ◌+◌, Bool, true, false, List, [], ◌∷◌, ◌++◌, Option, none, some, inl, inr, ltb, leb,
  if◌then◌else◌, length, ◌≡◌, refl, sym, ap, ◌∙◌, arith,
}
use mathlib.Core.List.{map}
use clickhouse_go.Block.{
  Bytes, Read, Reader, done, failed, Wire, ColumnOps, Block, BlockError, AllRows, same_bytes,
  append, append_rows, append_row_failed, rows_of, new_block, add_column, reset, continue, ◌>>=◌,
  give, fail, wrap, wrapped, too_many_rows,
}
use clickhouse_go.Block.Header.{
  encode, encode_one, encode_header, encode_column, encode_columns, decode, decode_column,
  decode_columns, mismatched,
}
use clickhouse_go.Block.Append.{Stopped}
use clickhouse_go.Block.Reads.{Reads}
use clickhouse_go.Block.RoundTrip.{WireLaws, Restores, AllRestore, decode-encode}

abbrev pub number : Reader ℕ ℕ
number [] = failed 1
number (n ∷ rest) = done n rest

abbrev pub bit : Bytes → Read ℕ Bool
bit [] = failed 1
bit (n ∷ rest) = done (ltb 0 n) rest

abbrev pub cons_read : ℕ → Read ℕ Bytes → Read ℕ Bytes
cons_read c (done s rest) = done (c ∷ s) rest
cons_read c (failed e) = failed e

abbrev pub some_bytes : ℕ → Reader ℕ Bytes
some_bytes zero input = done [] input
some_bytes (suc n) [] = failed 1
some_bytes (suc n) (c ∷ input) = cons_read c (some_bytes n input)

abbrev pub text : Bytes → Read ℕ Bytes
text [] = failed 1
text (n ∷ rest) = some_bytes n rest

abbrev pub wire : Wire ℕ
wire = record {
  put_uvarint = λ n. n ∷ [];
  put_bool = λ b. (if b then 1 else 0) ∷ [];
  put_int32 = λ n. n ∷ [];
  put_string = λ s. length s ∷ s;
  read_uvarint = number;
  read_bool = bit;
  read_int32 = number;
  read_string = text;
}

some_bytes-length : (s rest : Bytes) → some_bytes (length s) (s ++ rest) ≡ done s rest
some_bytes-length [] rest = refl
some_bytes-length (c ∷ s) rest = ap (cons_read c) (some_bytes-length s rest)

bit_lem : (b : Bool) (rest : Bytes) → bit ((if b then 1 else 0) ∷ rest) ≡ done b rest
bit_lem true rest = refl
bit_lem false rest = refl

pub wire_laws : WireLaws wire
wire_laws = record {
  uvarint_lem = λ n h. record { apply = λ rest. refl };
  bool_lem = λ b. record { apply = bit_lem b };
  int32_lem = λ n h. record { apply = λ rest. refl };
  string_lem = λ s. record { apply = some_bytes-length s };
}

pub record Numbers : Type 0 where
  pub name : Bytes
  pub kind : Bytes
  pub values : List ℕ

abbrev pub with_values : Numbers → Read ℕ Bytes → Read ℕ Numbers
with_values c (done vs rest) = done (record c { values = c.values ++ vs }) rest
with_values c (failed e) = failed e

abbrev pub after_prefix : Numbers → Bytes → Read ℕ Numbers
after_prefix c [] = failed 1
after_prefix c (n ∷ rest) = done c rest

abbrev pub numbers : ColumnOps Numbers ℕ ℕ
numbers = record {
  make = λ name kind. inl (record { name = name; kind = kind; values = [] });
  name_of = λ c. c.name;
  type_of = λ c. c.kind;
  rows = λ c. length c.values;
  append_row = λ v c. if ltb v 256 then (record c { values = v ∷ c.values }, none) else (c, some v);
  is_custom = λ c. same_bytes c.kind (1 ∷ []);
  write_state_prefix = λ c. (9 ∷ [], none);
  read_state_prefix = after_prefix;
  encode = λ c. (c.values, c);
  decode = λ n c input. with_values c (some_bytes n input);
  reset = λ c. record c { values = [] };
}

abbrev pub ids : Numbers
ids = record { name = 105 ∷ []; kind = 0 ∷ []; values = 4 ∷ 7 ∷ [] }

abbrev pub tags : Numbers
tags = record { name = 116 ∷ []; kind = 1 ∷ []; values = 1 ∷ 1 ∷ [] }

abbrev pub two_columns : Block Numbers
two_columns = record { names = (105 ∷ []) ∷ (116 ∷ []) ∷ []; columns = ids ∷ tags ∷ [] }

abbrev pub three_columns : Block Numbers
three_columns = record {
  names = (105 ∷ []) ∷ (116 ∷ []) ∷ (105 ∷ []) ∷ [];
  columns = ids ∷ tags ∷ ids ∷ [];
}

-- 300 is no byte: the second column refuses it.
unfoldable pub stopped :
    let r = append numbers three_columns (5 ∷ 300 ∷ 6 ∷ []) in
    Stopped numbers 2 three_columns.columns r.0.columns r.1
unfolding append
stopped = record {
  old = ids ∷ [];
  before = record ids { values = 5 ∷ 4 ∷ 7 ∷ [] } ∷ [];
  refused = tags;
  after = ids ∷ [];
  value = 300;
  cause = 300;
  was_lem = refl;
  length_lem = refl;
  now_lem = refl;
  before_lem = (refl, tt);
  after_lem = (refl, tt);
  cause_lem = refl;
  error_lem = refl;
}

values_of : Numbers → List ℕ
values_of c = c.values

ids-Restores : Restores wire numbers (λ c. c.values) ids
ids-Restores = record {
  empty = record { name = 105 ∷ []; kind = 0 ∷ []; values = [] };
  primed = record { name = 105 ∷ []; kind = 0 ∷ []; values = [] };
  restored = ids;
  prefix = [];
  make_lem = refl;
  prefix_lem = refl;
  prime_lem = record { apply = λ rest. unfold give in refl };
  decode_lem = record { apply = λ rest. refl };
  content_lem = refl;
}

tags-Restores : Restores wire numbers (λ c. c.values) tags
tags-Restores = record {
  empty = record { name = 116 ∷ []; kind = 1 ∷ []; values = [] };
  primed = record { name = 116 ∷ []; kind = 1 ∷ []; values = [] };
  restored = tags;
  prefix = 9 ∷ [];
  make_lem = refl;
  prefix_lem = refl;
  prime_lem = record { apply = λ rest. refl };
  decode_lem = record { apply = λ rest. refl };
  content_lem = refl;
}

decode_encode_example :
    ((encode wire numbers 54454 two_columns).2 ≡ none)
    × (d : Block Numbers) × Reads
        (decode wire numbers 54454)
        (encode wire numbers 54454 two_columns).0
        d
    × (d.names ≡ (105 ∷ []) ∷ (116 ∷ []) ∷ [])
    × (map (λ (c : Numbers). c.values) d.columns ≡ (4 ∷ 7 ∷ []) ∷ (1 ∷ 1 ∷ []) ∷ [])
decode_encode_example =
    decode-encode wire_laws numbers (λ c. c.values) 54454 1 two_columns
      (ids-Restores, (tags-Restores, tt)) (refl, (refl, tt)) (omega arith) (omega arith)

encoded_bytes :
    (encode wire numbers 54454 two_columns).0
    ≡ 1 ∷ 0 ∷ 2 ∷ 4294967295 ∷ 0 ∷ 2 ∷ 2 ∷ 1 ∷ 105 ∷ 1 ∷ 0 ∷ 0 ∷ 4 ∷ 7 ∷ 1 ∷ 116 ∷ 1 ∷ 1 ∷ 0 ∷ 9 ∷ 1
      ∷ 1 ∷ []
unfolding encode encode_header encode_columns encode_column encode_one mismatched rows_of
encoded_bytes = refl

-- A block without rows: the state prefix that EncodeColumn writes is left unread by Decode.
abbrev no_rows : Block Numbers
no_rows = record {
  names = (116 ∷ []) ∷ [];
  columns = record { name = 116 ∷ []; kind = 1 ∷ []; values = [] } ∷ [];
}

prefix_left :
    decode wire numbers 54454 ((encode wire numbers 54454 no_rows).0 ++ 7 ∷ [])
    ≡ done no_rows (9 ∷ 7 ∷ [])
unfolding encode encode_header encode_columns encode_column encode_one mismatched rows_of decode
    decode_columns decode_column ◌>>=◌ give wrap fail
prefix_left = refl

too_many : decode wire numbers 0 (1 ∷ 1000000001 ∷ []) ≡ failed too_many_rows
unfolding decode decode_columns decode_column ◌>>=◌ give wrap fail
too_many = refl

added_column :
    (add_column numbers new_block (105 ∷ []) (0 ∷ [])).0
    ≡ record { names = (105 ∷ []) ∷ []; columns = record ids { values = [] } ∷ [] }
unfolding add_column new_block
added_column = refl

reset_rows : rows_of numbers (reset numbers two_columns).columns ≡ 0
unfolding reset rows_of
reset_rows = refl
