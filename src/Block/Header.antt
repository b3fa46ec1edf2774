-- ===== src/Block/Header.antt =====
-- Block.EncodeHeader, EncodeColumn, Encode and Decode of lib/proto/block.go.
pub mod Loop
use clickhouse_go.Common.{
  ℕ, zero, suc, ◌+◌, Bool, true, false, not, List, [], ◌∷◌, ◌++◌, Option, none, some, ◌⊎◌, inl, inr,
  ltb, leb, ◌==◌, if◌then◌else◌, length, get_elem?, set,
}
use clickhouse_go.Block.{
  Bytes, Read, Reader, ◌>>=◌, ◌>>◌, give, fail, guard, wrap, Wire, ColumnOps, Block, BlockError,
  read_failed, mismatched_rows, out_of_range, state_prefix_failed, too_many_rows,
  custom_serialization, decode_failed, no_such_column, rows_of,
}

-- What a writer gives: the bytes that it put, what became of the block, and its error.
abbrev pub Written : Type 0 → Type 0 → Type 0
Written Col E = Bytes × Block Col × Option (BlockError E)

-- DBMS_MIN_REVISION_WITH_CUSTOM_SERIALIZATION
abbrev pub revision_with_custom_serialization : ℕ
revision_with_custom_serialization = 54454

module _ {Col V E : Type 0} (w : Wire E) (ops : ColumnOps Col V E) where
  -- The Int32 is -1.
  abbrev pub encode_block_info : Bytes
  encode_block_info =
      w.put_uvarint 1
      ++ (w.put_bool false ++ (w.put_uvarint 2 ++ (w.put_int32 4294967295 ++ w.put_uvarint 0)))

  abbrev pub decode_block_info : Reader (BlockError E) (Unit {0})
  decode_block_info =
      wrap read_failed w.read_uvarint
      >> (wrap read_failed w.read_bool
          >> (wrap read_failed w.read_uvarint
              >> (wrap read_failed w.read_int32 >> (wrap read_failed w.read_uvarint >> give tt))))

  -- The first column with another number of rows.
  unfoldable pub mismatched : ℕ → List Col → Option (BlockError E)
  mismatched rows [] = none
  mismatched rows (c ∷ cs) =
      if rows == ops.rows c
      then mismatched rows cs
      else some (mismatched_rows rows (ops.rows c) (ops.name_of c))

  abbrev pub info : ℕ → Bytes
  info revision = if ltb 0 revision then encode_block_info else []

  abbrev pub counted : ℕ → List Col → Option (BlockError E) → Bytes × Option (BlockError E)
  counted revision cs (some e) = (info revision, some e)
  counted revision cs none =
      (info revision ++ (w.put_uvarint (length cs) ++ w.put_uvarint (rows_of ops cs)), none)

  unfoldable pub encode_header : ℕ → List Col → Bytes × Option (BlockError E)
  unfolding mismatched
  encode_header revision [] = counted revision [] none
  encode_header revision (c ∷ cs) = counted revision (c ∷ cs) (mismatched (ops.rows c) cs)

  abbrev pub serialization : ℕ → Bytes
  serialization revision =
      if leb revision_with_custom_serialization revision then w.put_bool false else []

  abbrev pub state_prefix : Col → Bytes × Option E
  state_prefix c = if ops.is_custom c then ops.write_state_prefix c else ([], none)

  -- A column that EncodeColumn writes: its bytes, the column behind Encode, the error.
  abbrev pub encoded : Col → Bytes → Bytes × Option E → Bytes × Col × Option (BlockError E)
  encoded c front (prefix, some e) =
      (front ++ prefix, c, some (state_prefix_failed e (ops.name_of c)))
  encoded c front (prefix, none) = (front ++ (prefix ++ (ops.encode c).0), (ops.encode c).1, none)

  abbrev pub front_of : ℕ → Col → Bytes
  front_of revision c =
      w.put_string (ops.name_of c) ++ (w.put_string (ops.type_of c) ++ serialization revision)

  unfoldable pub encode_one : ℕ → Col → Bytes × Col × Option (BlockError E)
  encode_one revision c = encoded c (front_of revision c) (state_prefix c)

  abbrev pub put_back : Block Col → ℕ → Bytes × Col × Option (BlockError E) → Written Col E
  put_back b i (bytes, c, e) = (bytes, record b { columns = set b.columns i c }, e)

  abbrev pub encode_at : ℕ → Block Col → ℕ → Option Col → Written Col E
  encode_at revision b i none = ([], b, some (out_of_range i (length b.columns)))
  encode_at revision b i (some c) = put_back b i (encode_one revision c)

  -- EncodeColumn of an index that is not negative, as those of its callers.
  unfoldable pub encode_column : ℕ → Block Col → ℕ → Written Col E
  unfolding encode_one
  encode_column revision b i = encode_at revision b i (get_elem? b.columns i)

  abbrev pub behind : Written Col E → (Block Col → Written Col E) → Written Col E
  behind (bytes, b, some e) next = (bytes, b, some e)
  behind (bytes, b, none) next = let r = next b in (bytes ++ r.0, r.1, r.2)

  -- The loop of Encode: `n` columns from the index `i`.
  unfoldable pub encode_columns : ℕ → ℕ → ℕ → Block Col → Written Col E
  unfolding encode_column
  encode_columns revision zero i b = ([], b, none)
  encode_columns revision (suc n) i b =
      behind (encode_column revision b i) (encode_columns revision n (suc i))

  abbrev pub headed : Block Col → Bytes × Option (BlockError E) → Written Col E
  headed b (bytes, e) = (bytes, b, e)

  unfoldable pub encode : ℕ → Block Col → Written Col E
  unfolding encode_header encode_columns
  encode revision b =
      behind (headed b (encode_header revision b.columns))
        (encode_columns revision (length b.columns) 0)

  abbrev pub made : Col ⊎ E → Reader (BlockError E) Col
  made (inl c) = give c
  made (inr e) = fail (no_such_column e)

  abbrev pub read_serialization : ℕ → Bytes → Reader (BlockError E) (Unit {0})
  read_serialization revision name =
      if leb revision_with_custom_serialization revision
      then (wrap read_failed w.read_bool >>= λ custom.
          guard (not custom) (custom_serialization name))
      else give tt

  abbrev pub read_prefix : Bytes → Col → Reader (BlockError E) Col
  read_prefix name c =
      if ops.is_custom c then wrap (λ e. decode_failed e name) (ops.read_state_prefix c) else give c

  abbrev pub read_rows : ℕ → Bytes → Col → Reader (BlockError E) Col
  read_rows num_rows name c =
      if num_rows == 0
      then give c
      else (read_prefix name c >>= λ c'. wrap (λ e. decode_failed e name) (ops.decode num_rows c'))

  -- One round of Decode's loop.
  unfoldable pub decode_column : ℕ → ℕ → Reader (BlockError E) (Bytes × Col)
  decode_column revision num_rows = do
    name ← wrap read_failed w.read_string
    ty ← wrap read_failed w.read_string
    c ← made (ops.make name ty)
    read_serialization revision name
    c' ← read_rows num_rows name c
    give (name, c')

  unfoldable pub decode_columns : ℕ → ℕ → ℕ → Reader (BlockError E) (List (Bytes × Col))
  unfolding decode_column
  decode_columns revision num_rows zero = give []
  decode_columns revision num_rows (suc n) = do
    c ← decode_column revision num_rows
    cs ← decode_columns revision num_rows n
    give (c ∷ cs)

  abbrev pub assembled : List (Bytes × Col) → Block Col
  assembled [] = record { names = []; columns = [] }
  assembled ((name, c) ∷ rest) = record {
    names = name ∷ (assembled rest).names;
    columns = c ∷ (assembled rest).columns;
  }

  unfoldable pub decode : ℕ → Reader (BlockError E) (Block Col)
  unfolding decode_columns
  decode revision = do
    if ltb 0 revision then decode_block_info else give tt
    num_cols ← wrap read_failed w.read_uvarint
    num_rows ← wrap read_failed w.read_uvarint
    guard (leb num_rows 1000000000) too_many_rows
    cs ← decode_columns revision num_rows num_cols
    give (assembled cs)
