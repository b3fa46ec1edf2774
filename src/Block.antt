-- ===== src/Block.antt =====
-- lib/proto/block.go: a block of columns, and its bytes on the wire. The columns of lib/column are
-- behind the interface `ColumnOps`, and the buffer and the reader of the ch-go library are behind
-- `Wire`. Decode's block is made by readData, which drops it on an error, so a failed Decode gives
-- the error alone; the memory that `make` takes for the columns is not bounded.
pub mod Append
pub mod Header
pub mod Sort
pub mod Reads
pub mod RoundTrip
pub mod Send
mod Tests
use clickhouse_go.Common.{
  ℕ, zero, suc, ◌+◌, ◌<◌, Bool, true, false, not, List, [], ◌∷◌, ◌++◌, Option, none, some, ◌⊎◌, inl,
  inr, ltb, leb, ◌==◌, if◌then◌else◌, length, get_elem?, set, keep_if, ◌≡◌,
}
use mathlib.Core.List.{map}
pub use clickhouse_go.Common.Bytes.{Bytes, same_bytes}

-- What a reader gives: a value and the input behind it, or an error.
pub data Read (E A : Type 0) : Type 0 where
  done : A → Bytes → Read E A
  failed : E → Read E A

abbrev pub Reader : Type 0 → Type 0 → Type 0
Reader E A = Bytes → Read E A

unfoldable pub continue : {E A B : Type 0} → Read E A → (A → Reader E B) → Read E B
continue (done a rest) f = f a rest
continue (failed e) f = failed e

infixl 5 ◌>>=◌ ◌>>◌
unfoldable pub ◌>>=◌ : {E A B : Type 0} → Reader E A → (A → Reader E B) → Reader E B
unfolding continue
◌>>=◌ m f input = continue (m input) f

abbrev pub ◌>>◌ : {E A B : Type 0} → Reader E A → Reader E B → Reader E B
m >> k = m >>= λ _. k

unfoldable pub give : {E A : Type 0} → A → Reader E A
give a input = done a input

unfoldable pub fail : {E A : Type 0} → E → Reader E A
fail e input = failed e

abbrev pub guard : {E : Type 0} → Bool → E → Reader E (Unit {0})
guard true e = give tt
guard false e = fail e

unfoldable pub wrapped : {E F A : Type 0} → (E → F) → Read E A → Read F A
wrapped f (done a rest) = done a rest
wrapped f (failed e) = failed (f e)

unfoldable pub wrap : {E F A : Type 0} → (E → F) → Reader E A → Reader F A
unfolding wrapped
wrap f m input = wrapped f (m input)

-- proto.Buffer and proto.Reader of ch-go; a 32-bit integer is its bit pattern.
pub record Wire (E : Type 0) : Type 0 where
  pub put_uvarint : ℕ → Bytes
  pub put_bool : Bool → Bytes
  pub put_int32 : ℕ → Bytes
  pub put_string : Bytes → Bytes
  pub read_uvarint : Reader E ℕ
  pub read_bool : Reader E Bool
  pub read_int32 : Reader E ℕ
  pub read_string : Reader E Bytes

-- column.Interface with CustomSerialization, as far as a block uses them. `make` is Type.Column;
-- Encode may change the column that it writes.
pub record ColumnOps (Col V E : Type 0) : Type 0 where
  pub make : Bytes → Bytes → Col ⊎ E
  pub name_of : Col → Bytes
  pub type_of : Col → Bytes
  pub rows : Col → ℕ
  pub append_row : V → Col → Col × Option E
  pub is_custom : Col → Bool
  pub write_state_prefix : Col → Bytes × Option E
  pub read_state_prefix : Col → Reader E Col
  pub encode : Col → Bytes × Col
  pub decode : ℕ → Col → Reader E Col
  pub reset : Col → Col

pub data BlockError (E : Type 0) : Type 0 where
  argument_count : (expected got : ℕ) → BlockError E
  append_row_failed : E → (column_name : Bytes) → BlockError E
  order_length : (expected got : ℕ) → BlockError E
  order_missing : List Bytes → BlockError E
  mismatched_rows : (expected received : ℕ) → (column_name : Bytes) → BlockError E
  out_of_range : (i columns : ℕ) → BlockError E
  state_prefix_failed : E → (column_name : Bytes) → BlockError E
  too_many_rows : BlockError E
  custom_serialization : (column_name : Bytes) → BlockError E
  decode_failed : E → (column_name : Bytes) → BlockError E
  read_failed : E → BlockError E
  no_such_column : E → BlockError E

pub record Block (Col : Type 0) : Type 0 where
  pub names : List Bytes
  pub columns : List Col

unfoldable pub new_block : {Col : Type 0} → Block Col
new_block = record { names = []; columns = [] }

-- The names are keys of a Go map.
abbrev pub has_name : Bytes → List Bytes → Bool
has_name x [] = false
has_name x (y ∷ ys) = if same_bytes x y then true else has_name x ys

-- The names of `a` that `b` has not.
unfoldable pub difference : List Bytes → List Bytes → List Bytes
difference a b = keep_if (λ x. not (has_name x b)) a

-- `for i, col := range columns { lookup[col] = i }` read at a name: the last index, or 0.
unfoldable pub lookup_from : ℕ → ℕ → List Bytes → Bytes → ℕ
lookup_from found i [] x = found
lookup_from found i (y ∷ ys) x = lookup_from (if same_bytes x y then i else found) (suc i) ys x

abbrev pub lookup : List Bytes → Bytes → ℕ
lookup columns x = lookup_from 0 0 columns x

module _ {Col V E : Type 0} (ops : ColumnOps Col V E) where
  -- Rows
  unfoldable pub rows_of : List Col → ℕ
  rows_of [] = 0
  rows_of (c ∷ cs) = ops.rows c

  -- Every column has `n` rows.
  abbrev pub AllRows : ℕ → List Col → Type 0
  AllRows n [] = Unit {0}
  AllRows n (c ∷ cs) = (ops.rows c ≡ n) × AllRows n cs

  abbrev pub added : Block Col → Bytes → Col ⊎ E → Block Col × Option E
  added b name (inl col) =
      (record { names = b.names ++ name ∷ []; columns = b.columns ++ col ∷ [] }, none)
  added b name (inr e) = (b, some e)

  unfoldable pub add_column : Block Col → Bytes → Bytes → Block Col × Option E
  add_column b name ct = added b name (ops.make name ct)

  abbrev pub appended :
      Bytes
      → Col × Option E
      → List Col
      → List Col × Option (BlockError E)
      → List Col × Option (BlockError E)
  appended name (c', some e) cs rest = (c' ∷ cs, some (append_row_failed e name))
  appended name (c', none) cs rest = (c' ∷ rest.0, rest.1)

  -- The loop of Append, over lists of one length.
  unfoldable pub append_rows : List Col → List V → List Col × Option (BlockError E)
  append_rows [] vs = ([], none)
  append_rows (c ∷ cs) [] = (c ∷ cs, none)
  append_rows (c ∷ cs) (v ∷ vs) =
      appended (ops.name_of c) (ops.append_row v c) cs (append_rows cs vs)

  unfoldable pub append : Block Col → List V → Block Col × Option (BlockError E)
  unfolding append_rows
  append b vs =
      if length b.columns == length vs
      then (let r = append_rows b.columns vs in (record b { columns = r.0 }, r.1))
      else (b, some (argument_count (length b.columns) (length vs)))

  -- The parameter is sort.Slice with the order of the ranks.
  unfoldable pub sort_columns :
      ((A : Type 0) → (A → ℕ) → List A → List A)
      → Block Col
      → List Bytes
      → Block Col × Option (BlockError E)
  unfolding difference lookup_from
  sort_columns sort_slice b columns =
      if length columns == 0
      then (b, none)
      else if not (length columns == length b.columns)
      then (b, some (order_length (length b.columns) (length columns)))
      else if ltb 0 (length (difference b.names columns))
      then (b, some (order_missing (difference b.names columns)))
      else (
        record {
          names = sort_slice Bytes (lookup columns) b.names;
          columns = sort_slice Col (λ c. lookup columns (ops.name_of c)) b.columns;
        },
        none,
      )

  unfoldable pub reset : Block Col → Block Col
  reset b = record b { columns = map ops.reset b.columns }
