-- ===== src/Column/Nullable.antt =====
-- lib/column/nullable.go: a column with a byte for each row that says whether it is null. What the
-- reflection on a value finds, whether it is nil or a Valuer of nil, or a Valuer with an error, is a
-- parameter.
pub mod Laws
mod Tests
use clickhouse_go.Common.{
  ℕ, suc, Bool, true, false, List, [], ◌∷◌, ◌++◌, Option, none, some, ◌⊎◌, inl, inr, ◌==◌,
  if◌then◌else◌, length, get_elem?,
}
use clickhouse_go.Block.{Bytes, Reader, ◌>>=◌, give, ColumnOps}

pub record Nullable (Col : Type 0) : Type 0 where
  pub base : Col
  pub nulls : List ℕ
  pub enable : Bool

module _ {Col V E : Type 0} (ops : ColumnOps Col V E) where
  unfoldable pub rows : Nullable Col → ℕ
  rows c = if c.enable then length c.nulls else ops.rows c.base

  abbrev pub with_base : Nullable Col → Col × Option E → Nullable Col × Option E
  with_base c (b, e) = (record c { base = b }, e)

  abbrev pub append_null : V → Nullable Col → Bool ⊎ E → Nullable Col × Option E
  append_null v c (inr e) = (c, some e)
  append_null v c (inl is_null) =
      with_base (record c { nulls = c.nulls ++ (if is_null then 1 else 0) ∷ [] })
        (ops.append_row v c.base)

  -- AppendRow: the base gets the value in any case.
  unfoldable pub append_row : (V → Bool ⊎ E) → V → Nullable Col → Nullable Col × Option E
  append_row nullness v c = append_null v c (nullness v)

  abbrev pub then_rows :
      Nullable Col × Option E → (Nullable Col → Nullable Col × Option E) → Nullable Col × Option E
  then_rows (c, some e) f = (c, some e)
  then_rows (c, none) f = f c

  -- AppendRow of each value, up to the first error.
  unfoldable pub append_rows : (V → Bool ⊎ E) → List V → Nullable Col → Nullable Col × Option E
  unfolding append_row
  append_rows nullness [] c = (c, none)
  append_rows nullness (v ∷ vs) c = then_rows (append_row nullness v c) (append_rows nullness vs)

  unfoldable pub encode : (List ℕ → Bytes) → Nullable Col → Bytes
  encode put c = (if c.enable then put c.nulls else []) ++ (ops.encode c.base).0

  unfoldable pub decode : (ℕ → Reader E (List ℕ)) → ℕ → Nullable Col → Reader E (Nullable Col)
  decode read n c = (if c.enable then read n else give c.nulls) >>= λ nulls.
      ops.decode n c.base >>= λ b. give (record c { base = b; nulls = nulls })

  unfoldable pub reset : Nullable Col → Nullable Col
  reset c = record c { base = ops.reset c.base; nulls = [] }

abbrev pub present : {X : Type 0} → Option X → Option (Option X)
present none = none
present (some x) = some (some x)

abbrev pub row_by : {X : Type 0} → Option ℕ → Option X → Option (Option X)
row_by none value = none
row_by (some null) value = if null == 1 then some none else present value

-- Row: `some none` is nil, and `none` a read out of range. `value` is the base's Row.
unfoldable pub row : {Col X : Type 0} → (Col → ℕ → Option X) → Nullable Col → ℕ → Option (Option X)
row value c i =
    if c.enable then row_by (get_elem? c.nulls i) (value c.base i) else present (value c.base i)
