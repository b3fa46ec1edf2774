-- ===== src/Column/Array.antt =====
-- lib/column/array.go: a column of nested slices as one column of values and, for each level of
-- nesting, the ends of the slices of that level. The values are behind the interface of a block's
-- columns, with Row; the slices are of the depth of the column's type. The type's text, the choice of
-- the method by the slice's type, and the writing of a row to a destination are left out.
pub mod Append
pub mod Rows
pub mod RoundTrip
mod Tests
use clickhouse_go.Common.{
  ℕ, zero, suc, ◌+◌, ◌-◌, ◌%◌, ◌^◌, List, [], ◌∷◌, ◌++◌, Option, none, some, length, get_elem?, ltb,
  if◌then◌else◌,
}
use mathlib.Core.List.{map}
use clickhouse_go.Block.{Bytes, Reader, ◌>>=◌, give, ColumnOps}

-- A value of `d` levels of slices over `V`.
abbrev pub Nested : Type 0 → ℕ → Type 0
Nested V zero = V
Nested V (suc d) = List (Nested V d)

-- The offsets of `d` levels, the outermost first.
abbrev pub Offsets : ℕ → Type 0
Offsets zero = Unit {0}
Offsets (suc d) = List ℕ × Offsets d

abbrev pub no_offsets : (d : ℕ) → Offsets d
no_offsets zero = tt
no_offsets (suc d) = ([], no_offsets d)

abbrev pub last_or_0 : List ℕ → ℕ
last_or_0 [] = 0
last_or_0 (n ∷ []) = n
last_or_0 (n ∷ m ∷ ns) = last_or_0 (m ∷ ns)

-- appendOffset: a uint64 behind the last one.
unfoldable pub append_offset : List ℕ → ℕ → List ℕ
append_offset offsets n = offsets ++ ((n + last_or_0 offsets) % 2 ^ 64) ∷ []

module _ {Col V E : Type 0} (ops : ColumnOps Col V E) where
  -- The levels from one on, with the column of values, and the error of a step.
  abbrev pub State : ℕ → Type 0
  State d = Offsets d × Col

  abbrev pub then_next : {S : Type 0} → (S × Option E) → (S → S × Option E) → S × Option E
  then_next (s, some e) f = (s, some e)
  then_next (s, none) f = f s

  -- The loop over the elements of a slice.
  unfoldable pub append_each : {S A : Type 0} → (A → S → S × Option E) → List A → S → S × Option E
  append_each f [] s = (s, none)
  append_each f (x ∷ xs) s = then_next (f x s) (append_each f xs)

  abbrev pub under : (d : ℕ) → List ℕ → State d × Option E → State (suc d) × Option E
  under d offsets (s, e) = (((offsets, s.0), s.1), e)

  abbrev pub appended_value : Col × Option E → State zero × Option E
  appended_value (c, e) = ((tt, c), e)

  -- append from a level on.
  unfoldable pub append : (d : ℕ) → Nested V d → State d → State d × Option E
  unfolding append_each append_offset
  append zero v s = appended_value (ops.append_row v s.1)
  append (suc d) xs s =
      under d (append_offset s.0.0 (length xs)) (append_each (append d) xs (s.0.1, s.1))

  -- Encode: the offsets of each level, and the values.
  unfoldable pub encode : (List ℕ → Bytes) → (d : ℕ) → State d → Bytes
  encode put zero s = (ops.encode s.1).0
  encode put (suc d) s = put s.0.0 ++ encode put d (s.0.1, s.1)

  abbrev pub with_level : (d : ℕ) → List ℕ → State d → State (suc d)
  with_level d offsets s = ((offsets, s.0), s.1)

  -- Decode into the column `c` of values; the last offset is the number of rows of the next level.
  unfoldable pub decode : (ℕ → Reader E (List ℕ)) → (d : ℕ) → ℕ → Col → Reader E (State d)
  decode read zero rows c = ops.decode rows c >>= λ c'. give (tt, c')
  decode read (suc d) rows c = read rows >>= λ offsets.
      decode read d (last_or_0 offsets) c >>= λ s. give (with_level d offsets s)

-- The numbers from `n` on, `k` of them.
abbrev pub count_from : ℕ → ℕ → List ℕ
count_from n zero = []
count_from n (suc k) = n ∷ count_from (suc n) k

-- A read out of range, which panics, is `none`.
abbrev pub all_some : {A : Type 0} → List (Option A) → Option (List A)
all_some [] = some []
all_some (none ∷ os) = none
all_some (some a ∷ os) = elim (all_some os) [ none ↦ none | some rest ↦ some (a ∷ rest) ]

abbrev pub start_of : List ℕ → ℕ → Option ℕ
start_of offsets zero = some 0
start_of offsets (suc i) = get_elem? offsets i

-- A slice cannot be made with a negative length.
abbrev pub slice : {A : Type 0} → (ℕ → Option A) → Option ℕ → Option ℕ → Option (List A)
slice f none e = none
slice f (some b) none = none
slice f (some b) (some e) = if ltb e b then none else all_some (map f (count_from b (e - b)))

-- scanSlice from a level on; `value` is Row of the column of values.
unfoldable pub scan_slice :
    {X : Type 0} → (ℕ → Option X) → (d : ℕ) → Offsets d → ℕ → Option (Nested X d)
scan_slice value zero offsets i = value i
scan_slice value (suc d) offsets i =
    slice (scan_slice value d offsets.1) (start_of offsets.0 i) (get_elem? offsets.0 i)
