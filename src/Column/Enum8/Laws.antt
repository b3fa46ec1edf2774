-- ===== src/Column/Enum8/Laws.antt =====
-- What an Enum8 column of lib/column/enum8.go takes, and what it gives back.
use clickhouse_go.Common.{
  inl, inr, ◌⊎◌, Option-cases, ℕ, ◌/◌, ◌%◌, ◌<◌, Bool, true, false, ◌&&◌, ◌||◌, List, [], ◌∷◌, ◌++◌,
  Option, none, some, ◌==◌, ==_iff, if◌then◌else◌, length, get_elem?, get_elem?-append_middle, ◌≡◌,
  refl, sym, ap, ◌∙◌, arith, Bool-cases,
}
use clickhouse_go.Common.Bytes.{Bytes, same_bytes, same_bytes_iff}
use clickhouse_go.QueryParameters.{ℤ, pos, negsuc}
use mathlib.Core.List.{map}
use clickhouse_go.Column.Enum.{enum8}
use clickhouse_go.Column.Enum.Steps.{Item, AllFit, enum_text, pair_of}
use clickhouse_go.Column.Enum.Extract.{extract-enum_text}
use clickhouse_go.Column.Enum8.{
  int8, Enum8, to_int8, declare, enum8_of, empty_enum, value_of, name_of, append_row, made8,
  made_of, enum, int, string, appended, unknown_element, row, named, append_value, append_known,
}

to_int8_lt : (z : ℤ) → to_int8 z < 256
to_int8_lt (pos n) = omega arith
to_int8_lt (negsuc n) = omega arith

-- Some value is declared with the int8 `v`.
abbrev pub declared : ℕ → List (Bytes × ℤ) → Bool
declared v [] = false
declared v ((name, index) ∷ rest) = if v == to_int8 index then true else declared v rest

same_place : (v w : ℕ) → v < 256 → w < 256 → (v / 64 == w / 64 && v % 64 == w % 64) ≡ (v == w)
same_place v w h k = elim (Bool-cases (v == w)) [
  | inl same ↦ ground (arith, same)
  | inr differ ↦ ground (arith, differ)
]

enum8_of-bits :
    (ps : List (Bytes × ℤ)) (e : Enum8) (v : ℕ)
    → v < 256
    → (enum8_of e ps).bits (v / 64) (v % 64) ≡ declared v ps || e.bits (v / 64) (v % 64)
unfolding enum8_of
enum8_of-bits [] e v h = refl
enum8_of-bits ((name, index) ∷ rest) e v h =
    enum8_of-bits rest (declare e name index) v h
    ∙ ap (λ b. declared v rest || (b || e.bits (v / 64) (v % 64)))
        (same_place v (to_int8 index) h (to_int8_lt index))
    ∙ bring (declared v rest) (v == to_int8 index) (e.bits (v / 64) (v % 64))
  where
    bring : (a b c : Bool) → (a || (b || c)) ≡ ((if b then true else a) || c)
    bring true true c = refl
    bring true false c = refl
    bring false true c = refl
    bring false false c = refl

enum8_of-col : (ps : List (Bytes × ℤ)) (e : Enum8) → (enum8_of e ps).col ≡ e.col
unfolding enum8_of
enum8_of-col [] e = refl
enum8_of-col ((name, index) ∷ rest) e = enum8_of-col rest (declare e name index)

-- The column of a type with the values `ps`, holding `rows`.
abbrev pub column : List (Bytes × ℤ) → List ℕ → Enum8
column ps rows = enum8_of (record empty_enum { col = rows }) ps

or_false : (a : Bool) → (a || false) ≡ a
or_false true = refl
or_false false = refl

-- AppendRow of an int, and of an int8, takes it exactly if its low byte is that of a declared index,
-- and then stores the low byte.
pub append_row-int :
    (ps : List (Bytes × ℤ)) (rows : List ℕ) (z : ℤ)
    → let answer =
        if declared (to_int8 z) ps
        then append_value (column ps rows) (to_int8 z)
        else unknown_element in
      (append_row (int z) (column ps rows) ≡ answer)
      × (append_row (int8 z) (column ps rows) ≡ answer)
unfolding append_row
append_row-int ps rows z =
    let answer =
      ap (λ b. if b then append_value (column ps rows) (to_int8 z) else unknown_element)
        (enum8_of-bits ps (record empty_enum { col = rows }) (to_int8 z) (to_int8_lt z)
          ∙ or_false (declared (to_int8 z) ps)) in
    (answer, answer)

-- The name stands among the values with the int8 `v`.
abbrev Has : Bytes → ℕ → List (Bytes × ℤ) → Type 0
Has name v [] = ⊥
Has name v ((n, index) ∷ rest) = ((name ≡ n) × (v ≡ to_int8 index)) ⊎ Has name v rest

-- No two values have one int8.
abbrev pub Distinct : List (Bytes × ℤ) → Type 0
Distinct [] = Unit {0}
Distinct ((n, index) ∷ rest) = (declared (to_int8 index) rest ≡ false) × Distinct rest

abbrev pub has_name : Bytes → List (Bytes × ℤ) → Bool
has_name name [] = false
has_name name ((n, index) ∷ rest) = if same_bytes name n then true else has_name name rest

value_of-Has :
    (ps : List (Bytes × ℤ)) (e : Enum8) (name : Bytes) (v : ℕ)
    → value_of name (enum8_of e ps).iv ≡ some v
    → Has name v ps ⊎ (value_of name e.iv ≡ some v)
unfolding enum8_of declare
value_of-Has [] e name v h = inr h
value_of-Has ((n, index) ∷ rest) e name v h =
    elim (value_of-Has rest (declare e n index) name v h) [
      | inl later ↦ inl (inr later)
      | inr here ↦ elim (Bool-cases (same_bytes name n)) [
        | inl same ↦ inl (inl ((same_bytes_iff name n).0 same, ground (arith, rw same at here)))
        | inr other ↦ inr (rw other at here)
      ]
    ]

value_of-none :
    (ps : List (Bytes × ℤ)) (e : Enum8) (name : Bytes)
    → value_of name (enum8_of e ps).iv ≡ none
    → (has_name name ps ≡ false) × (value_of name e.iv ≡ none)
unfolding enum8_of declare
value_of-none [] e name h = (refl, h)
value_of-none ((n, index) ∷ rest) e name h =
    let (none_later, here) = value_of-none rest (declare e n index) name h in
    elim (Bool-cases (same_bytes name n)) [
      | inl same ↦ absurd (ground (arith, rw same at here))
      | inr other ↦ rw other (none_later, rw other at here)
    ]

name_of-undeclared :
    (ps : List (Bytes × ℤ)) (e : Enum8) (v : ℕ)
    → declared v ps ≡ false
    → name_of v (enum8_of e ps).vi ≡ name_of v e.vi
unfolding enum8_of declare
name_of-undeclared [] e v h = refl
name_of-undeclared ((n, index) ∷ rest) e v h = elim (Bool-cases (v == to_int8 index)) [
  | inl same ↦ absurd (ground (arith, rw same at h))
  | inr other ↦ name_of-undeclared rest (declare e n index) v (rw other at h) ∙ rw other refl
]

name_of-Has :
    (ps : List (Bytes × ℤ)) (e : Enum8) (name : Bytes) (v : ℕ)
    → Has name v ps
    → Distinct ps
    → name_of v (enum8_of e ps).vi ≡ name
unfolding enum8_of declare
name_of-Has [] e name v h d = elim h [ ]
name_of-Has ((n, index) ∷ rest) e name v (inr later) (d, ds) =
    name_of-Has rest (declare e n index) name v later ds
name_of-Has ((n, index) ∷ rest) e name v (inl (same, at)) (d, ds) =
    name_of-undeclared rest (declare e n index) v (ap (λ w. declared w rest) at ∙ d)
    ∙ rw ((==_iff v (to_int8 index)).1 at) (sym same)

-- A column whose values have distinct int8s refuses a name that is not declared, and takes any other
-- so that Row gives the name back, at the row behind those that it held.
pub append_row-row :
    (ps : List (Bytes × ℤ)) (rows : List ℕ) (name : Bytes)
    → Distinct ps
    → ((has_name name ps ≡ false) × (append_row (string name) (column ps rows) ≡ unknown_element))
      ⊎ ((e : Enum8) × (append_row (string name) (column ps rows) ≡ appended e)
          × (row e (length rows) ≡ some name))
unfolding append_row row
append_row-row ps rows name d =
    let c = column ps rows in
    elim (Option-cases (value_of name c.iv)) [
      | inl missing ↦ inl (
        (value_of-none ps (record empty_enum { col = rows }) name missing).0,
        ap (append_known c) missing,
      )
      | inr (v, found) ↦ inr (
        record c { col = c.col ++ v ∷ [] },
        ap (append_known c) found,
        ap (named c) (
              ap (λ l. get_elem? (l ++ v ∷ []) (length rows))
                (enum8_of-col ps (record empty_enum { col = rows }))
              ∙ get_elem?-append_middle rows v [])
            ∙ ap some (given ps rows name v d found),
      )
    ]
  where
    given :
        (ps : List (Bytes × ℤ)) (rows : List ℕ) (name : Bytes) (v : ℕ)
        → Distinct ps
        → value_of name (column ps rows).iv ≡ some v
        → name_of v (column ps rows).vi ≡ name
    given ps rows name v d found =
        elim (value_of-Has ps (record empty_enum { col = rows }) name v found) [
          | inl has ↦ name_of-Has ps (record empty_enum { col = rows }) name v has d
          | inr nothing ↦ absurd (ground (arith, nothing))
        ]

-- The column that Enum makes from the text of an Enum8 with plain names, indexes that are read back
-- and in the range tested, and distinct int8s: it refuses a name that is not declared, and takes any
-- other so that Row gives the name back.
pub enum-append_row :
    (atoi : Bytes → Option ℤ) (it : Item) (its : List Item)
    → AllFit atoi enum8 (it ∷ its)
    → Distinct (map pair_of (it ∷ its))
    → (name : Bytes)
    → (c : Enum8) × (enum atoi (enum_text enum8 it its) ≡ made8 c)
      × (((has_name name (map pair_of (it ∷ its)) ≡ false)
            × (append_row (string name) c ≡ unknown_element))
          ⊎ ((e : Enum8) × (append_row (string name) c ≡ appended e) × (row e 0 ≡ some name)))
unfolding enum
enum-append_row atoi it its fit d name =
    let ps = map pair_of (it ∷ its) in
    (
      column ps [],
      ap made_of (extract-enum_text atoi enum8 it its fit),
      append_row-row ps [] name d,
    )
