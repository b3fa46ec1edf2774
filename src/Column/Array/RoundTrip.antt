-- ===== src/Column/Array/RoundTrip.antt =====
-- Encode and Decode of lib/column/array.go against one another, over values that can be read back.
use mathlib.Core.Path.{subst}
use mathlib.Core.List.{map}
use clickhouse_go.Common.{
  ℕ, zero, suc, List, [], ◌∷◌, Option, none, length, get_elem?, ◌≡◌, refl, sym, ap, ◌∙◌,
}
use clickhouse_go.Block.{Bytes, Reader, ColumnOps}
use clickhouse_go.Block.Reads.{Reads, Reads-bind, Reads-last, Reads-give}
use clickhouse_go.Column.Array.Rows.{scan_slice-Represents}
use clickhouse_go.Column.Array.{
  append, append_each, no_offsets, scan_slice, Nested, Offsets, State, encode, decode, last_or_0,
}
use clickhouse_go.Column.Array.Append.{
  Extends, IsSmall, shown_nested, append-Stands, append_each-Stands, Represents, concat,
  last_or_0-ends_from, length-ends_from,
}

module _ {Col V E X : Type 0} (ops : ColumnOps Col V E) (put : List ℕ → Bytes)
    (read : ℕ → Reader E (List ℕ))
    (reads : (offsets : List ℕ) → Reads (read (length offsets)) (put offsets) offsets) where
  -- With the offsets of `rows` and values that Decode of their column reads back as `restored`, Decode
  -- of as many rows reads what Encode wrote off the front of any input: the same offsets, over the
  -- restored values.
  pub decode-encode_levels :
      (d : ℕ) (o : Offsets d) (c : Col) (items : List X) (rows : List (Nested X d))
      (empty restored : Col)
      → Represents d o items rows
      → Reads (ops.decode (length items) empty) (ops.encode c).0 restored
      → Reads (decode ops read d (length rows) empty) (encode ops put d (o, c)) (o, restored)
  unfolding encode decode
  decode-encode_levels zero o c items rows empty restored h values =
      Reads-last _
        (subst (λ l. Reads (ops.decode (length l) empty) (ops.encode c).0 restored) h values)
        Reads-give
  decode-encode_levels (suc d) o c items rows empty restored (ends, h) values =
      let count : length o.0 ≡ length rows = ap length ends ∙ length-ends_from 0 rows in
      let below : last_or_0 o.0 ≡ length (concat rows) =
        ap last_or_0 ends ∙ last_or_0-ends_from rows in
      let inner = decode-encode_levels d o.1 c items (concat rows) empty restored h values in
      Reads-bind _ (subst (λ n. Reads (read n) (put o.0) o.0) count (reads o.0)) (
        Reads-last _
          (subst
            (λ n. Reads (decode ops read d n empty) (encode ops put d (o.1, c)) (o.1, restored))
            (sym below) inner)
          Reads-give)

Represents-no_offsets : (X : Type 0) (d : ℕ) → Represents {X = X} d (no_offsets d) [] []
Represents-no_offsets X zero = refl
Represents-no_offsets X (suc d) = (refl, Represents-no_offsets X d)

length-map : {A B : Type 0} (f : A → B) (xs : List A) → length (map f xs) ≡ length xs
length-map f [] = refl
length-map f (x ∷ xs) = ap suc (length-map f xs)

-- The columns of values: `items` is what one holds and `value` its Row, which give what is `shown` of
-- the values that AppendRow took.
module _ {Col V E X : Type 0} (ops : ColumnOps Col V E) (put : List ℕ → Bytes)
    (read : ℕ → Reader E (List ℕ))
    (reads : (offsets : List ℕ) → Reads (read (length offsets)) (put offsets) offsets)
    (items : Col → List X) (value : Col → ℕ → Option X) (shown : V → X)
    (extends : Extends ops items shown)
    (value_lem : (c : Col) (j : ℕ) → value c j ≡ get_elem? (items c) j) where
  -- Rows of slices nested `d` deep, appended without an error to an empty column, encoded, and decoded
  -- into a column whose values are read back: Row gives each of them, in order, and no other, and
  -- the rest of the input is left.
  pub append-decode-scan_slice :
      (d : ℕ) (xs : List (Nested V d)) (c empty restored : Col) (s : State ops d)
      → items c ≡ []
      → IsSmall X d (map (shown_nested shown d) xs)
      → append_each ops (append ops d) xs (no_offsets d, c) ≡ (s, none)
      → Reads (ops.decode (length (items s.1)) empty) (ops.encode s.1).0 restored
      → items restored ≡ items s.1
      → Reads (decode ops read d (length xs) empty) (encode ops put d s) (s.0, restored)
        × ((i : ℕ)
            → scan_slice (value restored) d s.0 i ≡ get_elem? (map (shown_nested shown d) xs) i)
  append-decode-scan_slice d xs c empty restored s new small ok values same =
      let ys = map (shown_nested shown d) xs in
      let start =
        subst (λ l. Represents d (no_offsets d) l []) (sym new) (Represents-no_offsets X d) in
      let stands : Represents d s.0 (items s.1) ys =
        subst (λ (r : State ops d × Option E). Represents d r.0.0 (items r.0.1) ys) ok
          (append_each-Stands ops items shown extends d (append-Stands ops items shown extends d) xs
            (no_offsets d, c) [] start small (ap (λ r. r.1) ok)) in
      (
        subst (λ n. Reads (decode ops read d n empty) (encode ops put d s) (s.0, restored))
            (length-map (shown_nested shown d) xs)
            (decode-encode_levels ops put read reads d s.0 s.1 (items s.1) ys empty restored stands
              values),
        λ i.
            scan_slice-Represents (value restored) d s.0 (items s.1) ys i
              (λ j. value_lem restored j ∙ ap (λ l. get_elem? l j) same) stands,
      )
