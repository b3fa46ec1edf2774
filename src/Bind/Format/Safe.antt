-- ===== src/Bind/Format/Safe.antt =====
-- bind.go: what formatValue makes of a value stays one piece of a query.
use mathlib.Core.Option.{none, some}
use clickhouse_go.Common.{ℕ, Bool, true, false, List, ◌∷◌, ◌≡◌, refl}
use clickhouse_go.Bind.Quote.{Bytes, next_is}
use clickhouse_go.Bind.Errors.{Result, map_ok}
use clickhouse_go.Bind.Literal.{replace, replace_byte}
use clickhouse_go.Bind.Format.{
  codes, FormatError, FormatMode, format_sql, format_param_text, Value, nil_value, string, time,
  time_pointer, bool, float32, float64, group_set, group_sets, array_set, stringer, ordered_map,
  iterable_map, slice, go_map, nil_pointer, pointer, integer, other, Values, end_of_values,
  value_then, Entries, end_of_entries, entry_then, join_strings, format_map, format_bool,
  in_brackets, format_value, format_values, format_entries,
}
use clickhouse_go.Bind.Format.Texts.{
  AllClosed, PairsClosed, plain-Closed, Closed-join, Closed-around, RegularFloat, format_map-Closed,
  format_float-Closed, format_int-plain,
}
use clickhouse_go.Bind.Format.Closed.{Closed, is_plain, Closed-quote}
use clickhouse_go.QueryParameters.{format_int}
use clickhouse_go.Bind.Format.Times.{Safe, Safe-map, Safe-after, RegularMoment, format_moment-Safe}

format_bool-Closed : (mode : FormatMode) (b : Bool) → Closed (format_bool mode b)
unfolding format_bool is_plain
format_bool-Closed format_param_text true = plain-Closed (codes "true") refl
format_bool-Closed format_param_text false = plain-Closed (codes "false") refl
format_bool-Closed format_sql true = plain-Closed (codes "1") refl
format_bool-Closed format_sql false = plain-Closed (codes "0") refl

-- A value all of whose parts are regular: the texts of its floats and of its values of other kinds
-- hold no quote, comment mark or backslash and do not end in a dash, and its times are as above.
unfoldable mutual
  pub Regular : Value → Type 0
  Regular nil_value = Unit
  Regular (string v) = Unit
  Regular (time v) = RegularMoment v
  Regular (time_pointer none) = Unit
  Regular (time_pointer (some v)) = RegularMoment v
  Regular (bool v) = Unit
  Regular (float32 f) = RegularFloat f
  Regular (float64 f) = RegularFloat f
  Regular (group_set vs) = AllRegular vs
  Regular (group_sets vs) = AllRegular vs
  Regular (array_set vs) = AllRegular vs
  Regular (stringer v) = Unit
  Regular (ordered_map es) = EntriesRegular es
  Regular (iterable_map es) = EntriesRegular es
  Regular (slice vs) = AllRegular vs
  Regular (go_map es) = EntriesRegular es
  Regular nil_pointer = Unit
  Regular (pointer v) = Regular v
  Regular (integer n) = Unit
  Regular (other text) = is_plain text ≡ true

  pub AllRegular : Values → Type 0
  AllRegular end_of_values = Unit
  AllRegular (value_then v vs) = Regular v × AllRegular vs

  pub EntriesRegular : Entries → Type 0
  EntriesRegular end_of_entries = Unit
  EntriesRegular (entry_then k v es) = Regular k × Regular v × EntriesRegular es

module _ (tz : Bytes) (scale : ℕ) (mode : FormatMode) where
  joined :
      (left right : Bytes) (r : Result FormatError (List Bytes))
      → is_plain left ≡ true
      → is_plain right ≡ true
      → next_is b'\'' right ≡ false
      → Safe AllClosed r
      → Safe Closed (map_ok (in_brackets left right) r)
  unfolding is_plain
  joined left right r p q n h =
      Safe-map AllClosed Closed (in_brackets left right) r
        (λ xs all.
          Closed-around left (join_strings (codes ", ") xs) right p q n
            (Closed-join (codes ", ") xs (refl, λ b. refl) all))
        h

  mapped :
      (r : Result FormatError (List (Bytes × Bytes)))
      → Safe PairsClosed r
      → Safe Closed (map_ok (format_map mode) r)
  mapped r h = Safe-map PairsClosed Closed (format_map mode) r (format_map-Closed mode) h

  null-Closed : Closed (codes "NULL")
  unfolding is_plain
  null-Closed = plain-Closed (codes "NULL") refl

  mutual
    unfolding format_value Regular is_plain replace replace_byte

    format_value-Safe : (v : Value) → Regular v → Safe Closed (format_value tz scale mode v)
    format_value-Safe nil_value h = null-Closed
    format_value-Safe (string v) h = Closed-quote v
    format_value-Safe (time v) h = format_moment-Safe tz scale mode v h
    format_value-Safe (time_pointer none) h = null-Closed
    format_value-Safe (time_pointer (some v)) h = format_moment-Safe tz scale mode v h
    format_value-Safe (bool v) h = format_bool-Closed mode v
    format_value-Safe (float32 f) h = format_float-Closed "Float32" mode f refl h
    format_value-Safe (float64 f) h = format_float-Closed "Float64" mode f refl h
    format_value-Safe (group_set vs) h =
        joined (codes "(") (codes ")") _ refl refl refl (format_values-Safe vs h)
    format_value-Safe (group_sets vs) h =
        Safe-map AllClosed Closed (join_strings (codes ", ")) _
          (λ xs all. Closed-join (codes ", ") xs (refl, λ b. refl) all) (format_values-Safe vs h)
    format_value-Safe (array_set vs) h =
        joined (codes "[") (codes "]") _ refl refl refl (format_values-Safe vs h)
    format_value-Safe (stringer none) h = null-Closed
    format_value-Safe (stringer (some v)) h = Closed-quote v
    format_value-Safe (ordered_map es) h = mapped _ (format_entries-Safe es h)
    format_value-Safe (iterable_map es) h = mapped _ (format_entries-Safe es h)
    format_value-Safe (slice vs) h =
        joined (codes "[") (codes "]") _ refl refl refl (format_values-Safe vs h)
    format_value-Safe (go_map es) h = mapped _ (format_entries-Safe es h)
    format_value-Safe nil_pointer h = null-Closed
    format_value-Safe (pointer v) h = format_value-Safe v h
    format_value-Safe (integer n) h = plain-Closed (format_int n) (format_int-plain n)
    format_value-Safe (other text) h = plain-Closed text h

    format_values-Safe :
        (vs : Values) → AllRegular vs → Safe AllClosed (format_values tz scale mode vs)
    format_values-Safe end_of_values h = tt
    format_values-Safe (value_then v vs) (hv, hs) =
        Safe-after Closed AllClosed (format_value tz scale mode v) _ (format_value-Safe v hv)
          (λ val cv.
            Safe-map AllClosed AllClosed (◌∷◌ val) (format_values tz scale mode vs)
              (λ xs all. (cv, all)) (format_values-Safe vs hs))

    format_entries-Safe :
        (es : Entries) → EntriesRegular es → Safe PairsClosed (format_entries tz scale mode es)
    format_entries-Safe end_of_entries h = tt
    format_entries-Safe (entry_then k v es) (hk, hv, hs) =
        Safe-after Closed PairsClosed (format_value tz scale mode k) _ (format_value-Safe k hk)
          (λ name ck.
            Safe-after Closed PairsClosed (format_value tz scale mode v) _ (format_value-Safe v hv)
              (λ val cv.
                Safe-map PairsClosed PairsClosed (◌∷◌ (name, val)) (format_entries tz scale mode es)
                  (λ xs all. ((ck, cv), all)) (format_entries-Safe es hs)))

-- In both modes the text of a value, however deep, with any bytes in its strings, is one piece to the
-- scanner of quotes and comments: from raw text the scanner comes out of it in raw text, with nothing
-- skipped and no backslash pending, unless a single quote follows directly. Or there is no text,
-- since a timezone's name holds a quote or a backslash. The condition is on what is written with no
-- quotes: the texts that fmt.Sprint gives for values of other kinds, and those of floats, hold no
-- quote, comment mark or backslash and do not end in a dash, and the texts of times are regular.
pub format_value-Closed :
    (tz : Bytes) (scale : ℕ) (mode : FormatMode) (v : Value)
    → Regular v
    → Safe Closed (format_value tz scale mode v)
format_value-Closed tz scale mode v h = format_value-Safe tz scale mode v h
