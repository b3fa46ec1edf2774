-- ===== src/Bind/Format.antt =====
-- bind.go: formatValue with its helpers. A value of Go's `any` is a tree with a constructor for each
-- case of the two switches; a map is the list of its entries in the order in which they are read.
-- What package time answers for a moment, and strconv and fmt for a number, are parts of the value.

pub mod Closed
pub mod Texts
pub mod Times
pub mod Safe
use mathlib.Core.Option.{Option, none, some}
use Prim.Native.Char.{code}
use Prim.Native.String.{String}
use clickhouse_go.Common.{
  ℕ, ◌+◌, ◌*◌, ◌%◌, Bool, true, false, not, ◌&&◌, ◌||◌, List, [], ◌∷◌, ◌++◌, ltb, ◌==◌,
  if◌then◌else◌,
}
use clickhouse_go.Common.Decimal.{decimal}
use clickhouse_go.Bind.Quote.{Bytes}
use clickhouse_go.Bind.Params.{equal}
use clickhouse_go.Bind.Errors.{Result, ok, err, BindError, bad_value, after, map_ok}
use clickhouse_go.Bind.Literal.{quote, replace}
use clickhouse_go.QueryParameters.{ℤ, pos, negsuc, Time, format_int, format_time_param}

abbrev pub codes : String → Bytes
codes String.[] = []
codes (String.◌∷◌ c s) = code c ∷ codes s

pub data FormatError : Type 0 where
  invalid_timezone : Bytes → FormatError
  valuer_failed : Bytes → FormatError

pub data FormatMode : Type 0 where
  format_sql : FormatMode
  format_param_text : FormatMode

-- A time.Time with its Location().String(), UnixMilli, UnixMicro and UnixNano, and its Format with the
-- layout "2006-01-02 15:04:05" and, if the number is not 0, a point and so many digits.
pub record Moment : Type 0 where
  pub location : Bytes
  pub time : Time
  pub unix_milli : ℤ
  pub unix_micro : ℤ
  pub unix_nano : ℤ
  pub civil : ℕ → Bytes

-- A float, with what strconv.FormatFloat makes of it.
pub data Float : Type 0 where
  not_a_number : Float
  infinity : Float
  minus_infinity : Float
  finite : Bytes → Float

mutual
  pub data Value : Type 0 where
    nil_value : Value
    string : Bytes → Value
    time : Moment → Value
    time_pointer : Option Moment → Value
    bool : Bool → Value
    float32 : Float → Value
    float64 : Float → Value
    group_set : Values → Value
    group_sets : Values → Value
    array_set : Values → Value
    stringer : Option Bytes → Value
    ordered_map : Entries → Value
    iterable_map : Entries → Value
    slice : Values → Value
    go_map : Entries → Value
    nil_pointer : Value
    pointer : Value → Value
    integer : ℤ → Value
    other : Bytes → Value

  pub data Values : Type 0 where
    end_of_values : Values
    value_then : Value → Values → Values

  pub data Entries : Type 0 where
    end_of_entries : Entries
    entry_then : Value → Value → Entries → Entries

-- strings.Join
unfoldable pub join_strings : Bytes → List Bytes → Bytes
join_strings sep [] = []
join_strings sep (x ∷ []) = x
join_strings sep (x ∷ y ∷ xs) = x ++ (sep ++ join_strings sep (y ∷ xs))

-- formatMap, on the pairs.
unfoldable pub pair_texts : Bytes → List (Bytes × Bytes) → List Bytes
pair_texts sep [] = []
pair_texts sep ((key, value) ∷ es) = (key ++ (sep ++ value)) ∷ pair_texts sep es

unfoldable pub format_map : FormatMode → List (Bytes × Bytes) → Bytes
unfolding join_strings pair_texts
format_map format_param_text es =
    codes "{" ++ (join_strings (codes ",") (pair_texts (codes ":") es) ++ codes "}")
format_map format_sql es =
    codes "map(" ++ (join_strings (codes ", ") (pair_texts (codes ", ") es) ++ codes ")")

unfoldable pub format_float : (ch_type : String) → FormatMode → Float → Bytes
format_float ch_type format_param_text not_a_number = codes "nan"
format_float ch_type format_param_text infinity = codes "inf"
format_float ch_type format_param_text minus_infinity = codes "-inf"
format_float ch_type format_param_text (finite text) = text
format_float ch_type format_sql not_a_number =
    codes "cast('nan', '" ++ (codes ch_type ++ codes "')")
format_float ch_type format_sql infinity = codes "cast('inf', '" ++ (codes ch_type ++ codes "')")
format_float ch_type format_sql minus_infinity =
    codes "cast('-inf', '" ++ (codes ch_type ++ codes "')")
format_float ch_type format_sql (finite text) =
    codes "cast(" ++ (text ++ (codes ", '" ++ (codes ch_type ++ codes "')")))

unfoldable pub format_bool : FormatMode → Bool → Bytes
format_bool format_param_text true = codes "true"
format_bool format_param_text false = codes "false"
format_bool format_sql true = codes "1"
format_bool format_sql false = codes "0"

-- toDateTime64('…', n)
abbrev pub date_time64 : Bytes → Bytes → Bytes
date_time64 text more = codes "toDateTime64('" ++ (text ++ (codes "', " ++ (more ++ codes ")")))

-- int(scale*3), where scale is a uint8.
abbrev pub digits_of : ℕ → ℕ
digits_of scale = scale * 3 % 256

-- formatTime behind its first switch: with the timezone.
unfoldable pub time_in_zone : (scale : ℕ) → Moment → Result FormatError Bytes
time_in_zone scale v =
    if not (equal v.location (replace v.location))
    then err (bad_value (invalid_timezone v.location))
    else if scale == 0
    then ok (
        codes "toDateTime('" ++ (v.civil 0 ++ (codes "', '" ++ (replace v.location ++ codes "')"))))
    else ok (
        date_time64 (v.civil (digits_of scale))
          (decimal (digits_of scale) ++ (codes ", '" ++ (replace v.location ++ codes "'"))))

abbrev pub is_zero : ℤ → Bool
is_zero (pos n) = n == 0
is_zero (negsuc n) = false

-- The case of a local time.
unfoldable pub time_local : (scale : ℕ) → Moment → Result FormatError Bytes
unfolding time_in_zone
time_local scale v =
    if is_zero v.time.unix
    then ok (codes "toDateTime(0)")
    else if scale == 0
    then ok (codes "toDateTime('" ++ (format_int v.time.unix ++ codes "')"))
    else if scale == 1
    then ok (date_time64 (format_int v.unix_milli) (codes "3"))
    else if scale == 2
    then ok (date_time64 (format_int v.unix_micro) (codes "6"))
    else if scale == 3
    then ok (date_time64 (format_int v.unix_nano) (codes "9"))
    else time_in_zone scale v

unfoldable pub format_time : (tz : Bytes) (scale : ℕ) → Moment → Result FormatError Bytes
unfolding time_in_zone time_local
format_time tz scale v =
    if equal v.location (codes "Local") || equal v.location []
    then time_local scale v
    else if equal v.location tz
    then if scale == 0
      then ok (codes "toDateTime('" ++ (v.civil 0 ++ codes "')"))
      else ok (date_time64 (v.civil (digits_of scale)) (decimal (digits_of scale)))
    else time_in_zone scale v

unfoldable pub format_moment :
    (tz : Bytes) (scale : ℕ) → FormatMode → Moment → Result FormatError Bytes
unfolding format_time
format_moment tz scale format_param_text v = ok (quote (format_time_param v.time))
format_moment tz scale format_sql v = format_time tz scale v

-- fmt.Sprintf("[%s]", strings.Join(…)) and its like.
abbrev pub in_brackets : Bytes → Bytes → List Bytes → Bytes
in_brackets left right items = left ++ (join_strings (codes ", ") items ++ right)

module _ (tz : Bytes) (scale : ℕ) (mode : FormatMode) where
  unfoldable mutual
    unfolding format_moment format_bool format_float join_strings format_map

    -- formatValue
    pub format_value : Value → Result FormatError Bytes
    format_value nil_value = ok (codes "NULL")
    format_value (string v) = ok (quote v)
    format_value (time v) = format_moment tz scale mode v
    format_value (time_pointer none) = ok (codes "NULL")
    format_value (time_pointer (some v)) = format_moment tz scale mode v
    format_value (bool v) = ok (format_bool mode v)
    format_value (float32 f) = ok (format_float "Float32" mode f)
    format_value (float64 f) = ok (format_float "Float64" mode f)
    format_value (group_set vs) = map_ok (in_brackets (codes "(") (codes ")")) (format_values vs)
    format_value (group_sets vs) = map_ok (join_strings (codes ", ")) (format_values vs)
    format_value (array_set vs) = map_ok (in_brackets (codes "[") (codes "]")) (format_values vs)
    format_value (stringer none) = ok (codes "NULL")
    format_value (stringer (some v)) = ok (quote v)
    format_value (ordered_map es) = map_ok (format_map mode) (format_entries es)
    format_value (iterable_map es) = map_ok (format_map mode) (format_entries es)
    format_value (slice vs) = map_ok (in_brackets (codes "[") (codes "]")) (format_values vs)
    format_value (go_map es) = map_ok (format_map mode) (format_entries es)
    format_value nil_pointer = ok (codes "NULL")
    format_value (pointer v) = format_value v
    format_value (integer n) = ok (format_int n)
    format_value (other text) = ok text

    -- The loop of join, and that over a slice.
    pub format_values : Values → Result FormatError (List Bytes)
    format_values end_of_values = ok []
    format_values (value_then v vs) =
        after (format_value v) λ val. map_ok (◌∷◌ val) (format_values vs)

    -- The loops over the entries of a map.
    pub format_entries : Entries → Result FormatError (List (Bytes × Bytes))
    format_entries end_of_entries = ok []
    format_entries (entry_then k v es) =
        after (format_value k)
          λ name. after (format_value v) λ val. map_ok (◌∷◌ (name, val)) (format_entries es)

-- format
unfoldable pub format : (tz : Bytes) (scale : ℕ) → Value → Result FormatError Bytes
unfolding format_value
format tz scale v = format_value tz scale format_sql v
