-- ===== src/QueryParameters.antt =====
-- query_parameters.go: how a time is printed as epoch seconds. `unix` is t.Unix(), an int64, and
-- `nanosecond` is t.Nanosecond(). The negation of the smallest int64, which wraps, is left out.
pub mod Reading
pub mod Epoch
mod Tests
use clickhouse_go.Common.{
  ℕ, zero, suc, ◌+◌, ◌-◌, ◌*◌, ◌/◌, ◌%◌, Bool, true, false, List, [], ◌∷◌, ◌++◌, ltb, ◌==◌,
  if◌then◌else◌, length, replicate,
}
use clickhouse_go.Common.Decimal.{decimal}

-- negsuc n is -(n + 1).
pub data ℤ : Type 0 where
  pos : ℕ → ℤ
  negsuc : ℕ → ℤ

pub record Time : Type 0 where
  pub unix : ℤ
  pub nanosecond : ℕ

pub data TimeUnit : Type 0 where
  seconds : TimeUnit
  milli_seconds : TimeUnit
  micro_seconds : TimeUnit
  nano_seconds : TimeUnit

-- The loop that multiplies pow.
unfoldable pub pow : ℕ → ℕ
pow zero = 1
pow (suc digits) = pow digits * 10

-- strconv.FormatInt(sec, 10)
unfoldable pub format_int : ℤ → List ℕ
format_int (pos n) = decimal n
format_int (negsuc n) = b'-' ∷ decimal (n + 1)

-- `%0*d` of a number that is not negative.
unfoldable pub pad : ℕ → ℕ → List ℕ
pad digits n = replicate (digits - length (decimal n)) b'0' ++ decimal n

-- sign, sec and frac as they are printed.
unfoldable pub epoch_parts : ℤ → ℕ → ℕ → List ℕ × ℕ × ℕ
epoch_parts (pos n) p frac = ([], n, frac)
epoch_parts (negsuc n) p frac =
    if ltb 0 frac then (b'-' ∷ [], n, p - frac) else (b'-' ∷ [], n + 1, frac)

unfoldable pub format_epoch : Time → ℕ → List ℕ
unfolding epoch_parts pad pow format_int
format_epoch t digits =
    if digits == 0
    then format_int t.unix
    else (let (sign, sec, frac) =
          epoch_parts t.unix (pow digits) (t.nanosecond / (1000000000 / pow digits)) in
        sign ++ (decimal sec ++ b'.' ∷ pad digits frac))

unfoldable pub format_time_param : Time → List ℕ
unfolding format_epoch
format_time_param t =
    if t.nanosecond == 0
    then format_epoch t 0
    else if t.nanosecond % 1000000 == 0
    then format_epoch t 3
    else if t.nanosecond % 1000 == 0
    then format_epoch t 6
    else format_epoch t 9

unfoldable pub format_time_with_scale : Time → TimeUnit → List ℕ
unfolding format_epoch
format_time_with_scale t milli_seconds = format_epoch t 3
format_time_with_scale t micro_seconds = format_epoch t 6
format_time_with_scale t nano_seconds = format_epoch t 9
format_time_with_scale t seconds = format_epoch t 0
