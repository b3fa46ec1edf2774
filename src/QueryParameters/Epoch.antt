-- ===== src/QueryParameters/Epoch.antt =====
-- query_parameters.go: what the printed epoch seconds stand for, against the moment of the time.
use clickhouse_go.Common.{
  ℕ, suc, ◌+◌, ◌-◌, ◌*◌, ◌/◌, ◌%◌, ◌^◌, ◌<◌, ◌≡◌, ◌∙◌, ap, arith, Bool, true, false, ◌∷◌, ◌++◌, ltb,
  ◌==◌, Bool-cases, inl, inr,
}
use clickhouse_go.Common.Decimal.{decimal, AllDigits-decimal}
use clickhouse_go.QueryParameters.{
  ℤ, pos, negsuc, TimeUnit, seconds, milli_seconds, micro_seconds, nano_seconds, pow, pad,
  epoch_parts, format_epoch, format_int, format_time_with_scale, format_time_param,
}
use clickhouse_go.QueryParameters.Reading.{
  read_fraction, read_fraction-pad, no_sign, read_unsigned-decimal, no_sign_all,
}
use native.Mathlib.Nat.{add-mul}

-- The moment in units of `unit` nanoseconds, rounded down, as a sign and an absolute value: before
-- 1970 the absolute value is rounded up.
abbrev pub moment : ℤ → ℕ → ℕ → Bool × ℕ
moment (pos n) ns unit = (false, (n * 1000000000 + ns) / unit)
moment (negsuc n) ns unit = (true, ((n + 1) * 1000000000 - ns + (unit - 1)) / unit)

abbrev pub digits_of : TimeUnit → ℕ
digits_of seconds = 0
digits_of milli_seconds = 3
digits_of micro_seconds = 6
digits_of nano_seconds = 9

abbrev pub unit_of : TimeUnit → ℕ
unit_of seconds = 1000000000
unit_of milli_seconds = 1000000
unit_of micro_seconds = 1000
unit_of nano_seconds = 1

-- Printed parts read back.
read-plain :
    (sec d frac : ℕ)
    → frac < 10 ^ suc d
    → read_fraction (decimal sec ++ b'.' ∷ pad (suc d) frac)
      ≡ (false, (sec * 10 ^ suc d + frac, suc d))
read-plain sec d frac h =
    no_sign (decimal sec) (pad (suc d) frac) (AllDigits-decimal sec)
    ∙ ap (λ r. (false, r)) (read_fraction-pad sec d frac h)

read-minus :
    (sec d frac : ℕ)
    → frac < 10 ^ suc d
    → read_fraction (b'-' ∷ (decimal sec ++ b'.' ∷ pad (suc d) frac))
      ≡ (true, (sec * 10 ^ suc d + frac, suc d))
read-minus sec d frac h = ap (λ r. (true, r)) (read_fraction-pad sec d frac h)

-- The sign goes before the whole value: the parts make the moment on both sides of 1970.
parts-pos :
    (n d frac v : ℕ)
    → frac < 10 ^ suc d
    → n * 10 ^ suc d + frac ≡ v
    → (let (sign, sec, frac') = epoch_parts (pos n) (10 ^ suc d) frac in
        read_fraction (sign ++ (decimal sec ++ b'.' ∷ pad (suc d) frac')) ≡ (false, (v, suc d)))
unfolding epoch_parts
parts-pos n d frac v h e = read-plain n d frac h ∙ ap (λ r. (false, (r, suc d))) e

parts-negsuc :
    (n d frac v : ℕ)
    → frac < 10 ^ suc d
    → (n + 1) * 10 ^ suc d - frac ≡ v
    → (let (sign, sec, frac') = epoch_parts (negsuc n) (10 ^ suc d) frac in
        read_fraction (sign ++ (decimal sec ++ b'.' ∷ pad (suc d) frac')) ≡ (true, (v, suc d)))
unfolding epoch_parts
parts-negsuc n d frac v h e = elim (Bool-cases (ltb 0 frac)) [
  | inl some_ ↦ rw some_ (
      read-minus n d (10 ^ suc d - frac) (ground arith)
      ∙ ap (λ r. (true, (r, suc d))) (omega (arith, add-mul n 1 (10 ^ suc d), h) ∙ e))
  | inr none_ ↦
      let zero_ : frac ≡ 0 = ground arith in
      rw none_
        (read-minus (n + 1) d frac h ∙ ap (λ r. (true, (r, suc d))) (omega (arith, zero_) ∙ e))
]

-- A time sent with a scale: the printed text, read as a decimal fraction, has exactly the scale's
-- digits and is the moment in its unit, on both sides of 1970, with what is finer dropped downwards.
pub format_time_with_scale-moment :
    (sec : ℤ) (ns : ℕ) (scale : TimeUnit)
    → ns < 1000000000
    → (let (negative, value) = moment sec ns (unit_of scale) in
        read_fraction (format_time_with_scale (record { unix = sec; nanosecond = ns }) scale)
        ≡ (negative, (value, digits_of scale)))
unfolding format_time_with_scale format_epoch pow format_int
format_time_with_scale-moment (pos n) ns seconds h =
    no_sign_all (decimal n) (AllDigits-decimal n)
    ∙ ap (λ r. (false, r)) (read_unsigned-decimal n ∙ ap (λ r. (r, 0)) (omega arith))
format_time_with_scale-moment (negsuc n) ns seconds h =
    ap (λ r. (true, r)) (read_unsigned-decimal (n + 1) ∙ ap (λ r. (r, 0)) (omega arith))
format_time_with_scale-moment (pos n) ns milli_seconds h =
    parts-pos n 2 (ns / 1000000) _ (omega arith) (omega arith)
format_time_with_scale-moment (negsuc n) ns milli_seconds h =
    parts-negsuc n 2 (ns / 1000000) _ (omega arith) (omega arith)
format_time_with_scale-moment (pos n) ns micro_seconds h =
    parts-pos n 5 (ns / 1000) _ (omega arith) (omega arith)
format_time_with_scale-moment (negsuc n) ns micro_seconds h =
    parts-negsuc n 5 (ns / 1000) _ (omega arith) (omega arith)
format_time_with_scale-moment (pos n) ns nano_seconds h =
    parts-pos n 8 (ns / 1) _ (omega arith) (omega arith)
format_time_with_scale-moment (negsuc n) ns nano_seconds h =
    parts-negsuc n 8 (ns / 1) _ (omega arith) (omega arith)

-- A time sent without a scale loses nothing: its text is the moment in a unit that divides its
-- nanoseconds.
pub format_time_param-moment :
    (sec : ℤ) (ns : ℕ)
    → ns < 1000000000
    → (scale : TimeUnit) × (ns % unit_of scale ≡ 0)
      × (let (negative, value) = moment sec ns (unit_of scale) in
          read_fraction (format_time_param (record { unix = sec; nanosecond = ns }))
          ≡ (negative, (value, digits_of scale)))
unfolding format_time_param format_time_with_scale
format_time_param-moment sec ns h =
    let at = λ (scale : TimeUnit). format_time_with_scale-moment sec ns scale h in
    elim (Bool-cases (ns == 0)) [
      | inl e ↦ rw e (seconds, ground arith, at seconds)
      | inr e ↦ elim (Bool-cases (ns % 1000000 == 0)) [
        | inl e' ↦ rw (e, e') (milli_seconds, ground arith, at milli_seconds)
        | inr e' ↦ elim (Bool-cases (ns % 1000 == 0)) [
          | inl e2 ↦ rw (e, e', e2) (micro_seconds, ground arith, at micro_seconds)
          | inr e2 ↦ rw (e, e', e2) (nano_seconds, omega arith, at nano_seconds)
        ]
      ]
    ]
