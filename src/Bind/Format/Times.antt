-- ===== src/Bind/Format/Times.antt =====
-- bind.go: what formatTime writes, and results that are an error of a timezone.
use clickhouse_go.Common.{
  ℕ, Bool, true, false, ◌||◌, [], ◌∷◌, ◌++◌, ◌==◌, ◌≡◌, refl, sym, ap, inl, inr, arith,
  if◌then◌else◌, Bool-cases,
}
use clickhouse_go.Common.Decimal.{decimal}
use clickhouse_go.Bind.Quote.{Bytes}
use clickhouse_go.Bind.Errors.{Result, ok, err, bad_value, after, map_ok}
use clickhouse_go.Bind.Params.{equal}
use clickhouse_go.Bind.Literal.{replace}
use clickhouse_go.Bind.Format.{
  codes, FormatError, invalid_timezone, FormatMode, format_sql, format_param_text, Moment,
  date_time64, digits_of, time_in_zone, time_local, is_zero, format_time, format_moment,
}
use clickhouse_go.Bind.Format.Texts.{
  plain-Closed, Closed-around, Closed-literal, format_int-plain, decimal-plain, replace-plain,
}
use clickhouse_go.Bind.Format.Closed.{Closed, Walks-append, is_plain, Walks-plain, Closed-quote}
use clickhouse_go.QueryParameters.{ℤ, format_int, format_time_param}

module _ {A : Type 0} where
  -- A result that is as `P` says, or the error of a timezone whose name a literal cannot hold.
  abbrev pub Safe : (A → Type 0) → Result FormatError A → Type 0
  Safe P (ok a) = P a
  Safe P (err e) =
      (zone : Bytes) × (e ≡ bad_value (invalid_timezone zone)) × (equal zone (replace zone) ≡ false)

pub Safe-map :
    {A B : Type 0} (P : A → Type 0) (Q : B → Type 0) (f : A → B) (r : Result FormatError A)
    → ((a : A) → P a → Q (f a))
    → Safe P r
    → Safe Q (map_ok f r)
Safe-map P Q f (ok a) keeps h = keeps a h
Safe-map P Q f (err e) keeps h = h

pub Safe-after :
    {A B : Type 0} (P : A → Type 0) (Q : B → Type 0) (r : Result FormatError A)
    (f : A → Result FormatError B)
    → Safe P r
    → ((a : A) → P a → Safe Q (f a))
    → Safe Q (after r f)
Safe-after P Q (ok a) f h next = next a h
Safe-after P Q (err e) f h next = h

-- What package time formats has nothing to escape.
abbrev pub RegularMoment : Moment → Type 0
RegularMoment v = (digits : ℕ) → replace (v.civil digits) ≡ v.civil digits

equal_sound : (xs ys : Bytes) → equal xs ys ≡ true → xs ≡ ys
unfolding equal
equal_sound [] [] h = refl
equal_sound [] (y ∷ ys) h = absurd (ground (arith, h))
equal_sound (x ∷ xs) [] h = absurd (ground (arith, h))
equal_sound (x ∷ xs) (y ∷ ys) h =
    let e = equal_sound xs ys (ground (arith, h)) in let k : x ≡ y = ground (arith, h) in rw (k, e)

date_time-Closed : (t : Bytes) → replace t ≡ t → Closed (codes "toDateTime('" ++ (t ++ codes "')"))
unfolding is_plain
date_time-Closed t h =
    Closed-literal (codes "toDateTime(") t (codes ")") refl h (plain-Closed (codes ")") refl) refl

date_time64-Closed : (t more : Bytes) → replace t ≡ t → Closed more → Closed (date_time64 t more)
unfolding is_plain
date_time64-Closed t more h c =
    Closed-literal (codes "toDateTime64(") t (codes ", " ++ (more ++ codes ")")) refl h
      (Closed-around (codes ", ") more (codes ")") refl refl refl c) refl

in_zone_checked :
    (scale : ℕ) (v : Moment)
    → RegularMoment v
    → (b : Bool) → equal v.location (replace v.location) ≡ b
    → Safe Closed (time_in_zone scale v)
unfolding time_in_zone is_plain
in_zone_checked scale v h false e = rw e (v.location, refl, e)
in_zone_checked scale v h true e =
    let same : replace v.location ≡ v.location =
      sym (equal_sound v.location (replace v.location) e) in
    let twice : replace (replace v.location) ≡ replace v.location = ap replace same in
    rw e (elim (Bool-cases (scale == 0)) [
      | inl z ↦ rw z (
          Closed-literal (codes "toDateTime(") (v.civil 0) _ refl (h 0)
            (Closed-literal (codes ", ") (replace v.location) (codes ")") refl twice
              (plain-Closed (codes ")") refl) refl)
            refl)
      | inr z ↦ rw z (
          date_time64-Closed (v.civil (digits_of scale)) _ (h (digits_of scale)) (
            Walks-append (decimal (digits_of scale)) _
              (Walks-plain (decimal (digits_of scale)) (decimal-plain (digits_of scale)))
              (Closed-literal (codes ", ") (replace v.location) [] refl twice (plain-Closed [] refl)
                refl)))
    ])

in_zone-Safe : (scale : ℕ) (v : Moment) → RegularMoment v → Safe Closed (time_in_zone scale v)
in_zone-Safe scale v h = in_zone_checked scale v h (equal v.location (replace v.location)) refl

number_time-Closed :
    (n : ℤ) (digits : Bytes) → Closed digits → Closed (date_time64 (format_int n) digits)
number_time-Closed n digits c =
    date_time64-Closed (format_int n) digits (replace-plain (format_int n) (format_int-plain n)) c

if-Safe :
    (b : Bool) (x y : Result FormatError Bytes)
    → Safe Closed x
    → Safe Closed y
    → Safe Closed (if b then x else y)
if-Safe true x y hx hy = hx
if-Safe false x y hx hy = hy

time_local-Safe : (scale : ℕ) (v : Moment) → RegularMoment v → Safe Closed (time_local scale v)
unfolding time_local is_plain
time_local-Safe scale v h =
    if-Safe (is_zero v.time.unix) _ _ (plain-Closed (codes "toDateTime(0)") refl) (
      if-Safe (scale == 0) _ _
        (date_time-Closed (format_int v.time.unix)
          (replace-plain (format_int v.time.unix) (format_int-plain v.time.unix)))
        (if-Safe (scale == 1) _ _
          (number_time-Closed v.unix_milli (codes "3") (plain-Closed (codes "3") refl))
          (if-Safe (scale == 2) _ _
            (number_time-Closed v.unix_micro (codes "6") (plain-Closed (codes "6") refl))
            (if-Safe (scale == 3) _ _
              (number_time-Closed v.unix_nano (codes "9") (plain-Closed (codes "9") refl))
              (in_zone-Safe scale v h)))))

pub format_moment-Safe :
    (tz : Bytes) (scale : ℕ) (mode : FormatMode) (v : Moment)
    → RegularMoment v
    → Safe Closed (format_moment tz scale mode v)
unfolding format_moment format_time
format_moment-Safe tz scale format_param_text v h = Closed-quote (format_time_param v.time)
format_moment-Safe tz scale format_sql v h =
    if-Safe (equal v.location (codes "Local") || equal v.location []) _ _
      (time_local-Safe scale v h)
      (if-Safe (equal v.location tz) _ _
        (if-Safe (scale == 0) _ _ (date_time-Closed (v.civil 0) (h 0)) (
          date_time64-Closed (v.civil (digits_of scale)) _ (h (digits_of scale))
            (plain-Closed (decimal (digits_of scale)) (decimal-plain (digits_of scale)))))
        (in_zone-Safe scale v h))
