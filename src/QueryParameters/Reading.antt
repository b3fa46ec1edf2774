-- ===== src/QueryParameters/Reading.antt =====
-- A reader of decimal fractions: sign, value and the number of digits behind the point.
use clickhouse_go.Common.{
  ℕ, zero, suc, ◌+◌, ◌-◌, ◌*◌, ◌^◌, ◌<◌, Bool, true, false, List, [], ◌∷◌, ◌++◌, ◌≡◌, refl, ap, ◌∙◌,
  arith, ◌==◌, if◌then◌else◌, length, length-append, length-replicate, replicate,
}
use clickhouse_go.Common.Decimal.{
  decimal, read_decimal, read_decimal-decimal, read_decimal-append, AllDigits-decimal,
  length-decimal, AllDigits,
}
use clickhouse_go.QueryParameters.{pad}
use mathlib.Core.List.{append-nil}
use native.Mathlib.Nat.{add-mul, mul_assoc, pow-succ'}

abbrev pub before_point : List ℕ → List ℕ
before_point [] = []
before_point (c ∷ cs) = if c == b'.' then [] else c ∷ before_point cs

abbrev pub after_point : List ℕ → List ℕ
after_point [] = []
after_point (c ∷ cs) = if c == b'.' then cs else after_point cs

-- The digits without their point make the number, in units of the last digit.
abbrev pub read_unsigned : List ℕ → ℕ × ℕ
read_unsigned cs = (read_decimal 0 (before_point cs ++ after_point cs), length (after_point cs))

-- Whether there is a minus sign, the number, the digits behind the point.
abbrev pub read_fraction : List ℕ → Bool × (ℕ × ℕ)
read_fraction [] = (false, read_unsigned [])
read_fraction (c ∷ cs) =
    if c == b'-' then (true, read_unsigned cs) else (false, read_unsigned (c ∷ cs))

before_point-digits : (xs ys : List ℕ) → AllDigits xs → before_point (xs ++ b'.' ∷ ys) ≡ xs
before_point-digits [] ys h = refl
before_point-digits (x ∷ xs) ys (d, _, h) =
    let e : (x == b'.') ≡ false = ground arith in rw e (ap (◌∷◌ x) (before_point-digits xs ys h))

after_point-digits : (xs ys : List ℕ) → AllDigits xs → after_point (xs ++ b'.' ∷ ys) ≡ ys
after_point-digits [] ys h = refl
after_point-digits (x ∷ xs) ys (d, _, h) =
    let e : (x == b'.') ≡ false = ground arith in rw e (after_point-digits xs ys h)

-- Behind a sign, a number, a point and digits: what they stand for.
read_unsigned-digits :
    (sec : ℕ) (ys : List ℕ)
    → read_unsigned (decimal sec ++ b'.' ∷ ys) ≡ (read_decimal sec ys, length ys)
read_unsigned-digits sec ys = rw (
  before_point-digits (decimal sec) ys (AllDigits-decimal sec),
  after_point-digits (decimal sec) ys (AllDigits-decimal sec),
  read_decimal-append 0 (decimal sec) ys,
  read_decimal-decimal sec,
)

pub no_sign :
    (xs ys : List ℕ)
    → AllDigits xs
    → read_fraction (xs ++ b'.' ∷ ys) ≡ (false, read_unsigned (xs ++ b'.' ∷ ys))
no_sign [] ys h = refl
no_sign (x ∷ xs) ys (d, _, h) = let e : (x == b'-') ≡ false = ground arith in rw e

read_decimal-zeros :
    (k : ℕ) (xs : List ℕ) → read_decimal 0 (replicate k b'0' ++ xs) ≡ read_decimal 0 xs
read_decimal-zeros zero xs = refl
read_decimal-zeros (suc k) xs = read_decimal-zeros k xs

read_decimal-shift :
    (acc : ℕ) (xs : List ℕ) → read_decimal acc xs ≡ acc * 10 ^ length xs + read_decimal 0 xs
read_decimal-shift acc [] = omega arith
read_decimal-shift acc (x ∷ xs) =
    let first : read_decimal 0 (x ∷ xs) ≡ (x - 48) * 10 ^ length xs + read_decimal 0 xs =
      ap (λ a. read_decimal a xs) (omega arith) ∙ read_decimal-shift (x - 48) xs in
    read_decimal-shift (acc * 10 + (x - 48)) xs
    ∙ rw (first, add-mul, mul_assoc, pow-succ') (omega arith)

-- Padded digits are as many as they should be, and stand for their number.
pub length-pad : (d n : ℕ) → n < 10 ^ suc d → length (pad (suc d) n) ≡ suc d
unfolding pad
length-pad d n h =
    length-append (replicate (suc d - length (decimal n)) b'0') (decimal n)
    ∙ omega
        (arith, length-replicate {A = ℕ} (suc d - length (decimal n)) b'0', length-decimal n d h)

read_decimal-pad : (d n : ℕ) → read_decimal 0 (pad d n) ≡ n
unfolding pad
read_decimal-pad d n =
    read_decimal-zeros (d - length (decimal n)) (decimal n) ∙ read_decimal-decimal n

pub read_fraction-pad :
    (sec d n : ℕ)
    → n < 10 ^ suc d
    → read_unsigned (decimal sec ++ b'.' ∷ pad (suc d) n) ≡ (sec * 10 ^ suc d + n, suc d)
read_fraction-pad sec d n h =
    read_unsigned-digits sec (pad (suc d) n)
    ∙ rw (read_decimal-shift sec (pad (suc d) n), length-pad d n h, read_decimal-pad (suc d) n)

-- Digits without a point.
before_point-all : (xs : List ℕ) → AllDigits xs → before_point xs ≡ xs
before_point-all [] h = refl
before_point-all (x ∷ xs) (d, _, h) =
    let e : (x == b'.') ≡ false = ground arith in rw e (ap (◌∷◌ x) (before_point-all xs h))

after_point-all : (xs : List ℕ) → AllDigits xs → after_point xs ≡ []
after_point-all [] h = refl
after_point-all (x ∷ xs) (d, _, h) =
    let e : (x == b'.') ≡ false = ground arith in rw e (after_point-all xs h)

pub read_unsigned-decimal : (n : ℕ) → read_unsigned (decimal n) ≡ (n, 0)
read_unsigned-decimal n = rw (
  before_point-all (decimal n) (AllDigits-decimal n),
  after_point-all (decimal n) (AllDigits-decimal n),
  append-nil,
  read_decimal-decimal n,
)

pub no_sign_all : (xs : List ℕ) → AllDigits xs → read_fraction xs ≡ (false, read_unsigned xs)
no_sign_all [] h = refl
no_sign_all (x ∷ xs) (d, _, h) = let e : (x == b'-') ≡ false = ground arith in rw e
