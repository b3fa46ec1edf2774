-- ===== src/Common/Decimal.antt =====
-- The decimal digits of a number, as fmt prints %d for a number that is not negative.
use clickhouse_go.Common.{
  ℕ, zero, suc, ◌+◌, ◌-◌, ◌*◌, ◌/◌, ◌%◌, ◌<◌, ◌≤◌, ◌^◌, length, List, [], ◌∷◌, ◌++◌, ltb, ◌≡◌, refl,
  ◌∙◌, inl, inr, arith, if◌then◌else◌, Bool-cases, length-append,
}
use native.Mathlib.Nat.{pow-suc}

-- The fuel is one more than the number: each digit divides it by ten.
decimal_fuel : ℕ → ℕ → List ℕ
decimal_fuel zero n = []
decimal_fuel (suc fuel) n =
    let higher = decimal_fuel fuel (n / 10) in
    if ltb n 10 then (n + 48) ∷ [] else higher ++ (n % 10 + 48) ∷ []

unfoldable pub decimal : ℕ → List ℕ
unfolding decimal_fuel
decimal n = decimal_fuel (suc n) n

-- The number that digits stand for.
abbrev pub read_decimal : ℕ → List ℕ → ℕ
read_decimal acc [] = acc
read_decimal acc (c ∷ cs) = read_decimal (acc * 10 + (c - 48)) cs

pub read_decimal-append :
    (acc : ℕ) (xs ys : List ℕ) → read_decimal acc (xs ++ ys) ≡ read_decimal (read_decimal acc xs) ys
read_decimal-append acc [] ys = refl
read_decimal-append acc (x ∷ xs) ys = read_decimal-append (acc * 10 + (x - 48)) xs ys

read_decimal-decimal_fuel : (fuel n : ℕ) → n < fuel → read_decimal 0 (decimal_fuel fuel n) ≡ n
unfolding decimal_fuel
read_decimal-decimal_fuel zero n h = elim h [ ]
read_decimal-decimal_fuel (suc fuel) n h = elim (Bool-cases (ltb n 10)) [
  | inl small ↦ ground arith
  | inr big ↦ rw big (
      read_decimal-append 0 (decimal_fuel fuel (n / 10)) ((n % 10 + 48) ∷ [])
      ∙ omega (arith, read_decimal-decimal_fuel fuel (n / 10) (ground arith)))
]

-- The digits read back as the number: decimal never runs out of fuel and loses nothing.
pub read_decimal-decimal : (n : ℕ) → read_decimal 0 (decimal n) ≡ n
unfolding decimal
read_decimal-decimal n = read_decimal-decimal_fuel (suc n) n (omega arith)

abbrev pub AllDigits : List ℕ → Type 0
AllDigits [] = Unit {0}
AllDigits (c ∷ cs) = (48 ≤ c) × (c ≤ 57) × AllDigits cs

AllDigits-append : (xs ys : List ℕ) → AllDigits xs → AllDigits ys → AllDigits (xs ++ ys)
AllDigits-append [] ys h k = k
AllDigits-append (x ∷ xs) ys (d, e, h) k = (d, e, AllDigits-append xs ys h k)

AllDigits-decimal_fuel : (fuel n : ℕ) → AllDigits (decimal_fuel fuel n)
unfolding decimal_fuel
AllDigits-decimal_fuel zero n = tt
AllDigits-decimal_fuel (suc fuel) n = elim (Bool-cases (ltb n 10)) [
  | inl small ↦ rw small (omega arith, ground arith, tt)
  | inr big ↦ rw big (
      AllDigits-append (decimal_fuel fuel (n / 10)) ((n % 10 + 48) ∷ [])
        (AllDigits-decimal_fuel fuel (n / 10)) (omega arith, omega arith, tt))
]

pub AllDigits-decimal : (n : ℕ) → AllDigits (decimal n)
unfolding decimal
AllDigits-decimal n = AllDigits-decimal_fuel (suc n) n

length-decimal_fuel : (fuel n d : ℕ) → n < 10 ^ suc d → length (decimal_fuel fuel n) ≤ suc d
unfolding decimal_fuel
length-decimal_fuel zero n d h = omega arith
length-decimal_fuel (suc fuel) n zero h = elim (Bool-cases (ltb n 10)) [
  | inl small ↦ rw small (omega arith)
  | inr big ↦ absurd (ground arith)
]
length-decimal_fuel (suc fuel) n (suc d) h =
    let lower : n / 10 < 10 ^ suc d = omega (arith, pow-suc 10 (suc d)) in
    let shorter = length-decimal_fuel fuel (n / 10) d lower in
    elim (Bool-cases (ltb n 10)) [
      | inl small ↦ rw small (omega arith)
      | inr big ↦ rw (big, length-append) (omega (arith, shorter))
    ]

pub length-decimal : (n d : ℕ) → n < 10 ^ suc d → length (decimal n) ≤ suc d
unfolding decimal
length-decimal n d h = length-decimal_fuel (suc n) n d h

length-decimal_fuel_pos : (fuel n : ℕ) → 0 < length (decimal_fuel (suc fuel) n)
unfolding decimal_fuel
length-decimal_fuel_pos fuel n = elim (Bool-cases (ltb n 10)) [
  | inl small ↦ rw small (omega arith)
  | inr big ↦ rw (big, length-append) (omega arith)
]

pub length-decimal_pos : (n : ℕ) → 0 < length (decimal n)
unfolding decimal
length-decimal_pos n = length-decimal_fuel_pos n n
