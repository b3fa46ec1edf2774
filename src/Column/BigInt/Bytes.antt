-- ===== src/Column/BigInt/Bytes.antt =====
-- lib/column/bigint.go: the bytes of a number.
use native.Mathlib.Nat.{pow-suc}
use mathlib.Core.List.{map}
use clickhouse_go.Common.{
  ℕ, zero, suc, ◌+◌, ◌-◌, ◌*◌, ◌/◌, ◌%◌, ◌^◌, ◌≤◌, ◌<◌, not, List, [], ◌∷◌, ◌++◌, ◌≡◌, refl, ap,
  ◌∙◌, arith, leb, length, length-append,
}
use clickhouse_go.Column.BigInt.{byte_not, big_endian, set_bytes, top_bit}

pub length-big_endian : (size n : ℕ) → length (big_endian size n) ≡ size
length-big_endian zero n = refl
length-big_endian (suc size) n = omega (
  arith,
  length-append (big_endian size (n / 256)) (n % 256 ∷ []),
  length-big_endian size (n / 256),
)

pub map-append_last :
    (f : ℕ → ℕ) (xs : List ℕ) (b : ℕ) → map f (xs ++ b ∷ []) ≡ map f xs ++ f b ∷ []
map-append_last f [] b = refl
map-append_last f (x ∷ xs) b = ap (◌∷◌ (f x)) (map-append_last f xs b)

set_bytes-append :
    (v : ℕ) (xs : List ℕ) (b : ℕ) → set_bytes v (xs ++ b ∷ []) ≡ set_bytes v xs * 256 + b
unfolding set_bytes
set_bytes-append v [] b = refl
set_bytes-append v (x ∷ xs) b = set_bytes-append (v * 256 + x) xs b

pub set_bytes-big_endian : (size n : ℕ) → n < 256 ^ size → set_bytes 0 (big_endian size n) ≡ n
set_bytes-big_endian zero n h = unfold set_bytes in omega (arith, h)
set_bytes-big_endian (suc size) n h =
    let lower : n / 256 < 256 ^ size = omega (arith, h, pow-suc 256 size) in
    omega (
      arith,
      set_bytes-append 0 (big_endian size (n / 256)) (n % 256),
      set_bytes-big_endian size (n / 256) lower,
    )

-- The bytes' complements are the bytes of what is left to the highest number.
pub set_bytes-byte_not :
    (size n : ℕ)
    → n < 256 ^ size
    → set_bytes 0 (map byte_not (big_endian size n)) ≡ 256 ^ size - 1 - n
set_bytes-byte_not zero n h = unfold set_bytes in omega (arith, h)
set_bytes-byte_not (suc size) n h =
    let lower : n / 256 < 256 ^ size = omega (arith, h, pow-suc 256 size) in
    ap (set_bytes 0) (map-append_last byte_not (big_endian size (n / 256)) (n % 256))
    ∙ omega (
      arith,
      pow-suc 256 size,
      set_bytes-append 0 (map byte_not (big_endian size (n / 256))) (byte_not (n % 256)),
      set_bytes-byte_not size (n / 256) lower,
      lower,
    )

abbrev pub AllBytes : List ℕ → Type 0
AllBytes [] = Unit
AllBytes (b ∷ bs) = (b ≤ 255) × AllBytes bs

AllBytes-append_last : (xs : List ℕ) (b : ℕ) → AllBytes xs → b ≤ 255 → AllBytes (xs ++ b ∷ [])
AllBytes-append_last [] b h k = (k, tt)
AllBytes-append_last (x ∷ xs) b (l, h) k = (l, AllBytes-append_last xs b h k)

pub AllBytes-big_endian : (size n : ℕ) → AllBytes (big_endian size n)
AllBytes-big_endian zero n = tt
AllBytes-big_endian (suc size) n =
    AllBytes-append_last (big_endian size (n / 256)) (n % 256) (AllBytes-big_endian size (n / 256))
      (omega arith)

pub map-byte_not : (xs : List ℕ) → AllBytes xs → map byte_not (map byte_not xs) ≡ xs
map-byte_not [] h = refl
map-byte_not (x ∷ xs) (l, h) =
    let e : 255 - (255 - x) ≡ x = omega (arith, l) in
    ap (λ y. y ∷ map byte_not (map byte_not xs)) e ∙ ap (◌∷◌ x) (map-byte_not xs h)

top_bit-append : (xs ys : List ℕ) → 1 ≤ length xs → top_bit (xs ++ ys) ≡ top_bit xs
top_bit-append [] ys h = absurd (omega (arith, h))
top_bit-append (x ∷ xs) ys h = refl

pub top_bit-big_endian :
    (size n : ℕ) → n < 256 ^ suc size → top_bit (big_endian (suc size) n) ≡ leb (128 * 256 ^ size) n
top_bit-big_endian zero n h = ground (arith, h)
top_bit-big_endian (suc size) n h =
    let lower : n / 256 < 256 ^ suc size = omega (arith, h, pow-suc 256 (suc size)) in
    top_bit-append (big_endian (suc size) (n / 256)) (n % 256 ∷ [])
      (omega (arith, length-big_endian (suc size) (n / 256)))
    ∙ top_bit-big_endian size (n / 256) lower
    ∙ ground (arith, pow-suc 256 size)

pub top_bit-byte_not :
    (xs : List ℕ) → AllBytes xs → 1 ≤ length xs → top_bit (map byte_not xs) ≡ not (top_bit xs)
top_bit-byte_not [] h k = absurd (omega (arith, k))
top_bit-byte_not (x ∷ xs) (l, h) k = ground (arith, l)
