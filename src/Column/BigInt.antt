-- ===== src/Column/BigInt.antt =====
-- lib/column/bigint.go: the bytes of a big integer. Bytes are numbers below 256; the result is `none`
-- where FillBytes panics, or an index would be out of range.
pub mod Swap
pub mod Bytes
pub mod RoundTrip
mod Tests
use mathlib.Core.List.{map}
use clickhouse_go.Common.{
  ℕ, zero, suc, ◌+◌, ◌-◌, ◌*◌, ◌/◌, ◌%◌, ◌^◌, Bool, true, false, ◌&&◌, List, [], ◌∷◌, ◌++◌, Option,
  none, some, ltb, leb, if◌then◌else◌, length, get_elem?, set, ◌>>=◌,
}
use clickhouse_go.QueryParameters.{ℤ, pos, negsuc}

-- `^b` of a byte.
abbrev pub byte_not : ℕ → ℕ
byte_not b = 255 - b

abbrev pub swap_byte : (negate : Bool) → ℕ → ℕ
swap_byte true b = byte_not b
swap_byte false b = b

-- The loop of endianSwap, with the rounds that are left.
unfoldable pub swap_loop : (negate : Bool) → (rounds i : ℕ) → List ℕ → Option (List ℕ)
swap_loop negate zero i src = some src
swap_loop negate (suc k) i src = do
  a ← get_elem? src i
  b ← get_elem? src (length src - i - 1)
  swap_loop negate k (i + 1)
      (set (set src i (swap_byte negate b)) (length src - i - 1) (swap_byte negate a))

unfoldable pub endian_swap : List ℕ → (negate : Bool) → Option (List ℕ)
unfolding swap_loop
endian_swap src negate = swap_loop negate (length src / 2) 0 src

-- The lowest bytes of a number, highest first.
abbrev pub big_endian : ℕ → ℕ → List ℕ
big_endian zero n = []
big_endian (suc size) n = big_endian size (n / 256) ++ n % 256 ∷ []

-- FillBytes, which panics if the number needs more bytes.
unfoldable pub fill_bytes : (size : ℕ) → ℕ → Option (List ℕ)
fill_bytes size n = if ltb n (256 ^ size) then some (big_endian size n) else none

-- SetBytes
unfoldable pub set_bytes : (value : ℕ) → List ℕ → ℕ
set_bytes value [] = value
set_bytes value (b ∷ bs) = set_bytes (value * 256 + b) bs

-- bigIntToRaw: Not of a negative -(n + 1) is n.
unfoldable pub big_int_to_raw : (size : ℕ) → ℤ → Option (List ℕ)
unfolding endian_swap fill_bytes
big_int_to_raw size (pos n) = do dest ← fill_bytes size n; endian_swap dest false
big_int_to_raw size (negsuc n) = do dest ← fill_bytes size n; endian_swap dest true

-- `len(v) > 0 && v[0]&0x80 != 0`
abbrev pub top_bit : List ℕ → Bool
top_bit [] = false
top_bit (b ∷ bs) = leb 128 b

-- rawToBigInt behind endianSwap.
unfoldable pub big_int_of : (signed : Bool) → List ℕ → ℤ
unfolding set_bytes
big_int_of signed v =
    if signed && top_bit v then negsuc (set_bytes 0 (map byte_not v)) else pos (set_bytes 0 v)

unfoldable pub raw_to_big_int : List ℕ → (signed : Bool) → Option ℤ
unfolding endian_swap big_int_of
raw_to_big_int v signed = do v' ← endian_swap v false; some (big_int_of signed v')
