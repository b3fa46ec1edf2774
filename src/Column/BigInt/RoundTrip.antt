-- ===== src/Column/BigInt/RoundTrip.antt =====
-- lib/column/bigint.go: which numbers bigIntToRaw takes, and what rawToBigInt makes of their bytes.
use mathlib.Core.List.{map}
use clickhouse_go.Common.{
  ℕ, suc, ◌+◌, ◌-◌, ◌*◌, ◌^◌, ◌≤◌, ◌<◌, Bool, true, false, not, ◌&&◌, List, [], ◌∷◌, none, some,
  ◌>>=◌, ◌≡◌, refl, sym, ap, ◌∙◌, arith, leb, ltb, length, if◌then◌else◌,
}
use clickhouse_go.Column.BigInt.{
  byte_not, swap_byte, endian_swap, big_endian, fill_bytes, set_bytes, big_int_to_raw, big_int_of,
  raw_to_big_int,
}
use clickhouse_go.Column.BigInt.Bytes.{
  length-big_endian, set_bytes-big_endian, set_bytes-byte_not, AllBytes-big_endian, map-byte_not,
  top_bit-big_endian, top_bit-byte_not,
}
use clickhouse_go.Column.BigInt.Swap.{flip, flip-flip, length-flip, endian_swap-flip}
use clickhouse_go.QueryParameters.{pos, negsuc}

length-map : (f : ℕ → ℕ) (xs : List ℕ) → length (map f xs) ≡ length xs
length-map f [] = refl
length-map f (x ∷ xs) = ap suc (length-map f xs)

map_same : (xs : List ℕ) → map (swap_byte false) xs ≡ xs
map_same [] = refl
map_same (x ∷ xs) = ap (◌∷◌ x) (map_same xs)

-- Two swaps of an even number of bytes, the second without complements.
swap_back :
    (half : ℕ) (be : List ℕ) (negate : Bool)
    → length be ≡ half + half
    → (raw : List ℕ) × (endian_swap be negate ≡ some raw)
      × (length raw ≡ half + half)
      × (endian_swap raw false ≡ some (map (swap_byte negate) be))
swap_back half be negate h =
    let raw = flip (map (swap_byte negate) be) in
    let n : length raw ≡ half + half =
      length-flip (map (swap_byte negate) be) ∙ length-map (swap_byte negate) be ∙ h in
    (
      raw,
      endian_swap-flip half be negate h,
      n,
      endian_swap-flip half raw false n
          ∙ ap (λ l. some (flip l)) (map_same raw)
          ∙ ap some (flip-flip (map (swap_byte negate) be)),
    )

fill_bytes-fits : (size n : ℕ) → n < 256 ^ size → fill_bytes size n ≡ some (big_endian size n)
unfolding fill_bytes
fill_bytes-fits size n h = let e : ltb n (256 ^ size) ≡ true = ground (arith, h) in rw e

fill_bytes-panics : (size n : ℕ) → 256 ^ size ≤ n → fill_bytes size n ≡ none
unfolding fill_bytes
fill_bytes-panics size n h = let e : ltb n (256 ^ size) ≡ false = ground (arith, h) in rw e

-- What the bytes of a number that is not negative are read as, with a sign bit and without.
big_int_of-bytes :
    (m n : ℕ) (signed : Bool)
    → n < 256 ^ suc m
    → big_int_of signed (big_endian (suc m) n)
      ≡ (if signed && leb (128 * 256 ^ m) n then negsuc (256 ^ suc m - 1 - n) else pos n)
unfolding big_int_of
big_int_of-bytes m n signed h =
    ap
      (λ t.
        if signed && t
        then negsuc (set_bytes 0 (map byte_not (big_endian (suc m) n)))
        else pos (set_bytes 0 (big_endian (suc m) n)))
      (top_bit-big_endian m n h)
    ∙ ap
        (λ k.
          if signed && leb (128 * 256 ^ m) n
          then negsuc k
          else pos (set_bytes 0 (big_endian (suc m) n)))
        (set_bytes-byte_not (suc m) n h)
    ∙ ap (λ k. if signed && leb (128 * 256 ^ m) n then negsuc (256 ^ suc m - 1 - n) else pos k)
        (set_bytes-big_endian (suc m) n h)

-- And those of a negative one.
big_int_of-complement :
    (m n : ℕ)
    → n < 256 ^ suc m
    → big_int_of true (map byte_not (big_endian (suc m) n))
      ≡ (if not (leb (128 * 256 ^ m) n) then negsuc n else pos (256 ^ suc m - 1 - n))
unfolding big_int_of
big_int_of-complement m n h =
    let be = big_endian (suc m) n in
    let bytes = AllBytes-big_endian (suc m) n in
    let some_bytes : 1 ≤ length be = omega (arith, length-big_endian (suc m) n) in
    ap
      (λ t.
        if t
        then negsuc (set_bytes 0 (map byte_not (map byte_not be)))
        else pos (set_bytes 0 (map byte_not be)))
      (top_bit-byte_not be bytes some_bytes ∙ ap not (top_bit-big_endian m n h))
    ∙ ap
        (λ k. if not (leb (128 * 256 ^ m) n) then negsuc k else pos (set_bytes 0 (map byte_not be)))
        (ap (set_bytes 0) (map-byte_not be bytes) ∙ set_bytes-big_endian (suc m) n h)
    ∙ ap (λ k. if not (leb (128 * 256 ^ m) n) then negsuc n else pos k)
        (set_bytes-byte_not (suc m) n h)

-- A column of an even number of bytes, `suc m`, with 128 * 256^m = 2^(8 * suc m - 1): a number that
-- needs more bytes, or whose complement does, panics in FillBytes. Else it takes just the column's
-- bytes. From them rawToBigInt without sign gives a number that is not negative back; with sign it
-- gives back each number within the signed bounds, and one outside them less or more 2^(8 * suc m).
pub big_int_to_raw-raw_to_big_int :
    (half m n : ℕ)
    → suc m ≡ half + half
    → (256 ^ suc m ≤ n
        → (big_int_to_raw (suc m) (pos n) ≡ none) × (big_int_to_raw (suc m) (negsuc n) ≡ none))
      × (n < 256 ^ suc m
          → ((raw : List ℕ) × (big_int_to_raw (suc m) (pos n) ≡ some raw)
              × (length raw ≡ suc m)
              × (raw_to_big_int raw false ≡ some (pos n))
              × (raw_to_big_int raw true
                  ≡ some (if leb (128 * 256 ^ m) n then negsuc (256 ^ suc m - 1 - n) else pos n)))
            × ((raw : List ℕ) × (big_int_to_raw (suc m) (negsuc n) ≡ some raw)
                × (length raw ≡ suc m)
                × (raw_to_big_int raw true
                    ≡ some (
                        if not (leb (128 * 256 ^ m) n)
                        then negsuc n
                        else pos (256 ^ suc m - 1 - n)))))
unfolding big_int_to_raw raw_to_big_int
big_int_to_raw-raw_to_big_int half m n even = (
  λ h. (
    ap (λ o. o >>= λ d. endian_swap d false) (fill_bytes-panics (suc m) n h),
    ap (λ o. o >>= λ d. endian_swap d true) (fill_bytes-panics (suc m) n h),
  ),
  λ h.
      let be = big_endian (suc m) n in
      let n_bytes = length-big_endian (suc m) n ∙ even in
      let (raw, e, k, back) = swap_back half be false n_bytes in
      let (raw', e', k', back') = swap_back half be true n_bytes in
      let read : (signed : Bool) → raw_to_big_int raw signed ≡ some (big_int_of signed be) =
        λ signed. ap (λ o. o >>= λ v. some (big_int_of signed v)) (back ∙ ap some (map_same be)) in
      (
        (
          raw,
          ap (λ o. o >>= λ d. endian_swap d false) (fill_bytes-fits (suc m) n h) ∙ e,
          k ∙ sym even,
          read false ∙ ap some (big_int_of-bytes m n false h),
          read true ∙ ap some (big_int_of-bytes m n true h),
        ),
        (
          raw',
          ap (λ o. o >>= λ d. endian_swap d true) (fill_bytes-fits (suc m) n h) ∙ e',
          k' ∙ sym even,
          ap (λ o. o >>= λ v. some (big_int_of true v)) back'
              ∙ ap some (big_int_of-complement m n h),
        ),
      ),
)
