-- ===== src/Column/BigInt/Tests.antt =====
-- lib/column/bigint.go on two bytes.
use clickhouse_go.Common.{
  ℕ, ◌-◌, ◌*◌, ◌^◌, ◌≤◌, ◌<◌, true, false, not, List, [], ◌∷◌, none, some, ◌≡◌, refl, leb, length,
  if◌then◌else◌,
}
use clickhouse_go.Column.BigInt.{
  big_int_to_raw, raw_to_big_int, endian_swap, swap_loop, fill_bytes, set_bytes, big_int_of,
}
use clickhouse_go.Column.BigInt.RoundTrip.{big_int_to_raw-raw_to_big_int}
use clickhouse_go.QueryParameters.{pos, negsuc}

-- -2 and its bytes.
minus_two : big_int_to_raw 2 (negsuc 1) ≡ some (254 ∷ 255 ∷ [])
unfolding big_int_to_raw endian_swap swap_loop fill_bytes
minus_two = refl

minus_two_back : raw_to_big_int (254 ∷ 255 ∷ []) true ≡ some (negsuc 1)
unfolding raw_to_big_int endian_swap swap_loop big_int_of set_bytes
minus_two_back = refl

-- 2^15 in a signed column of two bytes is read back as -2^15.
too_high : raw_to_big_int (0 ∷ 128 ∷ []) true ≡ some (negsuc 32767)
unfolding raw_to_big_int endian_swap swap_loop big_int_of set_bytes
too_high = refl

two_bytes :
    (256 ^ 2 ≤ 32768
      → (big_int_to_raw 2 (pos 32768) ≡ none) × (big_int_to_raw 2 (negsuc 32768) ≡ none))
    × (32768 < 256 ^ 2
        → ((raw : List ℕ) × (big_int_to_raw 2 (pos 32768) ≡ some raw)
            × (length raw ≡ 2)
            × (raw_to_big_int raw false ≡ some (pos 32768))
            × (raw_to_big_int raw true
                ≡ some (
                    if leb (128 * 256 ^ 1) 32768 then negsuc (256 ^ 2 - 1 - 32768) else pos 32768)))
          × ((raw : List ℕ) × (big_int_to_raw 2 (negsuc 32768) ≡ some raw)
              × (length raw ≡ 2)
              × (raw_to_big_int raw true
                  ≡ some (
                      if not (leb (128 * 256 ^ 1) 32768)
                      then negsuc 32768
                      else pos (256 ^ 2 - 1 - 32768)))))
two_bytes = big_int_to_raw-raw_to_big_int 1 1 32768 refl
