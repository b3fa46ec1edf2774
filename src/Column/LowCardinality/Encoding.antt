-- ===== src/Column/LowCardinality/Encoding.antt =====
-- lib/column/lowcardinality.go: what Encode writes of a column, and what Decode makes of it.
use native.Mathlib.Nat.{mod-eq_of_lt}
use clickhouse_go.Common.{
  if-both, ℕ, zero, suc, ◌+◌, ◌%◌, ◌^◌, ◌≤◌, ◌<◌, Bool, true, false, List, [], ◌∷◌, ◌++◌, some, inl,
  ◌≡◌, refl, ap, ◌∙◌, arith, ◌==◌, ltb, if◌then◌else◌, length,
}
use clickhouse_go.Column.LowCardinality.{
  LowCardinality, Message, written, keys_of, cut, fill_width, fill_keys, encode, decode,
}

abbrev pub AllBelow : ℕ → List ℕ → Type 0
AllBelow n [] = Unit
AllBelow n (k ∷ ks) = (k < n) × AllBelow n ks

cut-AllBelow : (bits n : ℕ) (ks : List ℕ) → n ≤ 2 ^ bits → AllBelow n ks → cut bits ks ≡ ks
cut-AllBelow bits n [] h all = refl
cut-AllBelow bits n (k ∷ ks) h (l, all) =
    let e : k % 2 ^ bits ≡ k = mod-eq_of_lt (omega (arith, h, l)) in
    ap (λ j. j ∷ cut bits ks) e ∙ ap (◌∷◌ k) (cut-AllBelow bits n ks h all)

fits :
    (bits n : ℕ) (old ks : List ℕ)
    → old ≡ []
    → n ≤ 2 ^ bits
    → AllBelow n ks
    → old ++ cut bits ks ≡ ks
fits bits n old ks e h all = ap (λ o. o ++ cut bits ks) e ∙ cut-AllBelow bits n ks h all

module _ {A : Type 0} where
  pub keys_of-empty :
      (c : LowCardinality A)
      → c.keys8 ≡ []
      → c.keys16 ≡ []
      → c.keys32 ≡ []
      → c.keys64 ≡ []
      → keys_of c ≡ []
  unfolding keys_of
  keys_of-empty c e8 e16 e32 e64 =
      if-both (λ x. x ≡ []) (c.key == 0) _ _ (λ _. e8)
        (λ _.
          if-both (λ x. x ≡ []) (c.key == 1) _ _ (λ _. e16)
            (λ _. if-both (λ x. x ≡ []) (c.key == 2) _ _ (λ _. e32) (λ _. e64)))

  -- What Encode makes of the keys: none is cut.
  abbrev pub Filled : LowCardinality A → LowCardinality A → Type 0
  Filled c c' =
      (keys_of c' ≡ c.append_keys)
      × (c'.key ≤ 3)
      × (c'.index ≡ c.index)
      × (c'.nullable ≡ c.nullable)
      × (c'.rows ≡ c.rows)

  fill_width-Filled :
      (c : LowCardinality A) (ix_len n : ℕ)
      → c.keys8 ≡ []
      → c.keys16 ≡ []
      → c.keys32 ≡ []
      → c.keys64 ≡ []
      → n ≤ ix_len + 2
      → n ≤ 2 ^ 64
      → AllBelow n c.append_keys
      → Filled c (fill_width ix_len c)
  unfolding fill_width keys_of
  fill_width-Filled c ix_len n e8 e16 e32 e64 h big all =
      if-both (Filled c) (ltb ix_len 255) _ _
        (λ small. (
          fits 8 n c.keys8 c.append_keys e8 (ground (arith, small, h)) all,
          omega arith,
          refl,
          refl,
          refl,
        ))
        (λ _.
          if-both (Filled c) (ltb ix_len 65535) _ _
            (λ small. (
              fits 16 n c.keys16 c.append_keys e16 (ground (arith, small, h)) all,
              omega arith,
              refl,
              refl,
              refl,
            ))
            (λ _.
              if-both (Filled c) (ltb ix_len 4294967295) _ _
                (λ small. (
                  fits 32 n c.keys32 c.append_keys e32 (ground (arith, small, h)) all,
                  omega arith,
                  refl,
                  refl,
                  refl,
                ))
                (λ _.
                  (fits 64 n c.keys64 c.append_keys e64 big all, omega arith, refl, refl, refl))))

  -- The width that Encode takes holds each key of the dictionary.
  pub fill_keys-Filled :
      (c : LowCardinality A) (n : ℕ)
      → keys_of c ≡ []
      → c.keys8 ≡ []
      → c.keys16 ≡ []
      → c.keys32 ≡ []
      → c.keys64 ≡ []
      → n ≤ length c.append_index + 2
      → n ≤ 2 ^ 64
      → AllBelow n c.append_keys
      → Filled c (fill_keys c)
  unfolding fill_keys
  fill_keys-Filled c n e e8 e16 e32 e64 h big all =
      if-both (Filled c) (ltb 0 (length (keys_of c))) _ _
        (λ filled. absurd (ground (arith, filled, ap length e)))
        (λ _. fill_width-Filled c (length c.append_index) n e8 e16 e32 e64 h big all)

pub some_if {ℓ} :
    {A : Type ℓ} (b : Bool) (x y : A) → (if b then some x else some y) ≡ some (if b then x else y)
some_if true x y = refl
some_if false x y = refl

module _ {A : Type 0} where
  -- Decode of what Encode wrote with one of the four keys.
  abbrev pub Decoded : LowCardinality A → Message A → Type 0
  Decoded c m =
      (d : LowCardinality A) × (decode c m ≡ inl d)
      × (keys_of d ≡ m.keys)
      × (d.index ≡ m.index)
      × (d.nullable ≡ c.nullable)
      × (d.rows ≡ m.keys_rows)

  pub decode_at :
      (c : LowCardinality A) (k n r : ℕ) (index : List A) (keys : List ℕ)
      → k ≤ 3
      → Decoded c (record {
        index_serialization_type = 1536 + k;
        index_rows = n;
        index = index;
        keys_rows = r;
        keys = keys;
      })
  unfolding decode keys_of
  decode_at c zero n r index keys h = (_, refl, refl, refl, refl, refl)
  decode_at c (suc zero) n r index keys h = (_, refl, refl, refl, refl, refl)
  decode_at c (suc (suc zero)) n r index keys h = (_, refl, refl, refl, refl, refl)
  decode_at c (suc (suc (suc zero))) n r index keys h = (_, refl, refl, refl, refl, refl)
  decode_at c (suc (suc (suc (suc k)))) n r index keys h = absurd (omega (arith, h))

  pub encode-written :
      (c : LowCardinality A) (n : ℕ)
      → c.rows ≡ n
      → 1 ≤ n
      → (encode c).0 ≡ some (written (fill_keys c))
  unfolding encode
  encode-written c n e h =
      let some_rows : (c.rows == 0) ≡ false = ground (arith, e, h) in rw some_rows
