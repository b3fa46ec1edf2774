-- ===== src/Column/LowCardinality/RoundTrip.antt =====
-- lib/column/lowcardinality.go: what is appended, encoded and decoded is read back.
use mathlib.Core.Path.{subst}
use mathlib.Core.Option.{some-injective}
use clickhouse_go.Common.{
  ℕ, zero, suc, ◌+◌, ◌^◌, ◌≤◌, Bool, true, false, ◌&&◌, List, [], ◌∷◌, Option, none, some, inl, inr,
  ◌≡◌, refl, sym, ap, ◌∙◌, arith, ◌==◌, if◌then◌else◌, length, get_elem?,
}
use clickhouse_go.Column.LowCardinality.{
  LowCardinality, Message, written, reset, keys_of, fill_keys, encode, decode, index_row_num,
  row_at, value_of, row, append,
}
use clickhouse_go.Column.LowCardinality.Good.{base, Points, AllPoint, Good, get_elem?-some_lt}
use clickhouse_go.Column.LowCardinality.Kept.{Kept, AllAccepted, append-Kept, reset-Kept}
use clickhouse_go.Column.LowCardinality.Encoding.{
  AllBelow, keys_of-empty, fill_keys-Filled, some_if, decode_at, encode-written,
}

module _ {A : Type 0} (same : A → A → Bool) (default : A) (accepts : A → Bool) (normal : A → A)
    (sound : (a b : A) → same a b ≡ true → a ≡ b) where
  below :
      (index : List A) (ks : List ℕ) (vs : List (Option A))
      → 1 ≤ length index
      → AllPoint same default accepts normal sound index ks vs
      → AllBelow (length index) ks
  below index [] [] l h = tt
  below index (k ∷ ks) (none ∷ vs) l (z, h) = (omega (arith, l, z), below index ks vs l h)
  below index (k ∷ ks) (some v ∷ vs) l ((_, e), h) =
      (get_elem?-some_lt index k (normal v) e, below index ks vs l h)
  below index [] (v ∷ vs) l h = absurd h
  below index (k ∷ ks) [] l h = absurd h

  AllPoint-length :
      (index : List A) (ks : List ℕ) (vs : List (Option A))
      → AllPoint same default accepts normal sound index ks vs
      → length ks ≡ length vs
  AllPoint-length index [] [] h = refl
  AllPoint-length index (k ∷ ks) (v ∷ vs) (p, h) = ap suc (AllPoint-length index ks vs h)
  AllPoint-length index [] (v ∷ vs) h = absurd h
  AllPoint-length index (k ∷ ks) [] h = absurd h

  -- What Row gives for an appended value: nil, or the default where the column has no nulls, for a
  -- null.
  abbrev pub shown : (nullable : Bool) → Option A → Option A
  shown nullable none = if nullable then none else some default
  shown nullable (some v) = some (normal v)

  row_shown :
      (nullable : Bool) (c : LowCardinality A) (k : ℕ) (v : Option A)
      → c.nullable ≡ nullable
      → get_elem? c.index 0 ≡ some default
      → Points same default accepts normal sound c.index k v
      → row_at c (some k) ≡ some (shown nullable v)
  row_shown nullable c k none n first z =
      ap (λ j. if j == 0 && c.nullable then some none else value_of (get_elem? c.index j)) z
      ∙ ap (λ b. if b then some none else value_of (get_elem? c.index 0)) n
      ∙ ap (λ o. if nullable then some none else value_of o) first
      ∙ some_if nullable none (some default)
  row_shown nullable c k (some v) n first (l, e) =
      let later : (k == 0) ≡ false = ground (arith, l) in
      ap (λ t. if t && c.nullable then some none else value_of (get_elem? c.index k)) later
      ∙ ap value_of e

  all_rows :
      (nullable : Bool) (c : LowCardinality A) (ks : List ℕ) (vs : List (Option A)) (i : ℕ)
      (v : Option A)
      → c.nullable ≡ nullable
      → get_elem? c.index 0 ≡ some default
      → AllPoint same default accepts normal sound c.index ks vs
      → get_elem? vs i ≡ some v
      → row_at c (get_elem? ks i) ≡ some (shown nullable v)
  all_rows nullable c [] [] i v n first h e = absurd (ground (arith, e))
  all_rows nullable c (k ∷ ks) (u ∷ vs) zero v n first (p, h) e =
      row_shown nullable c k u n first p ∙ ap (λ o. some (shown nullable o)) (some-injective _ _ e)
  all_rows nullable c (k ∷ ks) (u ∷ vs) (suc i) v n first (p, h) e =
      all_rows nullable c ks vs i v n first h e
  all_rows nullable c [] (u ∷ vs) i v n first h e = absurd h
  all_rows nullable c (k ∷ ks) [] i v n first h e = absurd h

  -- A column with rows is not the empty one.
  Kept-Good :
      {nullable : Bool} {c : LowCardinality A} {vs : List (Option A)}
      → Kept same default accepts normal sound nullable c vs
      → 1 ≤ length vs
      → Good same default accepts normal sound nullable c.index c.append_keys c.append_index vs
  Kept-Good {vs = vs} kept h = elim kept.state [
    | inl (_, _, _, e) ↦ absurd (omega (arith, h, ap length e))
    | inr g ↦ g
  ]

  roundtrip_of :
      (nullable : Bool) (c e : LowCardinality A) (vs : List (Option A))
      → Kept same default accepts normal sound nullable c vs
      → e.nullable ≡ nullable
      → 1 ≤ length vs
      → length vs + 2 ≤ 2 ^ 64
      → (m : Message A) × (d : LowCardinality A) × ((encode c).0 ≡ some m)
        × (decode e m ≡ inl d)
        × (d.rows ≡ length vs)
        × ((i : ℕ) (v : Option A) → get_elem? vs i ≡ some v → row d i ≡ some (shown nullable v))
  unfolding row index_row_num
  roundtrip_of nullable c e vs kept null h big =
      let g = Kept-Good kept h in
      let two : base nullable ≤ 2 = ground arith in
      let one : 1 ≤ base nullable = ground arith in
      let n = length c.index in
      let (keys, key, index, _, _) =
        fill_keys-Filled c n (keys_of-empty c kept.no8 kept.no16 kept.no32 kept.no64) kept.no8
          kept.no16 kept.no32 kept.no64 (omega (arith, g.sized, two))
          (omega (arith, g.sized, g.few, two, big))
          (below c.index c.append_keys vs (omega (arith, g.sized, one)) g.points) in
      let c' = fill_keys c in
      let (d, dec, dkeys, dindex, dnull, drows) =
        decode_at e c'.key (length c'.index) (length (keys_of c')) c'.index (keys_of c') key in
      (
        written c',
        d,
        encode-written c (length vs) kept.rows h,
        dec,
        drows ∙ ap length keys ∙ AllPoint-length c.index c.append_keys vs g.points,
        λ i v k.
            ap (λ ks. row_at d (get_elem? ks i)) (dkeys ∙ keys)
            ∙ all_rows nullable d c.append_keys vs i v (dnull ∙ null)
                (ap (λ xs. get_elem? xs 0) (dindex ∙ index) ∙ g.first)
                (subst (λ xs. AllPoint same default accepts normal sound xs c.append_keys vs)
                  (sym (dindex ∙ index)) g.points)
                k,
      )

  -- Values appended to a column that was reset, at least one and fewer than 2^64 - 1, which the
  -- dictionary takes and which, no NaN, are the same as themselves, where map keys that are the same
  -- are equal: Append has no error, Encode writes a message, Decode of it into a column that was reset has no error, and Row i of that column is the
  -- i-th value: nil for a null, the dictionary's default if the columns have no nulls, and a time
  -- without its fraction of a second.
  pub append-encode-decode :
      (c e : LowCardinality A) (vs : List (Option A))
      → e.nullable ≡ c.nullable
      → AllAccepted same default accepts normal sound vs
      → 1 ≤ length vs
      → length vs + 2 ≤ 2 ^ 64
      → let r = append same default accepts normal (reset c) vs in
        (r.1 ≡ false)
        × (m : Message A) × (d : LowCardinality A) × ((encode r.0).0 ≡ some m)
        × (decode (reset e) m ≡ inl d)
        × (d.rows ≡ length vs)
        × ((i : ℕ) (v : Option A) → get_elem? vs i ≡ some v → row d i ≡ some (shown c.nullable v))
  append-encode-decode c e vs same_nulls all h big =
      let (kept, done) =
        append-Kept same default accepts normal sound (reset c) [] vs
          (reset-Kept same default accepts normal sound c) all in
      let (m, d, e1, e2, e3, e4) =
        roundtrip_of c.nullable (append same default accepts normal (reset c) vs).0 (reset e) vs
          kept (unfold reset in same_nulls) h big in
      (done, m, d, e1, e2, e3, e4)
