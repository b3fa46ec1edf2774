-- ===== src/Block/RoundTrip.antt =====
-- Block.Encode and Block.Decode of lib/proto/block.go against one another, for columns and a wire
-- that read back what they have written.
use mathlib.Core.Path.{subst, ap₂}
use clickhouse_go.Common.{
  ℕ, suc, ◌<◌, ◌≤◌, ◌^◌, Bool, true, false, List, [], ◌∷◌, ◌++◌, none, inl, inr, length, ◌≡◌, refl,
  sym, ap, ◌∙◌, arith, ltb, leb, ◌==◌, if◌then◌else◌, Bool-cases,
}
use mathlib.Core.List.{map, append_assoc}
use clickhouse_go.Block.{
  Bytes, Reader, give, Wire, ColumnOps, Block, AllRows, decode_failed, rows_of,
}
use clickhouse_go.Block.Header.{
  encode, encode_one, encode_header, mismatched, decode, decode_column, decode_columns,
  state_prefix, assembled, read_rows, read_prefix, serialization, read_serialization, info, behind,
  headed, encode_columns, decode_block_info, made, counted,
}
use clickhouse_go.Block.Header.Loop.{all_bytes, AllWrite, encode_columns-append, behind_encode}
use clickhouse_go.Block.Reads.{
  Reads, Reads-bind, Reads-last, Reads-give, Reads-wrap, widened, Reads-guard,
}

-- What the ch-go library promises of its writer and its reader.
pub record WireLaws {E : Type 0} (w : Wire E) : Type 0 where
  pub uvarint_lem : (n : ℕ) → n < 2 ^ 64 → Reads w.read_uvarint (w.put_uvarint n) n
  pub bool_lem : (b : Bool) → Reads w.read_bool (w.put_bool b) b
  pub int32_lem : (n : ℕ) → n < 2 ^ 32 → Reads w.read_int32 (w.put_int32 n) n
  pub string_lem : (s : Bytes) → Reads w.read_string (w.put_string s) s

module _ {Col V E : Type 0} (w : Wire E) (ops : ColumnOps Col V E) where
  abbrev pub read_state : Col → Reader E Col
  read_state c = if ops.is_custom c then ops.read_state_prefix c else give c

  -- A column `c` that its kind can read back: Type.Column makes an empty column from its name and
  -- its type, which reads the state prefix and then the rows, and holds what `c` held.
  pub record Restores {X : Type 0} (content : Col → X) (c : Col) : Type 0 where
    pub empty : Col
    pub primed : Col
    pub restored : Col
    pub prefix : Bytes
    pub make_lem : ops.make (ops.name_of c) (ops.type_of c) ≡ inl empty
    pub prefix_lem : state_prefix w ops c ≡ (prefix, none)
    pub prime_lem : Reads (read_state empty) prefix primed
    pub decode_lem : Reads (ops.decode (ops.rows c) primed) (ops.encode c).0 restored
    pub content_lem : content restored ≡ content c

few_rows : (n : ℕ) → n ≤ 1000000000 → leb n 1000000000 ≡ true
few_rows n h = ground arith

suc-ne-zero : (n : ℕ) → (suc n == 0) ≡ false
suc-ne-zero n = ground arith

module _ {Col V E X : Type 0} {w : Wire E} (laws : WireLaws w) (ops : ColumnOps Col V E)
    (content : Col → X) (revision : ℕ) where
  abbrev pub AllRestore : List Col → Type 0
  AllRestore [] = Unit {0}
  AllRestore (c ∷ cs) = Restores w ops content c × AllRestore cs

  abbrev pub all_restored : (cs : List Col) → AllRestore cs → List (Bytes × Col)
  all_restored [] h = []
  all_restored (c ∷ cs) (h, hs) = (ops.name_of c, h.restored) ∷ all_restored cs hs

  AllRestore-AllWrite : (cs : List Col) → AllRestore cs → AllWrite w ops revision cs
  unfolding encode_one
  AllRestore-AllWrite [] h = tt
  AllRestore-AllWrite (c ∷ cs) (h, hs) = (rw h.prefix_lem refl, AllRestore-AllWrite cs hs)

  encode_one-Restores :
      (c : Col) (h : Restores w ops content c)
      → (encode_one w ops revision c).0
        ≡ w.put_string (ops.name_of c)
          ++ (w.put_string (ops.type_of c)
              ++ (serialization w ops revision ++ (h.prefix ++ (ops.encode c).0)))
  unfolding encode_one
  encode_one-Restores c h = rw h.prefix_lem (rw (append_assoc, append_assoc) refl)

  Reads-made :
      (c : Col) (h : Restores w ops content c)
      → Reads (made w ops (ops.make (ops.name_of c) (ops.type_of c))) [] h.empty
  Reads-made c h = rw h.make_lem Reads-give

  Reads-serialization :
      (name : Bytes)
      → Reads (read_serialization w ops revision name) (serialization w ops revision) tt
  Reads-serialization name = elim (Bool-cases (leb 54454 revision)) [
    | inl new ↦ rw new (Reads-last _ (Reads-wrap _ (laws.bool_lem false)) Reads-give)
    | inr old ↦ rw old Reads-give
  ]

  Reads-read_prefix :
      (c : Col) (h : Restores w ops content c)
      → Reads (read_prefix w ops (ops.name_of c) h.empty) h.prefix h.primed
  Reads-read_prefix c h = elim (Bool-cases (ops.is_custom h.empty)) [
    | inl custom ↦ rw custom (Reads-wrap _ (rw custom at h.prime_lem))
    | inr plain ↦
        rw plain (widened (λ e. decode_failed e (ops.name_of c)) h.empty (rw plain at h.prime_lem))
  ]

  Reads-read_rows :
      (c : Col) (h : Restores w ops content c) (n : ℕ)
      → ops.rows c ≡ suc n
      → Reads
          (read_rows w ops (suc n) (ops.name_of c) h.empty)
          (h.prefix ++ (ops.encode c).0)
          h.restored
  Reads-read_rows c h n e =
      rw (suc-ne-zero n)
        (Reads-bind _ (Reads-read_prefix c h) (Reads-wrap _ (rw e at h.decode_lem)))

  Reads-decode_column :
      (c : Col) (h : Restores w ops content c) (n : ℕ)
      → ops.rows c ≡ suc n
      → Reads
          (decode_column w ops revision (suc n))
          (encode_one w ops revision c).0
          (ops.name_of c, h.restored)
  unfolding decode_column
  Reads-decode_column c h n e = rw (encode_one-Restores c h) (
      Reads-bind _ (Reads-wrap _ (laws.string_lem (ops.name_of c))) (
        Reads-bind _ (Reads-wrap _ (laws.string_lem (ops.type_of c))) (
          Reads-bind _ (Reads-made c h) (
            Reads-bind _ (Reads-serialization (ops.name_of c))
              (Reads-last _ (Reads-read_rows c h n e) Reads-give)))))

  Reads-decode_columns :
      (n : ℕ) (cs : List Col) (h : AllRestore cs)
      → AllRows ops (suc n) cs
      → Reads
          (decode_columns w ops revision (suc n) (length cs))
          (all_bytes w ops revision cs)
          (all_restored cs h)
  unfolding decode_columns all_bytes
  Reads-decode_columns n [] h r = Reads-give
  Reads-decode_columns n (c ∷ cs) (h, hs) (r, rs) =
      Reads-bind _ (Reads-decode_column c h n r)
        (Reads-last _ (Reads-decode_columns n cs hs rs) Reads-give)

  Reads-info :
      Reads (if ltb 0 revision then decode_block_info w ops else give tt) (info w ops revision) tt
  Reads-info = elim (Bool-cases (ltb 0 revision)) [
    | inl new ↦ rw new (
        Reads-bind _ (Reads-wrap _ (laws.uvarint_lem 1 (omega arith))) (
          Reads-bind _ (Reads-wrap _ (laws.bool_lem false)) (
            Reads-bind _ (Reads-wrap _ (laws.uvarint_lem 2 (omega arith))) (
              Reads-bind _ (Reads-wrap _ (laws.int32_lem 4294967295 (omega arith)))
                (Reads-last _ (Reads-wrap _ (laws.uvarint_lem 0 (omega arith))) Reads-give)))))
    | inr old ↦ rw old Reads-give
  ]

  mismatched-AllRows : (n : ℕ) (cs : List Col) → AllRows ops n cs → mismatched w ops n cs ≡ none
  unfolding mismatched
  mismatched-AllRows n [] h = refl
  mismatched-AllRows n (c ∷ cs) (h, hs) = ground (arith, h, mismatched-AllRows n cs hs)

  header_of : List Col → Bytes
  header_of cs =
      info w ops revision ++ (w.put_uvarint (length cs) ++ w.put_uvarint (rows_of ops cs))

  encode_header-AllRows :
      (n : ℕ) (cs : List Col)
      → AllRows ops n cs
      → encode_header w ops revision cs ≡ (header_of cs, none)
  unfolding encode_header header_of
  encode_header-AllRows n [] h = refl
  encode_header-AllRows n (c ∷ cs) (h, hs) =
      let e : mismatched w ops (ops.rows c) cs ≡ none = rw h (mismatched-AllRows n cs hs) in
      ap (counted w ops revision (c ∷ cs)) e

  encode-Restores :
      (n : ℕ) (b : Block Col)
      → AllRestore b.columns
      → AllRows ops n b.columns
      → encode w ops revision b ≡ (
        header_of b.columns ++ all_bytes w ops revision b.columns,
        record b { columns = map (behind_encode w ops revision) b.columns },
        none,
      )
  unfolding encode
  encode-Restores n b h r =
      ap (λ e. behind w ops (headed w ops b e) (encode_columns w ops revision (length b.columns) 0))
        (encode_header-AllRows n b.columns r)
      ∙ ap (λ r. (header_of b.columns ++ r.0, r.1, r.2))
          (encode_columns-append w ops revision b.names [] b.columns
            (AllRestore-AllWrite b.columns h))

  rows_of-le : (n : ℕ) (cs : List Col) → AllRows ops (suc n) cs → rows_of ops cs ≤ suc n
  unfolding rows_of
  rows_of-le n [] h = omega arith
  rows_of-le n (c ∷ cs) (h, hs) = omega (arith, h)

  Reads-columns :
      (n : ℕ) (cs : List Col) (h : AllRestore cs)
      → AllRows ops (suc n) cs
      → Reads
          (decode_columns w ops revision (rows_of ops cs) (length cs))
          (all_bytes w ops revision cs)
          (all_restored cs h)
  unfolding rows_of
  Reads-columns n [] h r = unfold decode_columns all_bytes in Reads-give
  Reads-columns n (c ∷ cs) h r = rw r.0 (Reads-decode_columns n (c ∷ cs) h r)

  decoded : (cs : List Col) → AllRestore cs → Block Col
  decoded cs h = assembled w ops (all_restored cs h)

  Reads-decode :
      (n : ℕ) (cs : List Col) (h : AllRestore cs)
      → AllRows ops (suc n) cs
      → suc n ≤ 1000000000
      → length cs < 2 ^ 64
      → Reads (decode w ops revision) (header_of cs ++ all_bytes w ops revision cs) (decoded cs h)
  unfolding decode header_of decoded
  Reads-decode n cs h r few short =
      let below = rows_of-le n cs r in
      rw (append_assoc, append_assoc)
        (Reads-bind _ Reads-info (
          Reads-bind _ (Reads-wrap _ (laws.uvarint_lem (length cs) short)) (
            Reads-bind _ (Reads-wrap _ (laws.uvarint_lem (rows_of ops cs) (omega arith))) (
              Reads-bind _ (Reads-guard _ (few_rows _ (omega arith)))
                (Reads-last _ (Reads-columns n cs h r) Reads-give)))))

  names-decoded : (cs : List Col) (h : AllRestore cs) → (decoded cs h).names ≡ map ops.name_of cs
  unfolding decoded
  names-decoded [] h = refl
  names-decoded (c ∷ cs) (h, hs) = ap (◌∷◌ (ops.name_of c)) (names-decoded cs hs)

  content-decoded :
      (cs : List Col) (h : AllRestore cs) → map content (decoded cs h).columns ≡ map content cs
  unfolding decoded
  content-decoded [] h = refl
  content-decoded (c ∷ cs) (h, hs) = ap₂ ◌∷◌ h.content_lem (content-decoded cs hs)

  -- For a block whose columns have one number of rows, from 1 to a billion, and can each be read
  -- back, Encode does not fail, and Decode reads its bytes off the front of any input as a block
  -- with the columns' names and contents, the rest of the input left.
  pub decode-encode :
      (n : ℕ) (b : Block Col)
      → AllRestore b.columns
      → AllRows ops (suc n) b.columns
      → suc n ≤ 1000000000
      → length b.columns < 2 ^ 64
      → ((encode w ops revision b).2 ≡ none)
        × (d : Block Col) × Reads (decode w ops revision) (encode w ops revision b).0 d
        × (d.names ≡ map ops.name_of b.columns)
        × (map content d.columns ≡ map content b.columns)
  decode-encode n b h r few short =
      let written = encode-Restores (suc n) b h r in
      (
        ap (λ x. x.2) written,
        decoded b.columns h,
        subst (λ x. Reads (decode w ops revision) x.0 (decoded b.columns h)) (sym written)
            (Reads-decode n b.columns h r few short),
        names-decoded b.columns h,
        content-decoded b.columns h,
      )
