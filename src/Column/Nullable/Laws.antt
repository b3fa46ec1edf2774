-- ===== src/Column/Nullable/Laws.antt =====
-- What a column of lib/column/nullable.go gives back of the values appended to it.
use mathlib.Core.Path.{subst, ap₂}
use mathlib.Core.List.{map, append_assoc, append-nil}
use clickhouse_go.Common.{
  ℕ, zero, suc, Bool, true, false, List, [], ◌∷◌, ◌++◌, Option, none, some, ◌⊎◌, inl, inr,
  if◌then◌else◌, length, get_elem?, ◌≡◌, refl, sym, ap, ◌∙◌, arith,
}
use clickhouse_go.Block.{Bytes, Reader, ◌>>=◌, give, ColumnOps}
use clickhouse_go.Block.Reads.{Reads, Reads-bind, Reads-last, Reads-give}
use clickhouse_go.Column.Array.Append.{Extends}
use clickhouse_go.Column.Nullable.{
  Nullable, append_row, append_rows, append_null, then_rows, encode, decode, row, row_by, present,
}

module _ {Col V E X : Type 0} (ops : ColumnOps Col V E) (nullness : V → Bool ⊎ E)
    (items : Col → List X) (shown : V → X) (extends : Extends ops items shown) where
  abbrev null_byte : Bool ⊎ E → ℕ
  null_byte (inl true) = 1
  null_byte (inl false) = 0
  null_byte (inr e) = 0

  -- What Row gives of a value.
  abbrev pub given : V → Bool ⊎ E → Option X
  given v (inl true) = none
  given v (inl false) = some (shown v)
  given v (inr e) = some (shown v)

  abbrev pub Holds : Nullable Col → List ℕ → List X → Type 0
  Holds c nulls xs = (c.nulls ≡ nulls) × (items c.base ≡ xs)

  append_null-Holds :
      (v : V) (c : Nullable Col) (r : Bool ⊎ E) (nulls : List ℕ) (xs : List X)
      → Holds c nulls xs
      → (append_null ops v c r).1 ≡ none
      → Holds (append_null ops v c r).0 (nulls ++ null_byte r ∷ []) (xs ++ shown v ∷ [])
        × ((append_null ops v c r).0.enable ≡ c.enable)
  append_null-Holds v c (inr e) nulls xs (hn, hx) ok = absurd (ground (arith, ok))
  append_null-Holds v c (inl true) nulls xs (hn, hx) ok =
      ((ap (λ l. l ++ 1 ∷ []) hn, extends v c.base ok ∙ ap (λ l. l ++ shown v ∷ []) hx), refl)
  append_null-Holds v c (inl false) nulls xs (hn, hx) ok =
      ((ap (λ l. l ++ 0 ∷ []) hn, extends v c.base ok ∙ ap (λ l. l ++ shown v ∷ []) hx), refl)

  then_rows-none :
      (r : Nullable Col × Option E) (f : Nullable Col → Nullable Col × Option E)
      → (then_rows ops r f).1 ≡ none
      → (r.1 ≡ none) × (then_rows ops r f ≡ f r.0)
  then_rows-none (s, none) f h = (refl, refl)
  then_rows-none (s, some e) f h = absurd (ground (arith, h))

  null_bytes : List V → List ℕ
  null_bytes [] = []
  null_bytes (v ∷ vs) = null_byte (nullness v) ∷ null_bytes vs

  append_rows-Holds :
      (vs : List V) (c : Nullable Col) (nulls : List ℕ) (xs : List X)
      → Holds c nulls xs
      → (append_rows ops nullness vs c).1 ≡ none
      → Holds (append_rows ops nullness vs c).0 (nulls ++ null_bytes vs) (xs ++ map shown vs)
        × ((append_rows ops nullness vs c).0.enable ≡ c.enable)
  unfolding append_rows null_bytes
  append_rows-Holds [] c nulls xs (hn, hx) ok =
      ((hn ∙ sym (append-nil nulls), hx ∙ sym (append-nil xs)), refl)
  append_rows-Holds (v ∷ vs) c nulls xs h ok =
      let r = append_row ops nullness v c in
      let (first, same) = then_rows-none r (append_rows ops nullness vs) ok in
      let (held, kept) = append_null-Holds v c (nullness v) nulls xs h first in
      let (all, enabled) =
        append_rows-Holds vs r.0 (nulls ++ null_byte (nullness v) ∷ []) (xs ++ shown v ∷ []) held
          (ap (λ z. z.1) (sym same) ∙ ok) in
      (
        (
          ap (λ z. z.0.nulls) same
              ∙ all.0
              ∙ append_assoc nulls (null_byte (nullness v) ∷ []) (null_bytes vs),
          ap (λ z. items z.0.base) same ∙ all.1 ∙ append_assoc xs (shown v ∷ []) (map shown vs),
        ),
        ap (λ z. z.0.enable) same ∙ enabled ∙ kept,
      )

  row_by-given :
      (v : V) (r : Bool ⊎ E) → row_by (some (null_byte r)) (some (shown v)) ≡ some (given v r)
  row_by-given v (inl true) = refl
  row_by-given v (inl false) = refl
  row_by-given v (inr e) = refl

  row_by-vs :
      (vs : List V) (i : ℕ)
      → row_by (get_elem? (null_bytes vs) i) (get_elem? (map shown vs) i)
        ≡ get_elem? (map (λ v. given v (nullness v)) vs) i
  unfolding null_bytes
  row_by-vs [] i = refl
  row_by-vs (v ∷ vs) zero = row_by-given v (nullness v)
  row_by-vs (v ∷ vs) (suc i) = row_by-vs vs i

  length-null_bytes : (vs : List V) → length (null_bytes vs) ≡ length vs
  unfolding null_bytes
  length-null_bytes [] = refl
  length-null_bytes (v ∷ vs) = ap suc (length-null_bytes vs)

  -- Values appended without an error to an empty column that is enabled, encoded, and decoded into a
  -- column whose base reads the base's rows back: Row gives nil for each null and the shown value
  -- for each other, in order, and the rest of the input is left.
  pub append_rows-decode-row :
      (put : List ℕ → Bytes) (read : ℕ → Reader E (List ℕ))
      → ((bytes : List ℕ) → Reads (read (length bytes)) (put bytes) bytes)
      → (value : Col → ℕ → Option X) → ((c : Col) (j : ℕ) → value c j ≡ get_elem? (items c) j)
      → (vs : List V) (c s empty : Nullable Col) (restored : Col) → c.enable ≡ true
      → Holds c [] []
      → append_rows ops nullness vs c ≡ (s, none)
      → empty.enable ≡ true
      → Reads (ops.decode (length vs) empty.base) (ops.encode s.base).0 restored
      → items restored ≡ items s.base
      → (t : Nullable Col) × Reads (decode ops read (length vs) empty) (encode ops put s) t
        × ((i : ℕ) → row value t i ≡ get_elem? (map (λ v. given v (nullness v)) vs) i)
  unfolding encode decode row
  append_rows-decode-row put read reads value value_lem vs c s empty restored on new ok on' values
        same =
      let (held, kept) = append_rows-Holds vs c [] [] new (ap (λ r. r.1) ok) in
      let nulls : s.nulls ≡ null_bytes vs = ap (λ r. r.0.nulls) (sym ok) ∙ held.0 in
      let all : items s.base ≡ map shown vs = ap (λ r. items r.0.base) (sym ok) ∙ held.1 in
      let enabled : s.enable ≡ true = ap (λ r. r.0.enable) (sym ok) ∙ kept ∙ on in
      let t : Nullable Col = record empty { base = restored; nulls = s.nulls } in
      let count : length s.nulls ≡ length vs = ap length nulls ∙ length-null_bytes vs in
      let f = λ (ns : List ℕ). ops.decode (length vs) empty.base >>= λ b.
      give {E = E} {A = Nullable Col} (record empty { base = b; nulls = ns }) in
      (
        t,
        subst
            (λ b.
              Reads ((if b then read (length vs) else give empty.nulls) >>= f)
                ((if s.enable then put s.nulls else []) ++ (ops.encode s.base).0) t)
            (sym on')
            (subst
              (λ b.
                Reads (read (length vs) >>= f)
                  ((if b then put s.nulls else []) ++ (ops.encode s.base).0) t)
              (sym enabled)
              (Reads-bind f
                (subst (λ n. Reads (read n) (put s.nulls) s.nulls) count (reads s.nulls))
                (Reads-last _ values Reads-give))),
        λ i.
            ap
              (λ b.
                if b
                then row_by (get_elem? s.nulls i) (value restored i)
                else present (value restored i))
              on'
            ∙ ap₂ row_by (ap (λ l. get_elem? l i) nulls)
                (value_lem restored i ∙ ap (λ l. get_elem? l i) (same ∙ all))
            ∙ row_by-vs vs i,
      )
