-- ===== src/Block/Append.antt =====
-- Block.Append of lib/proto/block.go, and what EncodeHeader says behind it.
use mathlib.Core.Path.{subst}
use clickhouse_go.Common.{
  ℕ, suc, false, List, [], ◌∷◌, ◌++◌, Option, none, some, length, ◌≡◌, ◌≢◌, ◌↔◌, ◌⊎◌, inl, inr,
  refl, sym, ◌∙◌, arith, ◌==◌, ==_iff, Bool-cases,
}
use clickhouse_go.Block.{
  Bytes, Wire, ColumnOps, Block, BlockError, AllRows, append, rows_of, append_row_failed,
}
use clickhouse_go.Block.Header.{encode_header, mismatched, counted}
use clickhouse_go.Block.Send.{Sending, Link, Step, header_failed, and_then, put_header, send_data}

module _ {Col V E : Type 0} (ops : ColumnOps Col V E) where
  -- AppendRow adds one row to a column whenever it gives no error.
  abbrev pub AddsRow : Type 0
  AddsRow =
      (v : V) (c : Col)
      → (ops.append_row v c).1 ≡ none
      → ops.rows (ops.append_row v c).0 ≡ suc (ops.rows c)

  -- The columns `now` with the error `e`, behind an Append to `cs` that stopped: `before`, grown to
  -- `suc n` rows each, the column that refused its value as AppendRow left it, and the others, which
  -- have `n` rows, untouched.
  pub record Stopped (n : ℕ) (cs now : List Col) (e : Option (BlockError E)) : Type 0 where
    pub old : List Col
    pub before : List Col
    pub refused : Col
    pub after : List Col
    pub value : V
    pub cause : E
    pub was_lem : cs ≡ old ++ refused ∷ after
    pub length_lem : length before ≡ length old
    pub now_lem : now ≡ before ++ (ops.append_row value refused).0 ∷ after
    pub before_lem : AllRows ops (suc n) before
    pub after_lem : AllRows ops n after
    pub cause_lem : (ops.append_row value refused).1 ≡ some cause
    pub error_lem : e ≡ some (append_row_failed cause (ops.name_of refused))

  -- What an Append leaves of columns with `n` rows.
  abbrev pub Left : ℕ → List Col → List Col × Option (BlockError E) → Type 0
  Left n cs r = ((r.1 ≡ none) × AllRows ops (suc n) r.0) ⊎ Stopped n cs r.0 r.1

module _ {Col V E : Type 0} (w : Wire E) (ops : ColumnOps Col V E) (revision : ℕ) where
  mismatched-none : (n : ℕ) (cs : List Col) → (mismatched w ops n cs ≡ none) ↔ AllRows ops n cs
  unfolding mismatched
  mismatched-none n [] = (λ h. tt, λ h. refl)
  mismatched-none n (c ∷ cs) =
      let ih = mismatched-none n cs in
      elim (Bool-cases (n == ops.rows c)) [
        | inl same ↦ rw same (λ h. (sym ((==_iff _ (ops.rows c)).0 same), ih.0 h), λ h. ih.1 h.1)
        | inr other ↦
            rw other (λ h. absurd (ground (arith, h)), λ h. absurd (ground (arith, h.0, other)))
      ]

  counted-none :
      (cs : List Col) (e : Option (BlockError E))
      → ((counted w ops revision cs e).1 ≡ none) ↔ (e ≡ none)
  counted-none cs none = (λ h. refl, λ h. refl)
  counted-none cs (some e) = (λ h. h, λ h. h)

  -- EncodeHeader, and so Encode's first step, fails exactly if some column has another number of rows
  -- than the first.
  encode_header-none_iff :
      (cs : List Col)
      → ((encode_header w ops revision cs).1 ≡ none) ↔ AllRows ops (rows_of ops cs) cs
  unfolding encode_header rows_of
  encode_header-none_iff [] = (λ h. tt, λ h. refl)
  encode_header-none_iff (c ∷ cs) =
      let counts = counted-none (c ∷ cs) (mismatched w ops (ops.rows c) cs) in
      let rows = mismatched-none (ops.rows c) cs in
      (λ h. (refl, rows.0 (counts.0 h)), λ h. counts.1 (rows.1 h.1))

  AllRows-skip : (n : ℕ) (cs ds : List Col) → AllRows ops n (cs ++ ds) → AllRows ops n ds
  AllRows-skip n [] ds h = h
  AllRows-skip n (c ∷ cs) ds h = AllRows-skip n cs ds h.1

  rows_of-append :
      (n : ℕ) (cs ds : List Col) → cs ≢ [] → AllRows ops n cs → rows_of ops (cs ++ ds) ≡ n
  unfolding rows_of
  rows_of-append n [] ds h r = absurd (h refl)
  rows_of-append n (c ∷ cs) ds h r = r.0

  uneven :
      (n : ℕ) (before after : List Col) (c : Col)
      → before ≢ []
      → (after ≢ []) ⊎ (ops.rows c ≢ suc n)
      → AllRows ops (suc n) before
      → AllRows ops n after
      → ¬ AllRows ops (rows_of ops (before ++ c ∷ after)) (before ++ c ∷ after)
  uneven n before [] c hb (inl ha) rb ra h = ha refl
  uneven n before (d ∷ after) c hb (inl ha) rb ra h =
      let first = rows_of-append (suc n) before (c ∷ d ∷ after) hb rb in
      let d_rows = (AllRows-skip _ before (c ∷ d ∷ after) h).1.0 in
      omega (arith, first, d_rows, ra.0)
  uneven n before after c hb (inr other) rb ra h =
      other
        ((AllRows-skip _ before (c ∷ after) h).0 ∙ rows_of-append (suc n) before (c ∷ after) hb rb)

  -- EncodeHeader refuses a block on which Append stopped.
  stopped-uneven :
      (n : ℕ) (b : Block Col) (vs : List V)
      → (s : Stopped ops n b.columns (append ops b vs).0.columns (append ops b vs).1)
      → s.before ≢ []
      → (s.after ≢ []) ⊎ (ops.rows (ops.append_row s.value s.refused).0 ≢ suc n)
      → (encode_header w ops revision (append ops b vs).0.columns).1 ≢ none
  stopped-uneven n b vs s hb ha sent =
      let even = (encode_header-none_iff (append ops b vs).0.columns).0 sent in
      uneven n s.before s.after (ops.append_row s.value s.refused).0 hb ha s.before_lem s.after_lem
        (subst (λ cs. AllRows ops (rows_of ops cs) cs) s.now_lem even)

module _ {Col V E : Type 0} (w : Wire E) (ops : ColumnOps Col V E) (link : Link E) where
  header_stops :
      (s : Sending Col) (h : Bytes × Option (BlockError E)) (f g k : Sending Col → Step Col E)
      → h.1 ≢ none
      → let r = and_then (and_then (and_then (put_header w ops link s h) f) g) k in
        (e : BlockError E) × (r.1 ≡ some (header_failed e)) × (r.0.sent ≡ s.sent)
  header_stops s (bytes, none) f g k h = absurd (h refl)
  header_stops s (bytes, some e) f g k h = (e, refl, refl)

  -- A block of even columns on which Append stopped behind the first column, and not at the last one
  -- with its row counted all the same: sendData of it over an open connection fails on its header,
  -- and the socket has taken nothing.
  pub append-refused :
      (name : Bytes) (n : ℕ) (b : Block Col) (vs : List V) (t : Sending Col)
      → (s : Stopped ops n b.columns (append ops b vs).0.columns (append ops b vs).1)
      → s.before ≢ []
      → (s.after ≢ []) ⊎ (ops.rows (ops.append_row s.value s.refused).0 ≢ suc n)
      → t.block ≡ (append ops b vs).0
      → t.closed ≡ false
      → let r = send_data w ops link name t in
        (e : BlockError E) × (r.1 ≡ some (header_failed e)) × (r.0.sent ≡ t.sent)
  unfolding send_data
  append-refused name n b vs t s hb ha same opened = rw opened (
      header_stops _ (encode_header w ops link.revision t.block.columns) _ _ _
        (rw same (stopped-uneven w ops link.revision n b vs s hb ha)))
