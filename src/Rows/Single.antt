-- ===== src/Rows/Single.antt =====
-- clickhouse_rows.go: what Scan of QueryRow's row answers.
use clickhouse_go.Common.{
  ℕ, Bool, true, false, List, [], ◌∷◌, Option, none, some, ◌≡◌, ◌⊎◌, inl, inr, refl, sym, ap, ◌∙◌,
  arith, leb, ◌==◌, if◌then◌else◌, ◌&&◌,
}
use clickhouse_go.Rows.{
  Rows, drain_errors, Close, no_channels, only_stream, only_errors, both, NextLoop, no_block,
  in_block, no_stream, read_error, errors_closed, stream_closed, read_totals, read_block, more_rows,
  no_more, ScanError, end_of_rows, not_scanned, query_failed, scan_result, scan_block, scan_rows,
  close_answer, close_result, no_rows_result, RowScan, scan_empty, scan_failed, scan_done,
}
use clickhouse_go.Rows.Pending.{
  pending, queued, last_error, NextLoop-true, NextLoop-false, Close-err,
}

drain_errors-some {ℓ} :
    {E : Type ℓ} (es : List E) (e : E) → (x : E) × (drain_errors es (some e) ≡ some x)
unfolding drain_errors
drain_errors-some [] e = (e, refl)
drain_errors-some (x ∷ es) e = drain_errors-some es x

drain_errors-nil {ℓ} : {E : Type ℓ} (err : Option E) → drain_errors [] err ≡ err
unfolding drain_errors
drain_errors-nil err = refl

drain_errors-head {ℓ} :
    {E : Type ℓ} (e : E) (es : List E) (err : Option E)
    → drain_errors (e ∷ es) err ≡ drain_errors es (some e)
unfolding drain_errors
drain_errors-head e es err = refl

module _ {ℓ} {Block E : Type ℓ} where
  Close-queued : {r r' : Rows Block E} → Close r r' → queued r'.errors ≡ []
  Close-queued (no_channels e n) = ap queued e
  Close-queued (only_stream s e n) = ap queued e
  Close-queued (only_errors es e n) = refl
  Close-queued (both es s e n loop) = refl

  closed_twice : {r r1 r2 : Rows Block E} → Close r r1 → Close r1 r2 → r2.err ≡ last_error r
  closed_twice {r} {r1} first second =
      Close-err (λ _. 0) second
      ∙ ap (λ es. drain_errors es r1.err) (Close-queued first)
      ∙ drain_errors-nil r1.err
      ∙ Close-err (λ _. 0) first

module _ {ℓ} {Block E : Type ℓ} (rows : Block → ℕ) (scan : Block → ℕ → Option E) where
  -- What the row's Scan answers, by the rows and the errors that are to come.
  abbrev pub RowAnswer : Rows Block E → Option (ScanError E) → Type ℓ
  RowAnswer r a =
      ((pending rows r ≡ []) × (a ≡ some (no_rows_result (last_error r))))
      ⊎ ((e : E) × (last_error r ≡ some e) × (a ≡ some (query_failed e)))
      ⊎ ((b : Block) × (k : ℕ) × (left : List (Block × ℕ)) × (pending rows r ≡ (b, k) ∷ left)
          × (((e : E) × (scan b k ≡ some e) × (a ≡ some (not_scanned e)))
              ⊎ ((scan b k ≡ none) × (a ≡ close_result (last_error r)))))

  NextLoop-row :
      {r r' : Rows Block E} {more : Bool}
      → NextLoop rows r r' more
      → more ≡ true
      → (r'.row == 0) ≡ false
  NextLoop-row (no_block e) h = absurd (ground (arith, h))
  NextLoop-row {r} (in_block b e lt) h = ground arith
  NextLoop-row (no_stream b e le n) h = absurd (ground (arith, h))
  NextLoop-row (read_error b s x es e le n k) h = absurd (ground (arith, h))
  NextLoop-row (errors_closed b s e le n k rest) h = NextLoop-row rest h
  NextLoop-row (stream_closed b e le n) h = absurd (ground (arith, h))
  NextLoop-row (read_totals b t s e le n) h = absurd (ground (arith, h))
  NextLoop-row (read_block b b' packet s e le n ne rest) h = NextLoop-row rest h

  scan_rows-at :
      (r : Rows Block E) (b : Block)
      → r.block ≡ some b
      → (r.row == 0) ≡ false
      → scan_rows rows scan r ≡ scan_result (scan b r.row)
  unfolding scan_rows scan_block
  scan_rows-at r b e k =
      ap (λ o. scan_block rows scan o r.row) e
      ∙ ap (λ t. if t && leb (rows b) r.row then some end_of_rows else scan_result (scan b r.row)) k

  -- The answer behind a row that Next has read.
  read_scanned :
      (r r1 : Rows Block E) {a : Option (ScanError E)} {b : Block} {k : ℕ}
      → pending rows r ≡ (b, k) ∷ pending rows r1
      → last_error r1 ≡ last_error r
      → (s : Option E) → scan b k ≡ s
      → scan_rows rows scan r1 ≡ scan_result (scan b k)
      → ((e : ScanError E) × (scan_rows rows scan r1 ≡ some e) × (a ≡ some e))
        ⊎ ((scan_rows rows scan r1 ≡ none) × (a ≡ close_result (last_error r1)))
      → RowAnswer r a
  read_scanned r r1 p err none n at (inl (e, k, x)) =
      absurd (ground (arith, sym k ∙ at ∙ ap scan_result n))
  read_scanned r r1 p err (some s) n at (inl (e, k, x)) =
      inr (inr (_, _, _, p, inl (s, n, x ∙ sym k ∙ at ∙ ap scan_result n)))
  read_scanned r r1 p err none n at (inr (k, x)) =
      inr (inr (_, _, _, p, inr (n, x ∙ ap close_result err)))
  read_scanned r r1 p err (some s) n at (inr (k, x)) =
      absurd (ground (arith, sym k ∙ at ∙ ap scan_result n))

  read_answer :
      {r r1 : Rows Block E} {a : Option (ScanError E)}
      → NextLoop rows r r1 true
      → ((e : ScanError E) × (scan_rows rows scan r1 ≡ some e) × (a ≡ some e))
        ⊎ ((scan_rows rows scan r1 ≡ none) × (a ≡ close_result (last_error r1)))
      → RowAnswer r a
  read_answer {r} {r1} loop why =
      let (b, same, p, err, es, er) = NextLoop-true rows loop refl in
      let at : scan_rows rows scan r1 ≡ scan_result (scan b r1.row) =
        scan_rows-at r1 b same (NextLoop-row loop refl) in
      read_scanned r r1 p err (scan b r1.row) refl at why

  -- Scan of QueryRow's row, on rows with both channels, answers one of these: where no row is to come,
  -- ErrNoRows, or the last error if there is one; an error of the query, if there is one; where a row
  -- is to come, the error of scanning the first, or, if that is scanned, the last error of the query,
  -- or nil if there is none.
  pub RowScan-answers :
      {r r' : Rows Block E} {a : Option (ScanError E)} (es : List E)
      → RowScan rows scan r r' a
      → r.errors ≡ some es
      → RowAnswer r a
  RowScan-answers {r} es (scan_empty {r2 = r2} (no_more loop close1) close2) h =
      let (why, errs) = NextLoop-false rows loop refl in
      let last : r2.err ≡ last_error r = closed_twice close1 close2 ∙ errs in
      elim why [
        | inl none_left ↦ inl (none_left, ap (λ o. some (no_rows_result o)) last)
        | inr (e, es', k) ↦
            let (x, q) = drain_errors-some es' e in
            let found : last_error r ≡ some x =
              ap (λ o. drain_errors (queued o) r.err) k ∙ drain_errors-head e es' r.err ∙ q in
            inr (inl (x, found, ap (λ o. some (no_rows_result o)) (last ∙ found)))
      ]
  RowScan-answers es (scan_failed e (more_rows loop) k) h = read_answer loop (inl (e, k, refl))
  RowScan-answers {r' = r'} es (scan_done {r1 = r1} (more_rows loop) k close) h =
      let (b, same, p, err, kept, er) = NextLoop-true rows loop refl in
      let answer : close_answer r1.errors r1.stream r'.err ≡ last_error r1 =
        ap (λ o. close_answer o r1.stream r'.err) (kept ∙ h) ∙ Close-err rows close in
      read_answer loop (inr (k, ap close_result answer))
