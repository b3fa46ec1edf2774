-- ===== src/Rows/Results.antt =====
-- clickhouse_rows.go: the loop over Next, and QueryRow's Scan.
use mathlib.Core.List.{append-nil}
use mathlib.Core.Option.{some-injective}
use clickhouse_go.Common.{
  ℕ, Bool, false, List, [], ◌∷◌, ◌++◌, Option, none, some, ◌≡◌, ◌⊎◌, inl, inr, refl, sym, ap, ◌∙◌,
  arith,
}
use clickhouse_go.Native.{server_data}
use clickhouse_go.Rows.{Rows, drain_errors, more_rows, no_more, Loop, ended, round}
use clickhouse_go.Native.{Waiting, Frame, ConnError, block_frame, server_end_of_stream}
use clickhouse_go.Native.Calls.{Result, Serving, query}
use clickhouse_go.Native.Answers.{blocks}
use clickhouse_go.Native.Complete.{NoData, NoEnd, query-Delivered}
use clickhouse_go.Rows.Pending.{
  rows_from, stream_rows, pending, last_error, NextLoop-true, NextLoop-false, Close-err,
}

module _ {ℓ} {Block E : Type ℓ} (rows : Block → ℕ) where
  -- A loop over Next sees the rows that are to come from the first on, in order, and its end tells
  -- whether it has seen them all: Err is then the last error of the query, and if the loop stopped
  -- before the end, there is one.
  pub Loop-sees :
      {r r' : Rows Block E} {seen : List (Block × ℕ)}
      → Loop rows r seen r'
      → (r'.err ≡ last_error r)
        × (left : List (Block × ℕ)) × (pending rows r ≡ seen ++ left)
        × ((left ≡ []) ⊎ ((e : E) × (es : List E) × (r.errors ≡ some (e ∷ es))))
  Loop-sees {r} (ended (no_more loop close)) =
      let (why, err) = NextLoop-false rows loop refl in
      (Close-err rows close ∙ err, pending rows r, refl, why)
  Loop-sees {r} (round {r1 = r1} b (more_rows loop) same rest) =
      let (b2, same2, p, err, es, _) = NextLoop-true rows loop refl in
      let (err', left, e, why) = Loop-sees rest in
      (
        err' ∙ err,
        left,
        p
            ∙ ap (λ x. (x, r1.row) ∷ pending rows r1) (some-injective _ _ (sym same2 ∙ same))
            ∙ ap (λ xs. (b, r1.row) ∷ xs) e,
        elim why [ inl all ↦ inl all | inr (x, xs, k) ↦ inr (x, xs, sym es ∙ k) ],
      )

-- `&rows{ … }` of query: the channels with what its goroutine puts into them.
abbrev pub queued_error {ℓ} : {E : Type ℓ} → Option E → List E
queued_error none = []
queued_error (some e) = e ∷ []

unfoldable pub query_rows {ℓ} : {Block E : Type ℓ} → Result Block E → Rows Block (ConnError E)
query_rows r = record {
  err = none;
  row = 0;
  block = some r.first;
  totals = none;
  errors = some (queued_error r.error);
  stream = some r.stream;
  closed = false;
}

-- A query without an error leaves no error in the channel.
none_left {ℓ} :
    {E X : Type ℓ} (error : Option E) (left : List X)
    → error ≡ none
    → ((left ≡ []) ⊎ ((e : E) × (es : List E) × (some (queued_error error) ≡ some (e ∷ es))))
    → left ≡ []
none_left none left n (inl e) = e
none_left none left n (inr (e, es, k)) = absurd (ground (arith, k))
none_left (some x) left n why = absurd (ground (arith, n))

module _ {ℓ} {Block E : Type ℓ} (rows : Block → ℕ) where
  last_error-query_rows : (r : Result Block E) → last_error (query_rows r) ≡ r.error
  unfolding query_rows drain_errors
  last_error-query_rows r = queued_is r.error
    where
      queued_is : (o : Option (ConnError E)) → drain_errors (queued_error o) none ≡ o
      queued_is none = refl
      queued_is (some e) = refl

  pending-query_rows :
      (r : Result Block E)
      → pending rows (query_rows r)
        ≡ rows_from r.first 0 (rows r.first) ++ stream_rows rows r.stream
  unfolding query_rows
  pending-query_rows r = ap (λ k. rows_from r.first 0 k ++ stream_rows rows r.stream) (omega arith)

module _ {ℓ} {Block E : Type ℓ} (rows : Block → ℕ) (with_profile_events : Bool) where
  -- A query, and a loop over Next on its rows until it ends: Err is then the error of the query, and
  -- if it is nil, the loop has seen each row of the blocks that the server sent from its first data
  -- block on and before its totals, once and in order, and the server has sent the end of the stream
  -- behind them.
  pub query-Loop-sees :
      (w1 w2 : Waiting Block E) (s : Serving Block E) (r : Result Block E)
      → (query rows with_profile_events w1 w2 s).result ≡ inl r
      → {r' : Rows Block (ConnError E)} {seen : List (Block × ℕ)} → Loop rows (query_rows r) seen r'
      → (r'.err ≡ r.error)
        × (r'.err ≡ none
            → (before after rest : List (Frame Block E)) × NoData before
              × NoEnd after
              × (s.frames
                  ≡ before
                    ++ block_frame server_data (inl r.first)
                      ∷ (after ++ server_end_of_stream ∷ rest))
              × (seen ≡ rows_from r.first 0 (rows r.first) ++ stream_rows rows (blocks rows after)))
  unfolding query_rows
  query-Loop-sees w1 w2 s r found {r'} {seen} loop =
      let (err, left, e, why) = Loop-sees rows loop in
      let same : r'.err ≡ r.error = err ∙ last_error-query_rows rows r in
      (
        same,
        λ n.
            let (before, after, rest, no_data, no_end, frames, c) =
              query-Delivered rows with_profile_events w1 w2 s r found (sym same ∙ n) in
            (
              before,
              after,
              rest,
              no_data,
              no_end,
              frames,
              sym (append-nil seen)
                  ∙ ap (◌++◌ seen) (sym (none_left r.error left (sym same ∙ n) why))
                  ∙ sym e
                  ∙ pending-query_rows rows r
                  ∙ ap (λ s. rows_from r.first 0 (rows r.first) ++ stream_rows rows s) c,
            ),
      )
