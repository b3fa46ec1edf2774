-- ===== src/Rows/Pending.antt =====
-- clickhouse_rows.go: the rows that are still to come, and what one Next does to them.
use clickhouse_go.Common.{
  ℕ, zero, suc, ◌+◌, ◌-◌, ◌≤◌, ◌<◌, Bool, true, false, List, [], ◌∷◌, ◌++◌, Option, none, some, ◌≡◌,
  ◌≢◌, ◌⊎◌, inl, inr, refl, sym, ap, ◌∙◌, arith,
}
use clickhouse_go.Native.{BlockPacket, server_data, server_totals, server_extremes}
use clickhouse_go.Rows.{
  Rows, drain_errors, CloseLoop, both_closed, drop_block, stream_ended, take_error, errors_ended,
  Close, no_channels, only_stream, only_errors, both, NextLoop, no_block, in_block, no_stream,
  read_error, errors_closed, stream_closed, read_totals, read_block,
}

-- Rows `k + 1` to `k + n` of a block.
abbrev pub rows_from {ℓ} : {Block : Type ℓ} → Block → ℕ → ℕ → List (Block × ℕ)
rows_from b k zero = []
rows_from b k (suc n) = (b, k + 1) ∷ rows_from b (k + 1) n

-- What is in a channel.
abbrev pub queued {ℓ} : {A : Type ℓ} → Option (List A) → List A
queued none = []
queued (some xs) = xs

-- The last error, behind those that are still to be received.
abbrev pub last_error {ℓ} : {Block E : Type ℓ} → Rows Block E → Option E
last_error r = drain_errors (queued r.errors) r.err

module _ {ℓ} {Block : Type ℓ} (rows : Block → ℕ) where
  -- The rows of the blocks before the totals.
  abbrev pub stream_rows : List (BlockPacket × Block) → List (Block × ℕ)
  stream_rows [] = []
  stream_rows ((server_totals, t) ∷ s) = []
  stream_rows ((server_data, b) ∷ s) = rows_from b 0 (rows b) ++ stream_rows s
  stream_rows ((server_extremes, b) ∷ s) = rows_from b 0 (rows b) ++ stream_rows s

  abbrev pub pending_of : Option Block → ℕ → List (BlockPacket × Block) → List (Block × ℕ)
  pending_of none k s = []
  pending_of (some b) k s = rows_from b k (rows b - k) ++ stream_rows s

  stream_rows-block :
      (packet : BlockPacket) (b : Block) (s : List (BlockPacket × Block))
      → packet ≢ server_totals
      → stream_rows ((packet, b) ∷ s) ≡ rows_from b 0 (rows b) ++ stream_rows s
  stream_rows-block server_data b s h = refl
  stream_rows-block server_totals b s h = absurd (h refl)
  stream_rows-block server_extremes b s h = refl

  pending_of-step :
      (b : Block) (k : ℕ) (s : List (BlockPacket × Block))
      → k < rows b
      → pending_of (some b) k s ≡ (b, k + 1) ∷ pending_of (some b) (k + 1) s
  pending_of-step b k s h = let e : rows b - k ≡ suc (rows b - (k + 1)) = omega arith in rw e

  pending_of-last :
      (b : Block) (k : ℕ) (s : List (BlockPacket × Block))
      → rows b ≤ k
      → pending_of (some b) k s ≡ stream_rows s
  pending_of-last b k s h = let e : rows b - k ≡ 0 = omega arith in rw e

module _ {ℓ} {Block E : Type ℓ} (rows : Block → ℕ) where
  abbrev pub pending : Rows Block E → List (Block × ℕ)
  pending r = pending_of rows r.block r.row (queued r.stream)

  -- A row was read: the first that was still to come, and no error.
  abbrev pub ReadsRow : Rows Block E → Rows Block E → Type ℓ
  ReadsRow r r' =
      (b : Block) × (r'.block ≡ some b)
      × (pending r ≡ (b, r'.row) ∷ pending r')
      × (last_error r' ≡ last_error r)
      × (r'.errors ≡ r.errors)
      × (r'.err ≡ r.err)

  -- Nothing was read: there is no further row, or an error was received.
  abbrev pub ReadsNone : Rows Block E → Rows Block E → Type ℓ
  ReadsNone r r' =
      ((pending r ≡ []) ⊎ ((e : E) × (es : List E) × (r.errors ≡ some (e ∷ es))))
      × (last_error r' ≡ last_error r)

  pending_is :
      (r : Rows Block E) {b : Option Block} {s : Option (List (BlockPacket × Block))}
      → r.block ≡ b
      → r.stream ≡ s
      → pending r ≡ pending_of rows b r.row (queued s)
  pending_is r e e' = simp (e, e')

  -- The block is used up: what is still to come is in the stream.
  block_used :
      (r : Rows Block E) (b : Block) (s : List (BlockPacket × Block))
      → r.block ≡ some b
      → rows b ≤ r.row
      → r.stream ≡ some s
      → pending r ≡ stream_rows rows s
  block_used r b s e le n = pending_is r e n ∙ pending_of-last rows b r.row s le

  block_next :
      (r : Rows Block E) (b b' : Block) (packet : BlockPacket) (s : List (BlockPacket × Block))
      → r.block ≡ some b
      → rows b ≤ r.row
      → r.stream ≡ some ((packet, b') ∷ s)
      → packet ≢ server_totals
      → pending r ≡ pending_of rows (some b') 0 s
  block_next r b b' packet s e le n ne =
      block_used r b ((packet, b') ∷ s) e le n
      ∙ stream_rows-block rows packet b' s ne
      ∙ ap (λ k. rows_from b' 0 k ++ stream_rows rows s) (omega arith)

  pub NextLoop-true :
      {r r' : Rows Block E} {more : Bool} → NextLoop rows r r' more → more ≡ true → ReadsRow r r'
  NextLoop-true (no_block e) h = absurd (ground (arith, h))
  NextLoop-true {r} (in_block b e lt) h = (
    b,
    e,
    ap (λ o. pending_of rows o r.row (queued r.stream)) e
        ∙ pending_of-step rows b r.row (queued r.stream) lt
        ∙ ap (λ o. (b, r.row + 1) ∷ pending_of rows o (r.row + 1) (queued r.stream)) (sym e),
    refl,
    refl,
    refl,
  )
  NextLoop-true (no_stream b e le n) h = absurd (ground (arith, h))
  NextLoop-true (read_error b s x es e le n k) h = absurd (ground (arith, h))
  NextLoop-true (errors_closed b s e le n k rest) h = NextLoop-true rest h
  NextLoop-true (stream_closed b e le n) h = absurd (ground (arith, h))
  NextLoop-true (read_totals b t s e le n) h = absurd (ground (arith, h))
  NextLoop-true {r} (read_block b b' packet s e le n ne rest) h =
      let (b2, same, p, err, es, er) = NextLoop-true rest h in
      (b2, same, block_next r b b' packet s e le n ne ∙ p, err, es, er)

  pub NextLoop-false :
      {r r' : Rows Block E} {more : Bool} → NextLoop rows r r' more → more ≡ false → ReadsNone r r'
  NextLoop-false {r} (no_block e) h =
      (inl (ap (λ o. pending_of rows o r.row (queued r.stream)) e), refl)
  NextLoop-false (in_block b e lt) h = absurd (ground (arith, h))
  NextLoop-false {r} (no_stream b e le n) h =
      (inl (pending_is r e n ∙ pending_of-last rows b r.row [] le), refl)
  NextLoop-false {r} (read_error b s x es e le n k) h =
      (inr (x, es, k), unfold drain_errors in ap (λ o. drain_errors (queued o) r.err) (sym k))
  NextLoop-false (errors_closed b s e le n k rest) h = NextLoop-false rest h
  NextLoop-false {r} (stream_closed b e le n) h = (inl (block_used r b [] e le n), refl)
  NextLoop-false {r} (read_totals b t s e le n) h =
      (inl (block_used r b ((server_totals, t) ∷ s) e le n), refl)
  NextLoop-false {r} (read_block b b' packet s e le n ne rest) h =
      let (why, err) = NextLoop-false rest h in
      (
        elim why [
          | inl none_left ↦ inl (block_next r b b' packet s e le n ne ∙ none_left)
          | inr failed ↦ inr failed
        ],
        err,
      )

  -- Whatever the order of its selects, Close ends with the last error.
  CloseLoop-err :
      {s : List (BlockPacket × Block)} {es : List E} {err out : Option E} {sc ec : Bool}
      → CloseLoop s es err sc ec out
      → out ≡ drain_errors es err
  unfolding drain_errors
  CloseLoop-err {err} (both_closed e k) = ap (λ es. drain_errors es err) (sym k)
  CloseLoop-err (drop_block x more rest) = CloseLoop-err rest
  CloseLoop-err (stream_ended more e rest) = CloseLoop-err rest
  CloseLoop-err (take_error e more rest) = CloseLoop-err rest
  CloseLoop-err (errors_ended more e rest) = CloseLoop-err rest

  pub Close-err : {r r' : Rows Block E} → Close r r' → r'.err ≡ last_error r
  unfolding drain_errors
  Close-err {r} (no_channels e n) = ap (λ o. drain_errors (queued o) r.err) (sym e)
  Close-err {r} (only_stream s e n) = ap (λ o. drain_errors (queued o) r.err) (sym e)
  Close-err {r} (only_errors es e n) = ap (λ o. drain_errors (queued o) r.err) (sym e)
  Close-err {r} (both es s e n loop) =
      CloseLoop-err loop ∙ ap (λ o. drain_errors (queued o) r.err) (sym e)
