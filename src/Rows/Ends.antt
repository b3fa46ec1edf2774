-- ===== src/Rows/Ends.antt =====
-- clickhouse_rows.go: Next, Close and a loop over Next can end.
use clickhouse_go.Common.{
  ℕ, zero, suc, ◌+◌, ◌≤◌, ◌<◌, Bool, true, false, List, [], ◌∷◌, Option, some, ◌≡◌, ◌≢◌, ◌⊎◌, inl,
  inr, refl, ap, ◌∙◌, arith, length, Option-cases,
}
use clickhouse_go.Native.{BlockPacket, server_data, server_totals, server_extremes}
use clickhouse_go.Rows.{
  Rows, CloseLoop, both_closed, drop_block, stream_ended, take_error, errors_ended, Close,
  no_channels, only_stream, only_errors, both, close_with, NextLoop, no_block, in_block, no_stream,
  stream_closed, read_totals, read_block, Next, more_rows, no_more, Loop, ended, round,
}
use clickhouse_go.Rows.Pending.{pending, NextLoop-true}

packet_cases : (packet : BlockPacket) → (packet ≡ server_totals) ⊎ (packet ≢ server_totals)
packet_cases server_data = inr (λ h. ground (arith, h))
packet_cases server_totals = inl refl
packet_cases server_extremes = inr (λ h. ground (arith, h))

room : (k n : ℕ) → (k < n) ⊎ (n ≤ k)
room k n = omega arith

module _ {ℓ} {Block E : Type ℓ} where
  close_errors :
      (es : List E) (err : Option E)
      → (out : Option E) × CloseLoop {Block = Block} [] es err true false out
  close_errors [] err = (err, errors_ended refl refl (both_closed refl refl))
  close_errors (e ∷ es) err =
      let (out, loop) = close_errors es (some e) in (out, take_error e refl loop)

  close_stream :
      (s : List (BlockPacket × Block)) (es : List E) (err : Option E)
      → (out : Option E) × CloseLoop s es err false false out
  close_stream [] es err =
      let (out, loop) = close_errors es err in (out, stream_ended refl refl loop)
  close_stream (x ∷ s) es err =
      let (out, loop) = close_stream s es err in (out, drop_block x refl loop)

  pub Close-ends : (r : Rows Block E) → (r' : Rows Block E) × Close r r'
  Close-ends r = elim (Option-cases r.errors) [
    | inl e ↦ elim (Option-cases r.stream) [
      | inl n ↦ (close_with r r.err, no_channels e n)
      | inr (s, n) ↦ (_, only_stream s e n)
    ]
    | inr (es, e) ↦ elim (Option-cases r.stream) [
      | inl n ↦ (_, only_errors es e n)
      | inr (s, n) ↦ let (out, loop) = close_stream s es r.err in (_, both es s e n loop)
    ]
  ]

module _ {ℓ} {Block E : Type ℓ} (rows : Block → ℕ) where
  -- Next, by the blocks that are in the stream.
  from_stream :
      (s : List (BlockPacket × Block)) (r : Rows Block E) (b : Block)
      → r.block ≡ some b
      → r.stream ≡ some s
      → (r' : Rows Block E) × (more : Bool) × NextLoop rows r r' more
  from_stream [] r b e n = elim (room r.row (rows b)) [
    | inl lt ↦ (_, _, in_block b e lt)
    | inr le ↦ (_, _, stream_closed b e le n)
  ]
  from_stream ((packet, b') ∷ s) r b e n = elim (room r.row (rows b)) [
    | inl lt ↦ (_, _, in_block b e lt)
    | inr le ↦ elim (packet_cases packet) [
      | inl t ↦ (_, _, read_totals b b' s e le (n ∙ ap (λ p. some ((p, b') ∷ s)) t))
      | inr ne ↦
          let (r', more, loop) =
            from_stream s (record r { row = 0; block = some b'; stream = some s }) b' refl refl in
          (r', more, read_block b b' packet s e le n ne loop)
    ]
  ]

  NextLoop-ends : (r : Rows Block E) → (r' : Rows Block E) × (more : Bool) × NextLoop rows r r' more
  NextLoop-ends r = elim (Option-cases r.block) [
    | inl e ↦ (_, _, no_block e)
    | inr (b, e) ↦ elim (Option-cases r.stream) [
      | inl n ↦ elim (room r.row (rows b)) [
        | inl lt ↦ (_, _, in_block b e lt)
        | inr le ↦ (_, _, no_stream b e le n)
      ]
      | inr (s, n) ↦ from_stream s r b e n
    ]
  ]

  finish-Next :
      {r r' : Rows Block E} (more : Bool)
      → NextLoop rows r r' more
      → (r'' : Rows Block E) × (more' : Bool) × Next rows r r'' more'
  finish-Next true loop = (_, _, more_rows loop)
  finish-Next {r' = r'} false loop =
      let (r'', close) = Close-ends r' in (r'', _, no_more loop close)

  -- Next answers, whatever the rows are.
  pub Next-ends : (r : Rows Block E) → (r' : Rows Block E) × (more : Bool) × Next rows r r' more
  Next-ends r = let (r', more, loop) = NextLoop-ends r in finish-Next more loop

  -- A loop whose first Next is done, where `rest` is the loop from any rows that have fewer to come.
  loop_from :
      (n : ℕ) {r r' : Rows Block E} {more : Bool}
      → length (pending rows r) ≤ n
      → Next rows r r' more
      → ((r1 : Rows Block E)
          → length (pending rows r1) < n
          → (seen : List (Block × ℕ)) × (r2 : Rows Block E) × Loop rows r1 seen r2)
      → (seen : List (Block × ℕ)) × (r2 : Rows Block E) × Loop rows r seen r2
  loop_from n le (no_more loop close) rest = ([], _, ended (no_more loop close))
  loop_from n {r' = r'} le (more_rows loop) rest =
      let (b, same, p, _, _, _) = NextLoop-true rows loop refl in
      let shorter = ap length p in
      let (seen, r2, tail) = rest r' (omega (arith, le, shorter)) in
      (_, r2, round b (more_rows loop) same tail)

  loop_within :
      (n : ℕ) (r : Rows Block E)
      → length (pending rows r) < n
      → (seen : List (Block × ℕ)) × (r' : Rows Block E) × Loop rows r seen r'
  loop_within zero r le = absurd (omega (arith, le))
  loop_within (suc n) r le =
      let (r', more, next) = Next-ends r in loop_from n (omega (arith, le)) next (loop_within n)

  -- From all rows a loop over Next can go on to its end, where Next has answered false and has closed
  -- them: no state of the rows, of their channels and of their errors is one in which Next or Close
  -- has nothing to do.
  pub Loop-ends :
      (r : Rows Block E) → (seen : List (Block × ℕ)) × (r' : Rows Block E) × Loop rows r seen r'
  Loop-ends r = loop_within (length (pending rows r) + 1) r (omega arith)
