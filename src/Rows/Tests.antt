-- ===== src/Rows/Tests.antt =====
-- clickhouse_rows.go on concrete rows; a block is the number of its rows.
use clickhouse_go.Common.{
  ℕ, true, false, List, [], ◌∷◌, ◌++◌, Option, none, some, ◌≡◌, inl, refl, arith, if◌then◌else◌,
  ◌==◌,
}
use clickhouse_go.Rows.{
  RowScan, scan_failed, scan_rows, scan_block, not_scanned, Rows, Next, Loop, round, ended,
  more_rows, no_more, in_block, read_totals, stream_closed, read_block, both, stream_ended,
  errors_ended, both_closed,
}
use clickhouse_go.Native.Complete.{NoData, NoEnd}
use clickhouse_go.Rows.Results.{query-Loop-sees, query_rows}
use clickhouse_go.Rows.Single.{RowAnswer, RowScan-answers}
use clickhouse_go.Native.Calls.{
  Serving, Result, query, query_bound, query_sent, query_first, query_goroutine, send_query,
  send_external, streamed,
}
use clickhouse_go.Native.Answers.{blocks}
use clickhouse_go.Rows.Ends.{Loop-ends}
use clickhouse_go.Rows.Pending.{rows_from, stream_rows}
use clickhouse_go.Native.{
  server_data, server_totals, Frame, ConnError, answered, read_failed, block_frame,
  server_end_of_stream, process, process_impl, process_round, first_block, first_block_impl,
  first_block_round, read_loop, await, handle, handle_block,
}

abbrev rows_of : ℕ → ℕ
rows_of b = b

abbrev rows : Rows ℕ ℕ
rows = record {
  err = none;
  row = 0;
  block = some 0;
  totals = none;
  errors = some [];
  stream = some ((server_data, 1) ∷ (server_totals, 1) ∷ []);
  closed = false;
}

abbrev at_row : Rows ℕ ℕ
at_row = record rows { row = 1; block = some 1; stream = some ((server_totals, 1) ∷ []) }

abbrev at_end : Rows ℕ ℕ
at_end = record rows { block = none; totals = some 1; stream = some []; closed = true }

first-Next : Next rows_of rows at_row true
first-Next = more_rows (
    read_block 0 1 server_data ((server_totals, 1) ∷ []) refl (omega arith) refl
      (λ h. ground (arith, h)) (in_block 1 refl (omega arith)))

last-Next : Next rows_of at_row at_end false
last-Next =
    no_more (read_totals 1 1 [] refl (omega arith) refl) (
      both [] [] refl refl
        (stream_ended refl refl (errors_ended refl refl (both_closed refl refl))))

two_rounds : Loop rows_of rows ((1, 1) ∷ []) at_end
two_rounds = round 1 first-Next refl (ended last-Next)

loop_ends_example : (seen : List (ℕ × ℕ)) × (r' : Rows ℕ ℕ) × Loop rows_of rows seen r'
loop_ends_example = Loop-ends rows_of rows

-- A query of two frames with rows, and the loop over its rows.
abbrev serving : Serving ℕ ℕ
serving = record {
  bound = none;
  sending = record { encode = none; external = []; empty_block = none; flush = none };
  over = read_failed 9;
  frames =
      block_frame server_data (inl 0) ∷ block_frame server_data (inl 2) ∷ server_end_of_stream ∷ [];
}

abbrev result : Result ℕ ℕ
result = record { first = 0; stream = (server_data, 2) ∷ []; error = none }

serving_result : (query rows_of false answered answered serving).result ≡ inl result
unfolding query query_bound query_sent query_first query_goroutine send_query send_external streamed
    process process_impl process_round first_block first_block_impl first_block_round read_loop
    await handle handle_block
serving_result = refl

abbrev query_end : Rows ℕ (ConnError ℕ)
query_end = record {
  err = none;
  row = 2;
  block = some 2;
  totals = none;
  errors = some [];
  stream = some [];
  closed = true;
}

abbrev query_at : ℕ → Rows ℕ (ConnError ℕ)
query_at k = record query_end { row = k; closed = false }

query_loop : Loop rows_of (query_rows result) ((2, 1) ∷ (2, 2) ∷ []) query_end
unfolding query_rows
query_loop =
    round {r1 = query_at 1} 2
      (more_rows (
        read_block 0 2 server_data [] refl (omega arith) refl (λ h. ground (arith, h))
          (in_block 2 refl (omega arith))))
      refl
      (round {r1 = query_at 2} 2 (more_rows (in_block 2 refl (omega arith))) refl (
        ended (
          no_more (stream_closed 2 refl (omega arith) refl) (
            both [] [] refl refl
              (stream_ended refl refl (errors_ended refl refl (both_closed refl refl)))))))

query_loop_example :
    (query_end.err ≡ result.error)
    × (query_end.err ≡ none
        → (before after rest : List (Frame ℕ ℕ)) × NoData before
          × NoEnd after
          × (serving.frames
              ≡ before
                ++ block_frame server_data (inl result.first)
                  ∷ (after ++ server_end_of_stream ∷ rest))
          × (((2, 1) ∷ (2, 2) ∷ [])
              ≡ rows_from result.first 0 (rows_of result.first)
                ++ stream_rows rows_of (blocks rows_of after)))
query_loop_example =
    query-Loop-sees rows_of false answered answered serving result serving_result query_loop

-- A row that cannot be scanned.
abbrev scan_odd : ℕ → ℕ → Option ℕ
scan_odd b row = if row == 1 then some 7 else none

row_scan : RowScan rows_of scan_odd rows at_row (some (not_scanned 7))
unfolding scan_rows scan_block
row_scan = scan_failed (not_scanned 7) first-Next refl

row_scan_example : RowAnswer rows_of scan_odd rows (some (not_scanned 7))
row_scan_example = RowScan-answers rows_of scan_odd [] row_scan refl
