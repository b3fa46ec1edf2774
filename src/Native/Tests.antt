-- ===== src/Native/Tests.antt =====
-- conn_process.go and conn_query.go on concrete frames; a block is the number of its rows.
use clickhouse_go.Common.{
  ℕ, Bool, true, false, List, [], ◌∷◌, ◌++◌, Option, none, some, ◌≡◌, ◌↔◌, ◌⊎◌, inl, refl,
  if◌then◌else◌,
}
use clickhouse_go.Native.{
  Frame, ConnError, OnProcess, done_first, answered, process, process_impl, process_round, handle,
  handle_block, first_block, first_block_impl, first_block_round, read_loop, await, block_frame,
  server_data, server_end_of_stream, server_progress, server_exception, read_failed, server_pong,
  context_done,
}
use clickhouse_go.Native.Ends.{calls, Passed, process_impl-ends}
use clickhouse_go.Native.Calls.{
  exec, exec_bound, send_and_process, async_insert, ping, Sending, Serving, Result, query,
  query_bound, query_sent, query_first, query_goroutine, send_query, send_external, streamed,
}
use clickhouse_go.Native.Succeeds.{Completed, exec-Completed, Ponged, ping-Ponged}
use clickhouse_go.Native.Answers.{ReleasedOnce, query-ReleasedOnce}

abbrev rows_of : ℕ → ℕ
rows_of b = b

abbrev on : OnProcess
on = record { with_data = true; with_profile_events = false }

abbrev two_frames : List (Frame ℕ ℕ)
two_frames = server_progress none ∷ server_exception 3 ∷ []

process_impl_example :
    let p = process_impl rows_of on (read_failed 9) two_frames in
    let round = process_round rows_of on in
    (passed : List (Frame ℕ ℕ)) × Passed round (some (read_failed 9)) passed
    × (((two_frames ≡ passed ++ server_end_of_stream ∷ p.rest)
          × (p.answer ≡ none)
          × (p.events ≡ calls round (some (read_failed 9)) passed))
        ⊎ ((f : Frame ℕ ℕ) × (e : ConnError ℕ) × (two_frames ≡ passed ++ f ∷ p.rest)
            × ((handle rows_of on f).1 ≡ some e)
            × (p.answer ≡ some e)
            × (p.events ≡ calls round (some (read_failed 9)) passed ++ (round f).0))
        ⊎ ((two_frames ≡ passed)
            × (p.rest ≡ [])
            × (p.answer ≡ some (read_failed 9))
            × (p.events ≡ calls round (some (read_failed 9)) passed)))
process_impl_example = process_impl-ends rows_of on (read_failed 9) two_frames

abbrev sends : Sending ℕ
sends = record { encode = none; external = []; empty_block = none; flush = none }

abbrev serving : Serving ℕ ℕ
serving = record {
  bound = none;
  sending = sends;
  over = read_failed 9;
  frames =
      server_progress none
      ∷ block_frame server_data (inl 0)
      ∷ block_frame server_data (inl 2)
      ∷ server_progress none
      ∷ server_end_of_stream
      ∷ [];
}

abbrev result : Result ℕ ℕ
result = record { first = 0; stream = (server_data, 2) ∷ []; error = none }

serving_result : (query rows_of false answered answered serving).result ≡ inl result
unfolding query query_bound query_sent query_first query_goroutine send_query send_external streamed
    process process_impl process_round first_block first_block_impl first_block_round read_loop
    await handle handle_block
serving_result = refl

-- A context that is over while the rows are read: the stream ends with the context's error.
cancelled_result :
    (query rows_of false answered
      (done_first (block_frame server_data (inl 2) ∷ []))
      serving).result
    ≡ inl (record { first = 0; stream = (server_data, 2) ∷ []; error = some context_done })
unfolding query query_bound query_sent query_first query_goroutine send_query send_external streamed
    process process_impl process_round first_block first_block_impl first_block_round read_loop
    await handle handle_block
cancelled_result = refl

released_example : ReleasedOnce (query rows_of false answered answered serving)
released_example = query-ReleasedOnce rows_of false answered answered serving

exec_answers : exec rows_of false answered serving ≡ none
unfolding exec exec_bound send_and_process send_query send_external process process_impl
    process_round read_loop await handle handle_block
exec_answers = refl

exec_example :
    (exec rows_of false answered serving ≡ none
      → (serving.bound ≡ none) × Completed rows_of false serving)
    × ((has_args : Bool)
        → async_insert rows_of false has_args answered serving ≡ none
        → ((if has_args then serving.bound else none) ≡ none) × Completed rows_of false serving)
exec_example = exec-Completed rows_of false answered serving

abbrev pongs : List (Frame ℕ ℕ)
pongs = server_progress none ∷ server_pong ∷ []

ping_example : (ping none (read_failed 9) pongs ≡ none) ↔ (Path (Option ℕ) none none × Ponged pongs)
ping_example = ping-Ponged none (read_failed 9) pongs
