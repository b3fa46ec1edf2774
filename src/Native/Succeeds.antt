-- ===== src/Native/Succeeds.antt =====
-- conn_exec.go, conn_async_insert.go and conn_ping.go: what it means that a call answers no error.
use clickhouse_go.Common.{
  ℕ, zero, suc, Bool, List, [], ◌∷◌, ◌++◌, Option, none, some, inl, inr, ◌≡◌, ◌↔◌, refl, ap, ◌∙◌,
  arith, replicate, if◌then◌else◌,
}
use clickhouse_go.Native.{
  Frame, ConnError, Waiting, done_before, done_first, answered, read_loop, process, await,
  process_round, block_frame, server_data, server_totals, server_extremes, server_exception,
  server_end_of_stream, server_profile_info, server_table_columns, server_profile_events,
  server_log, server_progress, server_pong, other_packet,
}
use clickhouse_go.Native.Ends.{Passed, process_impl-ends}
use clickhouse_go.Native.Calls.{
  Sending, Serving, first_error, send_external, send_query, send_and_process, exec_bound, exec,
  async_insert, on_exec, ping, ping_round,
}

module _ {ℓ} {E : Type ℓ} where
  -- All that is sent is sent.
  abbrev pub AllSent : List (Option E) → Type ℓ
  AllSent [] = Unit
  AllSent (r ∷ rs) = (r ≡ none) × AllSent rs

  abbrev pub Sent : Sending E → Type ℓ
  Sent s = (s.encode ≡ none) × AllSent s.external × (s.empty_block ≡ none) × (s.flush ≡ none)

  first_error-none : (r next : Option E) → first_error r next ≡ none → (r ≡ none) × (next ≡ none)
  first_error-none none next h = (refl, h)
  first_error-none (some e) next h = absurd (ground (arith, h))

  send_external-none :
      (rs : List (Option E)) (next : Option E)
      → send_external rs next ≡ none
      → AllSent rs × (next ≡ none)
  unfolding send_external
  send_external-none [] next h = (tt, h)
  send_external-none (r ∷ rs) next h =
      let (first, others) = first_error-none r (send_external rs next) h in
      let (all, last) = send_external-none rs next others in ((first, all), last)

  pub send_query-none : (s : Sending E) → send_query s ≡ none → Sent s
  unfolding send_query
  send_query-none s h =
      let (encode, h1) = first_error-none s.encode _ h in
      let (all, h2) = send_external-none s.external _ h1 in
      let (empty, flush) = first_error-none s.empty_block s.flush h2 in (encode, all, empty, flush)

module _ {ℓ} {Block E : Type ℓ} (rows : Block → ℕ) (with_profile_events : Bool) where
  -- The query was sent, and the server's frames were handled up to the end of the stream.
  abbrev pub Completed : Serving Block E → Type ℓ
  Completed s =
      Sent s.sending
      × ((passed rest : List (Frame Block E)) × Passed
            (process_round rows (on_exec with_profile_events)) (some s.over) passed
          × (s.frames ≡ passed ++ server_end_of_stream ∷ rest))

  process_none :
      (w : Waiting Block E) (over : ConnError E) (frames : List (Frame Block E))
      → (process rows (on_exec with_profile_events) w over frames).0.answer ≡ none
      → (passed rest : List (Frame Block E)) × Passed
          (process_round rows (on_exec with_profile_events))
          (some over)
          passed
        × (frames ≡ passed ++ server_end_of_stream ∷ rest)
  unfolding process await
  process_none done_before over frames h = absurd (ground (arith, h))
  process_none (done_first seen) over frames h = absurd (ground (arith, h))
  process_none answered over frames h =
      let (passed, all, ends) = process_impl-ends rows (on_exec with_profile_events) over frames in
      elim ends [
        | inl (e, _, c) ↦ (passed, _, all, e)
        | inr (inl (f, err, e, _, a, _)) ↦ absurd (ground (arith, h, a))
        | inr (inr (e, _, a, _)) ↦ absurd (ground (arith, h, a))
      ]

  send_and_process-none :
      (w : Waiting Block E) (s : Serving Block E) (sent : Option E)
      → send_query s.sending ≡ sent
      → send_and_process rows with_profile_events w s sent ≡ none
      → Completed s
  unfolding send_and_process
  send_and_process-none w s (some e) k h = absurd (ground (arith, h))
  send_and_process-none w s none k h =
      (send_query-none s.sending k, process_none w s.over s.frames h)

  exec_bound-none :
      (w : Waiting Block E) (s : Serving Block E) (bound : Option E)
      → exec_bound rows with_profile_events w s bound ≡ none
      → (bound ≡ none) × Completed s
  unfolding exec_bound
  exec_bound-none w s (some e) h = absurd (ground (arith, h))
  exec_bound-none w s none h = (refl, send_and_process-none w s (send_query s.sending) refl h)

  -- exec answers nil only if the arguments were bound, each part of the query was sent, and the server
  -- has answered with frames that could be handled and then the end of the stream; asyncInsert too,
  -- where the arguments count only if there are any.
  pub exec-Completed :
      (w : Waiting Block E) (s : Serving Block E)
      → (exec rows with_profile_events w s ≡ none → (s.bound ≡ none) × Completed s)
        × ((has_args : Bool)
            → async_insert rows with_profile_events has_args w s ≡ none
            → ((if has_args then s.bound else none) ≡ none) × Completed s)
  unfolding exec async_insert
  exec-Completed w s = (
    exec_bound-none w s s.bound,
    λ has_args. exec_bound-none w s (if has_args then s.bound else none),
  )

module _ {ℓ} {Block E : Type ℓ} where
  -- Progress, any number of times, and then the pong.
  abbrev pub Ponged : List (Frame Block E) → Type ℓ
  Ponged frames =
      (n : ℕ) × (rest : List (Frame Block E)) × (frames
        ≡ replicate n (server_progress none) ++ server_pong ∷ rest)

  ping_loop-Ponged :
      (over : ConnError E) (frames : List (Frame Block E))
      → (read_loop ping_round (some over) frames).answer ≡ none
      → Ponged frames
  unfolding read_loop ping_round
  ping_loop-Ponged over [] h = absurd (ground (arith, h))
  ping_loop-Ponged over (server_progress none ∷ frames) h =
      let (n, rest, e) = ping_loop-Ponged over frames h in
      (suc n, rest, ap (◌∷◌ (server_progress none)) e)
  ping_loop-Ponged over (server_progress (some x) ∷ frames) h = absurd (ground (arith, h))
  ping_loop-Ponged over (server_pong ∷ frames) h = (0, frames, refl)
  ping_loop-Ponged over (server_exception x ∷ frames) h = absurd (ground (arith, h))
  ping_loop-Ponged over (block_frame server_data r ∷ frames) h = absurd (ground (arith, h))
  ping_loop-Ponged over (block_frame server_totals r ∷ frames) h = absurd (ground (arith, h))
  ping_loop-Ponged over (block_frame server_extremes r ∷ frames) h = absurd (ground (arith, h))
  ping_loop-Ponged over (server_end_of_stream ∷ frames) h = absurd (ground (arith, h))
  ping_loop-Ponged over (server_profile_info r ∷ frames) h = absurd (ground (arith, h))
  ping_loop-Ponged over (server_table_columns r ∷ frames) h = absurd (ground (arith, h))
  ping_loop-Ponged over (server_profile_events r ∷ frames) h = absurd (ground (arith, h))
  ping_loop-Ponged over (server_log r ∷ frames) h = absurd (ground (arith, h))
  ping_loop-Ponged over (other_packet m ∷ frames) h = absurd (ground (arith, h))

  ping_loop-pong :
      (over : ConnError E) (n : ℕ) (rest : List (Frame Block E))
      → (read_loop ping_round
          (some over)
          (replicate n (server_progress none) ++ server_pong ∷ rest)).answer
        ≡ none
  unfolding read_loop ping_round
  ping_loop-pong over zero rest = refl
  ping_loop-pong over (suc n) rest = ping_loop-pong over n rest

  -- ping answers nil exactly if its byte was sent and the server has answered with progress, any
  -- number of times, and then the pong.
  pub ping-Ponged :
      (flush : Option E) (over : ConnError E) (frames : List (Frame Block E))
      → (ping flush over frames ≡ none) ↔ ((flush ≡ none) × Ponged frames)
  unfolding ping
  ping-Ponged (some e) over frames =
      (λ h. absurd (ground (arith, h)), λ (h, _). absurd (ground (arith, h)))
  ping-Ponged none over frames = (
    λ h. (refl, ping_loop-Ponged over frames h),
    λ (_, (n, rest, e)).
        ap (λ fs. (read_loop ping_round (some over) fs).answer) e ∙ ping_loop-pong over n rest,
  )
