-- ===== src/Native/Answers.antt =====
-- conn_query.go and conn_ping.go: what the answers of query and ping say of the server's frames.
use clickhouse_go.Common.{
  ℕ, Bool, true, not, List, [], ◌∷◌, ◌++◌, Option, none, some, ◌⊎◌, inl, inr, ◌≡◌, refl, ap, ◌∙◌,
  ◌==◌, if◌then◌else◌, Bool-cases,
}
use clickhouse_go.Native.{
  Frame, BlockPacket, ConnError, Event, on_data, Round, Waiting, first_block, handle, handled,
  decoded, process_round, server_exception, server_profile_info, server_table_columns,
  server_profile_events, server_log, server_progress, other_packet, on_profile_info,
  on_profile_events, on_logs, on_progress, block_frame, server_end_of_stream, server_pong,
  bind_failed, send_failed,
}
use clickhouse_go.Native.Ends.{calls}
use clickhouse_go.Native.Calls.{
  Serving, Result, Queried, query_first, query_sent, query_bound, query, send_query, on_exec,
  streamed,
}

-- One release, with the error that is answered or, for rows, that their stream ends with.
abbrev pub ReleasedOnce {ℓ} : {Block E : Type ℓ} → Queried Block E → Type ℓ
ReleasedOnce {Block = Block} {E = E} q =
    ((e : ConnError E) × (q.result ≡ inr e) × (q.releases ≡ some e ∷ []))
    ⊎ ((r : Result Block E) × (q.result ≡ inl r) × (q.releases ≡ r.error ∷ []))

module _ {ℓ} {Block E : Type ℓ} (rows : Block → ℕ) (with_profile_events : Bool) where
  query_first-ReleasedOnce :
      (w : Waiting Block E) (s : Serving Block E) (answer : Block ⊎ ConnError E)
      (frames : List (Frame Block E))
      → ReleasedOnce (query_first rows with_profile_events w s answer frames)
  unfolding query_first
  query_first-ReleasedOnce w s (inr e) frames = inl (e, refl, refl)
  query_first-ReleasedOnce w s (inl b) frames = inr (_, refl, refl)

  query_sent-ReleasedOnce :
      (w1 w2 : Waiting Block E) (s : Serving Block E) (sent : Option E)
      → ReleasedOnce (query_sent rows with_profile_events w1 w2 s sent)
  unfolding query_sent
  query_sent-ReleasedOnce w1 w2 s (some e) = inl (send_failed e, refl, refl)
  query_sent-ReleasedOnce w1 w2 s none =
      let p = (first_block rows (on_exec with_profile_events) w1 s.over s.frames).0 in
      query_first-ReleasedOnce w2 s p.answer p.rest

  query_bound-ReleasedOnce :
      (w1 w2 : Waiting Block E) (s : Serving Block E) (bound : Option E)
      → ReleasedOnce (query_bound rows with_profile_events w1 w2 s bound)
  unfolding query_bound
  query_bound-ReleasedOnce w1 w2 s (some e) = inl (bind_failed e, refl, refl)
  query_bound-ReleasedOnce w1 w2 s none = query_sent-ReleasedOnce w1 w2 s (send_query s.sending)

  -- query releases its connection once on every path, by itself or by its goroutine, with the error
  -- that the caller sees.
  pub query-ReleasedOnce :
      (w1 w2 : Waiting Block E) (s : Serving Block E)
      → ReleasedOnce (query rows with_profile_events w1 w2 s)
  unfolding query
  query-ReleasedOnce w1 w2 s = query_bound-ReleasedOnce w1 w2 s s.bound

module _ {ℓ} {Block E : Type ℓ} (rows : Block → ℕ) where
  -- The block of a frame, if it has rows.
  abbrev pub block_of : Frame Block E → List (BlockPacket × Block)
  block_of (block_frame packet (inl b)) = if not (rows b == 0) then (packet, b) ∷ [] else []
  block_of _ = []

  -- The blocks with rows among the frames, in order.
  abbrev pub blocks : List (Frame Block E) → List (BlockPacket × Block)
  blocks [] = []
  blocks (f ∷ fs) = block_of f ++ blocks fs

streamed-append {ℓ} :
    {Block : Type ℓ} (xs ys : List (Event Block)) → streamed (xs ++ ys) ≡ streamed xs ++ streamed ys
unfolding streamed
streamed-append [] ys = refl
streamed-append (on_data packet b ∷ xs) ys = ap (◌∷◌ (packet, b)) (streamed-append xs ys)
streamed-append (on_profile_info ∷ xs) ys = streamed-append xs ys
streamed-append (on_profile_events ∷ xs) ys = streamed-append xs ys
streamed-append (on_logs ∷ xs) ys = streamed-append xs ys
streamed-append (on_progress ∷ xs) ys = streamed-append xs ys

module _ {ℓ} {Block E : Type ℓ} (rows : Block → ℕ) (with_profile_events : Bool) where
  abbrev pub round : Frame Block E → Round Block (Option (ConnError E))
  round =
      process_round rows (record { with_data = true; with_profile_events = with_profile_events })

  streamed-decoded :
      (r : Option E) (event : Event Block)
      → streamed (event ∷ []) ≡ []
      → streamed (handled some (decoded r (event ∷ []))).0 ≡ []
  unfolding streamed
  streamed-decoded none event h = h
  streamed-decoded (some e) event h = refl

  streamed-round : (f : Frame Block E) → streamed (round f).0 ≡ block_of rows f
  unfolding streamed process_round handle
  streamed-round (block_frame packet (inl b)) = elim (Bool-cases (rows b == 0)) [
    | inl e ↦ rw e
    | inr e ↦ rw e
  ]
  streamed-round (block_frame packet (inr e)) = refl
  streamed-round (server_exception e) = refl
  streamed-round server_end_of_stream = refl
  streamed-round (server_profile_info r) = streamed-decoded r on_profile_info refl
  streamed-round (server_table_columns none) = refl
  streamed-round (server_table_columns (some e)) = refl
  streamed-round (server_profile_events none) = elim (Bool-cases with_profile_events) [
    | inl e ↦ rw e
    | inr e ↦ rw e
  ]
  streamed-round (server_profile_events (some e)) = refl
  streamed-round (server_log r) = streamed-decoded r on_logs refl
  streamed-round (server_progress r) = streamed-decoded r on_progress refl
  streamed-round server_pong = refl
  streamed-round (other_packet n) = refl

  pub streamed-calls :
      (over : Option (ConnError E)) (fs : List (Frame Block E))
      → streamed (calls round over fs) ≡ blocks rows fs
  streamed-calls over [] = unfold streamed in refl
  streamed-calls over (f ∷ fs) =
      streamed-append (round f).0 (calls round over fs)
      ∙ rw (streamed-round f, streamed-calls over fs)
