-- ===== src/Native/Complete.antt =====
-- conn_query.go: the rows of a query that ends without an error are all that the server sent.
use mathlib.Core.Path.{subst}
use clickhouse_go.Common.{
  ℕ, Bool, true, List, [], ◌∷◌, ◌++◌, Option, none, some, ◌⊎◌, inl, inr, ◌≡◌, ◌≢◌, refl, ap, ◌∙◌,
  arith,
}
use clickhouse_go.Native.{
  Frame, ConnError, OnProcess, Round, Waiting, done_before, done_first, answered, process,
  first_block, first_block_impl, await, handle, handled, process_round, first_block_round,
  block_frame, server_data, server_totals, server_extremes, server_exception, server_end_of_stream,
  server_profile_info, server_table_columns, server_profile_events, server_log, server_progress,
  server_pong, other_packet,
}
use clickhouse_go.Native.Ends.{Passed, read_loop-Stops, process_impl-ends}
use clickhouse_go.Native.Calls.{
  Serving, Result, query_goroutine, query_first, query_sent, query_bound, query, send_query,
  on_exec, streamed,
}
use clickhouse_go.Native.Answers.{blocks, streamed-calls}

abbrev with_stream : Bool → OnProcess
with_stream with_profile_events = record {
  with_data = true;
  with_profile_events = with_profile_events;
}

no_block {ℓ} :
    {Block E : Type ℓ} (r : Round Block (ConnError E)) (b : Block)
    → (handled {A = Block ⊎ ConnError E} inr r).1 ≡ some (inl b)
    → ⊥
no_block (events, none) b h = ground (arith, h)
no_block (events, some e) b h = ground (arith, h)

module _ {ℓ} {Block E : Type ℓ} where
  -- None of the frames is a data block.
  abbrev pub NoData : List (Frame Block E) → Type ℓ
  NoData [] = Unit
  NoData (f ∷ fs) = ((r : Block ⊎ E) → f ≢ block_frame server_data r) × NoData fs

  -- None of the frames is the end of the stream.
  abbrev pub NoEnd : List (Frame Block E) → Type ℓ
  NoEnd [] = Unit
  NoEnd (f ∷ fs) = (f ≢ server_end_of_stream) × NoEnd fs

module _ {ℓ} {Block E : Type ℓ} (rows : Block → ℕ) (with_profile_events : Bool) where
  data_answers :
      (r : Block ⊎ E)
      → (first_block_round rows (on_exec with_profile_events) (block_frame server_data r)).1 ≢ none
  unfolding first_block_round
  data_answers (inl b) k = absurd (ground (arith, k))
  data_answers (inr e) k = absurd (ground (arith, k))

  Passed-NoData :
      (over : ConnError E) (frames : List (Frame Block E))
      → Passed (first_block_round rows (on_exec with_profile_events)) (inr over) frames
      → NoData frames
  Passed-NoData over [] h = tt
  Passed-NoData over (f ∷ fs) (h, hs) =
      (λ r e. data_answers r (rw e at h), Passed-NoData over fs hs)

  end_answers :
      (process_round {E = E} rows (with_stream with_profile_events) server_end_of_stream).1 ≢ none
  unfolding process_round
  end_answers k = absurd (ground (arith, k))

  Passed-NoEnd :
      (over : ConnError E) (frames : List (Frame Block E))
      → Passed (process_round rows (with_stream with_profile_events)) (some over) frames
      → NoEnd frames
  Passed-NoEnd over [] h = tt
  Passed-NoEnd over (f ∷ fs) (h, hs) = (λ e. end_answers (rw e at h), Passed-NoEnd over fs hs)

  process_complete :
      (w : Waiting Block E) (over : ConnError E) (frames : List (Frame Block E))
      → (process rows (with_stream with_profile_events) w over frames).0.answer ≡ none
      → (passed rest : List (Frame Block E)) × Passed
          (process_round rows (with_stream with_profile_events))
          (some over)
          passed
        × (frames ≡ passed ++ server_end_of_stream ∷ rest)
        × (streamed (process rows (with_stream with_profile_events) w over frames).0.events
            ≡ blocks rows passed)
  unfolding process await
  process_complete done_before over frames h = absurd (ground (arith, h))
  process_complete (done_first seen) over frames h = absurd (ground (arith, h))
  process_complete answered over frames h =
      let (passed, all, ends) =
        process_impl-ends rows (with_stream with_profile_events) over frames in
      elim ends [
        | inl (e, _, c) ↦ (
          passed,
          _,
          all,
          e,
          ap streamed c ∙ streamed-calls rows with_profile_events (some over) passed,
        )
        | inr (inl (f, err, e, _, a, _)) ↦ absurd (ground (arith, h, a))
        | inr (inr (e, _, a, _)) ↦ absurd (ground (arith, h, a))
      ]

  first_frame :
      (f : Frame Block E) (b : Block)
      → (first_block_round rows (on_exec with_profile_events) f).1 ≡ some (inl b)
      → f ≡ block_frame server_data (inl b)
  unfolding first_block_round
  first_frame (block_frame server_data (inl b')) b h = ground (arith, h)
  first_frame (block_frame server_data (inr e)) b h = absurd (ground (arith, h))
  first_frame (block_frame server_totals r) b h =
      absurd
        (no_block (handle rows (on_exec with_profile_events) (block_frame server_totals r)) b h)
  first_frame (block_frame server_extremes r) b h =
      absurd
        (no_block (handle rows (on_exec with_profile_events) (block_frame server_extremes r)) b h)
  first_frame (server_exception e) b h =
      absurd (no_block (handle rows (on_exec with_profile_events) (server_exception e)) b h)
  first_frame server_end_of_stream b h = absurd (ground (arith, h))
  first_frame (server_profile_info r) b h =
      absurd (no_block (handle rows (on_exec with_profile_events) (server_profile_info r)) b h)
  first_frame (server_table_columns r) b h =
      absurd (no_block (handle rows (on_exec with_profile_events) (server_table_columns r)) b h)
  first_frame (server_profile_events r) b h =
      absurd (no_block (handle rows (on_exec with_profile_events) (server_profile_events r)) b h)
  first_frame (server_log r) b h =
      absurd (no_block (handle rows (on_exec with_profile_events) (server_log r)) b h)
  first_frame (server_progress r) b h =
      absurd (no_block (handle rows (on_exec with_profile_events) (server_progress r)) b h)
  first_frame server_pong b h =
      absurd (no_block (handle rows (on_exec with_profile_events) server_pong) b h)
  first_frame (other_packet n) b h =
      absurd (no_block (handle rows (on_exec with_profile_events) (other_packet n)) b h)

  first_complete :
      (w : Waiting Block E) (over : ConnError E) (frames : List (Frame Block E)) (b : Block)
      → (let p = (first_block rows (on_exec with_profile_events) w over frames).0 in
          p.answer ≡ inl b
          → (before : List (Frame Block E)) × NoData before
            × (frames ≡ before ++ block_frame server_data (inl b) ∷ p.rest))
  unfolding first_block await first_block_impl
  first_complete done_before over frames b h = absurd (ground (arith, h))
  first_complete (done_first seen) over frames b h = absurd (ground (arith, h))
  first_complete answered over frames b h =
      let (before, all, stop) =
        read_loop-Stops (first_block_round rows (on_exec with_profile_events)) (inr over) frames in
      elim stop [
        | inl (_, _, a, _) ↦ absurd (ground (arith, h, a))
        | inr (f, e, a, _) ↦
            (before, Passed-NoData over before all, rw (first_frame f b (a ∙ ap some h)) at e)
      ]

  -- The frames of a query whose rows end without an error.
  abbrev pub Delivered : List (Frame Block E) → Result Block E → Type ℓ
  Delivered frames r =
      (before after rest : List (Frame Block E)) × NoData before
      × NoEnd after
      × (frames
          ≡ before
            ++ block_frame server_data (inl r.first) ∷ (after ++ server_end_of_stream ∷ rest))
      × (r.stream ≡ blocks rows after)

  query_first-Delivered :
      (w : Waiting Block E) (s : Serving Block E) (answer : Block ⊎ ConnError E)
      (frames left : List (Frame Block E)) (r : Result Block E)
      → ((b : Block)
          → answer ≡ inl b
          → (before : List (Frame Block E)) × NoData before
            × (frames ≡ before ++ block_frame server_data (inl b) ∷ left))
      → (query_first rows with_profile_events w s answer left).result ≡ inl r
      → r.error ≡ none
      → Delivered frames r
  unfolding query_first query_goroutine
  query_first-Delivered w s (inr e) frames left r found h n = absurd (ground (arith, h))
  query_first-Delivered w s (inl b) frames left r found h n =
      let p = (process rows (with_stream with_profile_events) w s.over left).0 in
      let r' : Result Block E = record {
        first = b;
        stream = streamed p.events;
        error = p.answer;
      } in
      let same : r' ≡ r = cc h in
      let (before, no_data, e) = found b refl in
      let (after, rest, all, e', c) = process_complete w s.over left (ap (λ r. r.error) same ∙ n) in
      subst (Delivered frames) same (
        before,
        after,
        rest,
        no_data,
        Passed-NoEnd s.over after all,
        e ∙ ap (λ fs. before ++ block_frame server_data (inl b) ∷ fs) e',
        c,
      )

  query_sent-Delivered :
      (w1 w2 : Waiting Block E) (s : Serving Block E) (sent : Option E) (r : Result Block E)
      → (query_sent rows with_profile_events w1 w2 s sent).result ≡ inl r
      → r.error ≡ none
      → Delivered s.frames r
  unfolding query_sent
  query_sent-Delivered w1 w2 s (some e) r h n = absurd (ground (arith, h))
  query_sent-Delivered w1 w2 s none r h n =
      let p = (first_block rows (on_exec with_profile_events) w1 s.over s.frames).0 in
      query_first-Delivered w2 s p.answer s.frames p.rest r
        (λ b a. first_complete w1 s.over s.frames b a) h n

  query_bound-Delivered :
      (w1 w2 : Waiting Block E) (s : Serving Block E) (bound : Option E) (r : Result Block E)
      → (query_bound rows with_profile_events w1 w2 s bound).result ≡ inl r
      → r.error ≡ none
      → Delivered s.frames r
  unfolding query_bound
  query_bound-Delivered w1 w2 s (some e) r h n = absurd (ground (arith, h))
  query_bound-Delivered w1 w2 s none r h n =
      query_sent-Delivered w1 w2 s (send_query s.sending) r h n

  -- If the stream of a query ends without an error, the server's first data block is the first block
  -- of the rows, and behind it came frames up to the end of the stream, of which every block with rows is in
  -- the stream, in order.
  pub query-Delivered :
      (w1 w2 : Waiting Block E) (s : Serving Block E) (r : Result Block E)
      → (query rows with_profile_events w1 w2 s).result ≡ inl r
      → r.error ≡ none
      → Delivered s.frames r
  unfolding query
  query-Delivered w1 w2 s r h n = query_bound-Delivered w1 w2 s s.bound r h n
