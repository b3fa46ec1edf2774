-- ===== src/Native/Calls.antt =====
-- conn_exec.go, conn_async_insert.go, conn_ping.go, conn_query.go and conn_send_query.go: the calls
-- of a connection. What binding gives and what sending meets are arguments.
use clickhouse_go.Common.{
  ℕ, Bool, true, false, List, [], ◌∷◌, Option, none, some, ◌⊎◌, inl, inr, if◌then◌else◌,
}
use clickhouse_go.Native.{
  Frame, BlockPacket, ConnError, Event, on_data, OnProcess, Round, Waiting, read_loop, process,
  first_block, block_frame, server_data, server_exception, server_end_of_stream,
  server_profile_info, server_table_columns, server_profile_events, server_log, server_progress,
  server_pong, other_packet, decode_failed, exception, unexpected_packet, bind_failed, send_failed,
  server_totals, server_extremes, on_profile_info, on_profile_events, on_logs, on_progress,
}

-- The errors that the steps of sendQuery meet, in their order: the query's encoding, the data of each
-- external table, the empty block, the flush.
pub record Sending {ℓ} (E : Type ℓ) : Type ℓ where
  pub encode : Option E
  pub external : List (Option E)
  pub empty_block : Option E
  pub flush : Option E

module _ {ℓ} {E : Type ℓ} where
  abbrev pub first_error : Option E → Option E → Option E
  first_error (some e) next = some e
  first_error none next = next

  unfoldable pub send_external : List (Option E) → Option E → Option E
  send_external [] next = next
  send_external (r ∷ rs) next = first_error r (send_external rs next)

  unfoldable pub send_query : Sending E → Option E
  unfolding send_external
  send_query s = first_error s.encode (send_external s.external (first_error s.empty_block s.flush))

-- The two settings that asyncInsert writes.
pub record AsyncSettings : Type 0 where
  pub async_insert : ℕ
  pub wait_for_async_insert : ℕ

unfoldable pub async_settings : (wait : Bool) → AsyncSettings
async_settings wait =
    let s : AsyncSettings = record { async_insert = 1; wait_for_async_insert = 0 } in
    if wait then record s { wait_for_async_insert = 1 } else s

-- What a call meets: `bound` is what bindQueryOrAppendParameters gives.
pub record Serving {ℓ} (Block E : Type ℓ) : Type ℓ where
  pub bound : Option E
  pub sending : Sending E
  pub over : ConnError E
  pub frames : List (Frame Block E)

-- The rows of a query: the first block, the blocks that its goroutine puts into the channel, and the
-- error that it puts into the other one.
pub record Result {ℓ} (Block E : Type ℓ) : Type ℓ where
  pub first : Block
  pub stream : List (BlockPacket × Block)
  pub error : Option (ConnError E)

-- The answer of query, and the calls of release with their errors, the goroutine's too.
pub record Queried {ℓ} (Block E : Type ℓ) : Type ℓ where
  pub result : Result Block E ⊎ ConnError E
  pub releases : List (Option (ConnError E))

module _ {ℓ} {Block : Type ℓ} where
  -- onProcess.data, where it sends the block to the stream.
  unfoldable pub streamed : List (Event Block) → List (BlockPacket × Block)
  streamed [] = []
  streamed (on_data packet block ∷ events) = (packet, block) ∷ streamed events
  streamed (on_profile_info ∷ events) = streamed events
  streamed (on_profile_events ∷ events) = streamed events
  streamed (on_logs ∷ events) = streamed events
  streamed (on_progress ∷ events) = streamed events

module _ {ℓ} {Block E : Type ℓ} where
  -- A round of ping.
  unfoldable pub ping_round : Frame Block E → Round Block (Option (ConnError E))
  ping_round (server_exception e) = ([], some (some (exception e)))
  ping_round (server_progress (some e)) = ([], some (some (decode_failed e)))
  ping_round (server_progress none) = ([], none)
  ping_round server_pong = ([], some none)
  ping_round (block_frame server_data r) = ([], some (some (unexpected_packet 1)))
  ping_round (block_frame server_totals r) = ([], some (some (unexpected_packet 7)))
  ping_round (block_frame server_extremes r) = ([], some (some (unexpected_packet 8)))
  ping_round server_end_of_stream = ([], some (some (unexpected_packet 5)))
  ping_round (server_profile_info r) = ([], some (some (unexpected_packet 6)))
  ping_round (server_log r) = ([], some (some (unexpected_packet 10)))
  ping_round (server_table_columns r) = ([], some (some (unexpected_packet 11)))
  ping_round (server_profile_events r) = ([], some (some (unexpected_packet 14)))
  ping_round (other_packet n) = ([], some (some (unexpected_packet n)))

  -- ping, where flush meets an error or none.
  unfoldable pub ping :
      (flush : Option E) → ConnError E → List (Frame Block E) → Option (ConnError E)
  unfolding ping_round read_loop
  ping (some e) over frames = some (send_failed e)
  ping none over frames = (read_loop ping_round (some over) frames).answer

-- onProcess.data is nil, but for the goroutine of query.
abbrev pub on_exec : Bool → OnProcess
on_exec with_profile_events = record {
  with_data = false;
  with_profile_events = with_profile_events;
}

abbrev pub query_failed {ℓ} : {Block E : Type ℓ} → ConnError E → Queried Block E
query_failed e = record { result = inr e; releases = some e ∷ [] }

module _ {ℓ} {Block E : Type ℓ} (rows : Block → ℕ) (with_profile_events : Bool) where
  -- The end of exec and of asyncInsert.
  unfoldable pub send_and_process :
      Waiting Block E → Serving Block E → Option E → Option (ConnError E)
  unfolding process
  send_and_process w s (some e) = some (send_failed e)
  send_and_process w s none =
      (process rows (on_exec with_profile_events) w s.over s.frames).0.answer

  -- exec after binding.
  unfoldable pub exec_bound : Waiting Block E → Serving Block E → Option E → Option (ConnError E)
  unfolding send_query send_and_process
  exec_bound w s (some e) = some (bind_failed e)
  exec_bound w s none = send_and_process w s (send_query s.sending)

  unfoldable pub exec : Waiting Block E → Serving Block E → Option (ConnError E)
  unfolding exec_bound
  exec w s = exec_bound w s s.bound

  -- asyncInsert binds only if there are arguments.
  unfoldable pub async_insert :
      (has_args : Bool) → Waiting Block E → Serving Block E → Option (ConnError E)
  unfolding exec_bound
  async_insert has_args w s = exec_bound w s (if has_args then s.bound else none)

  -- The goroutine of query, with the frames that firstBlock left.
  unfoldable pub query_goroutine :
      Waiting Block E → ConnError E → Block → List (Frame Block E) → Queried Block E
  unfolding process streamed
  query_goroutine w over first frames =
      let p =
        (process rows (record { with_data = true; with_profile_events = with_profile_events }) w
          over frames).0 in
      record {
        result = inl (record { first = first; stream = streamed p.events; error = p.answer });
        releases = p.answer ∷ [];
      }

  -- query behind firstBlock, with the frames that it left.
  unfoldable pub query_first :
      Waiting Block E
      → Serving Block E
      → Block ⊎ ConnError E
      → List (Frame Block E)
      → Queried Block E
  unfolding query_goroutine
  query_first w s (inr e) frames = query_failed e
  query_first w s (inl first) frames = query_goroutine w s.over first frames

  unfoldable pub query_sent :
      Waiting Block E → Waiting Block E → Serving Block E → Option E → Queried Block E
  unfolding first_block query_first
  query_sent w1 w2 s (some e) = query_failed (send_failed e)
  query_sent w1 w2 s none =
      let p = (first_block rows (on_exec with_profile_events) w1 s.over s.frames).0 in
      query_first w2 s p.answer p.rest

  unfoldable pub query_bound :
      Waiting Block E → Waiting Block E → Serving Block E → Option E → Queried Block E
  unfolding query_sent send_query
  query_bound w1 w2 s (some e) = query_failed (bind_failed e)
  query_bound w1 w2 s none = query_sent w1 w2 s (send_query s.sending)

  -- `w1` is the wait of firstBlock and `w2` that of the goroutine.
  unfoldable pub query : Waiting Block E → Waiting Block E → Serving Block E → Queried Block E
  unfolding query_bound
  query w1 w2 s = query_bound w1 w2 s s.bound
