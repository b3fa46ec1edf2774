-- ===== src/Native.antt =====
-- conn_process.go: the reading of a server's answer. A `Frame` is a packet with what its decoding
-- gives: a value or an error of lib/proto. `over` is what a round of a loop meets behind the last
-- frame: a failed read, or a reader that is nil. Deadlines and log lines are left out.
pub mod Ends
pub mod Succeeds
pub mod Calls
pub mod Answers
pub mod Complete
mod Tests
use clickhouse_go.Common.{
  ℕ, Bool, true, false, not, ◌&&◌, List, [], ◌∷◌, ◌++◌, Option, none, some, ◌⊎◌, inl, inr, ◌==◌,
  if◌then◌else◌,
}

-- The packets that carry a block of the result.
pub data BlockPacket : Type 0 where
  server_data : BlockPacket
  server_totals : BlockPacket
  server_extremes : BlockPacket

-- The packets of package proto, with what follows the packet's byte.
pub data Frame {ℓ} (Block E : Type ℓ) : Type ℓ where
  block_frame : BlockPacket → Block ⊎ E → Frame Block E
  server_exception : E → Frame Block E
  server_end_of_stream : Frame Block E
  server_profile_info : Option E → Frame Block E
  server_table_columns : Option E → Frame Block E
  server_profile_events : Option E → Frame Block E
  server_log : Option E → Frame Block E
  server_progress : Option E → Frame Block E
  server_pong : Frame Block E
  other_packet : ℕ → Frame Block E

pub data ConnError {ℓ} (E : Type ℓ) : Type ℓ where
  reader_is_nil : ConnError E
  read_failed : E → ConnError E
  end_of_file : ConnError E
  decode_failed : E → ConnError E
  exception : E → ConnError E
  unexpected_packet : ℕ → ConnError E
  context_done : ConnError E
  bind_failed : E → ConnError E
  send_failed : E → ConnError E

-- A call of a function of onProcess.
pub data Event {ℓ} (Block : Type ℓ) : Type ℓ where
  on_data : BlockPacket → Block → Event Block
  on_profile_info : Event Block
  on_profile_events : Event Block
  on_logs : Event Block
  on_progress : Event Block

-- Which functions of onProcess are not nil; the others always are there.
pub record OnProcess : Type 0 where
  pub with_data : Bool
  pub with_profile_events : Bool

module _ {ℓ} {Block E : Type ℓ} where
  -- A decoding, and the call behind it.
  abbrev pub decoded : Option E → List (Event Block) → List (Event Block) × Option (ConnError E)
  decoded none events = (events, none)
  decoded (some e) events = ([], some (decode_failed e))

module _ {ℓ} {Block E : Type ℓ} (rows : Block → ℕ) (on : OnProcess) where
  -- The block of readData.
  unfoldable pub handle_block : BlockPacket → Block ⊎ E → List (Event Block) × Option (ConnError E)
  handle_block packet (inr e) = ([], some (decode_failed e))
  handle_block packet (inl block) =
      (if not (rows block == 0) && on.with_data then on_data packet block ∷ [] else [], none)

  unfoldable pub handle : Frame Block E → List (Event Block) × Option (ConnError E)
  unfolding handle_block
  handle (block_frame packet r) = handle_block packet r
  handle (server_exception e) = ([], some (exception e))
  handle (server_profile_info r) = decoded r (on_profile_info ∷ [])
  handle (server_table_columns r) = decoded r []
  handle (server_profile_events r) =
      decoded r (if on.with_profile_events then on_profile_events ∷ [] else [])
  handle (server_log r) = decoded r (on_logs ∷ [])
  handle (server_progress r) = decoded r (on_progress ∷ [])
  handle server_end_of_stream = ([], some (unexpected_packet 5))
  handle server_pong = ([], some (unexpected_packet 4))
  handle (other_packet packet) = ([], some (unexpected_packet packet))

-- What a loop has called, the frames that it has not read, and what it answers.
pub record Processed {ℓ} (Block E A : Type ℓ) : Type ℓ where
  pub events : List (Event Block)
  pub rest : List (Frame Block E)
  pub answer : A

-- One round of a loop: its calls, and the answer if it is the last.
abbrev pub Round {ℓ} : Type ℓ → Type ℓ → Type ℓ
Round Block A = List (Event Block) × Option A

module _ {ℓ} {Block E A : Type ℓ} where
  abbrev pub after_round :
      Round Block A → List (Frame Block E) → Processed Block E A → Processed Block E A
  after_round (events, some a) rest p = record { events = events; rest = rest; answer = a }
  after_round (events, none) rest p = record p { events = events ++ p.events }

  -- `for { packet := ReadByte(); … }`
  unfoldable pub read_loop :
      (Frame Block E → Round Block A) → A → List (Frame Block E) → Processed Block E A
  read_loop round over [] = record { events = []; rest = []; answer = over }
  read_loop round over (frame ∷ rest) = after_round (round frame) rest (read_loop round over rest)

  -- `if err := c.handle(…); err != nil { return err }`
  abbrev pub handled : (ConnError E → A) → Round Block (ConnError E) → Round Block A
  handled fail (events, none) = (events, none)
  handled fail (events, some e) = (events, some (fail e))

module _ {ℓ} {Block E : Type ℓ} (rows : Block → ℕ) (on : OnProcess) where
  -- A round of processImpl.
  unfoldable pub process_round : Frame Block E → Round Block (Option (ConnError E))
  unfolding handle
  process_round server_end_of_stream = ([], some none)
  process_round frame = handled some (handle rows on frame)

  -- processImpl
  unfoldable pub process_impl :
      ConnError E → List (Frame Block E) → Processed Block E (Option (ConnError E))
  unfolding process_round read_loop
  process_impl over frames = read_loop process_round (some over) frames

  -- A round of firstBlockImpl.
  unfoldable pub first_block_round : Frame Block E → Round Block (Block ⊎ ConnError E)
  unfolding handle
  first_block_round (block_frame server_data (inl block)) = ([], some (inl block))
  first_block_round (block_frame server_data (inr e)) = ([], some (inr (decode_failed e)))
  first_block_round server_end_of_stream = ([], some (inr end_of_file))
  first_block_round frame = handled inr (handle rows on frame)

  -- firstBlockImpl
  unfoldable pub first_block_impl :
      ConnError E → List (Frame Block E) → Processed Block E (Block ⊎ ConnError E)
  unfolding first_block_round read_loop
  first_block_impl over frames = read_loop first_block_round (inr over) frames

-- How the wait for a reading goroutine goes: ctx is over before, or while it waits, or not before
-- the answer. In the first two cases the query is cancelled, which closes the connection; the
-- goroutine may still read the frames of `done_first`.
pub data Waiting {ℓ} (Block E : Type ℓ) : Type ℓ where
  done_before : Waiting Block E
  done_first : List (Frame Block E) → Waiting Block E
  answered : Waiting Block E

-- A loop in the background, with whether the query was cancelled.
module _ {ℓ} {Block E A : Type ℓ} where
  unfoldable pub await :
      (ConnError E → A)
      → (ConnError E → List (Frame Block E) → Processed Block E A)
      → Waiting Block E
      → ConnError E
      → List (Frame Block E)
      → Processed Block E A × Bool
  await fail impl done_before over frames =
      (record { events = []; rest = frames; answer = fail context_done }, true)
  await fail impl (done_first seen) over frames =
      (record (impl reader_is_nil seen) { rest = []; answer = fail context_done }, true)
  await fail impl answered over frames = (impl over frames, false)

module _ {ℓ} {Block E : Type ℓ} (rows : Block → ℕ) (on : OnProcess) where
  unfoldable pub process :
      Waiting Block E
      → ConnError E
      → List (Frame Block E)
      → Processed Block E (Option (ConnError E)) × Bool
  unfolding await process_impl
  process = await some (process_impl rows on)

  unfoldable pub first_block :
      Waiting Block E
      → ConnError E
      → List (Frame Block E)
      → Processed Block E (Block ⊎ ConnError E) × Bool
  unfolding await first_block_impl
  first_block = await inr (first_block_impl rows on)
