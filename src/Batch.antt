-- ===== src/Batch.antt =====
-- conn_batch.go: the batch of an INSERT over the native protocol. A connection is named by a number,
-- and a block and its columns are parameters (lib/proto). `Wire` says what the connection, the pool
-- and the context answer in one call. Deadlines, the watchdog, log
-- lines, appendRowsBlocks and AppendStruct are left out.
pub mod Held
pub mod Kept
pub mod Calls
mod Tests
use clickhouse_go.Common.{
  ℕ, Bool, true, false, not, ◌||◌, List, [], ◌∷◌, ◌++◌, Option, none, some, leb, ◌==◌, ◌⊎◌, inl,
  inr, if◌then◌else◌,
}

-- What the batch asks of its block. A failed Append leaves a block too.
pub record BlockOps {ℓ} (Block V E : Type ℓ) : Type ℓ where
  pub append : Block → V → Block × Option E
  pub rows : Block → ℕ
  pub reset : Block → Block
  pub columns : Block → ℕ
  pub append_column : Block → ℕ → V → Block × Option E

pub data BatchError {ℓ} (E : Type ℓ) : Type ℓ where
  err_batch_already_sent : BatchError E
  err_process_done : BatchError E
  err_batch_invalid : E → BatchError E
  err_column_index : ℕ → BatchError E
  failed : E → BatchError E

-- The answers in one call of a method: `none` is no error. `acquire` is what connAcquire gives.
pub record Wire {ℓ} (E : Type ℓ) : Type ℓ where
  pub acquire : ℕ ⊎ E
  pub send_query : Option E
  pub first_block : Option E
  pub send_data : Option E
  pub send_empty : Option E
  pub process : Option E
  pub ctx_err : Option E
  pub is_broken : E → Bool

-- `conn` is `none` where b.conn is nil. `returned` lists the calls of connRelease, with their error, and `acquired` the
-- connections that the batch was given, both oldest first; `sent_blocks` lists the blocks that were
-- sent without an error, with the connection.
pub record Batch {ℓ} (Block E : Type ℓ) : Type ℓ where
  pub err : Option (BatchError E)
  pub conn : Option ℕ
  pub sent : Bool
  pub released : Bool
  pub close_on_flush : Bool
  pub block : Block
  pub returned : List (Option ℕ × Option (BatchError E))
  pub acquired : List (Option ℕ)
  pub sent_blocks : List (Option ℕ × Block)

-- A batch whose method has returned, with its error.
abbrev pub Outcome {ℓ} : Type ℓ → Type ℓ → Type ℓ
Outcome Block E = Batch Block E × Option (BatchError E)

-- closeQuery sends an empty block and processes the answer: its error.
unfoldable pub close_query {ℓ} : {E : Type ℓ} → Wire E → Option (BatchError E)
close_query w = elim w.send_empty [
  | some e ↦ some (failed e)
  | none ↦ elim w.process [ some e ↦ some (failed e) | none ↦ none ]
]

module _ {ℓ} {Block E : Type ℓ} where
  unfoldable pub release : Option (BatchError E) → Batch Block E → Batch Block E
  release e b =
      if not b.released
      then record b { released = true; returned = b.returned ++ (b.conn, e) ∷ [] }
      else b

  -- The deferred end of Abort and Send.
  unfoldable pub finish : Option (BatchError E) → Batch Block E → Batch Block E
  unfolding release
  finish e b = release e (record b { sent = true })

  unfoldable pub new_batch : ℕ → Block → Bool → Batch Block E
  new_batch conn block close_on_flush = record {
    err = none;
    conn = some conn;
    sent = false;
    released = false;
    close_on_flush = close_on_flush;
    block = block;
    returned = [];
    acquired = some conn ∷ [];
    sent_blocks = [];
  }

  unfoldable pub abort : Batch Block E → Outcome Block E
  unfolding finish
  abort b = (finish (some err_process_done) b, if b.sent then some err_batch_already_sent else none)

  -- A new connection has answered: `released` is reset whatever it answered, and the release of a
  -- connection that failed comes before that.
  unfoldable pub restart : Wire E → Batch Block E → Outcome Block E
  unfolding release
  restart w b = elim w.send_query [
    | some e ↦ (record (release (some (failed e)) b) { released = false }, some (failed e))
    | none ↦ elim w.first_block [
      | some e ↦ (record (release (some (failed e)) b) { released = false }, some (failed e))
      | none ↦ (record b { released = false }, none)
    ]
  ]

  unfoldable pub reset_connection : Wire E → Batch Block E → Outcome Block E
  unfolding restart
  reset_connection w b = elim w.acquire [
    | inr e ↦ (record b { conn = none }, some (failed e))
    | inl c ↦ restart w (record b { conn = some c; acquired = b.acquired ++ some c ∷ [] })
  ]

  unfoldable pub flush_start : Wire E → Batch Block E → Outcome Block E
  unfolding reset_connection
  flush_start w b = if b.released then reset_connection w b else (b, none)

  -- The tests of `sent` and `released` in Send and in Flush.
  unfoldable pub send_start : Wire E → Batch Block E → Outcome Block E
  unfolding reset_connection
  send_start w b = if b.sent || b.released then reset_connection w b else (b, none)

  -- What follows a step without an error.
  abbrev pub and_then : Outcome Block E → (Batch Block E → Outcome Block E) → Outcome Block E
  and_then (b, none) f = f b
  and_then (b, some e) f = (b, some e)

  -- A batch that has failed before answers with that error again.
  abbrev pub unless_failed :
      Option (BatchError E) → Batch Block E → Outcome Block E → Outcome Block E
  unless_failed none b r = r
  unless_failed (some e) b r = (b, some e)

  -- The block goes out to the connection.
  unfoldable pub send_data : Wire E → Batch Block E → Batch Block E × Option E
  send_data w b = elim w.send_data [
    | some e ↦ (b, some e)
    | none ↦ (record b { sent_blocks = b.sent_blocks ++ (b.conn, b.block) ∷ [] }, none)
  ]

  unfoldable pub close : Wire E → Batch Block E → Outcome Block E
  unfolding finish close_query
  close w b = if b.sent || b.released then (b, none) else (finish (close_query w) b, close_query w)

module _ {ℓ} {Block V E : Type ℓ} (ops : BlockOps Block V E) where
  -- The block took a row, or not.
  unfoldable pub appended : Batch Block E → Block × Option E → Outcome Block E
  unfolding release
  appended b (block, none) = (record b { block = block }, none)
  appended b (block, some e) = (
    release (some (failed e)) (record b { block = block; err = some (err_batch_invalid e) }),
    some (failed e),
  )

  unfoldable pub append : Batch Block E → V → Outcome Block E
  unfolding appended
  append b v =
      if b.sent
      then (b, some err_batch_already_sent)
      else unless_failed b.err b (appended b (ops.append b.block v))

  -- Column, and an Append to the column that it gives: `none` is a column without an error.
  unfoldable pub column : Batch Block E → ℕ → Outcome Block E
  unfolding release
  column b idx =
      if leb (ops.columns b.block) idx
      then (release (some (err_column_index idx)) b, some (err_column_index idx))
      else (b, none)

  unfoldable pub column_appended : Batch Block E → Block × Option E → Outcome Block E
  unfolding release
  column_appended b (block, none) = (record b { block = block }, none)
  column_appended b (block, some e) = (
    release (some (failed e)) (record b { block = block; err = some (failed e) }),
    some (failed e),
  )

  unfoldable pub column_append : Batch Block E → ℕ → V → Outcome Block E
  unfolding column_appended
  column_append b idx v =
      if b.sent
      then (b, some err_batch_already_sent)
      else column_appended b (ops.append_column b.block idx v)

  -- The error of sendData in Send: the context's own error comes first.
  unfoldable pub send_failed : Wire E → E → BatchError E
  send_failed w e = elim w.ctx_err [ some e' ↦ failed e' | none ↦ failed e ]

  unfoldable pub send_query : Wire E → Batch Block E × Option E → Outcome Block E
  unfolding close_query send_failed
  send_query w (b, some e) = (b, some (send_failed w e))
  send_query w (b, none) = (b, close_query w)

  -- Send from the test of the rows on.
  unfoldable pub send_rest : Wire E → Batch Block E → Outcome Block E
  unfolding send_data send_query
  send_rest w b = send_query w (if not (ops.rows b.block == 0) then send_data w b else (b, none))

  -- Send, before its deferred end.
  unfoldable pub send_body : Wire E → Batch Block E → Outcome Block E
  unfolding send_start send_rest
  send_body w b = unless_failed b.err b (and_then (send_start w b) (send_rest w))

  unfoldable pub send : Wire E → Batch Block E → Outcome Block E
  unfolding finish send_body
  send w b = let (b1, e) = send_body w b in (finish e b1, e)

  -- Flush, behind sendData.
  unfoldable pub flushed : Wire E → Batch Block E × Option E → Outcome Block E
  unfolding release close_query
  flushed w (b, some e) =
      (if w.is_broken e then release (some (failed e)) b else b, some (failed e))
  flushed w (b, none) =
      let b1 = if b.close_on_flush then release (close_query w) b else b in
      (record b1 { block = ops.reset b1.block }, none)

  unfoldable pub flush_rest : Wire E → Batch Block E → Outcome Block E
  unfolding send_data flushed
  flush_rest w b =
      if not (ops.rows b.block == 0)
      then flushed w (send_data w b)
      else (record b { block = ops.reset b.block }, none)

  unfoldable pub flush : Wire E → Batch Block E → Outcome Block E
  unfolding flush_start flush_rest
  flush w b =
      if b.sent
      then (b, some err_batch_already_sent)
      else unless_failed b.err b (and_then (flush_start w b) (flush_rest w))
