-- ===== src/Batch/Calls.antt =====
-- conn_batch.go: a batch under every sequence of calls of its methods.
use clickhouse_go.Common.{ℕ, Bool, List, [], ◌∷◌, ◌≡◌, refl, arith}
use clickhouse_go.Batch.{
  Batch, BlockOps, Wire, new_batch, abort, close, send, append, column, column_append, flush,
}
use clickhouse_go.Batch.Held.{given_back, Inv, send-Inv}
use clickhouse_go.Batch.Kept.{
  abort-Inv, close-Inv, append-Inv, column-Inv, column_append-Inv, flush-Inv,
}

pub data Call {ℓ} (V E : Type ℓ) : Type ℓ where
  call_append : V → Call V E
  call_column : ℕ → Call V E
  call_column_append : ℕ → V → Call V E
  call_flush : Wire E → Call V E
  call_send : Wire E → Call V E
  call_close : Wire E → Call V E
  call_abort : Call V E

module _ {ℓ} {Block V E : Type ℓ} (ops : BlockOps Block V E) where
  -- The batch behind a call, whatever error it answered.
  abbrev pub apply : Batch Block E → Call V E → Batch Block E
  apply b (call_append v) = (append ops b v).0
  apply b (call_column idx) = (column ops b idx).0
  apply b (call_column_append idx v) = (column_append ops b idx v).0
  apply b (call_flush w) = (flush ops w b).0
  apply b (call_send w) = (send ops w b).0
  apply b (call_close w) = (close w b).0
  apply b call_abort = (abort b).0

  abbrev pub run : Batch Block E → List (Call V E) → Batch Block E
  run b [] = b
  run b (call ∷ calls) = run (apply b call) calls

  apply-Inv : (b : Batch Block E) (call : Call V E) → Inv b → Inv (apply b call)
  apply-Inv b (call_append v) i = append-Inv ops b v i
  apply-Inv b (call_column idx) i = column-Inv ops b idx i
  apply-Inv b (call_column_append idx v) i = column_append-Inv ops b idx v i
  apply-Inv b (call_flush w) i = flush-Inv ops w b i
  apply-Inv b (call_send w) i = (send-Inv ops w b i).0
  apply-Inv b (call_close w) i = (close-Inv w b i).0
  apply-Inv b call_abort i = (abort-Inv b i).0

  run-Inv : (b : Batch Block E) (calls : List (Call V E)) → Inv b → Inv (run b calls)
  run-Inv b [] i = i
  run-Inv b (call ∷ calls) i = run-Inv (apply b call) calls (apply-Inv b call i)

  new_batch-Inv :
      (conn : ℕ) (block : Block) (close_on_flush : Bool)
      → Inv (new_batch {E = E} conn block close_on_flush)
  unfolding new_batch
  new_batch-Inv conn block close_on_flush = record {
    owed = refl;
    sent_released = λ h. absurd (ground (arith, h));
  }

  -- After every sequence of calls on a new batch, with every answer of the wire, a Close, a Send or
  -- an Abort leaves no connection with the batch: those that it was given are those that it gave
  -- back, each once and in order.
  pub run-settled :
      (conn : ℕ) (block : Block) (close_on_flush : Bool) (calls : List (Call V E)) (w : Wire E)
      → let b = run (new_batch conn block close_on_flush) calls in
        ((close w b).0.acquired ≡ given_back (close w b).0)
        × ((send ops w b).0.acquired ≡ given_back (send ops w b).0)
        × ((abort b).0.acquired ≡ given_back (abort b).0)
  run-settled conn block close_on_flush calls w =
      let i = run-Inv _ calls (new_batch-Inv conn block close_on_flush) in
      ((close-Inv w _ i).1, (send-Inv ops w _ i).2, (abort-Inv _ i).2)
