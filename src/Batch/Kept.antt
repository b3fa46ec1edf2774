-- ===== src/Batch/Kept.antt =====
-- conn_batch.go: every method of a batch keeps what it owes, in every history of calls.
use clickhouse_go.Common.{
  ℕ, Bool, true, false, not, ◌||◌, [], ◌∷◌, ◌++◌, Option, none, some, ◌≡◌, arith, if◌then◌else◌,
  Bool-cases, Option-cases, sum-cases, ◌==◌, leb, inl, inr,
}
use clickhouse_go.Batch.{
  Batch, BatchError, BlockOps, Wire, release, finish, abort, close, restart, close_query,
  err_process_done, err_batch_already_sent, err_batch_invalid, err_column_index, reset_connection,
  failed, and_then, unless_failed, send_data, append, appended, column, column_appended,
  column_append, flush_start, flush_rest, flush, flushed,
}
use clickhouse_go.Batch.Held.{
  given_back, Inv, Owes, Owes-release, released-release, settled, Inv-finish, flush_start-Owes,
  unless_failed-all, and_then-all, if-all,
}

module _ {ℓ} {Block E : Type ℓ} where
  -- Abort gives the connection back, with an error.
  pub abort-Inv :
      (b : Batch Block E)
      → Inv b
      → let b' = (abort b).0 in Inv b' × (b'.sent ≡ true) × (b'.acquired ≡ given_back b')
  unfolding abort
  abort-Inv b v = Inv-finish (some err_process_done) b v.owed

  -- Close gives back every connection that the batch was ever given.
  pub close-Inv :
      (w : Wire E) (b : Batch Block E)
      → Inv b
      → let b' = (close w b).0 in Inv b' × (b'.acquired ≡ given_back b')
  unfolding close
  close-Inv w b v =
      if-all (λ b'. Inv b' × (b'.acquired ≡ given_back b')) (b.sent || b.released) (b, none)
        (finish (close_query w) b, close_query w)
        (λ h. (v, settled b (ground (arith, v.sent_released, h)) v.owed))
        (λ h. let (v', _, e) = Inv-finish (close_query w) b v.owed in (v', e))

  -- A batch that is not sent, whose connections are owed.
  record Open (b : Batch Block E) : Type 0 where
    owed : Owes b
    not_sent : b.sent ≡ false

  sent_kept :
      (e : Option (BatchError E)) (b : Batch Block E) → b.sent ≡ false → (release e b).sent ≡ false
  unfolding release
  sent_kept e b h = elim (Bool-cases b.released) [
    | inl done ↦ simp (done, h)
    | inr not_done ↦ simp (not_done, h)
  ]

  Open-release : (e : Option (BatchError E)) (b : Batch Block E) → Open b → Open (release e b)
  Open-release e b o = record {
    owed = Owes-release e b o.owed;
    not_sent = sent_kept e b o.not_sent;
  }

  again : {b : Batch Block E} {block : Block} → Open b → Open (record b { block = block })
  again o = record { owed = o.owed; not_sent = o.not_sent }

  Open-choose : (t : Bool) (b b' : Batch Block E) → Open b → Open b' → Open (if t then b else b')
  Open-choose true b b' o o' = o
  Open-choose false b b' o o' = o'

  Open-Inv : (b : Batch Block E) → Open b → Inv b
  Open-Inv b o = record {
    owed = o.owed;
    sent_released = λ h. absurd (ground (arith, o.not_sent, h));
  }

  sent-restart : (w : Wire E) (b : Batch Block E) → b.sent ≡ false → (restart w b).0.sent ≡ false
  unfolding restart
  sent-restart w b h = elim (Option-cases w.send_query) [
    | inr (e, s) ↦ rw s (sent_kept (some (failed e)) b h)
    | inl s ↦ elim (Option-cases w.first_block) [
      | inr (e, f) ↦ rw (s, f) (sent_kept (some (failed e)) b h)
      | inl f ↦ rw (s, f) h
    ]
  ]

  sent-flush_start :
      (w : Wire E) (b : Batch Block E) → b.sent ≡ false → (flush_start w b).0.sent ≡ false
  unfolding flush_start reset_connection
  sent-flush_start w b h =
      if-all (λ b'. b'.sent ≡ false) b.released (reset_connection w b) (b, none)
        (λ _. elim (sum-cases w.acquire) [
          | inl (c, a) ↦
              rw a (
                sent-restart w (record b { conn = some c; acquired = b.acquired ++ some c ∷ [] }) h)
          | inr (e, a) ↦ rw a h
        ])
        (λ _. h)

  Open-flush_start : (w : Wire E) (b : Batch Block E) → Open b → Open (flush_start w b).0
  Open-flush_start w b o = record {
    owed = flush_start-Owes w b o.owed;
    not_sent = sent-flush_start w b o.not_sent;
  }

module _ {ℓ} {Block V E : Type ℓ} (ops : BlockOps Block V E) where
  appended-Inv : (b : Batch Block E) (r : Block × Option E) → Open b → Open (appended ops b r).0
  unfolding appended
  appended-Inv b (block, none) o = record { owed = o.owed; not_sent = o.not_sent }
  appended-Inv b (block, some e) o =
      Open-release (some (failed e)) (record b { block = block; err = some (err_batch_invalid e) })
        (record { owed = o.owed; not_sent = o.not_sent })

  column_appended-Inv :
      (b : Batch Block E) (r : Block × Option E) → Open b → Open (column_appended ops b r).0
  unfolding column_appended
  column_appended-Inv b (block, none) o = record { owed = o.owed; not_sent = o.not_sent }
  column_appended-Inv b (block, some e) o =
      Open-release (some (failed e)) (record b { block = block; err = some (failed e) })
        (record { owed = o.owed; not_sent = o.not_sent })

  flushed-Open : (w : Wire E) (r : Batch Block E × Option E) → Open r.0 → Open (flushed ops w r).0
  unfolding flushed
  flushed-Open w (b, none) o = again (
      Open-choose b.close_on_flush (release (close_query w) b) b (Open-release (close_query w) b o)
        o)
  flushed-Open w (b, some e) o =
      Open-choose (w.is_broken e) (release (some (failed e)) b) b
        (Open-release (some (failed e)) b o) o

  send_data-Open : (w : Wire E) (b : Batch Block E) → Open b → Open (send_data w b).0
  unfolding send_data
  send_data-Open w b o = elim (Option-cases w.send_data) [
    | inl e ↦ rw e (record { owed = o.owed; not_sent = o.not_sent })
    | inr (_, e) ↦ rw e o
  ]

  flush_rest-Open : (w : Wire E) (b : Batch Block E) → Open b → Open (flush_rest ops w b).0
  unfolding flush_rest
  flush_rest-Open w b o =
      if-all Open (not (ops.rows b.block == 0)) (flushed ops w (send_data w b))
        (record b { block = ops.reset b.block }, none)
        (λ h. flushed-Open w (send_data w b) (send_data-Open w b o)) (λ h. again o)

  pub append-Inv : (b : Batch Block E) (v : V) → Inv b → Inv (append ops b v).0
  unfolding append
  append-Inv b v i =
      if-all Inv b.sent (b, some err_batch_already_sent)
        (unless_failed b.err b (appended ops b (ops.append b.block v))) (λ h. i)
        (λ h. unless_failed-all Inv b.err b (appended ops b (ops.append b.block v)) i (
          Open-Inv _
            (appended-Inv b (ops.append b.block v) (record { owed = i.owed; not_sent = h }))))

  pub column_append-Inv :
      (b : Batch Block E) (idx : ℕ) (v : V) → Inv b → Inv (column_append ops b idx v).0
  unfolding column_append
  column_append-Inv b idx v i =
      if-all Inv b.sent (b, some err_batch_already_sent)
        (column_appended ops b (ops.append_column b.block idx v)) (λ h. i)
        (λ h. Open-Inv _ (
          column_appended-Inv b (ops.append_column b.block idx v)
            (record { owed = i.owed; not_sent = h })))

  pub column-Inv : (b : Batch Block E) (idx : ℕ) → Inv b → Inv (column ops b idx).0
  unfolding column
  column-Inv b idx i =
      if-all Inv (leb (ops.columns b.block) idx)
        (release (some (err_column_index idx)) b, some (err_column_index idx)) (b, none)
        (λ h. record {
          owed = Owes-release (some (err_column_index idx)) b i.owed;
          sent_released = λ _. released-release (some (err_column_index idx)) b;
        })
        (λ h. i)

  pub flush-Inv : (w : Wire E) (b : Batch Block E) → Inv b → Inv (flush ops w b).0
  unfolding flush
  flush-Inv w b i =
      if-all Inv b.sent (b, some err_batch_already_sent)
        (unless_failed b.err b (and_then (flush_start w b) (flush_rest ops w))) (λ h. i)
        (λ h.
          let o : Open b = record { owed = i.owed; not_sent = h } in
          Open-Inv _ (
            unless_failed-all Open b.err b (and_then (flush_start w b) (flush_rest ops w)) o (
              and_then-all Open (flush_start w b) (flush_rest ops w) (Open-flush_start w b o)
                (flush_rest-Open w))))
