-- ===== src/Block/Send/Sound.antt =====
-- flush and the loop of sendData in conn.go: what holds behind them when they give no error.
use mathlib.Core.Path.{subst}
use mathlib.Core.List.{append_assoc, append-nil}
use clickhouse_go.Common.{
  ℕ, zero, suc, [], ◌++◌, Option, none, some, leb, ◌==◌, ==_iff, if-both, length, ◌≡◌, refl, sym,
  ap, ◌∙◌, arith,
}
use clickhouse_go.Block.{Bytes, Wire, ColumnOps, Block}
use clickhouse_go.Block.Header.{encode_column, encode_columns, Written, behind}
use clickhouse_go.Block.Send.{
  take, Sending, Link, Step, and_then, compress_buffer, flush, wrote, partial_flush, from_start,
  put_column, send_columns,
}
use clickhouse_go.Block.Send.Framed.{
  Chunks, plain_of, framed_of, AllFramed, Holds, Ready, compress_buffer-Ready, length-zero,
  take-all, and_then-none, Holds-put,
}

module _ {Col V E : Type 0} (w : Wire E) (ops : ColumnOps Col V E) (link : Link E) where
  -- Nothing is left in the buffer: the socket has taken it all.
  pub record Flushed (base all : Bytes) (s t : Sending Col) : Type 0 where
    pub chunks : Chunks
    pub buffer_lem : t.buffer ≡ []
    pub sent_lem : t.sent ≡ base ++ framed_of chunks
    pub all_lem : plain_of chunks ≡ all
    pub framed_lem : AllFramed w ops link chunks
    pub block_lem : t.block ≡ s.block

  abbrev pub MakesFlushed : Bytes → Bytes → Sending Col → Step Col E → Type 0
  MakesFlushed base all s r = r.1 ≡ none → Flushed base all s r.0

  wrote-Flushed :
      (base all : Bytes) (s : Sending Col)
      → Ready w ops link base all s.sent s.buffer
      → (r : ℕ × Option E) → MakesFlushed base all s (wrote w ops link s r)
  wrote-Flushed base all s h (n, some e) = λ ok. absurd (ground (arith, ok))
  wrote-Flushed base all s h (n, none) =
      if-both (MakesFlushed base all s) (n == length s.buffer) _ _
        (λ whole ok. record {
          chunks = h.chunks;
          buffer_lem = refl;
          sent_lem =
              ap (λ l. s.sent ++ l)
                (ap (λ k. take k s.buffer) ((==_iff n (length s.buffer)).0 whole)
                  ∙ take-all s.buffer)
              ∙ h.sent_lem;
          all_lem = h.all_lem;
          framed_lem = h.framed_lem;
          block_lem = refl;
        })
        λ part ok. absurd (ground (arith, ok))

  pub flush-Flushed :
      (base all : Bytes) (s : Sending Col)
      → Ready w ops link base all s.sent s.buffer
      → MakesFlushed base all s (flush w ops link s)
  unfolding flush
  flush-Flushed base all s h =
      if-both (MakesFlushed base all s) (length s.buffer == 0) _ _
        (λ empty ok.
          let e = length-zero s.buffer ((==_iff (length s.buffer) 0).0 empty) in
          record {
            chunks = h.chunks;
            buffer_lem = e;
            sent_lem = sym (append-nil s.sent) ∙ ap (λ l. s.sent ++ l) (sym e) ∙ h.sent_lem;
            all_lem = h.all_lem;
            framed_lem = h.framed_lem;
            block_lem = refl;
          })
        λ full. wrote-Flushed base all s h (link.write s.sent s.buffer)

  -- A step that succeeds keeps the block and what holds.
  abbrev pub Keeps : Bytes → Bytes → Sending Col → Step Col E → Type 0
  Keeps base all s r = r.1 ≡ none → Holds w ops link base all r.0 × (r.0.block ≡ s.block)

  from_start-Holds :
      (base all : Bytes) (s t : Sending Col)
      → Flushed base all s t
      → Keeps base all s (from_start w ops link t)
  from_start-Holds base all s t h ok = (
    record {
      front = [];
      pending = [];
      chunks = h.chunks;
      buffer_lem = h.buffer_lem;
      offset_lem = refl;
      sent_lem = append-nil t.sent ∙ h.sent_lem;
      all_lem = append-nil (plain_of h.chunks) ∙ h.all_lem;
      framed_lem = h.framed_lem;
    },
    h.block_lem,
  )

  compress_flush :
      (base all : Bytes) (s : Sending Col)
      → Holds w ops link base all s
      → (and_then (compress_buffer w ops link s.offset s) (flush w ops link)).1 ≡ none
      → Flushed base all s (and_then (compress_buffer w ops link s.offset s) (flush w ops link)).0
  compress_flush base all s h ok =
      let c = compress_buffer w ops link s.offset s in
      let (first, same) = and_then-none c (flush w ops link) ok in
      let (ready, kept) = compress_buffer-Ready w ops link base all s h first in
      let f = flush-Flushed base all c.0 ready (ap (λ r. r.1) (sym same) ∙ ok) in
      subst (λ (r : Step Col E). Flushed base all s r.0) (sym same)
        (record {
          chunks = f.chunks;
          buffer_lem = f.buffer_lem;
          sent_lem = f.sent_lem;
          all_lem = f.all_lem;
          framed_lem = f.framed_lem;
          block_lem = f.block_lem ∙ kept;
        })

  partial_flush-Keeps :
      (base all : Bytes) (s : Sending Col)
      → Holds w ops link base all s
      → Keeps base all s (partial_flush w ops link s)
  unfolding partial_flush
  partial_flush-Keeps base all s h =
      if-both (Keeps base all s) (leb link.max_compression_buffer (length s.buffer)) _ _
        (λ large ok.
          let both = and_then (compress_buffer w ops link s.offset s) (flush w ops link) in
          let (first, same) = and_then-none both (from_start w ops link) ok in
          let flushed = compress_flush base all s h first in
          subst (λ r. Holds w ops link base all r.0 × (r.0.block ≡ s.block)) (sym same)
            (from_start-Holds base all s both.0 flushed refl))
        λ small ok. (h, refl)

  put_column-none :
      (i : ℕ) (s : Sending Col) (r : Written Col E)
      → (put_column w ops link i s r).1 ≡ none
      → (r.2 ≡ none)
        × ((put_column w ops link i s r).0 ≡ record s { buffer = s.buffer ++ r.0; block = r.1 })
  put_column-none i s (bytes, b, none) h = (refl, refl)
  put_column-none i s (bytes, b, some e) h = absurd (ground (arith, h))

  pub behind-none :
      (r : Written Col E) (next : Block Col → Written Col E)
      → r.2 ≡ none
      → behind w ops r next ≡ (r.0 ++ (next r.1).0, (next r.1).1, (next r.1).2)
  behind-none (bytes, b, none) next h = refl
  behind-none (bytes, b, some e) next h = absurd (ground (arith, h))

  -- The loop writes what `e` says.
  abbrev pub Writes : Bytes → Bytes → Written Col E → Step Col E → Type 0
  Writes base all e r =
      r.1 ≡ none → (e.2 ≡ none) × Holds w ops link base (all ++ e.0) r.0 × (r.0.block ≡ e.1)

  pub Writes-behind :
      (base all : Bytes) (e : Written Col E) (next : Block Col → Written Col E) (rest : Step Col E)
      → e.2 ≡ none
      → Writes base (all ++ e.0) (next e.1) rest
      → (whole : Step Col E) → whole ≡ rest
      → Writes base all (behind w ops e next) whole
  Writes-behind base all e next rest encoded h whole same ok =
      let (none_left, held, block) = h (ap (λ r. r.1) (sym same) ∙ ok) in
      let r = next e.1 in
      subst
        (λ (x : Written Col E).
          (x.2 ≡ none) × Holds w ops link base (all ++ x.0) whole.0 × (whole.0.block ≡ x.1))
        (sym (behind-none e next encoded))
        (
          none_left,
          subst (λ l. Holds w ops link base l whole.0) (append_assoc all e.0 r.0)
              (subst (λ (x : Step Col E). Holds w ops link base ((all ++ e.0) ++ r.0) x.0)
                (sym same) held),
          ap (λ x. x.0.block) same ∙ block,
        )

  pub send_columns-Writes :
      (base all : Bytes) (n i : ℕ) (s : Sending Col)
      → Holds w ops link base all s
      → Writes base all
          (encode_columns w ops link.revision n i s.block)
          (send_columns w ops link n i s)
  unfolding send_columns encode_columns
  send_columns-Writes base all zero i s h ok =
      (refl, subst (λ l. Holds w ops link base l s) (sym (append-nil all)) h, refl)
  send_columns-Writes base all (suc n) i s h ok =
      let e = encode_column w ops link.revision s.block i in
      let put = put_column w ops link i s e in
      let step = and_then put (partial_flush w ops link) in
      let (stepped, same) = and_then-none step (send_columns w ops link n (suc i)) ok in
      let (putted, same_step) = and_then-none put (partial_flush w ops link) stepped in
      let (encoded, now) = put_column-none i s e putted in
      let held : Holds w ops link base (all ++ e.0) put.0 =
        subst (Holds w ops link base (all ++ e.0)) (sym now)
          (Holds-put w ops link base all e.0 s e.1 h) in
      let (kept, block) =
        partial_flush-Keeps base (all ++ e.0) put.0 held
          (ap (λ r. r.1) (sym same_step) ∙ stepped) in
      let placed : step.0.block ≡ e.1 =
        ap (λ r. r.0.block) same_step ∙ block ∙ ap (λ t. t.block) now in
      let held_step = subst (λ r. Holds w ops link base (all ++ e.0) r.0) (sym same_step) kept in
      let next = encode_columns w ops link.revision n (suc i) in
      let rest = send_columns w ops link n (suc i) step.0 in
      Writes-behind base all e next rest encoded
        (subst (λ b. Writes base (all ++ e.0) (next b) rest) placed
          (send_columns-Writes base (all ++ e.0) n (suc i) step.0 held_step))
        (and_then step (send_columns w ops link n (suc i))) same ok
