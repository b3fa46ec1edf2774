-- ===== src/Block/Send/Succeeds.antt =====
-- sendData of conn.go gives no error where nothing that it calls fails.
use clickhouse_go.Common.{
  ℕ, zero, suc, false, ◌&&◌, Option, none, some, inl, ltb, leb, ◌==◌, if-both, length, ◌≡◌, refl,
  ap, ◌∙◌, arith,
}
use clickhouse_go.Block.{Bytes, Wire, ColumnOps, Block, BlockError}
use clickhouse_go.Block.Header.{
  encode, encode_header, encode_column, encode_columns, Written, behind, headed,
}
use clickhouse_go.Block.Send.{
  drop, Sending, Link, Step, and_then, compress_buffer, flush, partial_flush, from_start,
  put_column, send_columns, put_header, announced, closing, send_data,
}
use clickhouse_go.Block.Send.Delivered.{Delivered, send_data-Delivered, head_of}

and_then-ok :
    {Col E : Type 0} (r : Step Col E) (f : Sending Col → Step Col E)
    → r.1 ≡ none
    → (f r.0).1 ≡ none
    → (and_then r f).1 ≡ none
and_then-ok (s, none) f h k = k
and_then-ok (s, some e) f h k = h

module _ {Col V E : Type 0} (w : Wire E) (ops : ColumnOps Col V E) (link : Link E) where
  -- The compressor takes all bytes.
  abbrev pub Compresses : Type 0
  Compresses = (bytes : Bytes) → (f : Bytes) × (link.compress bytes ≡ inl f)

  -- The socket takes what it is given.
  abbrev pub TakesAll : Type 0
  TakesAll = (sent buffer : Bytes) → link.write sent buffer ≡ (length buffer, none)

  -- A step that gives no error and keeps the block.
  abbrev Passes : Sending Col → Step Col E → Type 0
  Passes s r = (r.1 ≡ none) × (r.0.block ≡ s.block)

  Passes-and_then :
      (s : Sending Col) (r : Step Col E) (f : Sending Col → Step Col E)
      → Passes s r
      → ((t : Sending Col) → Passes t (f t))
      → Passes s (and_then r f)
  Passes-and_then s (t, none) f (h, b) k = ((k t).0, (k t).1 ∙ b)
  Passes-and_then s (t, some e) f (h, b) k = absurd (ground (arith, h))

  module _ (compresses : Compresses) (takes : TakesAll) where
    compress_buffer-Passes :
        (start : ℕ) (s : Sending Col) → Passes s (compress_buffer w ops link start s)
    unfolding compress_buffer
    compress_buffer-Passes start s =
        if-both (Passes s) (link.compression && ltb 0 (length s.buffer)) _ _
          (λ on. rw (compresses (drop start s.buffer)).1 (refl, refl)) (λ off. (refl, refl))

    flush-Passes : (s : Sending Col) → Passes s (flush w ops link s)
    unfolding flush
    flush-Passes s =
        if-both (Passes s) (length s.buffer == 0) _ _ (λ empty. (refl, refl))
          λ full. rw (takes s.sent s.buffer) (
            if-both (Passes s) (length s.buffer == length s.buffer) _ _ (λ same. (refl, refl))
              λ other. absurd (ground (arith, other)))

    partial_flush-Passes : (s : Sending Col) → Passes s (partial_flush w ops link s)
    unfolding partial_flush
    partial_flush-Passes s =
        if-both (Passes s) (leb link.max_compression_buffer (length s.buffer)) _ _
          (λ large.
            Passes-and_then s (and_then (compress_buffer w ops link s.offset s) (flush w ops link))
              (from_start w ops link)
              (Passes-and_then s (compress_buffer w ops link s.offset s) (flush w ops link)
                (compress_buffer-Passes s.offset s) flush-Passes)
              (λ t. (refl, refl)))
          (λ small. (refl, refl))

    behind-none_iff :
        (r : Written Col E) (next : Block Col → Written Col E)
        → (behind w ops r next).2 ≡ none
        → (r.2 ≡ none) × ((next r.1).2 ≡ none)
    behind-none_iff (bytes, b, none) next h = (refl, h)
    behind-none_iff (bytes, b, some e) next h = absurd (ground (arith, h))

    put_column-ok :
        (i : ℕ) (s : Sending Col) (r : Written Col E)
        → r.2 ≡ none
        → ((put_column w ops link i s r).1 ≡ none) × ((put_column w ops link i s r).0.block ≡ r.1)
    put_column-ok i s (bytes, b, none) h = (refl, refl)
    put_column-ok i s (bytes, b, some e) h = absurd (ground (arith, h))

    put_header-ok :
        (s : Sending Col) (r : Bytes × Option (BlockError E))
        → r.1 ≡ none
        → Passes s (put_header w ops link s r)
    put_header-ok s (bytes, none) h = (refl, refl)
    put_header-ok s (bytes, some e) h = absurd (ground (arith, h))

    send_columns-ok :
        (n i : ℕ) (s : Sending Col)
        → (encode_columns w ops link.revision n i s.block).2 ≡ none
        → (send_columns w ops link n i s).1 ≡ none
    unfolding send_columns encode_columns
    send_columns-ok zero i s h = refl
    send_columns-ok (suc n) i s h =
        let e = encode_column w ops link.revision s.block i in
        let next = encode_columns w ops link.revision n (suc i) in
        let (encoded, rest) = behind-none_iff e next h in
        let put = put_column w ops link i s e in
        let (putted, placed) = put_column-ok i s e encoded in
        let (stepped, kept) =
          Passes-and_then put.0 put (partial_flush w ops link) (putted, refl)
            partial_flush-Passes in
        let step = and_then put (partial_flush w ops link) in
        and_then-ok step (send_columns w ops link n (suc i)) stepped
          (send_columns-ok n (suc i) step.0 (ap (λ b. (next b).2) (kept ∙ placed) ∙ rest))

    closing-ok : (r : Step Col E) → r.1 ≡ none → (closing w ops link r).1 ≡ none
    closing-ok (s, none) h = refl
    closing-ok (s, some e) h = absurd (ground (arith, h))

    send_data-ok :
        (name : Bytes) (s : Sending Col)
        → s.closed ≡ false
        → (encode w ops link.revision s.block).2 ≡ none
        → (send_data w ops link name s).1 ≡ none
    unfolding send_data encode
    send_data-ok name s opened h =
        let header = encode_header w ops link.revision s.block.columns in
        let next = encode_columns w ops link.revision (length s.block.columns) 0 in
        let (header_ok, columns_ok) = behind-none_iff (headed w ops s.block header) next h in
        let t = announced w ops link name s in
        let put = put_header w ops link t header in
        let (putted, kept) = put_header-ok t header header_ok in
        let loop : Sending Col → Step Col E =
          λ u. send_columns w ops link (length u.block.columns) 0 u in
        let looped = and_then-ok put loop putted (
          send_columns-ok (length put.0.block.columns) 0 put.0 (
            ap (λ b. (encode_columns w ops link.revision (length b.columns) 0 b).2) kept
            ∙ columns_ok)) in
        let both = and_then put loop in
        let compress : Sending Col → Step Col E = λ u. compress_buffer w ops link u.offset u in
        let compressed_ok =
          and_then-ok both compress looped (compress_buffer-Passes both.0.offset both.0).0 in
        let last = (and_then both compress).0 in
        if-both (λ (r : Step Col E). r.1 ≡ none) s.closed _ _
          (λ closed. absurd (ground (arith, closed, opened)))
          λ _.
            and_then-ok (and_then both compress) (λ u. closing w ops link (flush w ops link u))
              compressed_ok (closing-ok (flush w ops link last) (flush-Passes last).0)

  -- An open connection whose compressor takes all bytes and whose socket takes what it is given
  -- sends every block on which Encode does not fail: sendData gives no error, and the socket has
  -- taken the head and then Encode's bytes in chunks, each as it is or compressed.
  pub send_data-sends :
      (name : Bytes) (s : Sending Col)
      → Compresses
      → TakesAll
      → s.closed ≡ false
      → (encode w ops link.revision s.block).2 ≡ none
      → let r = send_data w ops link name s in
        (r.1 ≡ none) × Delivered w ops link (head_of w ops link name s) s.block r.0
  send_data-sends name s compresses takes opened encoded =
      let ok = send_data-ok compresses takes name s opened encoded in
      (ok, send_data-Delivered w ops link name s ok)
