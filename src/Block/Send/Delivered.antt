-- ===== src/Block/Send/Delivered.antt =====
-- What the socket has taken when sendData of conn.go gives no error.
use mathlib.Core.Path.{subst, ap₂}
use mathlib.Core.List.{append-nil}
use clickhouse_go.Common.{
  false, [], ◌∷◌, ◌++◌, Option, none, some, if-both, length, ◌≡◌, refl, sym, ap, ◌∙◌, arith,
}
use clickhouse_go.Block.{Bytes, Wire, ColumnOps, Block, BlockError}
use clickhouse_go.Block.Header.{encode, encode_header, encode_columns, headed}
use clickhouse_go.Block.Send.{
  Sending, Link, Step, and_then, compress_buffer, flush, send_columns, put_header, announced,
  closing, send_data, closed_connection, header_failed, column_failed, compress_failed,
  write_failed, wrote_less,
}
use clickhouse_go.Block.Send.Framed.{
  Chunks, plain_of, framed_of, AllFramed, Holds, compress_buffer-Ready, and_then-none, Holds-put,
}
use clickhouse_go.Block.Send.Sound.{flush-Flushed, Writes, Writes-behind, send_columns-Writes}

module _ {Col V E : Type 0} (w : Wire E) (ops : ColumnOps Col V E) (link : Link E) where
  header_placed :
      (s : Sending Col) (r : Bytes × Option (BlockError E))
      → (put_header w ops link s r).1 ≡ none
      → (r.1 ≡ none) × ((put_header w ops link s r).0 ≡ record s { buffer = s.buffer ++ r.0 })
  header_placed s (bytes, none) h = (refl, refl)
  header_placed s (bytes, some e) h = absurd (ground (arith, h))

  closing-none :
      (r : Step Col E) → (closing w ops link r).1 ≡ none → (r.1 ≡ none) × (closing w ops link r ≡ r)
  closing-none (s, none) h = (refl, refl)
  closing-none (s, some closed_connection) h = absurd (ground (arith, h))
  closing-none (s, some (header_failed e)) h = absurd (ground (arith, h))
  closing-none (s, some (column_failed i e)) h = absurd (ground (arith, h))
  closing-none (s, some (compress_failed e)) h = absurd (ground (arith, h))
  closing-none (s, some (write_failed e)) h = absurd (ground (arith, h))
  closing-none (s, some wrote_less) h = absurd (ground (arith, h))

  -- What the socket took in front of the block: the buffer, ClientData and the name.
  abbrev pub head_of : Bytes → Sending Col → Bytes
  head_of name s = s.sent ++ (announced w ops link name s).buffer

  announced-Holds :
      (name : Bytes) (s : Sending Col)
      → Holds w ops link (head_of name s) [] (announced w ops link name s)
  announced-Holds name s = record {
    front = (announced w ops link name s).buffer;
    pending = [];
    chunks = [];
    buffer_lem = sym (append-nil (announced w ops link name s).buffer);
    offset_lem = refl;
    sent_lem = sym (append-nil (head_of name s));
    all_lem = refl;
    framed_lem = tt;
  }

  -- What the socket has taken of `block`, by a sending that ended as `t`.
  pub record Delivered (base : Bytes) (block : Block Col) (t : Sending Col) : Type 0 where
    pub chunks : Chunks
    pub encoded_lem : (encode w ops link.revision block).2 ≡ none
    pub plain_lem : plain_of chunks ≡ (encode w ops link.revision block).0
    pub framed_lem : AllFramed w ops link chunks
    pub sent_lem : t.sent ≡ base ++ framed_of chunks
    pub buffer_lem : t.buffer ≡ []
    pub block_lem : t.block ≡ (encode w ops link.revision block).1

  header_and_columns : Bytes → Sending Col → Step Col E
  header_and_columns name s =
      and_then
        (put_header w ops link (announced w ops link name s)
          (encode_header w ops link.revision s.block.columns))
        λ t. send_columns w ops link (length t.block.columns) 0 t

  -- Behind the header and the columns, the block's bytes are there, as Encode writes them.
  header_and_columns-Writes :
      (name : Bytes) (s : Sending Col)
      → Writes w ops link
          (head_of name s)
          []
          (encode w ops link.revision s.block)
          (header_and_columns name s)
  unfolding encode header_and_columns
  header_and_columns-Writes name s ok =
      let header = encode_header w ops link.revision s.block.columns in
      let put = put_header w ops link (announced w ops link name s) header in
      let loop : Sending Col → Step Col E =
        λ t. send_columns w ops link (length t.block.columns) 0 t in
      let (putted, same) = and_then-none put loop ok in
      let (encoded, now) = header_placed (announced w ops link name s) header putted in
      let held : Holds w ops link (head_of name s) header.0 put.0 =
        subst (Holds w ops link (head_of name s) header.0) (sym now) (
          Holds-put w ops link (head_of name s) [] header.0 (announced w ops link name s) s.block
            (announced-Holds name s)) in
      Writes-behind w ops link (head_of name s) [] (headed w ops s.block header)
        (encode_columns w ops link.revision (length s.block.columns) 0) (loop put.0) encoded
        (subst
          (λ b.
            Writes w ops link (head_of name s) header.0
              (encode_columns w ops link.revision (length b.columns) 0 b) (loop put.0))
          (ap (λ t. t.block) now)
          (send_columns-Writes w ops link (head_of name s) header.0 (length put.0.block.columns) 0
            put.0 held))
        (and_then put loop) same ok

  -- Compressing and flushing what is left, with the test of the error.
  abbrev finish : Step Col E → Step Col E
  finish r =
      and_then (and_then r (λ t. compress_buffer w ops link t.offset t))
        (λ t. closing w ops link (flush w ops link t))

  finish-Delivered :
      (base : Bytes) (block : Block Col) (r : Step Col E)
      → Writes w ops link base [] (encode w ops link.revision block) r
      → (finish r).1 ≡ none
      → Delivered base block (finish r).0
  finish-Delivered base block r h ok =
      let compress : Sending Col → Step Col E = λ t. compress_buffer w ops link t.offset t in
      let end : Sending Col → Step Col E = λ t. closing w ops link (flush w ops link t) in
      let e = encode w ops link.revision block in
      let (compressed_ok, same_end) = and_then-none (and_then r compress) end ok in
      let (written, same) = and_then-none r compress compressed_ok in
      let (encoded, held, placed) = h written in
      let c = compress r.0 in
      let (ready, kept) =
        compress_buffer-Ready w ops link base e.0 r.0 held
          (ap (λ x. x.1) (sym same) ∙ compressed_ok) in
      let to_end : finish r ≡ end c.0 = same_end ∙ ap (λ (x : Step Col E). end x.0) same in
      let (flushed_ok, same_flush) =
        closing-none (flush w ops link c.0) (ap (λ x. x.1) (sym to_end) ∙ ok) in
      let f = flush-Flushed w ops link base e.0 c.0 ready flushed_ok in
      subst (λ (x : Step Col E). Delivered base block x.0) (sym (to_end ∙ same_flush))
        (record {
          chunks = f.chunks;
          encoded_lem = encoded;
          plain_lem = f.all_lem;
          framed_lem = f.framed_lem;
          sent_lem = f.sent_lem;
          buffer_lem = f.buffer_lem;
          block_lem = f.block_lem ∙ kept ∙ placed;
        })

  -- Whenever sendData gives no error, whatever the socket did: the buffer is empty, and the socket has
  -- taken, behind what it had, the old buffer, ClientData and the name, chunks whose plain bytes are
  -- together just those of Encode, each as it is or as the compressor gives it. Encode does not fail
  -- on the block, and the block is as Encode leaves it.
  pub send_data-Delivered :
      (name : Bytes) (s : Sending Col)
      → (send_data w ops link name s).1 ≡ none
      → Delivered (head_of name s) s.block (send_data w ops link name s).0
  unfolding send_data
  send_data-Delivered name s =
      if-both (λ (r : Step Col E). r.1 ≡ none → Delivered (head_of name s) s.block r.0) s.closed _ _
        (λ closed ok. absurd (ground (arith, ok)))
        λ opened ok.
          unfold header_and_columns in
          finish-Delivered (head_of name s) s.block (header_and_columns name s)
            (header_and_columns-Writes name s) ok

  plain-framed :
      (cs : Chunks)
      → link.compression ≡ false
      → AllFramed w ops link cs
      → framed_of cs ≡ plain_of cs
  plain-framed [] off h = refl
  plain-framed ((p, f) ∷ cs) off (h, hs) =
      ap₂ (λ x y. x ++ y) (rw off at h) (plain-framed cs off hs)

  -- Without compression a sending that gives no error is the bytes of Encode behind the head, whatever
  -- the bound on the buffer is.
  pub send_data-encode :
      (name : Bytes) (s : Sending Col)
      → link.compression ≡ false
      → (send_data w ops link name s).1 ≡ none
      → (send_data w ops link name s).0.sent
        ≡ head_of name s ++ (encode w ops link.revision s.block).0
  send_data-encode name s off ok =
      let d = send_data-Delivered name s ok in
      d.sent_lem
      ∙ ap (λ l. head_of name s ++ l) (plain-framed d.chunks off d.framed_lem ∙ d.plain_lem)
