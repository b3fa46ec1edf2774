-- ===== src/Block/Send.antt =====
-- sendData, compressBuffer and flush of conn.go. The buffer and what the socket has taken are part
-- of the state; the socket and the compressor are parameters. What is logged is left out.
pub mod Framed
pub mod Sound
pub mod Delivered
pub mod Succeeds
use clickhouse_go.Common.{
  ℕ, zero, suc, ◌+◌, ◌≤◌, Bool, true, false, not, ◌&&◌, List, [], ◌∷◌, ◌++◌, Option, none, some,
  ◌⊎◌, inl, inr, ltb, leb, ◌==◌, if◌then◌else◌, length,
}
use clickhouse_go.Block.{Bytes, Wire, ColumnOps, Block, BlockError}
use clickhouse_go.Block.Header.{encode_header, encode_column, Written}

abbrev pub take : ℕ → Bytes → Bytes
take zero xs = []
take (suc n) [] = []
take (suc n) (x ∷ xs) = x ∷ take n xs

abbrev pub drop : ℕ → Bytes → Bytes
drop zero xs = xs
drop (suc n) [] = []
drop (suc n) (x ∷ xs) = drop n xs

pub data SendError (E : Type 0) : Type 0 where
  closed_connection : SendError E
  header_failed : BlockError E → SendError E
  column_failed : ℕ → BlockError E → SendError E
  compress_failed : E → SendError E
  write_failed : E → SendError E
  wrote_less : SendError E

-- The connection while it sends `block`: its buffer, where the uncompressed part of the buffer
-- begins, and all that the socket has taken.
pub record Sending (Col : Type 0) : Type 0 where
  pub buffer : Bytes
  pub offset : ℕ
  pub sent : Bytes
  pub closed : Bool
  pub block : Block Col

-- What a connection has from its dial. `write` is the socket's answer to a write of a buffer behind
-- all that it took before: the number of bytes taken, and an error.
pub record Link (E : Type 0) : Type 0 where
  pub revision : ℕ
  pub max_compression_buffer : ℕ
  pub compression : Bool
  pub compress : Bytes → Bytes ⊎ E
  pub write : Bytes → Bytes → ℕ × Option E

abbrev pub Step : Type 0 → Type 0 → Type 0
Step Col E = Sending Col × Option (SendError E)

abbrev pub and_then : {Col E : Type 0} → Step Col E → (Sending Col → Step Col E) → Step Col E
and_then (s, some e) f = (s, some e)
and_then (s, none) f = f s

module _ {Col V E : Type 0} (w : Wire E) (ops : ColumnOps Col V E) (link : Link E) where
  abbrev pub compressed : Sending Col → ℕ → Bytes ⊎ E → Step Col E
  compressed s start (inl bytes) = (record s { buffer = take start s.buffer ++ bytes }, none)
  compressed s start (inr e) = (s, some (compress_failed e))

  unfoldable pub compress_buffer : ℕ → Sending Col → Step Col E
  compress_buffer start s =
      if link.compression && ltb 0 (length s.buffer)
      then compressed s start (link.compress (drop start s.buffer))
      else (s, none)

  abbrev pub wrote : Sending Col → ℕ × Option E → Step Col E
  wrote s (n, some e) = (record s { sent = s.sent ++ take n s.buffer }, some (write_failed e))
  wrote s (n, none) =
      if n == length s.buffer
      then (record s { sent = s.sent ++ take n s.buffer; buffer = [] }, none)
      else (record s { sent = s.sent ++ take n s.buffer }, some wrote_less)

  unfoldable pub flush : Sending Col → Step Col E
  flush s = if length s.buffer == 0 then (s, none) else wrote s (link.write s.sent s.buffer)

  abbrev pub from_start : Sending Col → Step Col E
  from_start s = (record s { offset = 0 }, none)

  -- Behind a column: a buffer that is large enough is compressed and flushed.
  unfoldable pub partial_flush : Sending Col → Step Col E
  unfolding compress_buffer flush
  partial_flush s =
      if leb link.max_compression_buffer (length s.buffer)
      then and_then (and_then (compress_buffer s.offset s) flush) from_start
      else (s, none)

  abbrev pub put_column : ℕ → Sending Col → Written Col E → Step Col E
  put_column i s (bytes, b, none) = (record s { buffer = s.buffer ++ bytes; block = b }, none)
  put_column i s (bytes, b, some e) =
      (record s { buffer = s.buffer ++ bytes; block = b }, some (column_failed i e))

  -- The loop over `n` columns from the index `i`.
  unfoldable pub send_columns : ℕ → ℕ → Sending Col → Step Col E
  unfolding partial_flush
  send_columns zero i s = (s, none)
  send_columns (suc n) i s =
      and_then
        (and_then (put_column i s (encode_column w ops link.revision s.block i)) partial_flush)
        (send_columns n (suc i))

  abbrev pub put_header : Sending Col → Bytes × Option (BlockError E) → Step Col E
  put_header s (bytes, none) = (record s { buffer = s.buffer ++ bytes }, none)
  put_header s (bytes, some e) = (record s { buffer = s.buffer ++ bytes }, some (header_failed e))

  -- ClientData and the name of the table, behind which the compressed part begins.
  abbrev pub announced : Bytes → Sending Col → Sending Col
  announced name s = record s {
    buffer = s.buffer ++ 2 ∷ w.put_string name;
    offset = length (s.buffer ++ 2 ∷ w.put_string name);
  }

  -- Whatever error the last flush has, a short write included, closes the connection.
  abbrev pub closing : Step Col E → Step Col E
  closing (s, none) = (s, none)
  closing (s, some e) = (record s { closed = true }, some e)

  unfoldable pub send_data : Bytes → Sending Col → Step Col E
  unfolding send_columns compress_buffer flush
  send_data name s =
      if s.closed
      then (s, some closed_connection)
      else and_then
          (and_then
            (and_then
              (put_header (announced name s) (encode_header w ops link.revision s.block.columns))
              (λ t. send_columns (length t.block.columns) 0 t))
            (λ t. compress_buffer t.offset t))
          (λ t. closing (flush t))
