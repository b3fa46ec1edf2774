-- ===== src/Block/Tests/Sending.antt =====
-- sendData of conn.go over a socket that takes what it is given, and over one that takes a byte.
use clickhouse_go.Common.{ℕ, true, false, [], ◌∷◌, none, some, inl, length, ◌≡◌, refl, arith}
use clickhouse_go.Block.{BlockError, rows_of, append}
use clickhouse_go.Block.Append.{append-refused}
use clickhouse_go.Block.Header.{
  encode, encode_one, encode_header, encode_column, encode_columns, mismatched,
}
use clickhouse_go.Block.Send.{
  Sending, Link, send_data, send_columns, partial_flush, compress_buffer, flush, write_failed,
  wrote_less, header_failed,
}
use clickhouse_go.Block.Send.Delivered.{Delivered, head_of, send_data-Delivered}
use clickhouse_go.Block.Send.Succeeds.{send_data-sends}
use clickhouse_go.Block.Tests.{Numbers, numbers, wire, two_columns, three_columns, stopped}

-- The compressor puts the length in front.
abbrev link : Link ℕ
link = record {
  revision = 54454;
  max_compression_buffer = 10;
  compression = true;
  compress = λ bytes. inl (length bytes ∷ bytes);
  write = λ sent buffer. (length buffer, none);
}

abbrev sending : Sending Numbers
sending = record { buffer = []; offset = 0; sent = []; closed = false; block = two_columns }

-- Two chunks: the header with the first column, and the second column.
sent_bytes :
    (send_data wire numbers link [] sending).0.sent
    ≡ 2 ∷ 0 ∷ 14 ∷ 1 ∷ 0 ∷ 2 ∷ 4294967295 ∷ 0 ∷ 2 ∷ 2 ∷ 1 ∷ 105 ∷ 1 ∷ 0 ∷ 0 ∷ 4 ∷ 7 ∷ 8 ∷ 1 ∷ 116
      ∷ 1 ∷ 1 ∷ 0 ∷ 9 ∷ 1 ∷ 1 ∷ []
unfolding send_data send_columns partial_flush compress_buffer flush encode_header encode_column
    encode_one mismatched rows_of
sent_bytes = refl

send_data_example :
    let r = send_data wire numbers link [] sending in
    (r.1 ≡ none)
    × Delivered wire numbers link (head_of wire numbers link [] sending) two_columns r.0
unfolding encode encode_header encode_columns encode_column encode_one mismatched rows_of
send_data_example =
    send_data-sends wire numbers link [] sending (λ bytes. (length bytes ∷ bytes, refl))
      (λ sent buffer. refl) refl refl

no_error : (send_data wire numbers link [] sending).1 ≡ none
unfolding send_data send_columns partial_flush compress_buffer flush encode_header encode_column
    encode_one mismatched rows_of
no_error = refl

taken_example :
    Delivered wire numbers link
      (head_of wire numbers link [] sending)
      two_columns
      (send_data wire numbers link [] sending).0
taken_example = send_data-Delivered wire numbers link [] sending no_error

-- The block that Append left behind a value that the second column refused.
abbrev half_row : Sending Numbers
half_row = record sending { block = (append numbers three_columns (5 ∷ 300 ∷ 6 ∷ [])).0 }

append_refused_example :
    let r = send_data wire numbers link [] half_row in
    (e : BlockError ℕ) × (r.1 ≡ some (header_failed e)) × (r.0.sent ≡ [])
unfolding stopped
append_refused_example =
    append-refused wire numbers link [] 2 three_columns (5 ∷ 300 ∷ 6 ∷ []) half_row stopped
      (λ h. absurd (ground (arith, h))) (inl (λ h. absurd (ground (arith, h)))) refl refl

-- A broken pipe at the end closes the connection.
abbrev broken : Link ℕ
broken = record link { max_compression_buffer = 100; write = λ sent buffer. (1, some 32) }

broken_pipe :
    let r = send_data wire numbers broken [] sending in
    (r.1 ≡ some (write_failed 32)) × (r.0.closed ≡ true) × (r.0.sent ≡ 2 ∷ [])
unfolding send_data send_columns partial_flush compress_buffer flush encode_header encode_column
    encode_one mismatched rows_of
broken_pipe = (refl, refl, refl)

-- So does a short write there.
abbrev short : Link ℕ
short = record broken { write = λ sent buffer. (1, none) }

short_write :
    let r = send_data wire numbers short [] sending in (r.1 ≡ some wrote_less) × (r.0.closed ≡ true)
unfolding send_data send_columns partial_flush compress_buffer flush encode_header encode_column
    encode_one mismatched rows_of
short_write = (refl, refl)

-- A broken pipe at a flush before the end leaves the connection open.
broken_early :
    let r = send_data wire numbers (record broken { max_compression_buffer = 10 }) [] sending in
    (r.1 ≡ some (write_failed 32)) × (r.0.closed ≡ false)
unfolding send_data send_columns partial_flush compress_buffer flush encode_header encode_column
    encode_one mismatched rows_of
broken_early = (refl, refl)
