-- ===== src/Lib.antt =====
-- The Go client of ClickHouse: the client with its connection pool, the calls of a native connection,
-- the rows of a query, batches, blocks of columns and how they are sent, and the client-side binding of
-- query arguments.
--
-- Paths are from the repository's root.
-- - Circular, with children: internal/circular/queue.go. `Queue` has the source's fields; `push`,
--   `pull`, `delete_func`, `clear`, `all` are Push, Pull, DeleteFunc, Clear and all. An index out of
--   range is the result `none`. `Represents` says which list of items an array stands for. The loops
--   count down the rounds that the source counts up to q.len, so no fuel is chosen.
-- - Pool, with children: conn_pool.go. The client of the queue: each operation is one step under the
--   mutex, and `Idle` lists the idle connections. The loop of Get has fuel for one round more than
--   there are connections, and Pool.Get shows that this is enough. Pool.Closing is the interleaving
--   of Close with the goroutine runDrainPool.
-- - Client, with children: clickhouse.go. `acquire`, `release` and `close` are the client's operations
--   over Pool, each one step; `opened` counts the tokens of the channel `open`, and a connection is
--   its connID. `Surroundings` holds what the context and the dialling answer in a call. A second
--   select of acquire that neither case can end is the result `blocked`. Client.Dialing is
--   DefaultDialStrategy.
-- - Client.Operations: the client's operations over a native connection; `native_transport` takes the
--   calls from Native, and `with_conn` is acquire, the call and its releases.
-- - Batch, with children: conn_batch.go. `send`, `flush`, `append`, `close`, `abort` are the methods of
--   a batch, `reset_connection` is resetConnection; `Wire` holds the answers of the connection, the
--   pool and the context in one call, and the block is a parameter (`BlockOps`). `acquired` and
--   `returned` list what the batch was given by connAcquire and gave back by connRelease.
-- - Bind, with children: bind.go. `update` is the scanner of quotes and comments that all ways to
--   bind share; Bind.Positional, Bind.Params and Bind.Formats are bindPositional, bindNumeric with
--   bindNamed, and bindParamsFormats; Bind.Literal is the quoting of strings, Bind.Format is
--   formatValue and what it calls, over a tree of values, and Bind.Dispatch is bind. Bind.Modes is
--   a scanner without the flags of bindQuoteState, by which the references of bindNamed,
--   bindNumeric and bind cut a query. A query is a list of bytes; an index is the split of the
--   query that it makes.
-- - QueryParameters, with children: query_parameters.go. `format_epoch`, `format_time_param` and
--   `format_time_with_scale` print a time; QueryParameters.Reading reads such a text back. Seconds are
--   an int64 of Go other than the smallest one.
-- - Native, with children: conn_process.go, and in Native.Calls conn_query.go, conn_exec.go,
--   conn_async_insert.go, conn_ping.go and conn_send_query.go. A `Frame` is a packet of the server with
--   what its decoding gives; `read_loop` is the loop that processImpl, firstBlockImpl and ping share,
--   and recursion is on the frames that are left. `Waiting` says when the context is over.
-- - Rows, with children: clickhouse_rows.go. `NextLoop`, `Next`, `Close` and `RowScan` are relations
--   from the rows before to the rows after, with a constructor for each way through the code, since
--   their selects choose. `query_rows` ties them to Native.
-- - Block, with children: lib/proto/block.go, and in Block.Send sendData, compressBuffer and flush of
--   conn.go. A column is behind `ColumnOps`, an interface of lib/column; the buffer and the reader of
--   the ch-go library are `Wire`, with their laws in Block.RoundTrip. Encode's loop counts the columns
--   that are left, and Decode's those that the header announced, so no fuel is chosen. `Sending` is
--   the connection while it sends, with all that the socket has taken.
-- - Column, with children: lib/column. Column.LowCardinality is lowcardinality.go, where a message is what
--   Encode writes in order, and the dictionary, a column of another kind, is the list of its values.
--   Column.BigInt is the conversion of big integers in bigint.go, for any even number of bytes.
--   Column.Enum is extractEnumNamedValues of enum.go, one step for each byte of the type, and
--   Column.Enum8 the column of enum8.go. Column.Array is array.go, for slices of any one depth, and
--   Column.Nullable is nullable.go, both over a column behind the interface of Block.
-- - Common: numbers, lists and decimal digits.
--
-- Parameters: time readings, contexts, health checks and dialling of connections; the answers of
-- the wire and the block in a batch; in binding, what package time, strconv and fmt print for a
-- time, a float and a value of another kind, and what a Valuer answers; sort.Slice, the
-- compressor and the socket for a block; strconv.Atoi behind bytes.TrimSpace for an enum. Log
-- lines, deadlines and buffers are left out. An operation of the pool, the client and a batch is one
-- step; only Pool.Closing has threads that interleave. In Native a frame's decoding and the sending
-- of a query's parts are parameters, and a channel takes what is sent. The other columns, the other
-- protocol messages, the handshake, the HTTP transport, the options and database/sql are not modelled.
pub mod Common
pub mod Circular
pub mod Pool
pub mod Client
pub mod Batch
pub mod Bind
pub mod Column
pub mod Block
pub mod Native
pub mod QueryParameters
pub mod Rows
