-- ===== src/Client/Operations/Tests.antt =====
-- The operations of the client at small inputs; a block is the number of its rows.
use clickhouse_go.Common.{
  ℕ, ◌+◌, Bool, true, false, [], ◌∷◌, Option, none, some, ◌≡◌, refl, inl, length, ◌==◌,
  if◌then◌else◌,
}
use clickhouse_go.Circular.{pull, is_empty, new}
use clickhouse_go.Pool.{Transport, get, get_loop, new_conn_pool}
use clickhouse_go.Client.{
  Clickhouse, conn, Surroundings, open_client, acquire, got_idle, dial_new, finish_dial, dial,
  set_released,
}
use clickhouse_go.Client.Reachable.{open_client-Inv}
use clickhouse_go.Native.{
  ConnError, answered, read_failed, block_frame, server_data, server_end_of_stream,
}
use clickhouse_go.Native.Calls.{Serving, Result}
use clickhouse_go.Client.Operations
use clickhouse_go.Client.Operations.{
  NativeTransport, Preparing, native_transport, ping, async_insert, exec, server_version, query,
  prepare,
}
use clickhouse_go.Client.Operations.Kept.{Keeps, operations-Keeps, prepare-leaks}

abbrev transport : Transport ℕ
transport = record { connected_at = λ c. 10; healthy = λ c. true }

abbrev clock : ℕ → ℕ
clock c = 20

abbrev calm : Surroundings
calm = record {
  ctx_done = false;
  ctx_done_waiting = false;
  ctx_err = λ k. false;
  ctx_err_dialing = false;
  dials = λ id. true;
}

abbrev client : Clickhouse
client = open_client 2 1 60

abbrev rows_of : ℕ → ℕ
rows_of b = b

abbrev serving : ℕ → Serving ℕ ℕ
serving c = record {
  bound = none;
  sending = record { encode = none; external = []; empty_block = none; flush = none };
  over = read_failed 9;
  frames = block_frame server_data (inl 0) ∷ server_end_of_stream ∷ [];
}

-- A query that is no INSERT.
abbrev not_insert : ℕ → Preparing (ConnError ℕ)
not_insert c = record { query = some (read_failed 7); send = none; first_block = none; sort = none }

abbrev native : NativeTransport (Result ℕ ℕ) (ConnError ℕ)
native = native_transport rows_of answered answered serving not_insert

operations_example :
    Keeps [] [] (ping transport clock native calm client)
    × ((wait : Bool) → Keeps [] [] (async_insert transport clock native calm wait client))
    × ((async : Option Bool) → Keeps [] [] (exec transport clock native calm async client))
    × Keeps [] [] (server_version transport clock native calm client)
    × Keeps [] [] (query transport clock native calm client)
operations_example =
    operations-Keeps rows_of answered answered serving not_insert transport clock calm client [] []
      [] (open_client-Inv 2 1 60)

abbrev acquired_first : Clickhouse
acquired_first = record client {
  opened = 1;
  conn_id = 1;
  released = λ d. if d == 1 then false else false;
}

acquires_first : acquire transport clock calm client ≡ some (acquired_first, conn 1)
unfolding acquire got_idle dial_new finish_dial dial set_released get get_loop pull is_empty new
    new_conn_pool open_client
acquires_first = refl

leak_example :
    (prepare transport clock native calm client
      ≡ some (acquired_first, Operations.answered (some (read_failed 7))))
    × (acquired_first.opened ≡ length {A = ℕ} [] + 1)
    × (acquired_first.released 1 ≡ false)
leak_example =
    prepare-leaks transport clock native calm client acquired_first 1 (read_failed 7) [] [] []
      (open_client-Inv 2 1 60) acquires_first refl
