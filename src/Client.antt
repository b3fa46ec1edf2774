-- ===== src/Client.antt =====
-- clickhouse.go: the client, its semaphore `open` and the pool of idle connections. A connection is
-- named by its connID, from 1 on; 0 stands for nil. Each operation is one step, and its arguments
-- say what the context, the clock, the health check and the dialling answer in it.
pub mod Dialing
pub mod Counts
pub mod Moves
pub mod Acquire
pub mod Release
pub mod Reachable
pub mod Operations
mod Tests
use clickhouse_go.Common.{
  ℕ, ◌+◌, ◌-◌, Bool, true, false, not, Option, none, some, ltb, leb, ◌==◌, if◌then◌else◌, ◌>>=◌,
}
use clickhouse_go.Pool.{
  Transport, ConnPool, GetResult, got, err_connection_closed, err_context, err_queue_empty,
  close_conn, new_conn_pool, get, put, len, cap_pool,
}
use clickhouse_go.Pool

-- `opened` counts the tokens in the channel `open`, `max_open_conns` is its capacity, `conn_id` the last
-- connID that was given, and `released` the flag that setReleased writes into a connection.
pub record Clickhouse : Type 0 where
  pub idle : ConnPool ℕ
  pub opened : ℕ
  pub max_open_conns : ℕ
  pub conn_max_lifetime : ℕ
  pub conn_id : ℕ
  pub close_once : Bool
  pub closed : Bool
  pub released : ℕ → Bool

-- `blocked`: the second select waits, for neither of its cases is ready.
pub data Acquired : Type 0 where
  conn : ℕ → Acquired
  closed_error : Acquired
  context_error : Acquired
  dial_error : Acquired
  blocked : Acquired

-- What the surroundings answer in a call of acquire: whether ctx is over at the first select,
-- whether the second select takes its ctx.Done case, whether ctx is over at each round of Get and
-- in dial, and whether the strategy gets a connection with a connID.
pub record Surroundings : Type 0 where
  pub ctx_done : Bool
  pub ctx_done_waiting : Bool
  pub ctx_err : ℕ → Bool
  pub ctx_err_dialing : Bool
  pub dials : ℕ → Bool

pub record Stats : Type 0 where
  pub opened : ℕ
  pub max_open_conns : ℕ
  pub idle : ℕ
  pub max_idle_conns : ℕ

abbrev nil : ℕ
nil = 0

unfoldable pub open_client : (max_open max_idle lifetime : ℕ) → Clickhouse
unfolding new_conn_pool
open_client max_open max_idle lifetime = record {
  idle = new_conn_pool nil lifetime max_idle;
  opened = 0;
  max_open_conns = max_open;
  conn_max_lifetime = lifetime;
  conn_id = 0;
  close_once = false;
  closed = false;
  released = λ c. false;
}

unfoldable pub stats : Clickhouse → Stats
unfolding len cap_pool
stats ch = record {
  opened = ch.opened;
  max_open_conns = ch.max_open_conns;
  idle = len ch.idle;
  max_idle_conns = cap_pool ch.idle;
}

unfoldable pub set_released : Clickhouse → ℕ → Bool → Clickhouse
set_released ch c b = record ch { released = λ d. if d == c then b else ch.released d }

-- `select { case <-ch.opened: default: }`: a token is taken out if there is one.
unfoldable pub take_token : Clickhouse → Clickhouse
take_token ch = record ch { opened = ch.opened - 1 }

-- conn.close(), in the list that the pool keeps too.
unfoldable pub close_transport : Clickhouse → ℕ → Clickhouse
unfolding close_conn
close_transport ch c = record ch { idle = close_conn ch.idle c }

-- dial: a new connection is not released.
unfoldable pub dial : Surroundings → Clickhouse → Clickhouse × Acquired
unfolding set_released
dial s ch =
    if s.ctx_err_dialing
    then (ch, context_error)
    else (let id = ch.conn_id + 1 in
        let ch1 : Clickhouse = record ch { conn_id = id } in
        if s.dials id then (set_released ch1 id false, conn id) else (ch1, dial_error))

-- The token goes back if a dial failed.
unfoldable pub finish_dial : Clickhouse × Acquired → Clickhouse × Acquired
unfolding take_token
finish_dial (ch, conn c) = (ch, conn c)
finish_dial (ch, closed_error) = (take_token ch, closed_error)
finish_dial (ch, context_error) = (take_token ch, context_error)
finish_dial (ch, dial_error) = (take_token ch, dial_error)
finish_dial (ch, blocked) = (take_token ch, blocked)

-- The end of acquire.
unfoldable pub dial_new : Surroundings → Clickhouse → Clickhouse × Acquired
unfolding dial finish_dial
dial_new s ch = finish_dial (dial s ch)

module _ (t : Transport ℕ) (clock : ℕ → ℕ) where
  -- acquire behind idle.Get.
  unfoldable pub got_idle : Surroundings → Clickhouse → GetResult ℕ → Clickhouse × Acquired
  unfolding set_released take_token close_transport dial_new
  got_idle s ch (got c) =
      if t.healthy c then (set_released ch c false, conn c) else dial_new s (close_transport ch c)
  got_idle s ch err_connection_closed = (take_token ch, closed_error)
  got_idle s ch err_context = (take_token ch, context_error)
  got_idle s ch err_queue_empty = dial_new s ch

  unfoldable pub acquire : Surroundings → Clickhouse → Option (Clickhouse × Acquired)
  unfolding got_idle
  acquire s ch =
      if ch.closed
      then some (ch, closed_error)
      else if s.ctx_done
      then some (ch, context_error)
      else if s.ctx_done_waiting
      then some (ch, context_error)
      else if not (ltb ch.opened ch.max_open_conns)
      then some (ch, blocked)
      else do
        (idle, result) ← get nil t clock s.ctx_err ch.idle
        some (got_idle s (record ch { idle = idle; opened = ch.opened + 1 }) result)

  -- The end of release: a connection without faults.
  unfoldable pub put_back : Clickhouse → ℕ → Option Clickhouse
  unfolding close_transport
  put_back ch c =
      if ch.closed
      then some (close_transport ch c)
      else do idle ← put nil t clock ch.idle c; some (record ch { idle = idle })

  -- release: `failed` says that err is not nil.
  unfoldable pub release : (failed : Bool) → Clickhouse → ℕ → Option Clickhouse
  unfolding set_released take_token close_transport put_back
  release failed ch c =
      if ch.released c
      then some ch
      else (let ch1 = take_token (set_released ch c true) in
          if failed
          then some (close_transport ch1 c)
          else if leb (t.connected_at c + ch.conn_max_lifetime) (clock c)
          then some (close_transport ch1 c)
          else put_back ch1 c)

  unfoldable pub close : Clickhouse → Option Clickhouse
  close ch = if ch.close_once then some ch else do
    idle ← Pool.close nil t clock ch.idle
    some (record ch { idle = idle; close_once = true; closed = true })
