-- ===== src/Pool.antt =====
-- conn_pool.go: the pool of idle connections over the circular queue. Times and durations are
-- numbers of nanoseconds. `clock conn` is what time.Now() reads when isExpired asks about `conn`,
-- and `ctx_err k` whether ctx.Err() is set when the loop of Get asks for the k-th time. Log lines
-- are left out. The mutex makes each operation one step; Pool/Closing models it with its threads.
pub mod Laws
pub mod Get
pub mod Put
pub mod Drain
pub mod Closing
mod Tests
use clickhouse_go.Common.{
  ℕ, zero, suc, ◌+◌, Bool, true, false, not, List, [], ◌∷◌, ◌++◌, Option, none, some, ltb, leb,
  if◌then◌else◌, ◌>>=◌,
}
use clickhouse_go.Circular.{Queue, Yield, push, pull, new, delete_func, clear, cap_of, size}

-- What the pool asks of a connection (the interface nativeTransport).
pub record Transport {ℓ} (Conn : Type ℓ) : Type ℓ where
  pub connected_at : Conn → ℕ
  pub healthy : Conn → Bool

-- `finished` says that the channel `finished` is closed. `closed_conns` lists the connections on
-- which close() was called, oldest first.
pub record ConnPool {ℓ} (Conn : Type ℓ) : Type ℓ where
  pub conns : Queue Conn
  pub finished : Bool
  pub max_conn_lifetime : ℕ
  pub closed_conns : List Conn

pub data GetResult {ℓ} (Conn : Type ℓ) : Type ℓ where
  got : Conn → GetResult Conn
  err_connection_closed : GetResult Conn
  err_context : GetResult Conn
  err_queue_empty : GetResult Conn

module _ {ℓ} {Conn : Type ℓ} where
  unfoldable pub close_conn : ConnPool Conn → Conn → ConnPool Conn
  close_conn p conn = record p { closed_conns = p.closed_conns ++ conn ∷ [] }

  unfoldable pub len : ConnPool Conn → ℕ
  unfolding size
  len p = size p.conns

  unfoldable pub cap_pool : ConnPool Conn → ℕ
  unfolding cap_of
  cap_pool p = cap_of p.conns

  -- The loops over Clear and DeleteFunc close what they are given.
  abbrev pub closing : Yield Conn (List Conn)
  closing done conn = (done ++ conn ∷ [], true)

module _ {ℓ} {Conn : Type ℓ} (nil : Conn) where
  unfoldable pub new_conn_pool : ℕ → ℕ → ConnPool Conn
  unfolding new
  new_conn_pool lifetime capacity = record {
    conns = new nil capacity;
    finished = false;
    max_conn_lifetime = lifetime;
    closed_conns = [];
  }

module _ {ℓ} {Conn : Type ℓ} (nil : Conn) (t : Transport Conn) (clock : Conn → ℕ) where
  unfoldable pub expires : ConnPool Conn → Conn → ℕ
  expires p conn = t.connected_at conn + p.max_conn_lifetime

  unfoldable pub is_expired : ConnPool Conn → Conn → Bool
  unfolding expires
  is_expired p conn = not (ltb (clock conn) (expires p conn))

  -- The loop of Get. The fuel counts its rounds.
  unfoldable pub get_loop :
      (ctx_err : ℕ → Bool) → ℕ → ℕ → ConnPool Conn → Option (ConnPool Conn × GetResult Conn)
  unfolding close_conn is_expired
  get_loop ctx_err zero k p = none
  get_loop ctx_err (suc fuel) k p = if ctx_err k then some (p, err_context) else do
    (conns, pulled) ← pull nil p.conns
    elim pulled [
      | none ↦ some (record p { conns = conns }, err_queue_empty)
      | some conn ↦
          let p1 : ConnPool Conn = record p { conns = conns } in
          let rest = get_loop ctx_err fuel (k + 1) (close_conn p1 conn) in
          if not (is_expired p conn) then some (p1, got conn) else rest
    ]

  -- One round more than there are connections.
  unfoldable pub get :
      (ctx_err : ℕ → Bool) → ConnPool Conn → Option (ConnPool Conn × GetResult Conn)
  unfolding get_loop
  get ctx_err p =
      if p.finished then some (p, err_connection_closed) else get_loop ctx_err (suc p.conns.len) 0 p

  unfoldable pub put : ConnPool Conn → Conn → Option (ConnPool Conn)
  unfolding close_conn is_expired push
  put p conn =
      if is_expired p conn
      then some (close_conn p conn)
      else if not (t.healthy conn)
      then some (close_conn p conn)
      else if p.finished
      then some p
      else do
        (conns, pushed) ← push p.conns conn
        let p1 : ConnPool Conn = record p { conns = conns }
        some (if not pushed then close_conn p1 conn else p1)

  unfoldable pub drain_pool : ConnPool Conn → Option (ConnPool Conn)
  unfolding is_expired
  drain_pool p = do
    (conns, closed) ←
        (if p.finished
          then clear nil closing p.conns p.closed_conns
          else delete_func nil (is_expired p) closing p.conns p.closed_conns)
    some (record p { conns = conns; closed_conns = closed })

  -- Close, from the lock to the unlock: between them the draining goroutine closes `finished`.
  unfoldable pub close : ConnPool Conn → Option (ConnPool Conn)
  unfolding drain_pool
  close p = if p.finished then some p else drain_pool (record p { finished = true })
