-- ===== src/Pool/Drain.antt =====
-- The drain of the pool and Close, against the list of the idle connections.
use mathlib.Core.List.{append_assoc, Perm}
use mathlib.Core.List.Perm
use clickhouse_go.Common.{ℕ, true, false, not, List, [], ◌++◌, some, ◌≡◌, refl, keep_if}
use clickhouse_go.Circular.Laws.{clear-Represents}
use clickhouse_go.Circular.Delete.{delete_func-Represents}
use clickhouse_go.Pool.{Transport, ConnPool, closing, is_expired, drain_pool, close}
use clickhouse_go.Pool.Laws.{keep_if-perm, feed-closing, Idle}

module _ {ℓ} {Conn : Type ℓ} (nil : Conn) (t : Transport Conn) (clock : Conn → ℕ) where
  -- The drain of an open pool closes the expired connections, and the others stay idle in order.
  pub drain_pool-Idle :
      (p : ConnPool Conn) (items : List Conn)
      → p.finished ≡ false
      → Idle nil p items
      → (p' : ConnPool Conn) × (drain_pool nil t clock p ≡ some p')
        × Idle nil p' (keep_if (λ c. not (is_expired nil t clock p c)) items)
        × (p'.closed_conns ≡ p.closed_conns ++ keep_if (is_expired nil t clock p) items)
        × (p'.finished ≡ p.finished)
  unfolding drain_pool
  drain_pool-Idle p items open_ r =
      let (conns, e, r', _) =
        delete_func-Represents nil (is_expired nil t clock p) closing p.conns items p.closed_conns
          r in
      let closed = keep_if (is_expired nil t clock p) items in
      (
        record p { conns = conns; closed_conns = p.closed_conns ++ closed },
        simp (open_, e, feed-closing),
        r',
        refl,
        refl,
      )

  -- The drain of an open pool loses no connection: those that are idle or closed after it are those
  -- that were idle or closed before it.
  pub drain_pool-perm :
      (p : ConnPool Conn) (items : List Conn)
      → p.finished ≡ false
      → Idle nil p items
      → (p' : ConnPool Conn) × (idle : List Conn) × (drain_pool nil t clock p ≡ some p')
        × Idle nil p' idle
        × Perm (p'.closed_conns ++ idle) (p.closed_conns ++ items)
  drain_pool-perm p items open_ r =
      let (p', e, r', closed, _) = drain_pool-Idle p items open_ r in
      let late = is_expired nil t clock p in
      (
        p',
        keep_if (λ c. not (late c)) items,
        e,
        r',
        rw (closed, append_assoc p.closed_conns (keep_if late items))
            (Perm.append_left p.closed_conns (Perm.symm (keep_if-perm late items))),
      )

  -- Close shuts an open pool: every idle connection is closed, in order, and none is left.
  pub close-Idle :
      (p : ConnPool Conn) (items : List Conn)
      → p.finished ≡ false
      → Idle nil p items
      → (p' : ConnPool Conn) × (close nil t clock p ≡ some p')
        × Idle nil p' []
        × (p'.closed_conns ≡ p.closed_conns ++ items)
        × (p'.finished ≡ true)
        × (close nil t clock p' ≡ some p')
  unfolding close drain_pool
  close-Idle p items open_ r =
      let (conns, e, r', _) = clear-Represents nil closing p.conns items p.closed_conns r in
      (
        record {
          conns = conns;
          finished = true;
          max_conn_lifetime = p.max_conn_lifetime;
          closed_conns = p.closed_conns ++ items;
        },
        simp (open_, e, feed-closing),
        r',
        refl,
        refl,
        refl,
      )
