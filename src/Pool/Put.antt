-- ===== src/Pool/Put.antt =====
-- Put of the pool, against the list of the idle connections.
use clickhouse_go.Common.{
  ℕ, Bool, true, false, not, List, [], ◌∷◌, ◌++◌, some, ◌≡◌, refl, ltb, if◌then◌else◌, length,
  Bool-cases, inl, inr,
}
use clickhouse_go.Circular.{cap_of}
use clickhouse_go.Circular.Laws.{push-Represents}
use clickhouse_go.Pool.{Transport, ConnPool, close_conn, is_expired, put}
use clickhouse_go.Pool.Laws.{Idle}

-- What Put does to the idle connections and to the closed ones.
abbrev pub spec_put {ℓ} :
    {Conn : Type ℓ} (expired healthy finished : Bool) (capacity : ℕ) (idle closed : List Conn)
    → Conn
    → List Conn × List Conn
spec_put expired healthy finished capacity idle closed c =
    if expired
    then (idle, closed ++ c ∷ [])
    else if not healthy
    then (idle, closed ++ c ∷ [])
    else if finished
    then (idle, closed)
    else if ltb (length idle) capacity
    then (idle ++ c ∷ [], closed)
    else (idle, closed ++ c ∷ [])

module _ {ℓ} {Conn : Type ℓ} (nil : Conn) (t : Transport Conn) (clock : Conn → ℕ) where
  abbrev pub put_result : ConnPool Conn → List Conn → Conn → List Conn × List Conn
  put_result p items c =
      spec_put (is_expired nil t clock p c) (t.healthy c) p.finished (cap_of p.conns) items
        p.closed_conns c

  put_pushed :
      (p : ConnPool Conn) (items : List Conn) (c : Conn)
      → is_expired nil t clock p c ≡ false
      → t.healthy c ≡ true
      → p.finished ≡ false
      → Idle nil p items
      → (p' : ConnPool Conn) × (put nil t clock p c ≡ some p')
        × Idle nil p' (put_result p items c).0
        × (p'.closed_conns ≡ (put_result p items c).1)
        × (p'.finished ≡ p.finished)
  unfolding put
  put_pushed p items c fresh well on r =
      let (conns, e, r', _) = push-Represents nil p.conns c items r in
      let p1 : ConnPool Conn = record p { conns = conns } in
      elim (Bool-cases (ltb (length items) (cap_of p.conns))) [
        | inl fits ↦ (
          p1,
          simp (fresh, well, on, e, fits),
          simp (fresh, well, on, fits) (simp fits at r'),
          simp (fresh, well, on, fits),
          refl,
        )
        | inr full ↦ (
          close_conn p1 c,
          simp (fresh, well, on, e, full),
          simp (fresh, well, on, full) (simp full at r'),
          simp (fresh, well, on, full),
          refl,
        )
      ]

  -- Put on every branch: an expired or bad connection is closed, a finished pool takes nothing, a
  -- pool with room takes the connection as its newest, and a full one closes it.
  pub put-Idle :
      (p : ConnPool Conn) (items : List Conn) (c : Conn)
      → Idle nil p items
      → (p' : ConnPool Conn) × (put nil t clock p c ≡ some p')
        × Idle nil p' (put_result p items c).0
        × (p'.closed_conns ≡ (put_result p items c).1)
        × (p'.finished ≡ p.finished)
  unfolding put
  put-Idle p items c r = elim (Bool-cases (is_expired nil t clock p c)) [
    | inl late ↦ (close_conn p c, rw late, rw late r, rw late, refl)
    | inr fresh ↦ elim (Bool-cases (t.healthy c)) [
      | inr bad ↦ (close_conn p c, rw (fresh, bad), rw (fresh, bad) r, rw (fresh, bad), refl)
      | inl well ↦ elim (Bool-cases p.finished) [
        | inl over ↦ (
          p,
          simp (fresh, well, over),
          simp (fresh, well, over) r,
          simp (fresh, well, over),
          refl,
        )
        | inr on ↦ put_pushed p items c fresh well on r
      ]
    ]
  ]
