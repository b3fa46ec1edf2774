-- ===== src/Pool/Get.antt =====
-- Get of the pool, against the list of the idle connections.
use mathlib.Core.List.{append_assoc, append-nil}
use native.Mathlib.Nat.{add-zero, zero-add}
use clickhouse_go.Common.{
  ℕ, zero, suc, ◌+◌, ◌<◌, Bool, true, false, List, [], ◌∷◌, ◌++◌, some, ◌≡◌, refl, sym, ap, ◌∙◌,
  arith, if◌then◌else◌, length, Bool-cases, inl, inr,
}
use clickhouse_go.Circular.Laws.{pull-Represents}
use clickhouse_go.Pool.{
  Transport, ConnPool, GetResult, got, err_connection_closed, err_context, err_queue_empty,
  close_conn, is_expired, get_loop, get,
}
use clickhouse_go.Pool.Laws.{AllTrue, Idle}

-- What Get does to the idle connections: what stays idle, what is closed, the result.
pub record Getting {ℓ} (Conn : Type ℓ) : Type ℓ where
  pub idle : List Conn
  pub closed : List Conn
  pub result : GetResult Conn

module _ {ℓ} {Conn : Type ℓ} (expired : Conn → Bool) (ctx_err : ℕ → Bool) where
  abbrev pub spec_get : ℕ → List Conn → Getting Conn
  spec_get k [] = record {
    idle = [];
    closed = [];
    result = if ctx_err k then err_context else err_queue_empty;
  }
  spec_get k (c ∷ cs) =
      if ctx_err k
      then record { idle = c ∷ cs; closed = []; result = err_context }
      else if expired c
      then (let g = spec_get (k + 1) cs in record g { closed = c ∷ g.closed })
      else record { idle = cs; closed = []; result = got c }

module _ {ℓ} {Conn : Type ℓ} (nil : Conn) (t : Transport Conn) (clock : Conn → ℕ) where
  abbrev pub expired_in : ConnPool Conn → Conn → Bool
  expired_in p = is_expired nil t clock p

  get_loop-Idle :
      (ctx_err : ℕ → Bool) (expired : Conn → Bool) (fuel k : ℕ) (p : ConnPool Conn)
      (items : List Conn)
      → length items < fuel
      → Idle nil p items
      → ((c : Conn) → expired_in p c ≡ expired c)
      → let g = spec_get expired ctx_err k items in
        (p' : ConnPool Conn) × (get_loop nil t clock ctx_err fuel k p ≡ some (p', g.result))
        × Idle nil p' g.idle
        × (p'.closed_conns ≡ p.closed_conns ++ g.closed)
        × (p'.finished ≡ p.finished)
        × (p'.max_conn_lifetime ≡ p.max_conn_lifetime)
  unfolding get_loop
  get_loop-Idle ctx_err expired zero k p items h r same = elim h [ ]
  get_loop-Idle ctx_err expired (suc fuel) k p [] h r same =
      let (conns, e, r', _) = pull-Represents nil p.conns [] r in
      elim (Bool-cases (ctx_err k)) [
        | inl over ↦ (p, rw over, r, sym (append-nil p.closed_conns), refl, refl)
        | inr on ↦ (
          record p { conns = conns },
          rw (on, e),
          r',
          sym (append-nil p.closed_conns),
          refl,
          refl,
        )
      ]
  get_loop-Idle ctx_err expired (suc fuel) k p (c ∷ cs) h r same =
      let (conns, e, r', _) = pull-Represents nil p.conns (c ∷ cs) r in
      let p1 : ConnPool Conn = record p { conns = conns } in
      elim (Bool-cases (ctx_err k)) [
        | inl over ↦ (p, rw over, rw over r, rw over (sym (append-nil p.closed_conns)), refl, refl)
        | inr on ↦ elim (Bool-cases (expired c)) [
          | inr fresh ↦ (
            p1,
            rw (on, e, same c, fresh),
            rw (on, fresh) r',
            rw (on, fresh) (sym (append-nil p.closed_conns)),
            refl,
            refl,
          )
          | inl late ↦
              let (p', e', r2, closed, fin, life) =
                get_loop-Idle ctx_err expired fuel (k + 1) (close_conn p1 c) cs (omega arith) r'
                  same in
              (
                p',
                rw (on, e, same c, late) e',
                rw (on, late) r2,
                rw (on, late) (closed ∙ append_assoc p.closed_conns (c ∷ []) _),
                fin,
                life,
              )
        ]
      ]

  -- Get on an open pool: it never faults and never runs out of rounds.
  pub get-Idle :
      (ctx_err : ℕ → Bool) (p : ConnPool Conn) (items : List Conn)
      → p.finished ≡ false
      → Idle nil p items
      → let g = spec_get (expired_in p) ctx_err 0 items in
        (p' : ConnPool Conn) × (get nil t clock ctx_err p ≡ some (p', g.result))
        × Idle nil p' g.idle
        × (p'.closed_conns ≡ p.closed_conns ++ g.closed)
        × (p'.finished ≡ p.finished)
        × (p'.max_conn_lifetime ≡ p.max_conn_lifetime)
  unfolding get
  get-Idle ctx_err p items open_ r =
      let (p', e, r', closed, fin, life) =
        get_loop-Idle ctx_err (expired_in p) (suc p.conns.len) 0 p items (omega (arith, r.len_is)) r
          (λ c. refl) in
      (
        p',
        ap
              (λ b.
                if b
                then some (p, err_connection_closed)
                else get_loop nil t clock ctx_err (suc p.conns.len) 0 p)
              open_
            ∙ e,
        r',
        closed,
        fin,
        life,
      )

-- The connection that Get hands over, if any.
abbrev pub handed {ℓ} : {Conn : Type ℓ} → GetResult Conn → List Conn
handed (got c) = c ∷ []
handed err_connection_closed = []
handed err_context = []
handed err_queue_empty = []

-- What a result of Get says: a connection is not expired, an empty queue is empty, and the context
-- is blamed only if it was over when it was asked last.
abbrev pub Justified {ℓ} :
    {Conn : Type ℓ} → (Conn → Bool) → (ℕ → Bool) → ℕ → List Conn → GetResult Conn → Type 0
Justified expired ctx_err rounds idle (got c) = expired c ≡ false
Justified expired ctx_err rounds idle err_context = ctx_err rounds ≡ true
Justified expired ctx_err rounds idle err_queue_empty = length idle ≡ 0
Justified expired ctx_err rounds idle err_connection_closed = ⊥

module _ {ℓ} {Conn : Type ℓ} (expired : Conn → Bool) (ctx_err : ℕ → Bool) where
  spec_get-split :
      (k : ℕ) (items : List Conn)
      → let g = spec_get expired ctx_err k items in
        (items ≡ g.closed ++ (handed g.result ++ g.idle))
        × AllTrue expired g.closed
        × Justified expired ctx_err (k + length g.closed) g.idle g.result
  spec_get-split k [] = elim (Bool-cases (ctx_err k)) [
    | inl over ↦ rw (add-zero, over) (refl, tt, over)
    | inr on ↦ rw on (refl, tt, refl)
  ]
  spec_get-split k (c ∷ cs) = elim (Bool-cases (ctx_err k)) [
    | inl over ↦ rw (over, add-zero) (refl, tt, over)
    | inr on ↦ elim (Bool-cases (expired c)) [
      | inl late ↦
          let (whole, all, why) = spec_get-split (k + 1) cs in
          let shift : (n : ℕ) → k + suc n ≡ k + 1 + n = λ n. omega arith in
          rw (on, late)
            (
              ap (◌∷◌ c) whole,
              (late, all),
              rw (shift (length (spec_get expired ctx_err (k + 1) cs).closed)) why,
            )
      | inr fresh ↦ rw (on, fresh) (refl, tt, fresh)
    ]
  ]

module _ {ℓ} {Conn : Type ℓ} (nil : Conn) (t : Transport Conn) (clock : Conn → ℕ) where
  -- Get on an open pool serves the oldest connection that has not expired: the idle connections
  -- split into expired ones, which are closed, the one that is handed over, if any, and the rest,
  -- which stays idle; and each way to fail has its reason. The
  -- pool stays open.
  pub get_serves_oldest :
      (ctx_err : ℕ → Bool) (p : ConnPool Conn) (items : List Conn)
      → p.finished ≡ false
      → Idle nil p items
      → (p' : ConnPool Conn) × (result : GetResult Conn) × (dropped idle : List Conn) × (get nil t
            clock ctx_err p
          ≡ some (p', result))
        × (items ≡ dropped ++ (handed result ++ idle))
        × Idle nil p' idle
        × (p'.closed_conns ≡ p.closed_conns ++ dropped)
        × AllTrue (is_expired nil t clock p) dropped
        × Justified (is_expired nil t clock p) ctx_err (length dropped) idle result
        × (p'.finished ≡ p.finished)
  get_serves_oldest ctx_err p items open_ r =
      let (p', e, r', closed, fin, _) = get-Idle nil t clock ctx_err p items open_ r in
      let g = spec_get (is_expired nil t clock p) ctx_err 0 items in
      let (whole, all, why) = spec_get-split (is_expired nil t clock p) ctx_err 0 items in
      (p', g.result, g.closed, g.idle, e, whole, r', closed, all, rw zero-add at why, fin)
