-- ===== src/Client/Acquire.antt =====
-- clickhouse.go: acquire keeps the client's invariant, whatever the surroundings answer.
use clickhouse_go.Common.{
  ℕ, ◌+◌, ◌≤◌, Bool, false, List, [], ◌∷◌, ◌++◌, some, ◌≡◌, ◌⊎◌, ◌∙◌, arith, ltb, count,
  count-append, Bool-cases, inl, inr,
}
use mathlib.Core.List.{append-nil}
use clickhouse_go.Pool.{
  ConnPool, get, Transport, got, GetResult, err_connection_closed, err_context, err_queue_empty,
}
use clickhouse_go.Pool.Get.{handed, get_serves_oldest}
use clickhouse_go.Client.{
  Clickhouse, Acquired, conn, closed_error, context_error, dial_error, blocked, Surroundings, nil,
  set_released, take_token, dial, dial_new, got_idle, acquire,
}
use clickhouse_go.Client.Counts.{Inv, count-nil, count-handed}
use clickhouse_go.Client.Moves.{
  take_token-Inv, hand_out-Inv, close_transport-Inv, next_id-Inv, fail_id-Inv,
}

-- The connection that acquire hands out, if any.
abbrev pub handed_out : Acquired → List ℕ
handed_out (conn c) = c ∷ []
handed_out closed_error = []
handed_out context_error = []
handed_out dial_error = []
handed_out blocked = []

-- The connID that acquire gave to a dial that failed: the last one that was given, if it answers
-- with the error of a dial.
abbrev pub failed_dial : Clickhouse → Acquired → List ℕ
failed_dial ch (conn c) = []
failed_dial ch closed_error = []
failed_dial ch context_error = []
failed_dial ch dial_error = ch.conn_id ∷ []
failed_dial ch blocked = []

dial-cases :
    (s : Surroundings) (ch : Clickhouse)
    → let id = ch.conn_id + 1 in
      let ch1 : Clickhouse = record ch { conn_id = id } in
      (dial s ch ≡ (ch, context_error))
      ⊎ ((dial s ch ≡ (set_released ch1 id false, conn id)) ⊎ (dial s ch ≡ (ch1, dial_error)))
unfolding dial
dial-cases s ch = elim (Bool-cases s.ctx_err_dialing) [
  | inl over ↦ inl (simp over)
  | inr on ↦ elim (Bool-cases (s.dials (ch.conn_id + 1))) [
    | inl made_it ↦ inr (inl (simp (on, made_it)))
    | inr not_made ↦ inr (inr (simp (on, not_made)))
  ]
]

module _ {users items failed : List ℕ} where
  dial_new-Inv :
      {ch : Clickhouse} (s : Surroundings)
      → Inv ch 1 [] users items failed
      → let (ch', r) = dial_new s ch in
        Inv ch' 0 [] (users ++ handed_out r) items (failed ++ failed_dial ch' r)
  unfolding dial_new take_token
  dial_new-Inv {ch} s v = elim (dial-cases s ch) [
    | inl e ↦ rw (e, append-nil users, append-nil failed) (take_token-Inv v)
    | inr (inl e) ↦ rw (e, append-nil failed) (hand_out-Inv (ch.conn_id + 1) (next_id-Inv v))
    | inr (inr e) ↦
        rw (e, append-nil users) (take_token-Inv (fail_id-Inv (ch.conn_id + 1) (next_id-Inv v)))
  ]

  -- Behind idle.Get: what it took out of the pool is taken.
  got_idle-Inv :
      {ch : Clickhouse} (t : Transport ℕ) (clock : ℕ → ℕ) (s : Surroundings) (r : GetResult ℕ)
      → Inv ch 1 (handed r) users items failed
      → let (ch', a) = got_idle t clock s ch r in
        Inv ch' 0 [] (users ++ handed_out a) items (failed ++ failed_dial ch' a)
  unfolding got_idle
  got_idle-Inv t clock s (got c) v = elim (Bool-cases (t.healthy c)) [
    | inl well ↦ rw (well, append-nil failed) (hand_out-Inv c v)
    | inr bad ↦ rw bad (dial_new-Inv s (close_transport-Inv c v))
  ]
  got_idle-Inv t clock s err_connection_closed v =
      rw (append-nil users, append-nil failed) (take_token-Inv v)
  got_idle-Inv t clock s err_context v = rw (append-nil users, append-nil failed) (take_token-Inv v)
  got_idle-Inv t clock s err_queue_empty v = dial_new-Inv s v

module _ {users items failed : List ℕ} where
  -- Get has taken a connection out of the pool, if it found one.
  get-Inv :
      (ch : Clickhouse) (t : Transport ℕ) (clock : ℕ → ℕ) (ctx_err : ℕ → Bool)
      → ch.closed ≡ false
      → ch.opened + 1 ≤ ch.max_open_conns
      → Inv ch 0 [] users items failed
      → (idle : ConnPool ℕ) × (r : GetResult ℕ) × (left : List ℕ) × (get nil t clock ctx_err ch.idle
          ≡ some (idle, r))
        × Inv (record ch { idle = idle; opened = ch.opened + 1 }) 1 (handed r) users left failed
  get-Inv ch t clock ctx_err on room v =
      let (idle, r, dropped, left, e, whole, rep, closed, _, _, fin) =
        get_serves_oldest nil t clock ctx_err ch.idle items (v.finished ∙ on) v.idle in
      let counted : (d : ℕ) → count d items ≡ count d dropped + count d (handed r) + count d left =
        λ d. count-handed d items dropped left r whole in
      (
        idle,
        r,
        left,
        e,
        record {
          idle = rep;
          tokens = omega (arith, v.tokens);
          bounded = room;
          accounted = λ d. rw closed (
              omega (
                arith,
                v.accounted d,
                counted d,
                count-append d ch.idle.closed_conns dropped,
                count-nil d,
              ));
          used = v.used;
          parked = λ d h. v.parked d (omega (arith, h, counted d));
          finished = fin ∙ v.finished;
          once = v.once;
        },
      )

  -- acquire ends, whatever the surroundings answer, unless it is blocked on the semaphore, and
  -- keeps the client's invariant, in which every connection is accounted for: the one it hands out
  -- belongs to no one else, one that it finds unhealthy is closed, and no
  -- connID is written off but that of a dial that failed, where its error is answered.
  pub acquire-Inv :
      (t : Transport ℕ) (clock : ℕ → ℕ) (s : Surroundings) (ch : Clickhouse)
      → Inv ch 0 [] users items failed
      → (ch' : Clickhouse) × (a : Acquired) × (left : List ℕ) × (acquire t clock s ch
          ≡ some (ch', a))
        × Inv ch' 0 [] (users ++ handed_out a) left (failed ++ failed_dial ch' a)
  unfolding acquire
  acquire-Inv t clock s ch v = elim (Bool-cases ch.closed) [
    | inl over ↦ (ch, closed_error, items, simp over, rw (append-nil users, append-nil failed) v)
    | inr on ↦ elim (Bool-cases s.ctx_done) [
      | inl gone ↦
          (ch, context_error, items, simp (on, gone), rw (append-nil users, append-nil failed) v)
      | inr live ↦ elim (Bool-cases s.ctx_done_waiting) [
        | inl gone ↦ (
          ch,
          context_error,
          items,
          simp (on, live, gone),
          rw (append-nil users, append-nil failed) v,
        )
        | inr waits ↦ elim (Bool-cases (ltb ch.opened ch.max_open_conns)) [
          | inr full ↦ (
            ch,
            blocked,
            items,
            simp (on, live, waits, full),
            rw (append-nil users, append-nil failed) v,
          )
          | inl room ↦
              let (idle, r, left, e, v') = get-Inv ch t clock s.ctx_err on (ground arith) v in
              let v2 = got_idle-Inv t clock s r v' in
              (_, _, left, simp (on, live, waits, room, e), v2)
        ]
      ]
    ]
  ]
