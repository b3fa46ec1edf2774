-- ===== src/Client/Moves.antt =====
-- clickhouse.go: the client's invariant when a token or one connection moves.
use clickhouse_go.Common.{
  ℕ, ◌+◌, false, List, [], ◌∷◌, ◌++◌, refl, arith, ◌==◌, count_last, length-append, Bool-cases, inl,
  inr,
}
use clickhouse_go.Client.{Clickhouse, set_released, take_token, close_transport}
use clickhouse_go.Client.Counts.{Inv, made-le, made_next, count_other, count_same, count-nil}

module _ {ch : Clickhouse} {users items failed : List ℕ} where
  -- A token goes back when a call of acquire fails.
  pub take_token-Inv : Inv ch 1 [] users items failed → Inv (take_token ch) 0 [] users items failed
  unfolding take_token
  take_token-Inv v = record {
    idle = v.idle;
    tokens = omega (arith, v.tokens);
    bounded = omega (arith, v.bounded);
    accounted = v.accounted;
    used = v.used;
    parked = v.parked;
    finished = v.finished;
    once = v.once;
  }

  -- A connection that is taken goes to a user.
  pub hand_out-Inv :
      (c : ℕ)
      → Inv ch 1 (c ∷ []) users items failed
      → Inv (set_released ch c false) 0 [] (users ++ c ∷ []) items failed
  unfolding set_released
  hand_out-Inv c v = record {
    idle = v.idle;
    tokens = omega (arith, v.tokens, length-append users (c ∷ []));
    bounded = v.bounded;
    accounted = λ d. omega (arith, v.accounted d, count_last d c users, count-nil d);
    used = λ d h. elim (Bool-cases (d == c)) [
      | inl e ↦ rw e refl
      | inr e ↦ rw e (v.used d (omega (arith, h, count_last d c users, count_other c d e)))
    ];
    parked = λ d h. elim (Bool-cases (d == c)) [
      | inl e ↦ absurd (omega (arith, h, v.accounted d, count_same c d e, made-le ch.conn_id d))
      | inr e ↦ rw e (v.parked d h)
    ];
    finished = v.finished;
    once = v.once;
  }

  -- A connection that is taken is closed.
  pub close_transport-Inv :
      {held : ℕ} (c : ℕ)
      → Inv ch held (c ∷ []) users items failed
      → Inv (close_transport ch c) held [] users items failed
  unfolding close_transport
  close_transport-Inv c v = record {
    idle = v.idle;
    tokens = v.tokens;
    bounded = v.bounded;
    accounted = λ d. omega (arith, v.accounted d, count_last d c ch.idle.closed_conns, count-nil d);
    used = v.used;
    parked = v.parked;
    finished = v.finished;
    once = v.once;
  }

  -- A connID was given: it is taken if its dial succeeded.
  pub next_id-Inv :
      Inv ch 1 [] users items failed
      → Inv (record ch { conn_id = ch.conn_id + 1 }) 1 ((ch.conn_id + 1) ∷ []) users items failed
  next_id-Inv v = record {
    idle = v.idle;
    tokens = v.tokens;
    bounded = v.bounded;
    accounted = λ d. omega (arith, v.accounted d, made_next ch.conn_id d, count-nil d);
    used = v.used;
    parked = v.parked;
    finished = v.finished;
    once = v.once;
  }

  pub fail_id-Inv :
      (c : ℕ) → Inv ch 1 (c ∷ []) users items failed → Inv ch 1 [] users items (failed ++ c ∷ [])
  fail_id-Inv c v = record {
    idle = v.idle;
    tokens = v.tokens;
    bounded = v.bounded;
    accounted = λ d. omega (arith, v.accounted d, count_last d c failed, count-nil d);
    used = v.used;
    parked = v.parked;
    finished = v.finished;
    once = v.once;
  }
