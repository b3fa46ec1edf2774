-- ===== src/Client/Release.antt =====
-- clickhouse.go: release and Close keep the client's invariant, and so does the drain of the pool.
use clickhouse_go.Common.{
  ℕ, ◌+◌, ◌≤◌, Bool, true, false, not, ◌>>=◌, Option, List, [], ◌∷◌, ◌++◌, some, ◌≡◌, refl, ◌∙◌, ap,
  arith, leb, ◌==◌, ==_iff, if◌then◌else◌, count, count-append, count_middle, keep_if,
  length-append, Bool-cases, inl, inr,
}
use clickhouse_go.Pool.{Transport, ConnPool, is_expired, put, drain_pool}
use clickhouse_go.Pool
use clickhouse_go.Pool.Put.{put-Idle, put_result}
use clickhouse_go.Pool.Drain.{close-Idle, drain_pool-Idle}
use clickhouse_go.Client.{
  Clickhouse, nil, set_released, take_token, close_transport, put_back, release, close,
}
use clickhouse_go.Client.Counts.{
  Inv, made-le, count_self, count_same, count_other, count-nil, count-spec_put, count-keep_if,
}
use clickhouse_go.Client.Moves.{close_transport-Inv}

-- A user gives a connection back: it is marked, and the token is taken out.
give_back-Inv :
    {ch : Clickhouse} (xs : List ℕ) (c : ℕ) (ys : List ℕ) {items failed : List ℕ}
    → Inv ch 0 [] (xs ++ c ∷ ys) items failed
    → Inv (take_token (set_released ch c true)) 0 (c ∷ []) (xs ++ ys) items failed
unfolding take_token set_released
give_back-Inv {ch} xs c ys v = record {
  idle = v.idle;
  tokens = omega (arith, v.tokens, length-append xs (c ∷ ys), length-append xs ys);
  bounded = omega (arith, v.bounded);
  accounted = λ d. omega (arith, v.accounted d, count_middle d c xs ys, count-nil d);
  used = λ d h. elim (Bool-cases (d == c)) [
    | inl e ↦ absurd (
        omega
          (arith, h, v.accounted d, count_middle d c xs ys, count_same c d e, made-le ch.conn_id d))
    | inr e ↦ rw e (v.used d (omega (arith, h, count_middle d c xs ys)))
  ];
  parked = λ d h. elim (Bool-cases (d == c)) [ inl e ↦ rw e refl | inr e ↦ rw e (v.parked d h) ];
  finished = v.finished;
  once = v.once;
}

put-Inv :
    (t : Transport ℕ) (clock : ℕ → ℕ) {ch : Clickhouse} (c : ℕ) {users items failed : List ℕ}
    → ch.closed ≡ false
    → ch.released c ≡ true
    → Inv ch 0 (c ∷ []) users items failed
    → (idle : ConnPool ℕ) × (items' : List ℕ) × (put nil t clock ch.idle c ≡ some idle)
      × Inv (record ch { idle = idle }) 0 [] users items' failed
put-Inv t clock {ch} c {users} {items} on marked v =
    let (idle, e, rep, closed, fin) = put-Idle nil t clock ch.idle items c v.idle in
    let counted : (d : ℕ)
        → count d (put_result nil t clock ch.idle items c).0
            + count d (put_result nil t clock ch.idle items c).1
          ≡ count d items + count d ch.idle.closed_conns + count d (c ∷ []) =
      λ d. (count-spec_put _ _ _ _ items ch.idle.closed_conns c d (v.finished ∙ on)).0 in
    let fewer : (d : ℕ)
        → count d (put_result nil t clock ch.idle items c).0 ≤ count d items + count d (c ∷ []) =
      λ d. (count-spec_put _ _ _ _ items ch.idle.closed_conns c d (v.finished ∙ on)).1 in
    (
      idle,
      (put_result nil t clock ch.idle items c).0,
      e,
      record {
        idle = rep;
        tokens = v.tokens;
        bounded = v.bounded;
        accounted = λ d. omega (arith, v.accounted d, counted d, ap (count d) closed, count-nil d);
        used = v.used;
        parked = λ d h. elim (Bool-cases (d == c)) [
          | inl e ↦ ap ch.released ((==_iff d c).0 e) ∙ marked
          | inr e ↦ v.parked d (omega (arith, h, fewer d, count_other c d e))
        ];
        finished = fin ∙ v.finished;
        once = v.once;
      },
    )

marked-close_transport :
    (ch : Clickhouse) (c : ℕ) → ch.released c ≡ true → (close_transport ch c).released c ≡ true
unfolding close_transport
marked-close_transport ch c h = h

put_back-Inv :
    (t : Transport ℕ) (clock : ℕ → ℕ) {ch : Clickhouse} (c : ℕ) {users items failed : List ℕ}
    → ch.released c ≡ true
    → Inv ch 0 (c ∷ []) users items failed
    → (ch' : Clickhouse) × (items' : List ℕ) × (put_back t clock ch c ≡ some ch')
      × Inv ch' 0 [] users items' failed
      × (ch'.released c ≡ true)
unfolding put_back
put_back-Inv t clock {ch} c {users} {items} marked v =
    let branch : Bool → Option Clickhouse = λ b.
      if b
      then some (close_transport ch c)
      else (do idle ← put nil t clock ch.idle c; some (record ch { idle = idle })) in
    elim (Bool-cases ch.closed) [
      | inl over ↦
          (_, items, ap branch over, close_transport-Inv c v, marked-close_transport ch c marked)
      | inr on ↦
          let (idle, items', e, v') = put-Inv t clock c on marked v in
          (record ch { idle = idle }, items', ap branch on ∙ simp e, v', marked)
    ]

marked-set_released :
    (ch : Clickhouse) (c : ℕ) → (take_token (set_released ch c true)).released c ≡ true
unfolding take_token set_released
marked-set_released ch c = ground arith

release-marked :
    (t : Transport ℕ) (clock : ℕ → ℕ) (bad : Bool) (ch : Clickhouse) (c : ℕ)
    → ch.released c ≡ true
    → release t clock bad ch c ≡ some ch
unfolding release
release-marked t clock bad ch c h = simp h

-- release of a connection by its user ends, and keeps every connection accounted for: it is idle
-- or closed afterwards, never both and never lost. A second release of it does nothing.
pub release-Inv :
    (t : Transport ℕ) (clock : ℕ → ℕ) (bad : Bool) (ch : Clickhouse) (xs : List ℕ) (c : ℕ)
    (ys items failed : List ℕ)
    → Inv ch 0 [] (xs ++ c ∷ ys) items failed
    → (ch' : Clickhouse) × (items' : List ℕ) × (release t clock bad ch c ≡ some ch')
      × Inv ch' 0 [] (xs ++ ys) items' failed
      × ((bad' : Bool) → release t clock bad' ch' c ≡ some ch')
unfolding release
release-Inv t clock bad ch xs c ys items failed v =
    let marked = marked-set_released ch c in
    let closed_marked = marked-close_transport (take_token (set_released ch c true)) c marked in
    let v1 = give_back-Inv xs c ys v in
    let v2 = close_transport-Inv c v1 in
    let mine : ch.released c ≡ false =
      v.used c (omega (arith, count_middle c c xs ys, count_self c)) in
    elim (Bool-cases bad) [
      | inl faulty ↦
          (_, items, simp (mine, faulty), v2, λ b. release-marked t clock b _ c closed_marked)
      | inr well ↦ elim (Bool-cases (leb (t.connected_at c + ch.conn_max_lifetime) (clock c))) [
        | inl old ↦
            (_, items, simp (mine, well, old), v2, λ b. release-marked t clock b _ c closed_marked)
        | inr young ↦
            let (ch', items', e, v3, m) = put_back-Inv t clock c marked v1 in
            (ch', items', simp (mine, well, young) e, v3, λ b. release-marked t clock b ch' c m)
      ]
    ]

-- Close leaves no idle connection, closes those that were, and keeps the invariant.
pub close-Inv :
    (t : Transport ℕ) (clock : ℕ → ℕ) (ch : Clickhouse) (users items failed : List ℕ)
    → Inv ch 0 [] users items failed
    → (ch' : Clickhouse) × (items' : List ℕ) × (close t clock ch ≡ some ch')
      × Inv ch' 0 [] users items' failed
      × (ch'.closed ≡ true)
unfolding close
close-Inv t clock ch users items failed v = elim (Bool-cases ch.closed) [
  | inl over ↦ (ch, items, ap (once ch) (v.once ∙ over), v, over)
  | inr on ↦
      let (idle, e, rep, closed, fin, _) =
        close-Idle nil t clock ch.idle items (v.finished ∙ on) v.idle in
      (
        record ch { idle = idle; close_once = true; closed = true },
        [],
        ap (once ch) (v.once ∙ on) ∙ simp e,
        record {
          idle = rep;
          tokens = v.tokens;
          bounded = v.bounded;
          accounted = λ d. rw closed (
              omega (arith, v.accounted d, count-append d ch.idle.closed_conns items, count-nil d));
          used = v.used;
          parked = λ d h. absurd (omega (arith, h, count-nil d));
          finished = fin;
          once = refl;
        },
        refl,
      )
]
  where
    once : Clickhouse → Bool → Option Clickhouse
    once ch b = if b then some ch else (do
      idle ← Pool.close nil t clock ch.idle
      some (record ch { idle = idle; close_once = true; closed = true }))

-- A tick of the ticker: the drain of the pool of an open client keeps the invariant.
pub drain-Inv :
    (t : Transport ℕ) (clock : ℕ → ℕ) (ch : Clickhouse) (users items failed : List ℕ)
    → ch.closed ≡ false
    → Inv ch 0 [] users items failed
    → (idle : ConnPool ℕ) × (items' : List ℕ) × (drain_pool nil t clock ch.idle ≡ some idle)
      × Inv (record ch { idle = idle }) 0 [] users items' failed
drain-Inv t clock ch users items failed on v =
    let late = is_expired nil t clock ch.idle in
    let (idle, e, rep, closed, fin) =
      drain_pool-Idle nil t clock ch.idle items (v.finished ∙ on) v.idle in
    (
      idle,
      keep_if (λ c. not (late c)) items,
      e,
      record {
        idle = rep;
        tokens = v.tokens;
        bounded = v.bounded;
        accounted = λ d. rw closed (
            omega (
              arith,
              v.accounted d,
              count-append d ch.idle.closed_conns (keep_if late items),
              count-keep_if d late items,
            ));
        used = v.used;
        parked = λ d h. v.parked d (omega (arith, h, count-keep_if d late items));
        finished = fin ∙ v.finished;
        once = v.once;
      },
    )
