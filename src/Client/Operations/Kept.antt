-- ===== src/Client/Operations/Kept.antt =====
-- clickhouse.go: the operations of the client give back the connection that they acquire, and
-- PrepareBatch where it does not.
use mathlib.Core.List.{append-nil}
use mathlib.Core.Path.{subst}
use mathlib.Core.Option.{some-injective}
use clickhouse_go.Common.{
  ℕ, Bool, true, false, List, [], ◌∷◌, ◌++◌, Option, none, some, inl, inr, ◌>>=◌, ◌≡◌, refl, sym,
  ap, ◌∙◌, arith, length, length-append, count_middle, ◌+◌,
}
use clickhouse_go.Client.{
  Clickhouse, Acquired, conn, closed_error, context_error, dial_error, blocked, Surroundings,
  acquire,
}
use clickhouse_go.Client.Counts.{Inv, count_self}
use clickhouse_go.Client.Acquire.{handed_out, failed_dial, acquire-Inv}
use clickhouse_go.Client.Release.{release-Inv}
use clickhouse_go.Client.Operations.{
  Outcome, not_acquired, answered, Preparing, prepare_query, NativeTransport, native_transport,
  prepare_batch, release_with, release_all, run_call, with_conn, ping, async_insert, exec,
  server_version, query, prepare,
}
use clickhouse_go.Native.{ConnError, Waiting}
use clickhouse_go.Native.Calls.{Serving}
use clickhouse_go.Native.Answers.{query-ReleasedOnce}
use clickhouse_go.Pool.{Transport}

-- The connID of a dial whose error an operation answers.
abbrev pub failed_in {ℓ} : {A : Type ℓ} → Clickhouse → Outcome A → List ℕ
failed_in ch (not_acquired a) = failed_dial ch a
failed_in ch (answered x) = []

-- An operation answers, and the client's invariant holds behind it with these users, and with no
-- connID written off but that of a dial whose error it answers.
abbrev pub Keeps {ℓ} : {A : Type ℓ} → List ℕ → List ℕ → Option (Clickhouse × Outcome A) → Type ℓ
Keeps {A = A} users failed r =
    (ch' : Clickhouse) × (o : Outcome A) × (items : List ℕ) × (r ≡ some (ch', o))
    × Inv ch' 0 [] users items (failed ++ failed_in ch' o)

-- A call releases its connection once.
abbrev pub ReleasesOnce : {A E : Type 0} → A × List (Option E) → Type 0
ReleasesOnce {E = E} r = (e : Option E) × (r.1 ≡ e ∷ [])

module _ {E : Type 0} (t : Transport ℕ) (clock : ℕ → ℕ) where
  release_with-Inv :
      (ch : Clickhouse) (users : List ℕ) (c : ℕ) (items failed : List ℕ) (e : Option E)
      → Inv ch 0 [] (users ++ c ∷ []) items failed
      → (ch' : Clickhouse) × (items' : List ℕ) × (release_with t clock ch c e ≡ some ch')
        × Inv ch' 0 [] (users ++ []) items' failed
  unfolding release_with
  release_with-Inv ch users c items failed (some e) v =
      let (ch', items', k, v', _) = release-Inv t clock true ch users c [] items failed v in
      (ch', items', k, v')
  release_with-Inv ch users c items failed none v =
      let (ch', items', k, v', _) = release-Inv t clock false ch users c [] items failed v in
      (ch', items', k, v')

module _ {A E : Type 0} (t : Transport ℕ) (clock : ℕ → ℕ) (call : ℕ → A × List (Option E)) where
  -- The rest of an operation that got no connection.
  refused_Keeps :
      (ch : Clickhouse) (a : Acquired) (users items failed : List ℕ)
      → run_call t clock call (ch, a) ≡ some (ch, not_acquired a)
      → Inv ch 0 [] (users ++ []) items (failed ++ failed_dial ch a)
      → Keeps users failed (run_call t clock call (ch, a))
  refused_Keeps ch a users items failed e v =
      (ch, not_acquired a, items, e, rw (append-nil users) at v)

  run_call-Keeps :
      (ch : Clickhouse) (a : Acquired) (users items failed : List ℕ)
      → ((c : ℕ) → ReleasesOnce (call c))
      → Inv ch 0 [] (users ++ handed_out a) items (failed ++ failed_dial ch a)
      → Keeps users failed (run_call t clock call (ch, a))
  unfolding run_call release_all
  run_call-Keeps ch (conn c) users items failed once v =
      let (e, k) = once c in
      let (ch', items', r, v') = release_with-Inv t clock ch users c items (failed ++ []) e v in
      (
        ch',
        answered (call c).0,
        items',
        ap (λ es. release_all t clock ch c es >>= λ d. some (d, answered (call c).0)) k
            ∙ ap (λ o. (o >>= λ d. some d) >>= λ d. some (d, answered (call c).0)) r,
        rw (append-nil users) at v',
      )
  run_call-Keeps ch closed_error users items failed once v =
      refused_Keeps ch closed_error users items failed refl v
  run_call-Keeps ch context_error users items failed once v =
      refused_Keeps ch context_error users items failed refl v
  run_call-Keeps ch dial_error users items failed once v =
      refused_Keeps ch dial_error users items failed refl v
  run_call-Keeps ch blocked users items failed once v =
      refused_Keeps ch blocked users items failed refl v

  pub with_conn-Keeps :
      (s : Surroundings) (ch : Clickhouse) (users items failed : List ℕ)
      → ((c : ℕ) → ReleasesOnce (call c))
      → Inv ch 0 [] users items failed
      → Keeps users failed (with_conn t clock s call ch)
  unfolding with_conn
  with_conn-Keeps s ch users items failed once v =
      let (ch1, a, left, e, v1) = acquire-Inv t clock s ch v in
      let (ch2, o, items', k, v2) = run_call-Keeps ch1 a users left failed once v1 in
      (ch2, o, items', ap (λ r. r >>= run_call t clock call) e ∙ k, v2)

module _ {Block E : Type 0} (rows : Block → ℕ) (w1 w2 : Waiting Block E)
    (serving : ℕ → Serving Block E) (preparing : ℕ → Preparing (ConnError E)) where
  native_query-ReleasesOnce :
      (c : ℕ) → ReleasesOnce ((native_transport rows w1 w2 serving preparing).query c)
  native_query-ReleasesOnce c = elim (query-ReleasedOnce rows false w1 w2 (serving c)) [
    | inl (e, _, k) ↦ (some e, k)
    | inr (r, _, k) ↦ (r.error, k)
  ]

  -- Ping, AsyncInsert, Exec with and without the asynchronous option, ServerVersion, and Query with its
  -- goroutine, over native connections: each answers, whatever acquire and the server do, and keeps
  -- the client's invariant with the users as they were, so the connection that it took is given back,
  -- and with no connID written off but that of a dial whose error it answers.
  pub operations-Keeps :
      (t : Transport ℕ) (clock : ℕ → ℕ) (s : Surroundings) (ch : Clickhouse)
      (users items failed : List ℕ)
      → Inv ch 0 [] users items failed
      → let n = native_transport rows w1 w2 serving preparing in
        Keeps users failed (ping t clock n s ch)
        × ((wait : Bool) → Keeps users failed (async_insert t clock n s wait ch))
        × ((async : Option Bool) → Keeps users failed (exec t clock n s async ch))
        × Keeps users failed (server_version t clock n s ch)
        × Keeps users failed (query t clock n s ch)
  unfolding ping async_insert exec server_version query
  operations-Keeps t clock s ch users items failed v =
      let n = native_transport rows w1 w2 serving preparing in
      let inserting : (wait : Bool) → Keeps users failed (async_insert t clock n s wait ch) =
        λ wait.
          with_conn-Keeps t clock _ s ch users items failed (λ c. (n.async_insert wait c, refl))
            v in
      (
        with_conn-Keeps t clock _ s ch users items failed (λ c. (n.ping c, refl)) v,
        inserting,
        λ async. elim async as (λ async. Keeps users failed (exec t clock n s async ch)) [
          | some wait ↦ inserting wait
          | none ↦ with_conn-Keeps t clock _ s ch users items failed (λ c. (n.exec c, refl)) v
        ],
        with_conn-Keeps {E = ConnError E} t clock _ s ch users items failed (λ c. (none, refl)) v,
        with_conn-Keeps t clock _ s ch users items failed native_query-ReleasesOnce v,
      )

module _ {Rows E : Type 0} (t : Transport ℕ) (clock : ℕ → ℕ) (n : NativeTransport Rows E) where
  -- PrepareBatch of a query that is no INSERT answers the error, and the connection that it has
  -- acquired is not given back: its token stays in the semaphore, and no one has it to release it.
  pub prepare-leaks :
      (s : Surroundings) (ch ch1 : Clickhouse) (c : ℕ) (e : E) (users items failed : List ℕ)
      → Inv ch 0 [] users items failed
      → acquire t clock s ch ≡ some (ch1, conn c)
      → (n.preparing c).query ≡ some e
      → (prepare t clock n s ch ≡ some (ch1, answered (some e)))
        × (ch1.opened ≡ length users + 1)
        × (ch1.released c ≡ false)
  unfolding prepare with_conn run_call release_all prepare_batch
  prepare-leaks s ch ch1 c e users items failed v a bad =
      let (ch', a', left, e', v') = acquire-Inv t clock s ch v in
      let same : (ch', a') ≡ (ch1, conn c) = some-injective (ch', a') (ch1, conn c) (sym e' ∙ a) in
      let v1 : Inv ch1 0 [] (users ++ c ∷ []) left (failed ++ []) =
        subst (λ p. Inv p.0 0 [] (users ++ handed_out p.1) left (failed ++ failed_dial p.0 p.1))
          same v' in
      (
        ap (λ r. r >>= run_call t clock (λ d. prepare_batch (n.preparing d))) a
            ∙ ap
                (λ q.
                  (let (answer, releases) = prepare_query (n.preparing c) q in
                    release_all t clock ch1 c releases >>= λ d. some (d, answered answer)))
                bad,
        omega (arith, v1.tokens, length-append users (c ∷ [])),
        v1.used c (omega (arith, count_middle c c users [], count_self c)),
      )
