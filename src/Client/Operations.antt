-- ===== src/Client/Operations.antt =====
-- clickhouse.go: ServerVersion, Query, Exec, AsyncInsert, Ping and PrepareBatch, and the head of
-- prepareBatch in conn_batch.go. What a connection's calls answer is a record of functions of the
-- connID. Query is followed to the end of its goroutine.
pub mod Kept
mod Tests
use clickhouse_go.Common.{ℕ, Bool, true, false, List, [], ◌∷◌, Option, none, some, ◌⊎◌, ◌>>=◌}
use clickhouse_go.Client.{
  Clickhouse, Acquired, conn, closed_error, context_error, dial_error, blocked, Surroundings,
  acquire, release,
}
use clickhouse_go.Native.{ConnError, Waiting}
use clickhouse_go.Native.Calls.{Serving, Result, Queried, first_error}
use clickhouse_go.Native.Calls
use clickhouse_go.Pool.{Transport}

-- What a call answers: it got no connection, or the answer of the connection.
pub data Outcome {ℓ} (A : Type ℓ) : Type ℓ where
  not_acquired : Acquired → Outcome A
  answered : A → Outcome A

-- The errors that prepareBatch meets, in their order: of the query's text, of sendQuery, of
-- firstBlock, of SortColumns.
pub record Preparing (E : Type 0) : Type 0 where
  pub query : Option E
  pub send : Option E
  pub first_block : Option E
  pub sort : Option E

-- The calls of a connection: `query` with all its releases.
pub record NativeTransport (Rows E : Type 0) : Type 0 where
  pub exec : ℕ → Option E
  pub async_insert : Bool → ℕ → Option E
  pub ping : ℕ → Option E
  pub query : ℕ → (Rows ⊎ E) × List (Option E)
  pub preparing : ℕ → Preparing E

-- The native connection, where each meets a `Serving`.
abbrev pub native_transport :
    {Block E : Type 0}
    → (Block → ℕ)
    → Waiting Block E
    → Waiting Block E
    → (ℕ → Serving Block E)
    → (ℕ → Preparing (ConnError E))
    → NativeTransport (Result Block E) (ConnError E)
native_transport rows w1 w2 serving preparing = record {
  exec = λ c. Calls.exec rows false w1 (serving c);
  async_insert = λ wait c. Calls.async_insert rows false true w1 (serving c);
  ping = λ c. Calls.ping none (serving c).over (serving c).frames;
  query = λ c. (let q = Calls.query rows false w1 w2 (serving c) in (q.result, q.releases));
  preparing = preparing;
}

-- The steps of prepareBatch behind the parsing, each with its release.
abbrev pub released_error : {E : Type 0} → Option E → Option E × List (Option E)
released_error none = (none, [])
released_error (some e) = (some e, some e ∷ [])

-- prepareBatch by the error of the query's text, which returns before anything is released.
unfoldable pub prepare_query : {E : Type 0} → Preparing E → Option E → Option E × List (Option E)
prepare_query p (some e) = (some e, [])
prepare_query p none = released_error (first_error p.send (first_error p.first_block p.sort))

-- prepareBatch without opts.ReleaseConnection: its error, and its calls of release.
unfoldable pub prepare_batch : {E : Type 0} → Preparing E → Option E × List (Option E)
unfolding prepare_query
prepare_batch p = prepare_query p p.query

module _ {E : Type 0} (t : Transport ℕ) (clock : ℕ → ℕ) where
  -- `if err != nil { ch.release(conn, err); return err }; ch.release(conn, nil); return nil`
  unfoldable pub release_with : Clickhouse → ℕ → Option E → Option Clickhouse
  unfolding release
  release_with ch c (some e) = release t clock true ch c
  release_with ch c none = release t clock false ch c

  unfoldable pub release_all : Clickhouse → ℕ → List (Option E) → Option Clickhouse
  unfolding release_with
  release_all ch c [] = some ch
  release_all ch c (e ∷ es) = do ch' ← release_with ch c e; release_all ch' c es

module _ {A E : Type 0} (t : Transport ℕ) (clock : ℕ → ℕ) where
  -- A call behind acquire: what it answers, and its calls of release.
  unfoldable pub run_call :
      (ℕ → A × List (Option E)) → Clickhouse × Acquired → Option (Clickhouse × Outcome A)
  unfolding release_all
  run_call call (ch, conn c) = do
    let (answer, releases) = call c
    ch' ← release_all t clock ch c releases
    some (ch', answered answer)
  run_call call (ch, closed_error) = some (ch, not_acquired closed_error)
  run_call call (ch, context_error) = some (ch, not_acquired context_error)
  run_call call (ch, dial_error) = some (ch, not_acquired dial_error)
  run_call call (ch, blocked) = some (ch, not_acquired blocked)

  -- `conn, err := ch.acquire(ctx); if err != nil { return err }; …`
  unfoldable pub with_conn :
      Surroundings → (ℕ → A × List (Option E)) → Clickhouse → Option (Clickhouse × Outcome A)
  unfolding acquire run_call
  with_conn s call ch = do r ← acquire t clock s ch; run_call call r

module _ {Rows E : Type 0} (t : Transport ℕ) (clock : ℕ → ℕ) (n : NativeTransport Rows E) where
  unfoldable pub ping : Surroundings → Clickhouse → Option (Clickhouse × Outcome (Option E))
  unfolding with_conn
  ping s ch = with_conn t clock s (λ c. (n.ping c, n.ping c ∷ [])) ch

  unfoldable pub async_insert :
      Surroundings → (wait : Bool) → Clickhouse → Option (Clickhouse × Outcome (Option E))
  unfolding with_conn
  async_insert s wait ch =
      with_conn t clock s (λ c. (n.async_insert wait c, n.async_insert wait c ∷ [])) ch

  -- Exec, where `async` is the wait of the context's asynchronous option.
  unfoldable pub exec :
      Surroundings → (async : Option Bool) → Clickhouse → Option (Clickhouse × Outcome (Option E))
  unfolding with_conn async_insert
  exec s (some wait) ch = async_insert s wait ch
  exec s none ch = with_conn t clock s (λ c. (n.exec c, n.exec c ∷ [])) ch

  -- ServerVersion releases without an error.
  unfoldable pub server_version :
      Surroundings → Clickhouse → Option (Clickhouse × Outcome (Option E))
  unfolding with_conn
  server_version s ch = with_conn {E = E} t clock s (λ c. (none, none ∷ [])) ch

  unfoldable pub query : Surroundings → Clickhouse → Option (Clickhouse × Outcome (Rows ⊎ E))
  unfolding with_conn
  query s ch = with_conn t clock s n.query ch

  unfoldable pub prepare : Surroundings → Clickhouse → Option (Clickhouse × Outcome (Option E))
  unfolding with_conn prepare_batch
  prepare s ch = with_conn t clock s (λ c. prepare_batch (n.preparing c)) ch
