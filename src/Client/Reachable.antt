-- ===== src/Client/Reachable.antt =====
-- clickhouse.go: the histories of a client, with the connections that its users hold. Users give
-- back only what they hold; a client's drain runs until Close.
use mathlib.Core.Path.{subst}
use mathlib.Core.Option.{some-injective}
use clickhouse_go.Common.{
  ℕ, ◌+◌, ◌≤◌, Bool, false, List, [], ◌∷◌, ◌++◌, some, ◌≡◌, refl, sym, ◌∙◌, arith, count, length,
}
use clickhouse_go.Circular.Laws.{new-Represents}
use clickhouse_go.Pool.{ConnPool, Transport, drain_pool}
use clickhouse_go.Pool.Laws.{Idle}
use clickhouse_go.Client.{
  Clickhouse, Acquired, Surroundings, nil, stats, open_client, acquire, release, close,
}
use clickhouse_go.Client.Counts.{Inv, made, made-zero, count-nil}
use clickhouse_go.Client.Acquire.{handed_out, failed_dial, acquire-Inv}
use clickhouse_go.Client.Release.{release-Inv, close-Inv, drain-Inv}

-- A client, the connections that its users hold, and the connIDs of the dials that failed.
pub data Reach (max_open max_idle lifetime : ℕ) : Clickhouse → List ℕ → List ℕ → Type 0 where
  opened : Reach max_open max_idle lifetime (open_client max_open max_idle lifetime) [] []
  acquired :
      {ch ch' : Clickhouse} {users dials : List ℕ} {a : Acquired} (t : Transport ℕ) (clock : ℕ → ℕ)
      (s : Surroundings)
      → Reach max_open max_idle lifetime ch users dials
      → acquire t clock s ch ≡ some (ch', a)
      → Reach max_open max_idle lifetime ch' (users ++ handed_out a) (dials ++ failed_dial ch' a)
  released :
      {ch ch' : Clickhouse} {dials : List ℕ} (xs : List ℕ) (c : ℕ) (ys : List ℕ) (t : Transport ℕ)
      (clock : ℕ → ℕ) (failed : Bool)
      → Reach max_open max_idle lifetime ch (xs ++ c ∷ ys) dials
      → release t clock failed ch c ≡ some ch'
      → Reach max_open max_idle lifetime ch' (xs ++ ys) dials
  closed :
      {ch ch' : Clickhouse} {users dials : List ℕ} (t : Transport ℕ) (clock : ℕ → ℕ)
      → Reach max_open max_idle lifetime ch users dials
      → close t clock ch ≡ some ch'
      → Reach max_open max_idle lifetime ch' users dials
  drained :
      {ch : Clickhouse} {idle : ConnPool ℕ} {users dials : List ℕ} (t : Transport ℕ) (clock : ℕ → ℕ)
      → Reach max_open max_idle lifetime ch users dials
      → ch.closed ≡ false
      → drain_pool nil t clock ch.idle ≡ some idle
      → Reach max_open max_idle lifetime (record ch { idle = idle }) users dials

-- Some idle connections make the invariant true.
abbrev Accounted : Clickhouse → List ℕ → List ℕ → Type 0
Accounted ch users dials = (items : List ℕ) × Inv ch 0 [] users items dials

pub open_client-Inv :
    (max_open max_idle lifetime : ℕ) → Inv (open_client max_open max_idle lifetime) 0 [] [] [] []
unfolding open_client
open_client-Inv max_open max_idle lifetime = record {
  idle = new-Represents nil max_idle;
  tokens = refl;
  bounded = omega arith;
  accounted = λ c. omega (arith, made-zero c, count-nil c);
  used = λ c h. absurd (omega (arith, h, count-nil c));
  parked = λ c h. absurd (omega (arith, h, count-nil c));
  finished = refl;
  once = refl;
}

Reach-Inv :
    {max_open max_idle lifetime : ℕ} {ch : Clickhouse} {users dials : List ℕ}
    → Reach max_open max_idle lifetime ch users dials
    → Accounted ch users dials
Reach-Inv {max_open} {max_idle} {lifetime} opened = ([], open_client-Inv max_open max_idle lifetime)
Reach-Inv (acquired {users = users} {dials = dials} t clock s r e) =
    let (_, v) = Reach-Inv r in
    let (ch1, a1, left, e', v') = acquire-Inv t clock s _ v in
    subst (λ p. Accounted p.0 (users ++ handed_out p.1) (dials ++ failed_dial p.0 p.1))
      (some-injective _ _ (sym e' ∙ e)) (left, v')
Reach-Inv (released {dials = dials} xs c ys t clock bad r e) =
    let (items, v) = Reach-Inv r in
    let (ch1, items', e', v', _) = release-Inv t clock bad _ xs c ys items dials v in
    subst (λ p. Accounted p (xs ++ ys) dials) (some-injective _ _ (sym e' ∙ e)) (items', v')
Reach-Inv (closed {users = users} {dials = dials} t clock r e) =
    let (items, v) = Reach-Inv r in
    let (ch1, items', e', v', _) = close-Inv t clock _ users items dials v in
    subst (λ p. Accounted p users dials) (some-injective _ _ (sym e' ∙ e)) (items', v')
Reach-Inv (drained {ch} {users = users} {dials = dials} t clock r on e) =
    let (items, v) = Reach-Inv r in
    let (idle, items', e', v') = drain-Inv t clock ch users items dials on v in
    subst (λ p. Accounted (record ch { idle = p }) users dials) (some-injective _ _ (sym e' ∙ e))
      (items', v')

-- After every history of acquire, release, Close and drains: the semaphore holds one token for each
-- connection that is handed out and never more than it may, and each connID that was ever given is
-- in one place only, once: handed out, idle in the pool, closed, or given to a dial whose error an
-- acquire of the history answered.
pub Reach-accounted :
    {max_open max_idle lifetime : ℕ} {ch : Clickhouse} {users dials : List ℕ}
    → Reach max_open max_idle lifetime ch users dials
    → (items : List ℕ) × Idle nil ch.idle items
      × ((stats ch).opened ≡ length users)
      × ((stats ch).opened ≤ (stats ch).max_open_conns)
      × ((stats ch).idle ≡ length items)
      × ((c : ℕ)
          → count c users + count c items + count c ch.idle.closed_conns + count c dials
            ≡ made ch.conn_id c)
unfolding stats
Reach-accounted r =
    let (items, v) = Reach-Inv r in
    (
      items,
      v.idle,
      omega (arith, v.tokens),
      v.bounded,
      v.idle.len_is,
      λ c. omega (arith, v.accounted c, count-nil c),
    )
