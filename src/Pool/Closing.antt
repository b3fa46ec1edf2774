-- ===== src/Pool/Closing.antt =====
-- conn_pool.go: Close and the draining goroutine runDrainPool as two threads over the mutex and the
-- two channels. A step is one operation on them; the ticker may fire at any time.
use clickhouse_go.Common.{Bool, true, false, ◌≡◌, ◌≢◌, refl, ◌⊎◌, inl, inr, arith}

-- Where Close stands: before the lock, behind it, waiting on `finished`, behind the unlock.
pub data Closer : Type 0 where
  start inside waiting done : Closer

-- Where runDrainPool stands: at its select, before the lock after a tick, behind it, returned.
pub data Drainer : Type 0 where
  selecting ticked draining stopped : Drainer

pub record State : Type 0 where
  pub closer : Closer
  pub drainer : Drainer
  pub locked : Bool
  pub finish : Bool
  pub finished : Bool

pub data Step : State → State → Type 0 where
  close_lock :
      {s : State}
      → s.closer ≡ start
      → s.locked ≡ false
      → Step s (record s { closer = inside; locked = true })
  close_again :
      {s : State}
      → s.closer ≡ inside
      → s.finished ≡ true
      → Step s (record s { closer = done; locked = false })
  close_signal :
      {s : State}
      → s.closer ≡ inside
      → s.finished ≡ false
      → Step s (record s { closer = waiting; finish = true })
  close_drain :
      {s : State}
      → s.closer ≡ waiting
      → s.finished ≡ true
      → Step s (record s { closer = done; locked = false })
  tick : {s : State} → s.drainer ≡ selecting → Step s (record s { drainer = ticked })
  drain_lock :
      {s : State}
      → s.drainer ≡ ticked
      → s.locked ≡ false
      → Step s (record s { drainer = draining; locked = true })
  drain_unlock :
      {s : State} → s.drainer ≡ draining → Step s (record s { drainer = selecting; locked = false })
  stop :
      {s : State}
      → s.drainer ≡ selecting
      → s.finish ≡ true
      → Step s (record s { drainer = stopped; finished = true })

pub data Reach (s : State) : State → Type 0 where
  here : Reach s s
  next : {t u : State} → Reach s t → Step t u → Reach s u

-- After newConnPool: the goroutine runs, nobody has called Close.
abbrev pub initial : State
initial = record {
  closer = start;
  drainer = selecting;
  locked = false;
  finish = false;
  finished = false;
}

-- Close holds the mutex and waits for the goroutine, and the goroutine waits for the mutex.
pub record IsBlocked (s : State) : Type 0 where
  pub closer_waits : s.closer ≡ waiting
  pub drainer_waits : s.drainer ≡ ticked
  pub held : s.locked ≡ true
  pub not_finished : s.finished ≡ false

abbrev InSection : State → Type 0
InSection s = (s.closer ≡ inside) ⊎ (s.closer ≡ waiting)

-- What holds in every reachable state: the mutex is held by one thread at a time, and `finished` is
-- closed exactly when the goroutine has returned.
pub record Inv (s : State) : Type 0 where
  pub exclusive :
      s.drainer ≡ draining → (s.closer ≢ inside) × (s.closer ≢ waiting) × (s.locked ≡ true)
  pub closer_locks : (s.closer ≡ inside) ⊎ (s.closer ≡ waiting) → s.locked ≡ true
  pub unlocked :
      s.locked ≡ true → (s.drainer ≡ draining) ⊎ (s.closer ≡ inside) ⊎ (s.closer ≡ waiting)
  pub stopped_finished : s.drainer ≡ stopped → s.finished ≡ true
  pub finished_stopped : s.finished ≡ true → s.drainer ≡ stopped
  pub done_finished : s.closer ≡ done → s.finished ≡ true
  pub waiting_finish : s.closer ≡ waiting → s.finish ≡ true

Step-Inv : {s t : State} → Step s t → Inv s → Inv t
Step-Inv (close_lock a b) v = ground arith
Step-Inv (close_again a b) v = ground arith
Step-Inv (close_signal a b) v = ground arith
Step-Inv (close_drain a b) v = ground arith
Step-Inv (tick a) v = ground arith
Step-Inv (drain_lock a b) v = ground arith
Step-Inv (drain_unlock a) v = ground arith
Step-Inv (stop a b) v = ground arith

Reach-Inv : {s : State} → Reach initial s → Inv s
Reach-Inv here = record {
  exclusive = λ e. cc;
  closer_locks = ground arith;
  unlocked = λ e. cc;
  stopped_finished = λ e. cc;
  finished_stopped = λ e. cc;
  done_finished = λ e. cc;
  waiting_finish = λ e. cc;
}
Reach-Inv (next r st) = Step-Inv st (Reach-Inv r)

-- The mutex excludes: the goroutine never drains while Close is behind its lock, and Close returns
-- only after the goroutine has.
pub Reach-exclusive :
    {s : State}
    → Reach initial s
    → (s.drainer ≡ draining → (s.closer ≢ inside) × (s.closer ≢ waiting))
      × (s.closer ≡ done → s.drainer ≡ stopped)
Reach-exclusive r =
    let v = Reach-Inv r in
    ((λ e. ((v.exclusive e).0, (v.exclusive e).1)), λ e. v.finished_stopped (v.done_finished e))

then_also : {s t u : State} → Reach s t → Reach t u → Reach s u
then_also r here = r
then_also r (next k st) = next (then_also r k) st

-- A run in which Close and the goroutine both return.
abbrev pub Returns : State → Type 0
Returns s = (t : State) × Reach s t × (t.closer ≡ done) × (t.drainer ≡ stopped)

first_step : {s t : State} → Step s t → Returns t → Returns s
first_step st (u, r, c, d) = (u, then_also (next here st) r, c, d)

-- The goroutine took a tick, and Close the mutex before it.
abbrev pub Overtaken : State → Type 0
Overtaken s = (s.drainer ≡ ticked) × InSection s

Returns-waiting :
    (s : State) → s.closer ≡ waiting → s.finish ≡ true → s.drainer ≡ selecting → Returns s
Returns-waiting s c f d = first_step (stop d f) (_, next here (close_drain c refl), refl, refl)

-- Behind a stop Close finds `finished` closed.
Returns-stopped : (s : State) (c : Closer) → Inv s → s.closer ≡ c → s.drainer ≡ stopped → Returns s
Returns-stopped s start v e d =
    let f = v.stopped_finished d in
    first_step (close_lock e (ground arith)) (_, next here (close_again refl f), refl, d)
Returns-stopped s inside v e d = (_, next here (close_again e (v.stopped_finished d)), refl, d)
Returns-stopped s waiting v e d = (_, next here (close_drain e (v.stopped_finished d)), refl, d)
Returns-stopped s done v e d = (s, here, e, d)

Returns-selecting :
    (s : State) (c : Closer) → Inv s → s.closer ≡ c → s.drainer ≡ selecting → Returns s
Returns-selecting s start v e d =
    let f : s.finished ≡ false = ground arith in
    first_step (close_lock e (ground arith))
      (first_step (close_signal refl f) (Returns-waiting _ refl refl d))
Returns-selecting s inside v e d =
    first_step (close_signal e (ground arith)) (Returns-waiting _ refl refl d)
Returns-selecting s waiting v e d = Returns-waiting s e (v.waiting_finish e) d
Returns-selecting s done v e d = absurd (ground arith)

Returns-draining : (s : State) → Inv s → s.drainer ≡ draining → Returns s
Returns-draining s v d =
    first_step (drain_unlock d)
      (Returns-selecting _ s.closer (Step-Inv (drain_unlock d) v) refl refl)

Returns-ticked :
    (s : State) (c : Closer) → Inv s → s.closer ≡ c → s.drainer ≡ ticked → Returns s ⊎ Overtaken s
Returns-ticked s start v e d =
    let st = drain_lock d (ground arith) in
    inl (first_step st (Returns-draining _ (Step-Inv st v) refl))
Returns-ticked s inside v e d = inr (d, inl e)
Returns-ticked s waiting v e d = inr (d, inr e)
Returns-ticked s done v e d = absurd (ground arith)

Returns-at : (s : State) (d : Drainer) → Inv s → s.drainer ≡ d → Returns s ⊎ Overtaken s
Returns-at s selecting v e = inl (Returns-selecting s s.closer v refl e)
Returns-at s ticked v e = Returns-ticked s s.closer v refl e
Returns-at s draining v e = inl (Returns-draining s v e)
Returns-at s stopped v e = inl (Returns-stopped s s.closer v refl e)

Step-Overtaken : {s t : State} → Step s t → Inv s → Overtaken s → Overtaken t
Step-Overtaken (close_lock a b) v o = ground arith
Step-Overtaken (close_again a b) v o = ground arith
Step-Overtaken (close_signal a b) v o = ground arith
Step-Overtaken (close_drain a b) v o = ground arith
Step-Overtaken (tick a) v o = ground arith
Step-Overtaken (drain_lock a b) v o = ground arith
Step-Overtaken (drain_unlock a) v o = ground arith
Step-Overtaken (stop a b) v o = ground arith

Reach-Overtaken : {s t : State} → Inv s → Overtaken s → Reach s t → Inv t × Overtaken t
Reach-Overtaken v o here = (v, o)
Reach-Overtaken v o (next r st) =
    let (v1, o1) = Reach-Overtaken v o r in (Step-Inv st v1, Step-Overtaken st v1 o1)

-- From every reachable state there is a run in which Close and the goroutine both return, unless
-- the goroutine is behind a tick while Close holds the mutex: then Close never returns.
pub Reach-Returns :
    {s : State}
    → Reach initial s
    → Returns s ⊎ Overtaken s × ((t : State) → Reach s t → t.closer ≢ done)
Reach-Returns {s} r = elim (Returns-at s s.drainer (Reach-Inv r) refl) [
  | inl k ↦ inl k
  | inr o ↦
      inr (o, λ t k e. let (v, o1) = Reach-Overtaken (Reach-Inv r) o k in absurd (ground arith))
]

IsBlocked-stuck : {s t : State} → IsBlocked s → Step s t → ⊥
IsBlocked-stuck b (close_lock e l) = ground arith
IsBlocked-stuck b (close_again e f) = ground arith
IsBlocked-stuck b (close_signal e f) = ground arith
IsBlocked-stuck b (close_drain e f) = ground arith
IsBlocked-stuck b (tick e) = ground arith
IsBlocked-stuck b (drain_lock e l) = ground arith
IsBlocked-stuck b (drain_unlock e) = ground arith
IsBlocked-stuck b (stop e f) = ground arith

-- Close can deadlock: wherever it has not begun, the mutex is free and the goroutine is at its
-- select, a tick before Close takes the mutex leads to a state from which no step is possible, in
-- which Close still holds the mutex and has not returned.
pub close_deadlocks :
    (s : State)
    → s.closer ≡ start
    → s.drainer ≡ selecting
    → s.locked ≡ false
    → s.finished ≡ false
    → (t : State) × Reach s t
      × (t.closer ≡ waiting)
      × (t.locked ≡ true)
      × ((u : State) → ¬ Step t u)
close_deadlocks s c d l f =
    let t1 : State = record s { drainer = ticked } in
    let t2 : State = record t1 { closer = inside; locked = true } in
    let t3 : State = record t2 { closer = waiting; finish = true } in
    (
      t3,
      next (next (next here (tick d)) (close_lock c l)) (close_signal refl f),
      refl,
      refl,
      λ u st.
          IsBlocked-stuck
            (record { closer_waits = refl; drainer_waits = refl; held = refl; not_finished = f })
            st,
    )
