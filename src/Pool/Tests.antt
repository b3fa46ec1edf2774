-- ===== src/Pool/Tests.antt =====
-- The pool at small inputs.
use clickhouse_go.Common.{
  ℕ, ap, get_elem?, true, false, List, [], ◌∷◌, ◌++◌, some, ◌≡◌, ◌≢◌, ◌⊎◌, refl, length, inl,
}
use clickhouse_go.Circular.{cap_of}
use clickhouse_go.Circular.Represents.{index_at, index_at-origin}
use clickhouse_go.Pool.{Transport, ConnPool, GetResult, is_expired, get, put, drain_pool}
use clickhouse_go.Pool.Laws.{Idle, AllTrue}
use clickhouse_go.Pool.Get.{get_serves_oldest, handed, Justified}
use clickhouse_go.Pool.Put.{put-Idle}
use clickhouse_go.Pool.Drain.{drain_pool-Idle}
use clickhouse_go.Pool.Closing.{
  State, Step, Reach, here, next, tick, initial, draining, drain_lock, waiting, Reach-Returns,
  Returns, Overtaken, done, close_deadlocks,
}

-- A connection is the time at which it was made; even the first is healthy.
abbrev transport : Transport ℕ
transport = record { connected_at = λ c. c; healthy = λ c. true }

abbrev clock : ℕ → ℕ
clock c = 100

-- Three idle connections: two older than 60, one younger.
abbrev idle : List ℕ
idle = 10 ∷ 20 ∷ 70 ∷ []

abbrev pool : ConnPool ℕ
pool = record {
  conns = record { slots = 10 ∷ 20 ∷ 70 ∷ 0 ∷ []; head = 0; tail = 3; len = 3 };
  finished = false;
  max_conn_lifetime = 60;
  closed_conns = [];
}

pool-Idle : Idle 0 pool idle
unfolding index_at
pool-Idle = record {
  len_is = refl;
  tail_is = refl;
  room = 1;
  view = record {
    in_range = inl refl;
    same_length = refl;
    cell = λ k h. ap (get_elem? {A = ℕ} (10 ∷ 20 ∷ 70 ∷ 0 ∷ [])) (index_at-origin 4 k h);
  };
}

get_oldest :
    (p' : ConnPool ℕ) × (result : GetResult ℕ) × (dropped left : List ℕ) × (get 0 transport clock
        (λ k. false)
        pool
      ≡ some (p', result))
    × (idle ≡ dropped ++ (handed result ++ left))
    × Idle 0 p' left
    × (p'.closed_conns ≡ [] ++ dropped)
    × AllTrue (is_expired 0 transport clock pool) dropped
    × Justified (is_expired 0 transport clock pool) (λ k. false) (length dropped) left result
    × (p'.finished ≡ false)
get_oldest = get_serves_oldest 0 transport clock (λ k. false) pool idle refl pool-Idle

-- A connection that has not expired goes into the free slot.
put_young :
    (p' : ConnPool ℕ) × (put 0 transport clock pool 90 ≡ some p')
    × Idle 0 p' (10 ∷ 20 ∷ 70 ∷ 90 ∷ [])
    × (p'.closed_conns ≡ [])
    × (p'.finished ≡ false)
unfolding is_expired cap_of
put_young = put-Idle 0 transport clock pool idle 90 pool-Idle

drain_some :
    (p' : ConnPool ℕ) × (drain_pool 0 transport clock pool ≡ some p')
    × Idle 0 p' (70 ∷ [])
    × (p'.closed_conns ≡ 10 ∷ 20 ∷ [])
    × (p'.finished ≡ false)
unfolding is_expired
drain_some = drain_pool-Idle 0 transport clock pool idle refl pool-Idle

-- The goroutine has taken its tick and the mutex.
abbrev at_drain : State
at_drain = record initial { drainer = draining; locked = true }

reach_drain : Reach initial at_drain
reach_drain = next (next here (tick refl)) (drain_lock refl refl)

at_drain_example :
    Returns at_drain ⊎ Overtaken at_drain × ((t : State) → Reach at_drain t → t.closer ≢ done)
at_drain_example = Reach-Returns reach_drain

deadlock_from_start :
    (t : State) × Reach initial t
    × (t.closer ≡ waiting)
    × (t.locked ≡ true)
    × ((u : State) → ¬ Step t u)
deadlock_from_start = close_deadlocks initial refl refl refl refl
