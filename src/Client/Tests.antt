-- ===== src/Client/Tests.antt =====
-- The client at small inputs.
use clickhouse_go.Common.{
  ℕ, ◌+◌, ◌≤◌, Bool, true, false, List, [], ◌∷◌, ◌++◌, some, ◌≡◌, ◌⊎◌, inl, inr, refl, arith, count,
  length, ◌==◌, if◌then◌else◌,
}
use mathlib.Core.List.{map}
use clickhouse_go.Circular.{pull, is_empty, new}
use clickhouse_go.Pool.{Transport, get, get_loop, new_conn_pool}
use clickhouse_go.Client.{
  Clickhouse, Acquired, conn, Surroundings, open_client, acquire, release, stats, got_idle,
  dial_new, finish_dial, dial, set_released,
}
use clickhouse_go.Pool.Laws.{Idle}
use clickhouse_go.Client.Counts.{Inv, made, made_next, made-zero, count-nil}
use clickhouse_go.Client.Acquire.{acquire-Inv, handed_out, failed_dial}
use clickhouse_go.Client.Release.{release-Inv}
use clickhouse_go.Client.Reachable.{Reach, opened, acquired, Reach-accounted, open_client-Inv}
use clickhouse_go.Client.Dialing.{
  conn_open_round_robin, conn_open_random, failed, no_address, first_dialed, default_dial_strategy,
  round_robin-first, random-misses,
}

abbrev transport : Transport ℕ
transport = record { connected_at = λ c. 10; healthy = λ c. true }

abbrev clock : ℕ → ℕ
clock c = 20

-- Nothing is over, and each dial succeeds.
abbrev calm : Surroundings
calm = record {
  ctx_done = false;
  ctx_done_waiting = false;
  ctx_err = λ k. false;
  ctx_err_dialing = false;
  dials = λ c. true;
}

abbrev client : Clickhouse
client = open_client 2 1 60

acquire_first :
    (ch' : Clickhouse) × (a : Acquired) × (left : List ℕ) × (acquire transport clock calm client
      ≡ some (ch', a))
    × Inv ch' 0 [] (handed_out a) left (failed_dial ch' a)
acquire_first = acquire-Inv transport clock calm client (open_client-Inv 2 1 60)

-- A client whose first connection is handed out.
abbrev one_user : Clickhouse
one_user = record (open_client 2 1 60) { opened = 1; conn_id = 1 }

one_user-Inv : Inv one_user 0 [] (1 ∷ []) [] []
unfolding open_client
one_user-Inv =
    let v = open_client-Inv 2 1 60 in
    record {
      idle = v.idle;
      tokens = refl;
      bounded = omega arith;
      accounted = λ c. omega (arith, made_next 0 c, made-zero c, count-nil c);
      used = λ c h. refl;
      parked = v.parked;
      finished = refl;
      once = refl;
    }

release_first :
    (ch' : Clickhouse) × (items' : List ℕ) × (release transport clock false one_user 1 ≡ some ch')
    × Inv ch' 0 [] [] items' []
    × ((bad' : Bool) → release transport clock bad' ch' 1 ≡ some ch')
release_first = release-Inv transport clock false one_user [] 1 [] [] [] one_user-Inv

-- One connection is acquired.
abbrev acquired_one : Clickhouse
acquired_one = record client {
  opened = 1;
  conn_id = 1;
  released = λ d. if d == 1 then false else false;
}

reach_one : Reach 2 1 60 acquired_one (1 ∷ []) []
unfolding open_client acquire got_idle dial_new finish_dial dial set_released new_conn_pool get
    get_loop pull is_empty new
reach_one = acquired {a = conn 1} transport clock calm opened refl

accounted_one :
    (items : List ℕ) × Idle 0 acquired_one.idle items
    × ((stats acquired_one).opened ≡ 1)
    × ((stats acquired_one).opened ≤ (stats acquired_one).max_open_conns)
    × ((stats acquired_one).idle ≡ length items)
    × ((c : ℕ)
        → count c (1 ∷ []) + count c items + count c acquired_one.idle.closed_conns + count c []
          ≡ made acquired_one.conn_id c)
accounted_one = Reach-accounted reach_one

-- Address 1 cannot be dialled, and the others can.
abbrev dial_addr : ℕ → ℕ ⊎ Bool
dial_addr a = if a == 1 then inr false else inl a

round_of_three :
    (ys xs : List ℕ) × (ys ++ xs ≡ 0 ∷ 1 ∷ 2 ∷ [])
    × (length ys ≡ 1)
    × (default_dial_strategy dial_addr conn_open_round_robin 4 (λ k. 0) (0 ∷ 1 ∷ 2 ∷ [])
        ≡ some (first_dialed (map dial_addr (xs ++ ys)) no_address))
round_of_three = round_robin-first dial_addr 4 (λ k. 0) (0 ∷ 1 ∷ 2 ∷ []) (omega arith)

random_of_two :
    (random : ℕ → ℕ) × (default_dial_strategy dial_addr conn_open_random 4 random (1 ∷ 2 ∷ [])
      ≡ some (failed false))
random_of_two = random-misses dial_addr 1 2 2 false 4 refl refl
