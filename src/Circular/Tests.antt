-- ===== src/Circular/Tests.antt =====
-- The queue at small inputs.
use clickhouse_go.Common.{
  ℕ, zero, suc, ◌<◌, inr, arith, get_elem?, true, false, List, [], ◌∷◌, none, some, ◌==◌, ◌≡◌, refl,
}
use clickhouse_go.Circular.{Queue, push, pull, new, delete_func, clear}
use clickhouse_go.Circular.Represents.{Represents, index_at}
use clickhouse_go.Circular.Runs.{
  Call, pushes, pulls, deletes, clears, accepted, pulled, removed, run, run-new-Represents,
}

abbrev history : List (Call ℕ)
history =
    pushes 5
    ∷ pushes 6
    ∷ pushes 7
    ∷ pulls
    ∷ pushes 8
    ∷ deletes (λ x. x == 6)
    ∷ pushes 9
    ∷ clears
    ∷ []

run-history :
    (q : Queue ℕ) × (run 0 (new 0 2) history
      ≡ some (
        q,
        accepted true
            ∷ accepted true
            ∷ accepted false
            ∷ pulled (some 5)
            ∷ accepted true
            ∷ removed (6 ∷ [])
            ∷ accepted true
            ∷ removed (8 ∷ 9 ∷ [])
            ∷ [],
      ))
    × Represents 0 q []
run-history = run-new-Represents 0 2 history

-- Three slots, the head behind the start, two items that wrap round.
abbrev wrapped : Queue ℕ
wrapped = record { slots = 2 ∷ 0 ∷ 1 ∷ []; head = 2; tail = 1; len = 2 }

wrapped-cell :
    (k : ℕ)
    → k < 3
    → get_elem? {A = ℕ} (2 ∷ 0 ∷ 1 ∷ []) (index_at 3 2 k) ≡ get_elem? (1 ∷ 2 ∷ 0 ∷ []) k
unfolding index_at
wrapped-cell zero h = refl
wrapped-cell (suc zero) h = refl
wrapped-cell (suc (suc zero)) h = refl
wrapped-cell (suc (suc (suc k))) h = absurd (omega arith)

wrapped-Represents : Represents 0 wrapped (1 ∷ 2 ∷ [])
unfolding index_at
wrapped-Represents = record {
  len_is = refl;
  tail_is = refl;
  room = 1;
  view = record { in_range = inr (omega arith); same_length = refl; cell = wrapped-cell };
}

-- The same run by computation.
run_computes :
    run {A = ℕ} 0 (new 0 2) (pushes 5 ∷ pulls ∷ pulls ∷ [])
    ≡ some (
      record { slots = 0 ∷ 0 ∷ []; head = 1; tail = 1; len = 0 },
      accepted true ∷ pulled (some 5) ∷ pulled none ∷ [],
    )
unfolding run new push pull delete_func clear
run_computes = refl
