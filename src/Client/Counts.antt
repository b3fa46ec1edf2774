-- ===== src/Client/Counts.antt =====
-- clickhouse.go: what the client keeps true between its operations, for the connections that are
-- handed out (`users`), those that are idle and those that are closed.
use clickhouse_go.Common.{
  ℕ, ◌+◌, ◌≤◌, Bool, true, false, List, [], ◌∷◌, ◌++◌, ◌≡◌, refl, arith, ltb, leb, ◌==◌,
  if◌then◌else◌, count, count-append, keep_if, not, length, Bool-cases, inl, inr,
}
use clickhouse_go.Pool.{GetResult}
use clickhouse_go.Pool.Laws.{Idle}
use clickhouse_go.Pool.Get.{handed}
use clickhouse_go.Pool.Put.{spec_put}
use clickhouse_go.Client.{Clickhouse, nil}

-- One for each connID that was given and made a connection: `failed` are those that made none.
unfoldable pub made : ℕ → ℕ → ℕ
made conn_id c = if ltb 0 c then if leb c conn_id then 1 else 0 else 0

-- A connection is in one place only: handed out, idle, closed, its dial failed, or (`taken`) it
-- is in the hands of a call under way. Each user holds
-- a token, as do the `held` calls of acquire under way, and the flag of a connection says whether
-- it is handed out.
pub record Inv (ch : Clickhouse) (held : ℕ) (taken users items failed : List ℕ) : Type 0 where
  pub idle : Idle nil ch.idle items
  pub tokens : ch.opened ≡ length users + held
  pub bounded : ch.opened ≤ ch.max_open_conns
  pub accounted :
      (c : ℕ)
      → count c users
          + count c items
          + count c ch.idle.closed_conns
          + count c failed
          + count c taken
        ≡ made ch.conn_id c
  pub used : (c : ℕ) → 1 ≤ count c users → ch.released c ≡ false
  pub parked : (c : ℕ) → 1 ≤ count c items → ch.released c ≡ true
  pub finished : ch.idle.finished ≡ ch.closed
  pub once : ch.close_once ≡ ch.closed

pub made-le : (n c : ℕ) → made n c ≤ 1
unfolding made
made-le n c = ground arith

pub made-zero : (c : ℕ) → made 0 c ≡ 0
unfolding made
made-zero c = ground arith

pub made_next : (n c : ℕ) → made (n + 1) c ≡ made n c + count c ((n + 1) ∷ [])
unfolding made count
made_next n c = ground arith

pub count_self : (c : ℕ) → count c (c ∷ []) ≡ 1
unfolding count
count_self c = ground arith

pub count_same : (c d : ℕ) → (d == c) ≡ true → count d (c ∷ []) ≡ 1
unfolding count
count_same c d e = ground arith

pub count_other : (c d : ℕ) → (d == c) ≡ false → count d (c ∷ []) ≡ 0
unfolding count
count_other c d e = ground arith

pub count-nil : (c : ℕ) → count c [] ≡ 0
unfolding count
count-nil c = refl

-- Put of an open pool keeps its connection: idle or closed.
pub count-spec_put :
    (expired healthy finished : Bool) (capacity : ℕ) (idle closed : List ℕ) (c d : ℕ)
    → finished ≡ false
    → let (idle', closed') = spec_put expired healthy finished capacity idle closed c in
      (count d idle' + count d closed' ≡ count d idle + count d closed + count d (c ∷ []))
      × (count d idle' ≤ count d idle + count d (c ∷ []))
count-spec_put true healthy finished capacity idle closed c d h =
    (omega (arith, count-append d closed (c ∷ [])), omega arith)
count-spec_put false false finished capacity idle closed c d h =
    (omega (arith, count-append d closed (c ∷ [])), omega arith)
count-spec_put false true true capacity idle closed c d h = absurd (ground arith)
count-spec_put false true false capacity idle closed c d h =
    elim (Bool-cases (ltb (length idle) capacity)) [
      | inl e ↦
          rw e (
            omega (arith, count-append d idle (c ∷ [])),
            omega (arith, count-append d idle (c ∷ [])),
          )
      | inr e ↦ rw e (omega (arith, count-append d closed (c ∷ [])), omega arith)
    ]

pub count-handed :
    (d : ℕ) (items dropped left : List ℕ) (r : GetResult ℕ)
    → items ≡ dropped ++ (handed r ++ left)
    → count d items ≡ count d dropped + count d (handed r) + count d left
count-handed d items dropped left r e =
    rw e (omega (arith, count-append d dropped (handed r ++ left), count-append d (handed r) left))

pub count-keep_if :
    (d : ℕ) (p : ℕ → Bool) (xs : List ℕ)
    → count d xs ≡ count d (keep_if p xs) + count d (keep_if (λ x. not (p x)) xs)
unfolding count
count-keep_if d p [] = omega arith
count-keep_if d p (x ∷ xs) = elim (Bool-cases (p x)) [
  | inl e ↦ rw e (ground (arith, count-keep_if d p xs))
  | inr e ↦ rw e (ground (arith, count-keep_if d p xs))
]
