-- ===== src/Circular/Runs.antt =====
-- Any history of calls on one queue, the removed elements collected, against the same history on a
-- list; and the read-only loop of `all`.
use mathlib.Core.List.{append_assoc, append-nil}
use clickhouse_go.Common.{
  ℕ, suc, ◌+◌, Bool, true, false, not, List, [], ◌∷◌, ◌++◌, Option, some, ◌≡◌, refl, sym, ◌∙◌,
  ◌>>=◌, arith, ◌==◌, if◌then◌else◌, length, keep_if, length-append, replicate, length-replicate,
  Bool-cases, inl, inr,
}
use clickhouse_go.Circular.{
  Queue, Yield, cap_of, push, pull, new, delete_func, clear, all_loop, all, next,
}
use clickhouse_go.Circular.Represents.{
  index_at, Represents, View, get-View, next-index_at, index_at-zero,
}
use clickhouse_go.Circular.Laws.{
  spec_push, spec_pull, feed, new-Represents, push-Represents, pull-Represents, clear-Represents,
}
use clickhouse_go.Circular.Delete.{delete_func-Represents}

pub data Call {ℓ} (A : Type ℓ) : Type ℓ where
  pushes : A → Call A
  pulls : Call A
  deletes : (A → Bool) → Call A
  clears : Call A

pub data Answer {ℓ} (A : Type ℓ) : Type ℓ where
  accepted : Bool → Answer A
  pulled : Option A → Answer A
  removed : List A → Answer A

module _ {ℓ} {A : Type ℓ} where
  -- A loop body that collects, and always wants more.
  abbrev pub collect : Yield A (List A)
  collect seen x = (seen ++ x ∷ [], true)

  feed-collect : (seen xs : List A) → feed collect seen xs ≡ seen ++ xs
  feed-collect seen [] = sym (append-nil seen)
  feed-collect seen (x ∷ xs) = feed-collect (seen ++ x ∷ []) xs ∙ append_assoc seen (x ∷ []) xs

module _ {ℓ} {A : Type ℓ} (blank : A) where
  unfoldable pub call : Queue A → Call A → Option (Queue A × Answer A)
  call q (pushes x) = push q x >>= λ (q', ok). some (q', accepted ok)
  call q pulls = pull blank q >>= λ (q', x). some (q', pulled x)
  call q (deletes p) = delete_func blank p collect q [] >>= λ (q', xs). some (q', removed xs)
  call q clears = clear blank collect q [] >>= λ (q', xs). some (q', removed xs)

  unfoldable pub run : Queue A → List (Call A) → Option (Queue A × List (Answer A))
  unfolding call
  run q [] = some (q, [])
  run q (c ∷ cs) = call q c >>= λ (q1, a). run q1 cs >>= λ (q2, as_). some (q2, a ∷ as_)

-- The same calls on the list of items, with a bound.
module _ {ℓ} {A : Type ℓ} (capacity : ℕ) where
  abbrev pub spec_call : List A → Call A → List A × Answer A
  spec_call items (pushes x) =
      ((spec_push capacity items x).0, accepted (spec_push capacity items x).1)
  spec_call items pulls = ((spec_pull items).0, pulled (spec_pull items).1)
  spec_call items (deletes p) = (keep_if (λ x. not (p x)) items, removed (keep_if p items))
  spec_call items clears = ([], removed items)

  abbrev pub spec_run : List A → List (Call A) → List A × List (Answer A)
  spec_run items [] = (items, [])
  spec_run items (c ∷ cs) =
      let (items1, a) = spec_call items c in
      let (items2, answers) = spec_run items1 cs in (items2, a ∷ answers)

module _ {ℓ} {A : Type ℓ} (blank : A) where
  call-Represents :
      (q : Queue A) (items : List A) (c : Call A)
      → Represents blank q items
      → (q' : Queue A) × (call blank q c ≡ some (q', (spec_call (length q.slots) items c).1))
        × Represents blank q' (spec_call (length q.slots) items c).0
        × (length q'.slots ≡ length q.slots)
  unfolding call cap_of
  call-Represents q items (pushes x) r =
      let (q', e, r', same) = push-Represents blank q x items r in (q', rw e, r', same)
  call-Represents q items pulls r =
      let (q', e, r', same) = pull-Represents blank q items r in (q', rw e, r', same)
  call-Represents q items (deletes p) r =
      let (q', e, r', same) = delete_func-Represents blank p collect q items [] r in
      (q', rw (e, feed-collect), r', same)
  call-Represents q items clears r =
      let (q', e, r', same) = clear-Represents blank collect q items [] r in
      (q', rw (e, feed-collect), r', same)

  length-new : (n : ℕ) → length (new blank n).slots ≡ n
  unfolding new
  length-new n = length-replicate n blank

  run-Represents :
      (capacity : ℕ) (q : Queue A) (items : List A) (cs : List (Call A))
      → length q.slots ≡ capacity
      → Represents blank q items
      → (q' : Queue A) × (run blank q cs ≡ some (q', (spec_run capacity items cs).1))
        × Represents blank q' (spec_run capacity items cs).0
  unfolding run
  run-Represents capacity q items [] c r = (q, refl, r)
  run-Represents capacity q items (c ∷ cs) size r =
      let (q1, e, r1, same) = call-Represents q items c r in
      let e1 : call blank q c ≡ some (q1, (spec_call capacity items c).1) = rw size at e in
      let r1' : Represents blank q1 (spec_call capacity items c).0 = rw size at r1 in
      let (q2, e2, r2) =
        run-Represents capacity q1 (spec_call capacity items c).0 cs (same ∙ size) r1' in
      (q2, rw e1 (rw e2), r2)

  -- From a new queue, any history of pushes, pulls, deletions and clearings goes through with no
  -- index out of range, and gives the answers of a bounded first-in first-out list.
  pub run-new-Represents :
      (capacity : ℕ) (cs : List (Call A))
      → (q : Queue A) × (run blank (new blank capacity) cs ≡ some (q, (spec_run capacity [] cs).1))
        × Represents blank q (spec_run capacity [] cs).0
  run-new-Represents capacity cs =
      run-Represents capacity (new blank capacity) [] cs (length-new capacity)
        (new-Represents blank capacity)

-- A loop body over a list with its indices, until it wants no more.
abbrev pub feed_indexed {ℓ κ} :
    {A : Type ℓ} {S : Type κ} (yield : S → ℕ → A → S × Bool) → ℕ → S → List A → S
feed_indexed yield idx s [] = s
feed_indexed yield idx s (x ∷ xs) =
    if (yield s idx x).1
    then feed_indexed yield (idx + 1) ((yield s idx x).0) xs
    else (yield s idx x).0

module _ {ℓ κ} {A : Type ℓ} {S : Type κ} (blank : A) (yield : S → ℕ → A → S × Bool) where
  all_loop-View :
      (h idx : ℕ) (slots done xs ys : List A) (s : S)
      → View h slots (done ++ (xs ++ ys))
      → all_loop yield slots (length xs) idx (index_at (length slots) h (length done)) s
        ≡ some (feed_indexed yield idx s xs)
  unfolding all_loop
  all_loop-View h idx slots done [] ys s v = refl
  all_loop-View h idx slots done (x ∷ xs) ys s v =
      let read = get-View done x (xs ++ ys) v in
      let longer : length (done ++ x ∷ []) ≡ suc (length done) =
        omega (arith, length-append done (x ∷ [])) in
      let step : next (length slots) (index_at (length slots) h (length done))
          ≡ index_at (length slots) h (length (done ++ x ∷ [])) =
        rw longer (
          next-index_at (length slots) h (length done) v.in_range
            (omega (arith, v.same_length, length-append done (x ∷ (xs ++ ys))))) in
      let rest =
        all_loop-View h (idx + 1) slots (done ++ x ∷ []) xs ys ((yield s idx x).0)
          (rw append_assoc v) in
      elim (Bool-cases ((yield s idx x).1)) [
        | inl more ↦ rw (read, step, more) rest
        | inr stop ↦ rw (read, stop)
      ]

  -- The loop of `all` gives its body the items in first-in first-out order, numbered from 0, until
  -- the body wants no more.
  pub all-Represents :
      (q : Queue A) (items : List A) (s : S)
      → Represents blank q items
      → all yield q s ≡ some (feed_indexed yield 0 s items)
  unfolding all
  all-Represents q [] s r = ground (arith, r.len_is)
  all-Represents q (x ∷ items) s r =
      let nonempty : (q.len == 0) ≡ false = ground (arith, r.len_is) in
      let start = index_at-zero (length q.slots) q.head r.view.in_range in
      let looped =
        all_loop-View q.head 0 q.slots [] (x ∷ items) (replicate r.room blank) s r.view in
      rw (nonempty, r.len_is) (rw start at looped)
