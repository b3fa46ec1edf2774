-- ===== src/Circular/Laws.antt =====
-- The operations of the circular queue against lists: push, pull, size, the loop of `all`, Clear.
use native.Mathlib.Nat.{add-zero, add-suc, suc-add}
use mathlib.Core.List.{append_assoc}
use clickhouse_go.Common.{
  ℕ, zero, suc, ◌+◌, ◌-◌, Bool, true, false, List, [], ◌∷◌, ◌++◌, Option, none, some, ◌≡◌, refl,
  sym, ap, ◌∙◌, ◌>>=◌, replicate-append, inl, arith, ltb, ◌==◌, if◌then◌else◌, length, get_elem?,
  length-append, replicate, length-replicate, replicate-concat, replicate-middle,
}
use clickhouse_go.Circular.{
  Queue, Yield, store, next, push, new, pull, cap_of, offer, clear_loop, clear,
}
use clickhouse_go.Circular.Represents.{
  index_at, index_at-zero, next-index_at, View, get-View, index_at-next, store-View, next-View,
  Represents, index_at-origin, turn-blank,
}

-- What a bounded queue promises, on the list of its items: capacity first.
module _ {ℓ} {A : Type ℓ} where
  abbrev pub spec_push : ℕ → List A → A → List A × Bool
  spec_push capacity items x =
      if ltb (length items) capacity then (items ++ x ∷ [], true) else (items, false)

  abbrev pub spec_pull : List A → List A × Option A
  spec_pull [] = ([], none)
  spec_pull (x ∷ items) = (items, some x)

  -- A loop body over a list, until it wants no more.
  abbrev pub feed {κ} : {S : Type κ} → Yield A S → S → List A → S
  feed yield s [] = s
  feed yield s (x ∷ xs) = if (yield s x).1 then feed yield ((yield s x).0) xs else (yield s x).0

module _ {ℓ} {A : Type ℓ} (blank : A) where
  pub length-Represents :
      {q : Queue A} {items : List A} (r : Represents blank q items)
      → length items + r.room ≡ length q.slots
  length-Represents {q} {items} r = omega (
    arith,
    r.view.same_length,
    length-append items (replicate r.room blank),
    length-replicate r.room blank,
  )

  -- A new queue is empty, and all its slots are blank.
  pub new-Represents : (n : ℕ) → Represents blank (new blank n) []
  unfolding new
  new-Represents n = record {
    len_is = refl;
    tail_is = rw (index_at-zero (length (replicate n blank)) 0 (inl refl));
    room = n;
    view = record {
      in_range = inl refl;
      same_length = refl;
      cell = λ k h. ap (get_elem? (replicate n blank)) (index_at-origin _ k h);
    };
  }

  push_room :
      (q : Queue A) (x : A) (items : List A) (room : ℕ)
      → q.len ≡ length items
      → q.tail ≡ index_at (length q.slots) q.head (length items)
      → length items + suc room ≡ length q.slots
      → View q.head q.slots (items ++ blank ∷ replicate room blank)
      → (q' : Queue A) × (push q x ≡ some (q', true))
        × Represents blank q' (items ++ x ∷ [])
        × (length q'.slots ≡ length q.slots)
  unfolding push
  push_room q x items room len_is tail_is total v =
      let (slots, stored, v', same) = store-View items blank x (replicate room blank) v in
      (
        record q { slots = slots; tail = next (length q.slots) q.tail; len = q.len + 1 },
        ground arith,
        record {
          len_is = omega (arith, length-append items (x ∷ []));
          tail_is =
              let e : length (items ++ x ∷ []) ≡ suc (length items) =
                omega (arith, length-append items (x ∷ [])) in
              rw (same, tail_is, e)
                (next-index_at (length q.slots) q.head (length items) v.in_range (omega arith));
          room = room;
          view = rw append_assoc v';
        },
        same,
      )

  push_cases :
      (q : Queue A) (x : A) (items : List A) (r : Represents blank q items) (room : ℕ)
      → r.room ≡ room
      → (q' : Queue A) × (push q x ≡ some (q', (spec_push (cap_of q) items x).1))
        × Represents blank q' (spec_push (cap_of q) items x).0
        × (length q'.slots ≡ length q.slots)
  unfolding push cap_of
  push_cases q x items r zero e =
      let full : length items ≡ length q.slots = omega (arith, e, length-Represents r) in
      let rejects : ltb (length items) (length q.slots) ≡ false = ground arith in
      (q, rw rejects (ground (arith, r.len_is)), rw rejects r, refl)
  push_cases q x items r (suc room) e =
      let total : length items + suc room ≡ length q.slots =
        omega (arith, e, length-Represents r) in
      let fits : ltb (length items) (length q.slots) ≡ true = ground arith in
      let (q', done, r', same) =
        push_room q x items room r.len_is r.tail_is total (rw e at r.view) in
      (q', rw fits done, rw fits r', same)

  -- Push does what the specification says, on a full queue too.
  pub push-Represents :
      (q : Queue A) (x : A) (items : List A)
      → Represents blank q items
      → (q' : Queue A) × (push q x ≡ some (q', (spec_push (cap_of q) items x).1))
        × Represents blank q' (spec_push (cap_of q) items x).0
        × (length q'.slots ≡ length q.slots)
  push-Represents q x items r = push_cases q x items r r.room refl

  pub pull-Represents :
      (q : Queue A) (items : List A)
      → Represents blank q items
      → (q' : Queue A) × (pull blank q ≡ some (q', (spec_pull items).1))
        × Represents blank q' (spec_pull items).0
        × (length q'.slots ≡ length q.slots)
  unfolding pull
  pull-Represents q [] r = (q, ground (arith, r.len_is), r, refl)
  pull-Represents q (x ∷ items) r =
      let c = length q.slots in
      let start = index_at-zero c q.head r.view.in_range in
      let read : get_elem? q.slots q.head ≡ some x =
        rw start at (get-View [] x (items ++ replicate r.room blank) r.view) in
      let (slots, stored, v', same) =
        store-View [] x blank (items ++ replicate r.room blank) r.view in
      let written : store q.slots q.head blank ≡ some slots = rw start at stored in
      let turned : (items ++ replicate r.room blank) ++ blank ∷ []
          ≡ items ++ blank ∷ replicate r.room blank =
        append_assoc items (replicate r.room blank) (blank ∷ [])
        ∙ ap (◌++◌ items) (replicate-concat r.room blank) in
      let nonempty : (q.len == 0) ≡ false = ground (arith, r.len_is) in
      (
        record q { slots = slots; head = next c q.head; len = q.len - 1 },
        rw (nonempty, read, written),
        record {
          len_is = omega (arith, r.len_is);
          tail_is =
              rw
                (
                  same,
                  r.tail_is,
                  index_at-next c q.head (length items) (omega (arith, r.view.in_range)) (
                      omega
                        (arith, r.view.same_length, length-append items (replicate r.room blank))),
                )
                refl;
          room = suc r.room;
          view = rw (← turned) (rw same at (next-View blank (items ++ replicate r.room blank) v'));
        },
        same,
      )

module _ {ℓ κ} {A : Type ℓ} {S : Type κ} (blank : A) (yield : Yield A S) where
  -- The consumer after the loop: fed unless it had stopped before.
  abbrev pub feed_unless : Bool → S → List A → S
  feed_unless true s xs = s
  feed_unless false s xs = feed yield s xs

  pub feed_unless-offer :
      (stop : Bool) (s : S) (x : A) (xs : List A)
      → feed_unless (offer yield stop s x).1 (offer yield stop s x).0 xs
        ≡ feed_unless stop s (x ∷ xs)
  unfolding offer
  feed_unless-offer true s x xs = refl
  feed_unless-offer false s x xs = ground arith

  pub feed_unless-nil : (stop : Bool) (s : S) → feed_unless stop s [] ≡ s
  feed_unless-nil true s = refl
  feed_unless-nil false s = refl

  clear_loop-View :
      (h n : ℕ) (slots xs ys : List A) (stop : Bool) (s : S)
      → View h slots (replicate n blank ++ (xs ++ ys))
      → (slots' : List A) × (clear_loop blank yield
            (length xs)
            slots
            (index_at (length slots) h n)
            stop
            s
          ≡ some (slots', feed_unless stop s xs))
        × View h slots' (replicate (n + length xs) blank ++ ys)
        × (length slots' ≡ length slots)
  unfolding clear_loop
  clear_loop-View h n slots [] ys true s v = (slots, refl, rw add-zero v, refl)
  clear_loop-View h n slots [] ys false s v = (slots, refl, rw add-zero v, refl)
  clear_loop-View h n slots (x ∷ xs) ys stop s v =
      let c = length slots in
      let n' = length-replicate n blank in
      let read : get_elem? slots (index_at c h n) ≡ some x =
        rw n' at (get-View (replicate n blank) x (xs ++ ys) v) in
      let (slots1, stored, v1, same) = store-View (replicate n blank) x blank (xs ++ ys) v in
      let written : store slots (index_at c h n) blank ≡ some slots1 = rw n' at stored in
      let (s1, stop1) = offer yield stop s x in
      let (slots2, done, v2, same2) =
        clear_loop-View h (suc n) slots1 xs ys stop1 s1
          (rw (← replicate-middle n blank (xs ++ ys)) v1) in
      let step : next c (index_at c h n) ≡ index_at (length slots1) h (suc n) = rw same (
        next-index_at c h n v.in_range
          (omega (arith, n', v.same_length, length-append (replicate n blank) (x ∷ (xs ++ ys))))) in
      (
        slots2,
        rw (read, written, step, done) (ap (λ t. some (slots2, t)) (feed_unless-offer stop s x xs)),
        rw add-suc (rw (suc-add n (length xs)) at v2),
        same2 ∙ same,
      )

  -- Clear empties the queue, with every slot blank again, and the consumer gets the items in order
  -- until it stops.
  pub clear-Represents :
      (q : Queue A) (items : List A) (s : S)
      → Represents blank q items
      → (q' : Queue A) × (clear blank yield q s ≡ some (q', feed yield s items))
        × Represents blank q' []
        × (length q'.slots ≡ length q.slots)
  unfolding clear
  clear-Represents q [] s r = (q, ground (arith, r.len_is), r, refl)
  clear-Represents q (x ∷ items) s r =
      let nonempty : (q.len == 0) ≡ false = ground (arith, r.len_is) in
      let start = index_at-zero (length q.slots) q.head r.view.in_range in
      let (slots, done, v, same) =
        clear_loop-View q.head 0 q.slots (x ∷ items) (replicate r.room blank) false s r.view in
      (
        record { slots = slots; head = 0; tail = 0; len = 0 },
        rw (nonempty, r.len_is)
            (ap
              (λ (m : Option (List A × S)).
                m >>= λ t. some (record { slots = t.0; head = 0; tail = 0; len = 0 }, t.1))
              (rw start at done)),
        record {
          len_is = refl;
          tail_is = sym (index_at-zero (length slots) 0 (inl refl));
          room = 0 + length (x ∷ items) + r.room;
          view = turn-blank (0 + length (x ∷ items) + r.room) blank (rw replicate-append at v);
        },
        same,
      )
