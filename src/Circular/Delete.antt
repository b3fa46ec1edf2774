-- ===== src/Circular/Delete.antt =====
-- DeleteFunc against lists: the loop compacts what stays towards the head, in order, and blanks the
-- rest.
use mathlib.Core.List.{append-nil, append_assoc}
use clickhouse_go.Common.{
  ℕ, suc, ◌+◌, Bool, false, not, List, [], ◌∷◌, ◌++◌, Option, some, ◌≡◌, refl, sym, ap, ◌∙◌, ◌>>=◌,
  inl, inr, arith, ◌==◌, Bool-cases, length, keep_if, replicate-append,
}
use clickhouse_go.Circular.{Queue, Yield, Deleting, delete_loop, delete_func}
use clickhouse_go.Circular.Represents.{index_at-zero, Represents}
use clickhouse_go.Circular.Laws.{feed, feed_unless, feed_unless-offer, feed_unless-nil}
use clickhouse_go.Circular.Compacting.{
  Compacting, get-Compacting, remove-Compacting, keep-Compacting,
}

module _ {ℓ κ} {A : Type ℓ} {S : Type κ} (blank : A) (should_remove : A → Bool)
    (yield : Yield A S) where
  -- What the loop leaves behind, from the elements that it goes through.
  record Compacted (h : ℕ) (kept rest : List A) (room : ℕ) (d d' : Deleting A S)
      : Type (ℓ ⊔ κ) where
    gap : ℕ
    compacting :
        Compacting blank h (kept ++ keep_if (λ x. not (should_remove x)) rest) gap [] room d'
    same_length : length d'.slots ≡ length d.slots
    consumer_is :
        d'.consumer
        ≡ feed_unless blank yield d.stop_yielding d.consumer (keep_if should_remove rest)

  delete_loop-Compacted :
      (h : ℕ) (kept : List A) (gap : ℕ) (rest : List A) (room : ℕ) (d : Deleting A S)
      → Compacting blank h kept gap rest room d
      → (d' : Deleting A S) × (delete_loop blank should_remove yield (length rest) d ≡ some d')
        × Compacted h kept rest room d d'
  unfolding delete_loop
  delete_loop-Compacted h kept gap [] room d g = (
    d,
    refl,
    record {
      gap = gap;
      compacting = rw append-nil g;
      same_length = refl;
      consumer_is = sym (feed_unless-nil blank yield d.stop_yielding d.consumer);
    },
  )
  delete_loop-Compacted h kept gap (x ∷ rest) room d g = elim (Bool-cases (should_remove x)) [
    | inl out ↦
        let (d1, removed, g1, same1, consumer1, stop1) =
          remove-Compacting blank should_remove yield g in
        let (d2, done, k) = delete_loop-Compacted h kept (suc gap) rest room d1 g1 in
        (
          d2,
          rw (get-Compacting blank should_remove yield g, out, removed) done,
          record {
            gap = k.gap;
            compacting = rw out k.compacting;
            same_length = k.same_length ∙ same1;
            consumer_is = rw out (
                k.consumer_is
                ∙ rw (consumer1, stop1)
                    (feed_unless-offer blank yield d.stop_yielding d.consumer x
                      (keep_if should_remove rest)));
          },
        )
    | inr stays ↦
        let (d1, kept1, g1, same1, consumer1, stop1) =
          keep-Compacting blank should_remove yield gap g in
        let (d2, done, k) = delete_loop-Compacted h (kept ++ x ∷ []) gap rest room d1 g1 in
        (
          d2,
          rw (get-Compacting blank should_remove yield g, stays, kept1) done,
          record {
            gap = k.gap;
            compacting = rw (stays, ← append_assoc kept (x ∷ [])) k.compacting;
            same_length = k.same_length ∙ same1;
            consumer_is = rw stays (k.consumer_is ∙ rw (consumer1, stop1));
          },
        )
  ]

  -- DeleteFunc leaves the elements that stay, in order, and the consumer gets the others, in order,
  -- until it stops: that changes nothing of the queue.
  pub delete_func-Represents :
      (q : Queue A) (items : List A) (s : S)
      → Represents blank q items
      → (q' : Queue A) × (delete_func blank should_remove yield q s
          ≡ some (q', feed yield s (keep_if should_remove items)))
        × Represents blank q' (keep_if (λ x. not (should_remove x)) items)
        × (length q'.slots ≡ length q.slots)
  unfolding delete_func
  delete_func-Represents q [] s r = (q, ground (arith, r.len_is), r, refl)
  delete_func-Represents q (x ∷ items) s r =
      let nonempty : (q.len == 0) ≡ false = ground (arith, r.len_is) in
      let start = index_at-zero (length q.slots) q.head r.view.in_range in
      let d : Deleting A S = record {
        slots = q.slots;
        new_tail = q.head;
        current = q.head;
        stop_yielding = false;
        new_len = 0;
        consumer = s;
      } in
      let g : Compacting blank q.head [] 0 (x ∷ items) r.room d = record {
        new_len_is = refl;
        new_tail_is = sym start;
        current_is = sym start;
        view = r.view;
      } in
      let (d', done, k) = delete_loop-Compacted q.head [] 0 (x ∷ items) r.room d g in
      let stays = keep_if (λ y. not (should_remove y)) (x ∷ items) in
      (
        record q { slots = d'.slots; tail = d'.new_tail; len = d'.new_len },
        rw (nonempty, r.len_is)
            (ap
                (λ (m : Option (Deleting A S)). m >>= λ t.
                  some
                    (record q { slots = t.slots; tail = t.new_tail; len = t.new_len }, t.consumer))
                done
              ∙ ap
                  (λ t.
                    some (record q { slots = d'.slots; tail = d'.new_tail; len = d'.new_len }, t))
                  k.consumer_is),
        record {
          len_is = k.compacting.new_len_is;
          tail_is = k.compacting.new_tail_is;
          room = k.gap + r.room;
          view = rw (← replicate-append k.gap r.room blank) k.compacting.view;
        },
        k.same_length,
      )
