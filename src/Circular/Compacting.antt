-- ===== src/Circular/Compacting.antt =====
-- The rounds of DeleteFunc: an element is removed, or kept, in place or behind a gap.
use mathlib.Core.List.{append_assoc}
use native.Mathlib.Nat.{add-zero, add-suc, suc-add}
use clickhouse_go.Common.{
  ℕ, zero, suc, ◌+◌, ◌<◌, Bool, true, false, List, [], ◌∷◌, ◌++◌, some, ◌≡◌, refl, sym, ◌∙◌, arith,
  ◌==◌, length, get_elem?, length-append, replicate, length-replicate, replicate-middle,
}
use clickhouse_go.Circular.{Yield, Deleting, store, next, offer, keep_element, remove_element}
use clickhouse_go.Circular.Represents.{
  index_at, next-index_at, View, get-View, index_at-ne, store-View,
}

-- In the middle of the loop the ring holds `kept`, `gap` blanks, the elements `rest` not yet
-- seen, and `room` blanks.
pub record Compacting {ℓ κ} {A : Type ℓ} {S : Type κ} (blank : A) (h : ℕ) (kept : List A) (gap : ℕ)
    (rest : List A) (room : ℕ) (d : Deleting A S) : Type ℓ where
  pub new_len_is : d.new_len ≡ length kept
  pub new_tail_is : d.new_tail ≡ index_at (length d.slots) h (length kept)
  pub current_is : d.current ≡ index_at (length d.slots) h (length kept + gap)
  pub view : View h d.slots (kept ++ (replicate gap blank ++ (rest ++ replicate room blank)))

module _ {ℓ κ} {A : Type ℓ} {S : Type κ} (blank : A) (should_remove : A → Bool)
    (yield : Yield A S) where
  before :
      (kept : List A) (gap : ℕ) (r : List A)
      → kept ++ (replicate gap blank ++ r) ≡ (kept ++ replicate gap blank) ++ r
  before kept gap r = sym (append_assoc kept (replicate gap blank) r)

  length-before :
      (kept : List A) (gap : ℕ) → length (kept ++ replicate gap blank) ≡ length kept + gap
  length-before kept gap =
      omega (arith, length-append kept (replicate gap blank), length-replicate gap blank)

  -- The element that the loop looks at.
  pub get-Compacting :
      {h : ℕ} {kept : List A} {gap : ℕ} {rest : List A} {room : ℕ} {d : Deleting A S} {x : A}
      → Compacting blank h kept gap (x ∷ rest) room d
      → get_elem? d.slots d.current ≡ some x
  get-Compacting {h} {kept} {gap} {rest} {room} {d} {x} g =
      let found =
        get-View (kept ++ replicate gap blank) x (rest ++ replicate room blank)
          (rw (before kept gap (x ∷ (rest ++ replicate room blank))) at g.view) in
      rw g.current_is (rw (length-before kept gap) at found)

  -- One element is removed: its slot becomes part of the gap.
  pub remove-Compacting :
      {h : ℕ} {kept : List A} {gap : ℕ} {rest : List A} {room : ℕ} {d : Deleting A S} {x : A}
      → Compacting blank h kept gap (x ∷ rest) room d
      → (d' : Deleting A S) × (remove_element blank should_remove yield d x ≡ some d')
        × Compacting blank h kept (suc gap) rest room d'
        × (length d'.slots ≡ length d.slots)
        × (d'.consumer ≡ (offer yield d.stop_yielding d.consumer x).0)
        × (d'.stop_yielding ≡ (offer yield d.stop_yielding d.consumer x).1)
  unfolding remove_element
  remove-Compacting {h} {kept} {gap} {rest} {room} {d} {x} g =
      let tail = rest ++ replicate room blank in
      let (slots, stored, v, same) =
        store-View (kept ++ replicate gap blank) x blank tail
          (rw (before kept gap (x ∷ tail)) at g.view) in
      let written : store d.slots d.current blank ≡ some slots =
        rw (g.current_is, ← length-before kept gap) stored in
      let c = length d.slots in
      let inside : length kept + gap < c = omega (
        arith,
        g.view.same_length,
        length-append kept (replicate gap blank ++ (x ∷ tail)),
        length-append (replicate gap blank) (x ∷ tail),
        length-replicate gap blank,
      ) in
      (
        record d {
          slots = slots;
          current = next c d.current;
          stop_yielding = (offer yield d.stop_yielding d.consumer x).1;
          consumer = (offer yield d.stop_yielding d.consumer x).0;
        },
        rw written,
        record {
          new_len_is = g.new_len_is;
          new_tail_is = rw same g.new_tail_is;
          current_is =
              rw (same, g.current_is, add-suc (length kept) gap)
                (next-index_at c h (length kept + gap) g.view.in_range inside);
          view = rw (← replicate-middle gap blank tail, before kept gap (blank ∷ tail)) v;
        },
        same,
        refl,
        refl,
      )

  -- One element is kept, with no gap before it: nothing moves.
  keep_still :
      {h : ℕ} {kept : List A} {rest : List A} {room : ℕ} {d : Deleting A S} {x : A}
      → Compacting blank h kept 0 (x ∷ rest) room d
      → (d' : Deleting A S) × (keep_element blank should_remove yield d x ≡ some d')
        × Compacting blank h (kept ++ x ∷ []) 0 rest room d'
        × (length d'.slots ≡ length d.slots)
        × (d'.consumer ≡ d.consumer)
        × (d'.stop_yielding ≡ d.stop_yielding)
  unfolding keep_element
  keep_still {h} {kept} {rest} {room} {d} {x} g =
      let c = length d.slots in
      let tail = rest ++ replicate room blank in
      let inside : length kept < c =
        omega (arith, g.view.same_length, length-append kept (x ∷ tail)) in
      let longer : length (kept ++ x ∷ []) ≡ suc (length kept) =
        omega (arith, length-append kept (x ∷ [])) in
      let e : index_at c h (length kept + 0) ≡ index_at c h (length kept) = rw add-zero in
      let together : (d.current == d.new_tail) ≡ true =
        ground (arith, e, g.current_is, g.new_tail_is) in
      let on = next-index_at c h (length kept) g.view.in_range inside in
      (
        record d {
          new_tail = next c d.new_tail;
          current = next c d.current;
          new_len = d.new_len + 1;
        },
        rw together,
        record {
          new_len_is = omega (arith, g.new_len_is, longer);
          new_tail_is = rw (longer, g.new_tail_is) on;
          current_is = rw (longer, g.current_is, e, add-zero) on;
          view = rw append_assoc g.view;
        },
        refl,
        refl,
        refl,
      )

  -- The two writes that move an element into the gap's first slot and blank its own.
  move_writes :
      {h : ℕ} {kept : List A} {gap : ℕ} {rest : List A} {room : ℕ} {d : Deleting A S} {x : A}
      → Compacting blank h kept (suc gap) (x ∷ rest) room d
      → let tail = rest ++ replicate room blank in
        (slots1 slots2 : List A) × (store d.slots d.new_tail x ≡ some slots1)
        × (store slots1 d.current blank ≡ some slots2)
        × View h slots2 ((kept ++ x ∷ replicate gap blank) ++ blank ∷ tail)
        × (length slots2 ≡ length d.slots)
  move_writes {h} {kept} {gap} {rest} {room} {d} {x} g =
      let tail = rest ++ replicate room blank in
      let gaps = replicate gap blank in
      let (slots1, stored1, v1, same1) = store-View kept blank x (gaps ++ (x ∷ tail)) g.view in
      let written1 : store d.slots d.new_tail x ≡ some slots1 = rw g.new_tail_is stored1 in
      let (slots2, stored2, v2, same2) =
        store-View (kept ++ x ∷ gaps) x blank tail
          (rw (← append_assoc kept (x ∷ gaps) (x ∷ tail)) at v1) in
      let places : length (kept ++ x ∷ gaps) ≡ length kept + suc gap =
        omega (arith, length-append kept (x ∷ gaps), length-replicate gap blank) in
      let written2 : store slots1 d.current blank ≡ some slots2 =
        rw (g.current_is, ← same1, ← places) stored2 in
      (slots1, slots2, written1, written2, v2, same2 ∙ same1)

  -- One element is kept behind a gap: it moves to the gap's first slot, and its own slot is blanked.
  keep_moved :
      {h : ℕ} {kept : List A} {gap : ℕ} {rest : List A} {room : ℕ} {d : Deleting A S} {x : A}
      → Compacting blank h kept (suc gap) (x ∷ rest) room d
      → (d' : Deleting A S) × (keep_element blank should_remove yield d x ≡ some d')
        × Compacting blank h (kept ++ x ∷ []) (suc gap) rest room d'
        × (length d'.slots ≡ length d.slots)
        × (d'.consumer ≡ d.consumer)
        × (d'.stop_yielding ≡ d.stop_yielding)
  unfolding keep_element
  keep_moved {h} {kept} {gap} {rest} {room} {d} {x} g =
      let c = length d.slots in
      let tail = rest ++ replicate room blank in
      let gaps = replicate gap blank in
      let (slots1, slots2, written1, written2, v2, same) = move_writes g in
      let longer : length (kept ++ x ∷ []) ≡ suc (length kept) =
        omega (arith, length-append kept (x ∷ [])) in
      let inside : length kept + suc gap < c = omega (
        arith,
        g.view.same_length,
        length-append kept (blank ∷ (gaps ++ (x ∷ tail))),
        length-append gaps (x ∷ tail),
        length-replicate gap blank,
      ) in
      let differ =
        index_at-ne c h (length kept + suc gap) (length kept) g.view.in_range inside
          (omega (arith, inside)) (omega arith) in
      let apart : (d.current == d.new_tail) ≡ false =
        ground (arith, differ, g.current_is, g.new_tail_is) in
      (
        record d {
          slots = slots2;
          new_tail = next c d.new_tail;
          current = next c d.current;
          new_len = d.new_len + 1;
        },
        rw (apart, written1, written2),
        record {
          new_len_is = omega (arith, g.new_len_is, longer);
          new_tail_is =
              rw (same, longer, g.new_tail_is)
                (next-index_at c h (length kept) g.view.in_range (omega (arith, inside)));
          current_is =
              rw (same, longer, g.current_is, suc-add (length kept) (suc gap))
                (next-index_at c h (length kept + suc gap) g.view.in_range inside);
          view =
              rw (append_assoc kept (x ∷ []), ← replicate-middle gap blank tail)
                (rw (append_assoc kept (x ∷ gaps) (blank ∷ tail)) at v2);
        },
        same,
        refl,
        refl,
      )

  pub keep-Compacting :
      {h : ℕ} {kept : List A} (gap : ℕ) {rest : List A} {room : ℕ} {d : Deleting A S} {x : A}
      → Compacting blank h kept gap (x ∷ rest) room d
      → (d' : Deleting A S) × (keep_element blank should_remove yield d x ≡ some d')
        × Compacting blank h (kept ++ x ∷ []) gap rest room d'
        × (length d'.slots ≡ length d.slots)
        × (d'.consumer ≡ d.consumer)
        × (d'.stop_yielding ≡ d.stop_yielding)
  keep-Compacting zero g = keep_still g
  keep-Compacting (suc gap) g = keep_moved g
