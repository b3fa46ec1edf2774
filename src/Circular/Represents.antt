-- ===== src/Circular/Represents.antt =====
-- The circular array read from its head: the list of all its slots in that order, and what a read,
-- a write and a step of an index are on that list.
use clickhouse_go.Common.{
  ℕ, suc, ◌≤◌, ◌+◌, ◌-◌, ◌<◌, List, [], ◌∷◌, ◌++◌, some, ◌≡◌, ◌≢◌, sym, ap, ◌∙◌, ◌⊎◌, arith, ltb,
  leb, refl, inl, length-replicate, get_elem?-replicate, if◌then◌else◌, length, get_elem?, set,
  length-set, length-append, get_elem?-set_self, get_elem?-set_ne, get_elem?-append_left,
  get_elem?-append_middle, set-append_middle, replicate,
}
use native.Mathlib.Decide.{ℕ_discrete}
use clickhouse_go.Circular.{Queue, store, next}

-- The index that stands `k` steps after `head`, for k up to the capacity.
unfoldable pub index_at : ℕ → ℕ → ℕ → ℕ
index_at capacity head k = if ltb (head + k) capacity then head + k else head + k - capacity

abbrev pub InRange : ℕ → ℕ → Type 0
InRange capacity head = (head ≡ 0) ⊎ (head < capacity)

pub index_at-lt : (c h k : ℕ) → InRange c h → k < c → index_at c h k < c
unfolding index_at
index_at-lt c h k r lt = ground arith

pub index_at-zero : (c h : ℕ) → InRange c h → index_at c h 0 ≡ h
unfolding index_at
index_at-zero c h r = ground arith

pub index_at-ne :
    (c h j k : ℕ) → InRange c h → j < c → k < c → j ≢ k → index_at c h j ≢ index_at c h k
unfolding index_at
index_at-ne c h j k r lj lk ne = ground arith

pub next-index_at :
    (c h k : ℕ) → InRange c h → k < c → next c (index_at c h k) ≡ index_at c h (suc k)
unfolding index_at next
next-index_at c h k r lt = ground arith

pub next-InRange : (c h : ℕ) → InRange c h → InRange c (next c h)
unfolding next
next-InRange c h r = ground arith

pub index_at-next : (c h k : ℕ) → h < c → k + 1 ≤ c → index_at c (next c h) k ≡ index_at c h (suc k)
unfolding index_at next
index_at-next c h k r lt = ground arith

index_at-next_last : (c h k : ℕ) → h < c → k + 1 ≡ c → index_at c (next c h) k ≡ h
unfolding index_at next
index_at-next_last c h k r lt = ground arith

pub index_at-origin : (c k : ℕ) → k < c → index_at c 0 k ≡ k
unfolding index_at
index_at-origin c k h = ground arith

index_at-back : (c h k : ℕ) → InRange c h → k < c → (j : ℕ) × (j < c) × (index_at c h j ≡ k)
unfolding index_at
index_at-back c h k r lt = (if leb h k then k - h else k + c - h, ground arith, ground arith)

-- `cells` is the whole array, read once round from `head`.
pub record View {ℓ} {A : Type ℓ} (head : ℕ) (slots cells : List A) : Type ℓ where
  pub in_range : InRange (length slots) head
  pub same_length : length cells ≡ length slots
  pub cell :
      (k : ℕ)
      → k < length slots
      → get_elem? slots (index_at (length slots) head k) ≡ get_elem? cells k

module _ {ℓ} {A : Type ℓ} where
  pub get-View :
      {h : ℕ} {slots : List A} (xs : List A) (y : A) (ys : List A)
      → View h slots (xs ++ y ∷ ys)
      → get_elem? slots (index_at (length slots) h (length xs)) ≡ some y
  get-View xs y ys v =
      v.cell (length xs) (omega (arith, v.same_length, length-append xs (y ∷ ys)))
      ∙ get_elem?-append_middle xs y ys

  set-cell :
      (h : ℕ) (slots cells : List A) (j : ℕ) (x : A)
      → View h slots cells
      → j < length slots
      → (k : ℕ) → k < length slots
      → get_elem? (set slots (index_at (length slots) h j) x) (index_at (length slots) h k)
        ≡ get_elem? (set cells j x) k
  set-cell h slots cells j x v lj k lk = elim (ℕ_discrete j k) [
    | yes same ↦
        let hit =
          get_elem?-set_self slots (index_at (length slots) h j) x
            (index_at-lt (length slots) h j v.in_range lj) in
        rw (← same) (hit ∙ sym (get_elem?-set_self cells j x (omega (arith, v.same_length))))
    | no other ↦
        get_elem?-set_ne slots _ _ x (index_at-ne (length slots) h j k v.in_range lj lk other)
        ∙ v.cell k lk
        ∙ sym (get_elem?-set_ne cells j k x other)
  ]

  set-View :
      {h : ℕ} {slots : List A} (xs : List A) (y x : A) (ys : List A)
      → View h slots (xs ++ y ∷ ys)
      → View h (set slots (index_at (length slots) h (length xs)) x) (xs ++ x ∷ ys)
  set-View {h} {slots} xs y x ys v =
      let same = length-set slots (index_at (length slots) h (length xs)) x in
      let inside : length xs < length slots =
        omega (arith, v.same_length, length-append xs (y ∷ ys)) in
      record {
        in_range = rw same v.in_range;
        same_length =
            omega
              (arith, same, v.same_length, length-append xs (y ∷ ys), length-append xs (x ∷ ys));
        cell = λ k lk. rw same (
            set-cell h slots (xs ++ y ∷ ys) (length xs) x v inside k (omega (arith, same))
            ∙ ap (λ cells. get_elem? cells k) (set-append_middle xs y x ys));
      }

  -- A write at the place of `y` replaces `y`, and is in bounds.
  pub store-View :
      {h : ℕ} {slots : List A} (xs : List A) (y x : A) (ys : List A)
      → View h slots (xs ++ y ∷ ys)
      → (slots' : List A) × (store slots (index_at (length slots) h (length xs)) x ≡ some slots')
        × View h slots' (xs ++ x ∷ ys)
        × (length slots' ≡ length slots)
  unfolding store
  store-View {h} {slots} xs y x ys v =
      let inside : index_at (length slots) h (length xs) < length slots =
        index_at-lt (length slots) h (length xs) v.in_range
          (omega (arith, v.same_length, length-append xs (y ∷ ys))) in
      (
        set slots (index_at (length slots) h (length xs)) x,
        ground arith,
        set-View xs y x ys v,
        length-set slots _ x,
      )

  rotate-cell :
      (h : ℕ) (slots : List A) (x : A) (r : List A)
      → View h slots (x ∷ r)
      → (k : ℕ) → k < length slots
      → get_elem? slots (index_at (length slots) (next (length slots) h) k)
        ≡ get_elem? (r ++ x ∷ []) k
  rotate-cell h slots x r v k lk =
      let inside : h < length slots = omega (arith, v.in_range) in
      elim (ℕ_discrete (k + 1) (length slots)) [
        | yes last ↦
            let e : k ≡ length r = omega (arith, v.same_length) in
            let first = v.cell 0 (omega (arith, inside)) in
            rw (index_at-next_last (length slots) h k inside last, e)
              (rw (index_at-zero (length slots) h v.in_range) at first
                ∙ sym (get_elem?-append_middle r x []))
        | no more ↦ rw (index_at-next (length slots) h k inside (omega (arith, lk))) (
            v.cell (suc k) (omega (arith, lk))
            ∙ (sym (get_elem?-append_left r (x ∷ []) k (omega (arith, v.same_length)))))
      ]

  -- A step of the head takes the first cell to the end.
  pub next-View :
      {h : ℕ} {slots : List A} (x : A) (r : List A)
      → View h slots (x ∷ r)
      → View (next (length slots) h) slots (r ++ x ∷ [])
  next-View {h} {slots} x r v = record {
    in_range = next-InRange (length slots) h v.in_range;
    same_length = omega (arith, v.same_length, length-append r (x ∷ []));
    cell = rotate-cell h slots x r v;
  }

  -- A ring of blanks is one from the index 0 too.
  pub turn-blank :
      {h : ℕ} {slots : List A} (n : ℕ) (blank : A)
      → View h slots (replicate n blank)
      → View 0 slots (replicate n blank)
  turn-blank {h} {slots} n blank v = record {
    in_range = inl refl;
    same_length = v.same_length;
    cell = λ k lt.
        let (j, jlt, back) = index_at-back (length slots) h k v.in_range lt in
        let n' = length-replicate n blank in
        let e : index_at (length slots) 0 k ≡ index_at (length slots) h j =
          sym (back ∙ sym (index_at-origin (length slots) k lt)) in
        rw e (
          v.cell j jlt
          ∙ get_elem?-replicate n blank j (omega (arith, n', v.same_length))
          ∙ sym (get_elem?-replicate n blank k (omega (arith, n', v.same_length))));
  }

-- A queue of the items `items`: from the head stand the items, then blanks all the way round, and
-- the counters are what the items say.
pub record Represents {ℓ} {A : Type ℓ} (blank : A) (q : Queue A) (items : List A) : Type ℓ where
  pub len_is : q.len ≡ length items
  pub tail_is : q.tail ≡ index_at (length q.slots) q.head (length items)
  pub room : ℕ
  pub view : View q.head q.slots (items ++ replicate room blank)
