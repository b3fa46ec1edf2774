-- ===== src/Block/Tests/Sorting.antt =====
-- SortColumns of lib/proto/block.go with insertion as the sort.
use mathlib.Core.List.{Perm, Pairwise, Nodup, mem-cons, not-mem-nil}
use mathlib.Core.List.Perm
use mathlib.Core.Logic.Or
use mathlib.Core.HLevel.{¬_prop}
use native.Mathlib.Bridge.{le_prop}
use clickhouse_go.Common.{
  ℕ, ◌≤◌, List, [], ◌∷◌, none, some, leb, if◌then◌else◌, if-both, ◌≡◌, refl, arith,
}
use clickhouse_go.Block.{Bytes, Block, sort_columns, difference, lookup_from, order_missing}
use clickhouse_go.Block.Sort.{SortLaws, Ordered, sort_columns-order}
use clickhouse_go.Block.Tests.{Numbers, numbers, ids, tags, two_columns}

module _ {A : Type 0} (rank : A → ℕ) where
  insert : A → List A → List A
  insert x [] = x ∷ []
  insert x (y ∷ ys) = if leb (rank x) (rank y) then x ∷ y ∷ ys else y ∷ insert x ys

  insertion : List A → List A
  unfolding insert
  insertion [] = []
  insertion (x ∷ xs) = insert x (insertion xs)

  insert-perm : (x : A) (ys : List A) → Perm (insert x ys) (x ∷ ys)
  unfolding insert
  insert-perm x [] = Perm.rfl
  insert-perm x (y ∷ ys) =
      if-both (λ l. Perm l (x ∷ y ∷ ys)) (leb (rank x) (rank y)) _ _ (λ h. Perm.rfl)
        λ h. Perm.trans (Perm.cons y (insert-perm x ys)) (Perm.swap x y ys)

  insertion-perm : (xs : List A) → Perm (insertion xs) xs
  unfolding insertion
  insertion-perm [] = Perm.rfl
  insertion-perm (x ∷ xs) =
      Perm.trans (insert-perm x (insertion xs)) (Perm.cons x (insertion-perm xs))

  abbrev Ascending : List A → Type 0
  Ascending = Pairwise (λ a b. rank a ≤ rank b)

  insert-Ascending : (x : A) {ys : List A} → Ascending ys → Ascending (insert x ys)
  unfolding insert
  insert-Ascending x Pairwise.nil = Pairwise.cons (λ a m. absurd (not-mem-nil m)) Pairwise.nil
  insert-Ascending x (Pairwise.cons {a = y} {l = ys} below s) =
      if-both Ascending (leb (rank x) (rank y)) _ _
        (λ h.
          Pairwise.cons
            (λ a m.
              Or.elim le_prop (mem-cons.0 m) (λ e. ground (arith, e, h))
                (λ later. ground (arith, below a later, h)))
            (Pairwise.cons below s))
        λ h.
          Pairwise.cons
            (λ a m.
              Or.elim le_prop (mem-cons.0 ((Perm.mem_iff (insert-perm x ys)).0 m))
                (λ e. ground (arith, e, h)) (below a))
            (insert-Ascending x s)

  insertion-Ascending : (xs : List A) → Ascending (insertion xs)
  unfolding insertion
  insertion-Ascending [] = Pairwise.nil
  insertion-Ascending (x ∷ xs) = insert-Ascending x (insertion-Ascending xs)

sort : (A : Type 0) → (A → ℕ) → List A → List A
sort A rank xs = insertion rank xs

sort_laws : SortLaws sort
unfolding sort
sort_laws = record {
  perm_lem = λ A rank xs. insertion-perm rank xs;
  sorted_lem = λ A rank xs. insertion-Ascending rank xs;
}

abbrev tags_first : List Bytes
tags_first = (116 ∷ []) ∷ (105 ∷ []) ∷ []

distinct_names : Nodup two_columns.names
distinct_names =
    Pairwise.cons
      (λ a m.
        Or.elim ¬_prop (mem-cons.0 m) (λ e h. ground (arith, e, h))
          (λ later. absurd (not-mem-nil later)))
      (Pairwise.cons (λ a m. absurd (not-mem-nil m)) Pairwise.nil)

sort_columns_example :
    Ordered numbers sort two_columns tags_first (sort_columns numbers sort two_columns tags_first)
sort_columns_example =
    sort_columns-order numbers sort sort_laws two_columns tags_first refl distinct_names

sorted_columns : (sort_columns numbers sort two_columns tags_first).0.columns ≡ tags ∷ ids ∷ []
unfolding sort_columns difference lookup_from sort insertion insert
sorted_columns = refl

-- A name twice in the block: both columns count as requested, and the order that comes out is not
-- the one that was asked for.
abbrev doubled : Block Numbers
doubled = record { names = (105 ∷ []) ∷ (105 ∷ []) ∷ []; columns = ids ∷ ids ∷ [] }

doubled_passes : (sort_columns numbers sort doubled tags_first).1 ≡ none
unfolding sort_columns difference lookup_from sort insertion insert
doubled_passes = refl

missing_name :
    (sort_columns numbers sort two_columns ((105 ∷ []) ∷ (105 ∷ []) ∷ [])).1
    ≡ some (order_missing ((116 ∷ []) ∷ []))
unfolding sort_columns difference lookup_from sort insertion insert
missing_name = refl
