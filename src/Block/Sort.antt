-- ===== src/Block/Sort.antt =====
-- Block.SortColumns of lib/proto/block.go: with distinct names, the order it gives is the one that
-- was asked for.
mod Ranked
use mathlib.Core.Path.{subst}
use mathlib.Core.List
use mathlib.Core.List.{map, Mem, Perm, Pairwise, Nodup}
use mathlib.Core.List.Perm
use mathlib.Core.List.Pairwise
use mathlib.Core.List.Nodup
use mathlib.Core.List.Subperm
use mathlib.Core.List.{
  mem-cons, not-mem-nil, Mem-prop, Pairwise-map, mem-cons_self, mem-cons_of_mem,
}
use mathlib.Core.Logic.Or
use mathlib.Core.Nat
use native.Mathlib.Bridge.{le_prop}
use mathlib.Core.Nat.{◌≤◌ as ◌≤ᴸ◌}
use clickhouse_go.Block.Sort.Ranked.{
  sorted_unique, has_name-Mem, Mem-has_name, lookup_from-Pairwise,
}
use clickhouse_go.Common.{
  if-both, ℕ, zero, suc, ◌+◌, ◌<◌, ◌≤◌, Bool, true, false, not, List, [], ◌∷◌, ◌++◌, Option, none,
  some, length, ◌≡◌, ◌≢◌, ◌↔◌, ◌⊎◌, inl, inr, refl, sym, ap, ◌∙◌, arith, ltb, ◌==◌, ==_iff,
  if◌then◌else◌, Bool-cases, keep_if,
}
use clickhouse_go.Block.{
  Bytes, ColumnOps, Block, BlockError, has_name, same_bytes, difference, lookup, lookup_from,
  sort_columns, order_length, order_missing,
}

-- What the documentation of sort.Slice promises: a rearrangement in ascending order.
pub record SortLaws (sort_slice : (A : Type 0) → (A → ℕ) → List A → List A) : Type 1 where
  pub perm_lem : (A : Type 0) (rank : A → ℕ) (xs : List A) → Perm (sort_slice A rank xs) xs
  pub sorted_lem :
      (A : Type 0) (rank : A → ℕ) (xs : List A)
      → Pairwise (λ a b. rank a ≤ rank b) (sort_slice A rank xs)

difference-subset :
    (a b : List Bytes) → ltb 0 (length (difference a b)) ≡ false → (x : Bytes) → Mem x a → Mem x b
unfolding difference
difference-subset [] b h x m = absurd (not-mem-nil m)
difference-subset (y ∷ a) b h x m = elim (Bool-cases (has_name y b)) [
  | inl found ↦
      Or.elim Mem-prop (mem-cons.0 m) (λ e. has_name-Mem x b (ap (λ z. has_name z b) e ∙ found))
        (λ later. difference-subset a b (rw found at h) x later)
  | inr absent ↦ absurd (ground (arith, (rw absent at h)))
]

lib_length : (xs ys : List Bytes) → length xs ≡ length ys → List.length xs ≡ List.length ys
lib_length [] [] h = refl
lib_length [] (y ∷ ys) h = absurd (omega (arith, h))
lib_length (x ∷ xs) [] h = absurd (omega (arith, h))
lib_length (x ∷ xs) (y ∷ ys) h = ap Nat.suc (lib_length xs ys (omega (arith, h)))

-- Distinct names that all are among as many requested ones are those in another order.
requested-perm :
    (names requested : List Bytes)
    → Nodup names
    → length requested ≡ length names
    → ((x : Bytes) → Mem x names → Mem x requested)
    → Perm names requested
requested-perm names requested nd l sub =
    Subperm.perm_of_length_le (Nodup.subperm nd sub)
      (subst (λ n. n ≤ᴸ List.length names) (sym (lib_length requested names l)) (Nat.le_refl _))

subset-difference :
    (a b : List Bytes) → ((x : Bytes) → Mem x a → Mem x b) → ltb 0 (length (difference a b)) ≡ false
unfolding difference
subset-difference [] b h = refl
subset-difference (y ∷ a) b h =
    rw (Mem-has_name y b (h y mem-cons_self))
      (subset-difference a b (λ x m. h x (mem-cons_of_mem y m)))

native_length : (xs ys : List Bytes) → List.length xs ≡ List.length ys → length xs ≡ length ys
native_length [] [] h = refl
native_length [] (y ∷ ys) h = cc
native_length (x ∷ xs) [] h = cc
native_length (x ∷ xs) (y ∷ ys) h = ap suc (native_length xs ys (Nat.suc_inj h))

length-map_names : {Col : Type 0} (f : Col → Bytes) (cs : List Col) → length (map f cs) ≡ length cs
length-map_names f [] = refl
length-map_names f (c ∷ cs) = ap suc (length-map_names f cs)

length-zero : (xs : List Bytes) → length xs ≡ 0 → xs ≡ []
length-zero [] h = refl
length-zero (x ∷ xs) h = absurd (omega (arith, h))

perm-length : {xs ys : List Bytes} → Perm xs ys → length xs ≡ length ys
perm-length {xs} {ys} p = native_length xs ys (Perm.length-eq p)

some≢none : {A : Type 0} {a : A} → some a ≢ none
some≢none h = cc

module _ {Col V E : Type 0} (ops : ColumnOps Col V E)
    (sort_slice : (A : Type 0) → (A → ℕ) → List A → List A) where
  abbrev sorted : List Bytes → Block Col → Block Col
  sorted requested b = record {
    names = sort_slice Bytes (lookup requested) b.names;
    columns = sort_slice Col (λ c. lookup requested (ops.name_of c)) b.columns;
  }

  module _ (laws : SortLaws sort_slice) (b : Block Col) (requested : List Bytes)
      (named : b.names ≡ map ops.name_of b.columns) (distinct : Nodup b.names)
      (perm : Perm b.names requested) where
    sorted-names : (sorted requested b).names ≡ requested
    sorted-names =
        sorted_unique (lookup requested) (laws.sorted_lem Bytes (lookup requested) b.names)
          (lookup_from-Pairwise 0 0 requested (Perm.nodup perm distinct))
          (Perm.trans (laws.perm_lem Bytes (lookup requested) b.names) perm)

    columns-perm : Perm (sorted requested b).columns b.columns
    columns-perm = laws.perm_lem Col (λ c. lookup requested (ops.name_of c)) b.columns

    sorted-columns : map ops.name_of (sorted requested b).columns ≡ requested
    sorted-columns =
        sorted_unique (lookup requested)
          ((Pairwise-map (λ a b. le_prop) ops.name_of).1
            (laws.sorted_lem Col (λ c. lookup requested (ops.name_of c)) b.columns))
          (lookup_from-Pairwise 0 0 requested (Perm.nodup perm distinct))
          (Perm.trans (Perm.map ops.name_of columns-perm)
            (subst (λ ns. Perm ns requested) named perm))

  -- What SortColumns may make of a block and a requested order.
  abbrev pub Ordered : Block Col → List Bytes → Block Col × Option (BlockError E) → Type 0
  Ordered b requested r =
      ((requested ≡ []) × (r ≡ (b, none)))
      ⊎ (((¬ Perm b.names requested) × (r.0 ≡ b) × (r.1 ≢ none))
          ⊎ ((r.1 ≡ none)
              × (r.0.names ≡ requested)
              × (map ops.name_of r.0.columns ≡ requested)
              × Perm r.0.columns b.columns))

  -- SortColumns of a block that keeps its columns' names, all distinct, on every branch: with no
  -- order requested nothing changes; an order that is no rearrangement of the names is refused and
  -- changes nothing; any other is the order in which the names and the columns then stand, the
  -- columns the same as before.
  pub sort_columns-order :
      SortLaws sort_slice
      → (b : Block Col) (requested : List Bytes) → b.names ≡ map ops.name_of b.columns
      → Nodup b.names
      → Ordered b requested (sort_columns ops sort_slice b requested)
  unfolding sort_columns
  sort_columns-order laws b requested named distinct =
      let counts : length b.names ≡ length b.columns =
        ap length named ∙ length-map_names ops.name_of b.columns in
      if-both (Ordered b requested) (length requested == 0) _ _
        (λ h. inl (length-zero requested ((==_iff _ 0).0 h), refl))
        λ given.
          if-both (Ordered b requested) (not (length requested == length b.columns)) _ _
            (λ other.
              inr
                (inl (λ p. (ground (arith, other, counts, perm-length p)), refl, λ h. some≢none h)))
            λ even.
              if-both (Ordered b requested) (ltb 0 (length (difference b.names requested))) _ _
                (λ missing. inr (
                  inl (
                    λ p. ground (
                      arith,
                      missing,
                      subset-difference b.names requested (λ x. (Perm.mem_iff p).0),
                    ),
                    refl,
                    λ h. some≢none h,
                  )))
                λ complete.
                  let perm : Perm b.names requested =
                    requested-perm b.names requested distinct (ground (arith, even, counts))
                      (difference-subset b.names requested complete) in
                  inr (
                    inr (
                      refl,
                      sorted-names laws b requested named distinct perm,
                      sorted-columns laws b requested named distinct perm,
                      columns-perm laws b requested named distinct perm,
                    ))
