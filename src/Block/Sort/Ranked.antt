-- ===== src/Block/Sort/Ranked.antt =====
-- Lists sorted by their ranks, and the ranks of names in a list without repetition.
use mathlib.Core.Path.{ap₂}
use mathlib.Core.Logic.Or
use mathlib.Core.List.{
  Mem, Perm, Pairwise, Nodup, mem-cons, mem-cons_self, mem-cons_of_mem, not-mem-nil,
}
use mathlib.Core.List.Perm
use mathlib.Core.List.Pairwise
use mathlib.Core.Bool.{Bool-set}
use native.Mathlib.Decide.{ℕ_discrete}
use native.Mathlib.Bridge.{le_prop}
use clickhouse_go.Common.{
  ℕ, suc, ◌<◌, ◌≤◌, true, List, [], ◌∷◌, ◌≡◌, ◌≢◌, inl, inr, refl, sym, arith, Bool-cases,
}
use clickhouse_go.Common.Bytes.{same_bytes_iff}
use clickhouse_go.Block.{Bytes, same_bytes, has_name, lookup_from}

pub Bytes-set : IsSet Bytes
Bytes-set = hlevel ℕ_discrete

-- A list without repetition is the only one sorted by ranks that its members do not share.
pub sorted_unique :
    (rank : Bytes → ℕ) {l m : List Bytes}
    → Pairwise (λ a b. rank a ≤ rank b) l
    → Pairwise (λ a b. rank a < rank b) m
    → Perm l m
    → l ≡ m
sorted_unique rank {l = []} sl sm p = Perm.nil-eq p
sorted_unique rank {l = a ∷ l} {m = []} sl sm p = Perm.eq-nil p
sorted_unique rank {l = a ∷ l} {m = b ∷ m} (Pairwise.cons ha sl) (Pairwise.cons hb sm) p =
    let heads : a ≡ b =
      Or.elim (Bytes-set a b) (mem-cons.0 ((Perm.mem_iff p).0 mem-cons_self)) (λ e. e)
        λ am.
          Or.elim (Bytes-set a b) (mem-cons.0 ((Perm.mem_iff (Perm.symm p)).0 mem-cons_self)) sym
            λ bl. absurd (omega (arith, ha b bl, hb a am)) in
    let tails = Perm.cons_inv (Perm.trans p (Perm.symm (Perm.cons' heads Perm.rfl))) in
    ap₂ ◌∷◌ heads (sorted_unique rank sl sm tails)

pub has_name-Mem : (x : Bytes) (ys : List Bytes) → has_name x ys ≡ true → Mem x ys
has_name-Mem x [] h = absurd (ground (arith, h))
has_name-Mem x (y ∷ ys) h = elim (Bool-cases (same_bytes x y)) [
  | inl same ↦ mem-cons.1 (Or.inl ((same_bytes_iff x y).0 same))
  | inr other ↦ mem-cons_of_mem y (has_name-Mem x ys (rw other at h))
]

pub Mem-has_name : (x : Bytes) (ys : List Bytes) → Mem x ys → has_name x ys ≡ true
Mem-has_name x [] m = absurd (not-mem-nil m)
Mem-has_name x (y ∷ ys) m = elim (Bool-cases (same_bytes x y)) [
  | inl same ↦ rw same refl
  | inr other ↦ rw other (
      Or.elim (Bool-set _ _) (mem-cons.0 m)
        (λ e. absurd (ground (arith, other, (same_bytes_iff x y).1 e))) (Mem-has_name x ys))
]

lookup_from-not_mem :
    (found i : ℕ) (ys : List Bytes) (x : Bytes) → ¬ Mem x ys → lookup_from found i ys x ≡ found
unfolding lookup_from
lookup_from-not_mem found i [] x h = refl
lookup_from-not_mem found i (y ∷ ys) x h = elim (Bool-cases (same_bytes x y)) [
  | inl same ↦ absurd (h (mem-cons.1 (Or.inl ((same_bytes_iff x y).0 same))))
  | inr other ↦ rw other (lookup_from-not_mem found (suc i) ys x (λ m. h (mem-cons_of_mem y m)))
]

lookup_from-lower :
    (lo found i : ℕ) (ys : List Bytes) (x : Bytes)
    → lo ≤ found
    → lo ≤ i
    → lo ≤ lookup_from found i ys x
unfolding lookup_from
lookup_from-lower lo found i [] x h k = h
lookup_from-lower lo found i (y ∷ ys) x h k = elim (Bool-cases (same_bytes x y)) [
  | inl same ↦ rw same (lookup_from-lower lo i (suc i) ys x k (omega arith))
  | inr other ↦ rw other (lookup_from-lower lo found (suc i) ys x h (omega arith))
]

lookup_from-ne :
    (found i : ℕ) (y : Bytes) (ys : List Bytes) (x : Bytes)
    → y ≢ x
    → lookup_from found i (y ∷ ys) x ≡ lookup_from found (suc i) ys x
unfolding lookup_from
lookup_from-ne found i y ys x h = elim (Bool-cases (same_bytes x y)) [
  | inl same ↦ absurd (h (sym ((same_bytes_iff x y).0 same)))
  | inr other ↦ rw other refl
]

lookup_from-mem :
    (found i : ℕ) (ys : List Bytes) (x : Bytes) → Mem x ys → i ≤ lookup_from found i ys x
unfolding lookup_from
lookup_from-mem found i [] x m = absurd (not-mem-nil m)
lookup_from-mem found i (y ∷ ys) x m = elim (Bool-cases (same_bytes x y)) [
  | inl same ↦ rw same (lookup_from-lower i i (suc i) ys x (omega arith) (omega arith))
  | inr other ↦ rw other (
      Or.elim le_prop (mem-cons.0 m) (λ e. absurd (ground (arith, other, (same_bytes_iff x y).1 e)))
        λ later. omega (arith, lookup_from-mem found (suc i) ys x later))
]

lookup_from_self :
    (found i : ℕ) (y : Bytes) (ys : List Bytes) → ¬ Mem y ys → lookup_from found i (y ∷ ys) y ≡ i
unfolding lookup_from
lookup_from_self found i y ys h =
    rw ((same_bytes_iff y y).1 refl) (lookup_from-not_mem i (suc i) ys y h)

pub lookup_from-Pairwise :
    (found i : ℕ) (ys : List Bytes)
    → Nodup ys
    → Pairwise (λ a b. lookup_from found i ys a < lookup_from found i ys b) ys
lookup_from-Pairwise found i [] h = Pairwise.nil
lookup_from-Pairwise found i (y ∷ ys) (Pairwise.cons new h) =
    let absent : ¬ Mem y ys = λ m. new y m refl in
    Pairwise.cons
      (λ b m. omega (
        arith,
        lookup_from_self found i y ys absent,
        lookup_from-ne found i y ys b (new b m),
        lookup_from-mem found (suc i) ys b m,
      ))
      (Pairwise.imp_of_mem
        (λ a b ma mb lt. omega (
          arith,
          lookup_from-ne found i y ys a (new a ma),
          lookup_from-ne found i y ys b (new b mb),
          lt,
        ))
        (lookup_from-Pairwise found (suc i) ys h))
