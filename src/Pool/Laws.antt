-- ===== src/Pool/Laws.antt =====
-- Lists of connections: the idle ones of a pool, those that a test picks, those that are closed.
use mathlib.Core.List.{append_assoc, append-nil, Perm, perm_middle}
use mathlib.Core.List.Perm
use clickhouse_go.Common.{
  Bool, true, not, List, [], ◌∷◌, ◌++◌, ◌≡◌, sym, ◌∙◌, keep_if, Bool-cases, inl, inr,
}
use clickhouse_go.Circular.Represents.{Represents}
use clickhouse_go.Circular.Laws.{feed}
use clickhouse_go.Pool.{ConnPool, closing}

-- The predicate holds of each item.
abbrev pub AllTrue {ℓ} : {A : Type ℓ} → (A → Bool) → List A → Type 0
AllTrue p [] = Unit {0}
AllTrue p (x ∷ xs) = (p x ≡ true) × AllTrue p xs

pub keep_if-perm {ℓ} :
    {A : Type ℓ} (p : A → Bool) (xs : List A)
    → Perm xs (keep_if p xs ++ keep_if (λ x. not (p x)) xs)
keep_if-perm p [] = Perm.nil
keep_if-perm p (x ∷ xs) = elim (Bool-cases (p x)) [
  | inl e ↦ rw e (Perm.cons x (keep_if-perm p xs))
  | inr e ↦ rw e (
      Perm.trans (Perm.cons x (keep_if-perm p xs))
        (Perm.symm (perm_middle (keep_if p xs) (keep_if (λ x. not (p x)) xs))))
]

-- Closing what a loop is given adds it to the closed connections.
pub feed-closing {ℓ} :
    {Conn : Type ℓ} (done conns : List Conn) → feed closing done conns ≡ done ++ conns
feed-closing done [] = sym (append-nil done)
feed-closing done (c ∷ conns) =
    feed-closing (done ++ c ∷ []) conns ∙ append_assoc done (c ∷ []) conns

-- What a pool holds: the idle connections, oldest first.
abbrev pub Idle {ℓ} : {Conn : Type ℓ} → Conn → ConnPool Conn → List Conn → Type ℓ
Idle nil p items = Represents nil p.conns items
